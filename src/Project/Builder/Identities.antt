-- ===== src/Project/Builder/Identities.antt =====
-- buildProject of bridge/internal/project/parser.go: the identities of the devices.
use mathlib.Core.List.{Permᴰ}
use phcremote_control.Prelude.{
  ℕ, ◌+◌, ◌≤◌, ◌≡◌, refl, ap, subst, ◌∙◌, Bool, false, inl, inr, List, [], ◌∷◌, ◌++◌, any, arith,
  if◌then◌else◌, Bool-cases,
}
use phcremote_control.Prelude.Int.{ℤ}
use phcremote_control.Prelude.Dict.{Dict, lookup, insert}
use phcremote_control.Text.{Text, text_key, ◌==ₜ◌, ==ₜ_sound, ==ₜ_iff, Unicode}
use phcremote_control.Domain.{Device, Floor, Project}
use phcremote_control.Domain.Counts.{is_id, count_ids, count_floors}
use phcremote_control.Project.Errors.{ok, >>=-eq-ok, ok-same}
use phcremote_control.Project.Labels.{ChannelParts}
use phcremote_control.Project.Builder.{
  FloorBuilder, ProjectBuilder, with_id, floor_or_new, place, add, device_less, floor_less,
  finish_floors, add_all, build_project,
}
use phcremote_control.Project.Channels.{RawChannel, ToolAction}
use phcremote_control.Project.Motors.{MotorKey, MotorChannel}
use phcremote_control.Prelude.Sorts.{insert_by, sort_stable}
use phcremote_control.Project.Builder.Loops.{keeps-add_all}

abbrev count_built : Text → Dict Text FloorBuilder → ℕ
count_built i [] = 0
count_built i ((name, f) ∷ fs) = count_ids i f.devices + count_built i fs

abbrev count_seen : Text → List Text → ℕ
count_seen i [] = 0
count_seen i (s ∷ ss) = (if s ==ₜ i then 1 else 0) + count_seen i ss

count_ids-append :
    (i : Text) (xs ys : List Device) → count_ids i (xs ++ ys) ≡ count_ids i xs + count_ids i ys
count_ids-append i [] ys = omega arith
count_ids-append i (x ∷ xs) ys = omega (arith, count_ids-append i xs ys)

-- A device that is placed on a floor is counted once.
count_built-insert :
    (i name : Text) (index : ℤ) (d : Device) (fs : Dict Text FloorBuilder)
    → count_built i (
        insert name
          (record {
            sort_index = index;
            devices = (floor_or_new (lookup name fs)).devices ++ d ∷ [];
          })
          fs)
      ≡ is_id i d + count_built i fs
unfolding insert lookup
count_built-insert i name index d [] = omega arith
count_built-insert i name index d ((key, f) ∷ fs) = elim (Bool-cases (key ==ₜ name)) [
  | inl here ↦ ground (arith, here, count_ids-append i f.devices (d ∷ []))
  | inr there ↦ ground (arith, there, count_built-insert i name index d fs)
]

-- Each identity of the builder is that of one device, and has been seen.
pub record IsDistinct (b : ProjectBuilder) : Type 0 where
  counted : (i : Text) → count_built i b.floors ≡ count_seen i b.seen_ids
  once : (i : Text) → count_seen i b.seen_ids ≤ 1

unseen : (i : Text) (seen : List Text) → any (◌==ₜ◌ i) seen ≡ false → count_seen i seen ≡ 0
unseen i [] h = refl
unseen i (s ∷ ss) h = ground (arith, ==ₜ_iff i s, ==ₜ_iff s i, unseen i ss)

seen-once :
    (i j : Text) (seen : List Text)
    → any (◌==ₜ◌ i) seen ≡ false
    → count_seen j seen ≤ 1
    → count_seen j (i ∷ seen) ≤ 1
seen-once i j seen h k = ground (arith, ==ₜ_sound i j, unseen i seen)

add-place :
    (parts : ChannelParts) (d : Device) (b b' : ProjectBuilder)
    → add parts d b ≡ ok b'
    → (any (◌==ₜ◌ (with_id d).id) b.seen_ids ≡ false) × (place parts (with_id d) b ≡ b')
unfolding add
add-place parts d b b' e = ground (arith, e)

place-IsDistinct :
    (parts : ChannelParts) (d : Device) (b : ProjectBuilder)
    → any (◌==ₜ◌ d.id) b.seen_ids ≡ false
    → IsDistinct b
    → IsDistinct (place parts d b)
unfolding place
place-IsDistinct parts d b fresh k = record {
  counted =
      λ i. omega (arith, count_built-insert i parts.floor parts.sort_index d b.floors, k.counted i);
  once = λ i. seen-once d.id i b.seen_ids fresh (k.once i);
}

add-IsDistinct :
    (parts : ChannelParts) (d : Device) (b b' : ProjectBuilder)
    → add parts d b ≡ ok b'
    → IsDistinct b
    → IsDistinct b'
add-IsDistinct parts d b b' e k =
    let (fresh, same) = add-place parts d b b' e in
    subst IsDistinct same (place-IsDistinct parts (with_id d) b fresh k)

-- Sorting changes no count.
insert_by-count_ids :
    (i : Text) (less : Device → Device → Bool) (d : Device) (ds : List Device)
    → count_ids i (insert_by less d ds) ≡ is_id i d + count_ids i ds
insert_by-count_ids i less d [] = refl
insert_by-count_ids i less d (x ∷ ds) = ground (arith, insert_by-count_ids i less d ds)

sort_stable-count_ids :
    (i : Text) (less : Device → Device → Bool) (ds : List Device)
    → count_ids i (sort_stable less ds) ≡ count_ids i ds
sort_stable-count_ids i less [] = refl
sort_stable-count_ids i less (d ∷ ds) =
    omega
      (arith, insert_by-count_ids i less d (sort_stable less ds), sort_stable-count_ids i less ds)

insert_by-count_floors :
    (i : Text) (less : Floor → Floor → Bool) (f : Floor) (fs : List Floor)
    → count_floors i (insert_by less f fs) ≡ count_ids i f.devices + count_floors i fs
insert_by-count_floors i less f [] = refl
insert_by-count_floors i less f (x ∷ fs) = ground (arith, insert_by-count_floors i less f fs)

sort_stable-count_floors :
    (i : Text) (less : Floor → Floor → Bool) (fs : List Floor)
    → count_floors i (sort_stable less fs) ≡ count_floors i fs
sort_stable-count_floors i less [] = refl
sort_stable-count_floors i less (f ∷ fs) = omega (
  arith,
  insert_by-count_floors i less f (sort_stable less fs),
  sort_stable-count_floors i less fs,
)

finish_floors-count :
    ⦃u : Unicode⦄ (i : Text) (fs : Dict Text FloorBuilder)
    → count_floors i (finish_floors fs) ≡ count_built i fs
unfolding finish_floors
finish_floors-count i [] = refl
finish_floors-count i ((name, f) ∷ fs) =
    omega (arith, sort_stable-count_ids i device_less f.devices, finish_floors-count i fs)

perm-count_built :
    (i : Text) {fs gs : Dict Text FloorBuilder} → Permᴰ fs gs → count_built i fs ≡ count_built i gs
perm-count_built i Permᴰ.nil = refl
perm-count_built i (Permᴰ.cons e p) =
    omega (arith, ap (λ (x : Text × FloorBuilder). count_ids i x.1.devices) e, perm-count_built i p)
perm-count_built i (Permᴰ.swap e k) = omega (
  arith,
  ap (λ (x : Text × FloorBuilder). count_ids i x.1.devices) e,
  ap (λ (x : Text × FloorBuilder). count_ids i x.1.devices) k,
)
perm-count_built i (Permᴰ.trans p q) = perm-count_built i p ∙ perm-count_built i q

-- If ranging over the map of floors goes through each entry once, then whatever the orders of the two
-- ranges, no two devices of a project that was built have the same identity.
pub build_project-once :
    ⦃u : Unicode⦄ (range_motors : Dict MotorKey MotorChannel → List (MotorKey × MotorChannel))
    (range_floors : Dict Text FloorBuilder → List (Text × FloorBuilder))
    → ((m : Dict Text FloorBuilder) → Permᴰ (range_floors m) m)
    → (name : Text) (channels : List RawChannel) (actions : List ToolAction) (p : Project)
    → build_project range_motors range_floors name channels actions ≡ ok p
    → (i : Text) → count_floors i p.floors ≤ 1
unfolding build_project
build_project-once range_motors range_floors perm name channels actions p e i =
    let (built, all, last) = >>=-eq-ok (add_all range_motors channels actions) _ e in
    let k =
      keeps-add_all IsDistinct (λ parts d b b' blank. add-IsDistinct parts d b b') range_motors
        channels actions built all (record { counted = λ i. refl; once = λ i. omega arith }) in
    let floors = finish_floors (range_floors built.builder.floors) in
    let same : sort_stable floor_less floors ≡ p.floors =
      ap (λ (q : Project). q.floors) (ok-same last) in
    subst (λ fs. count_floors i fs ≤ 1) same
      (omega (
        arith,
        sort_stable-count_floors i floor_less floors,
        finish_floors-count i (range_floors built.builder.floors),
        perm-count_built i (perm built.builder.floors),
        k.counted i,
        k.once i,
      ))
