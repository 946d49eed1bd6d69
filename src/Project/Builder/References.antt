-- ===== src/Project/Builder/References.antt =====
-- buildProject of bridge/internal/project/parser.go: identities and references of the devices.
use mathlib.Core.List.{Permᴰ}
use phcremote_control.Prelude.{
  ◌≡◌, sym, ap, subst, Bool, false, List, [], ◌∷◌, ◌++◌, arith, All, All-append, Bool-cases, inl,
  inr,
}
use phcremote_control.Prelude.Int.{ℤ, pos, ltb_ℤ}
use phcremote_control.Prelude.Dict.{Dict, lookup, insert}
use phcremote_control.Text.{Text, text_key, ◌==ₜ◌, Unicode}
use phcremote_control.Domain.{stable_device_id, Device, Floor, Project}
use phcremote_control.Project.Errors.{ok, >>=-eq-ok, ok-same}
use phcremote_control.Project.Labels.{ChannelParts}
use phcremote_control.Project.Builder.{
  FloorBuilder, ProjectBuilder, with_id, floor_or_new, place, add, device_less, floor_less,
  finish_floors, add_all, build_project,
}
use phcremote_control.Project.Channels.{RawChannel, ToolAction}
use phcremote_control.Project.Motors.{MotorKey, MotorChannel}
use phcremote_control.Prelude.Sorts.{insert_by, sort_stable}
use phcremote_control.Project.Builder.Loops.{keeps-add_all}

-- The identity is that of the reference, and the reference has no negative address.
pub record IsIdentified (d : Device) : Type 0 where
  pub id : d.id ≡ stable_device_id d.ref
  pub dip : ltb_ℤ d.ref.dip (pos 0) ≡ false
  pub channel : ltb_ℤ d.ref.channel (pos 0) ≡ false

abbrev AreIdentified : List Device → Type 0
AreIdentified ds = All IsIdentified ds

abbrev BuiltIdentified : Dict Text FloorBuilder → Type 0
BuiltIdentified = All (λ f. AreIdentified f.1.devices)

-- The floors with a device more.
abbrev grown : Text → ℤ → Device → Dict Text FloorBuilder → Dict Text FloorBuilder
grown name index d fs =
    insert name
      (record { sort_index = index; devices = (floor_or_new (lookup name fs)).devices ++ d ∷ [] })
      fs

grown-there :
    (name key : Text) (index : ℤ) (d : Device) (f : FloorBuilder) (fs : Dict Text FloorBuilder)
    → (key ==ₜ name) ≡ false
    → grown name index d ((key, f) ∷ fs) ≡ (key, f) ∷ grown name index d fs
unfolding insert lookup
grown-there name key index d f fs there = ground (arith, there)

grown-BuiltIdentified :
    (name : Text) (index : ℤ) (d : Device) (fs : Dict Text FloorBuilder)
    → IsIdentified d
    → BuiltIdentified fs
    → BuiltIdentified (grown name index d fs)
unfolding insert lookup
grown-BuiltIdentified name index d [] h k = ((h, tt), tt)
grown-BuiltIdentified name index d ((key, f) ∷ fs) h k = elim (Bool-cases (key ==ₜ name)) [
  | inl here ↦ rw here (All-append IsIdentified f.devices (d ∷ []) k.0 (h, tt), k.1)
  | inr there ↦
      subst BuiltIdentified (sym (grown-there name key index d f fs there))
        (k.0, grown-BuiltIdentified name index d fs h k.1)
]

abbrev BuilderIdentified : ProjectBuilder → Type 0
BuilderIdentified b = BuiltIdentified b.floors

add-BuilderIdentified :
    (parts : ChannelParts) (d : Device) (b b' : ProjectBuilder)
    → d.id ≡ []
    → add parts d b ≡ ok b'
    → BuilderIdentified b
    → BuilderIdentified b'
unfolding add place
add-BuilderIdentified parts d b b' blank e k =
    let same : place parts (with_id d) b ≡ b' = ok-same (ground (arith, e)) in
    let own : IsIdentified (with_id d) = record {
      id = ground (arith, blank);
      dip = ground (arith, e);
      channel = ground (arith, e);
    } in
    subst BuilderIdentified same
      (grown-BuiltIdentified parts.floor parts.sort_index (with_id d) b.floors own k)

insert_by-All {ℓ κ} :
    {A : Type ℓ} (P : A → Type κ) (less : A → A → Bool) (x : A) (xs : List A)
    → P x
    → All P xs
    → All P (insert_by less x xs)
insert_by-All P less x [] h k = (h, tt)
insert_by-All P less x (y ∷ ys) h k = elim (Bool-cases (less y x)) [
  | inl before ↦ rw before (k.0, insert_by-All P less x ys h k.1)
  | inr after ↦ rw after (h, k)
]

pub sort_stable-All {ℓ κ} :
    {A : Type ℓ} (P : A → Type κ) (less : A → A → Bool) (xs : List A)
    → All P xs
    → All P (sort_stable less xs)
sort_stable-All P less [] k = tt
sort_stable-All P less (x ∷ xs) k =
    insert_by-All P less x (sort_stable less xs) k.0 (sort_stable-All P less xs k.1)

abbrev pub FloorsIdentified : List Floor → Type 0
FloorsIdentified = All (λ f. All IsIdentified f.devices)

finish_floors-FloorsIdentified :
    ⦃u : Unicode⦄ (fs : Dict Text FloorBuilder)
    → BuiltIdentified fs
    → FloorsIdentified (finish_floors fs)
unfolding finish_floors
finish_floors-FloorsIdentified [] k = tt
finish_floors-FloorsIdentified ((name, f) ∷ fs) k =
    (sort_stable-All IsIdentified device_less f.devices k.0, finish_floors-FloorsIdentified fs k.1)

perm-All {ℓ κ} : {A : Type ℓ} (P : A → Type κ) {xs ys : List A} → Permᴰ ys xs → All P xs → All P ys
perm-All P Permᴰ.nil h = tt
perm-All P (Permᴰ.cons e p) h = (subst P (sym e) h.0, perm-All P p h.1)
perm-All P (Permᴰ.swap e k) h = (subst P (sym e) h.1.0, (subst P (sym k) h.0, h.1.1))
perm-All P (Permᴰ.trans p q) h = perm-All P p (perm-All P q h)

-- If ranging over the map of floors goes through each entry once, each device of a project that was
-- built has the identity of its reference, and a reference without a negative address.
pub build_project-FloorsIdentified :
    ⦃u : Unicode⦄ (range_motors : Dict MotorKey MotorChannel → List (MotorKey × MotorChannel))
    (range_floors : Dict Text FloorBuilder → List (Text × FloorBuilder))
    → ((m : Dict Text FloorBuilder) → Permᴰ (range_floors m) m)
    → (name : Text) (channels : List RawChannel) (actions : List ToolAction) (p : Project)
    → build_project range_motors range_floors name channels actions ≡ ok p
    → FloorsIdentified p.floors
unfolding build_project
build_project-FloorsIdentified range_motors range_floors perm name channels actions p e =
    let (built, all, last) = >>=-eq-ok (add_all range_motors channels actions) _ e in
    let k =
      keeps-add_all BuilderIdentified add-BuilderIdentified range_motors channels actions built all
        tt in
    let ranged = range_floors built.builder.floors in
    let same : sort_stable floor_less (finish_floors ranged) ≡ p.floors =
      ap (λ (q : Project). q.floors) (ok-same last) in
    subst FloorsIdentified same (
      sort_stable-All _ floor_less (finish_floors ranged)
        (finish_floors-FloorsIdentified ranged (perm-All _ (perm built.builder.floors) k)))
