-- ===== src/Project/Archive/Entries.antt =====
-- Extract of bridge/internal/project/download.go on the entries of an archive.
use phcremote_control.Prelude.{
  ℕ, ◌≤◌, ◌≡◌, ◌≢◌, ◌↔◌, refl, sym, ap, ap₂, ◌∙◌, false, Option, none, some, List, [], ◌∷◌, length,
  arith, inl, inr, Bool-cases, Option-cases,
}
use phcremote_control.Project.Errors.{ok, ◌>>=◌, >>=-eq-ok}
use phcremote_control.Project.Archive.{
  Entry, Files, max_zip_entries, read_entry, Slot, to_ppfx, to_tpfx, slot_of, is_seen, put, collect,
  require_ppfx, extract,
}
use phcremote_control.Project.Archive.Slots.{
  entries_of, IsFile, file_at, Adds, is_some, Tracks, stays, entries-skipped, entries-own,
  entries-other, same_entries, put-Tracks, step-Adds,
}

collect_sound :
    (es : List Entry) (seen : List Slot) (f g : Files)
    → Tracks seen f
    → collect es seen f ≡ ok g
    → (s : Slot) → Adds s es (file_at s f) (file_at s g)
unfolding collect entries_of
collect_sound [] seen f g t h s =
    stays s (file_at s f) (file_at s g) (ap (file_at s) (ground arith))
collect_sound (e ∷ es) seen f g t h s = elim (Option-cases (slot_of e.name)) [
  | inl other ↦
      let rest = collect_sound es seen f g t (ground (arith, other)) s in
      same_entries s (e ∷ es) es (file_at s f) (file_at s g) (entries-skipped s e es other) rest
  | inr (u, here) ↦ elim (Bool-cases (is_seen u seen)) [
    | inl old ↦ absurd (ground (arith, here, old))
    | inr fresh ↦
        let (bytes, got, rest) =
          >>=-eq-ok (read_entry e) (λ bytes. collect es (u ∷ seen) (put u bytes f))
            (ground (arith, here, fresh)) in
        let later =
          collect_sound es (u ∷ seen) (put u bytes f) g (put-Tracks seen f u bytes t) rest s in
        step-Adds s u e es bytes f g here got (sym (t u) ∙ fresh) later
  ]
]

same_head {ℓ} : {A : Type ℓ} {a b : A} {xs bs : List A} → a ∷ xs ≡ b ∷ bs → a ≡ b
same_head e = ground (arith, e)

-- What an entry of slot `u` was read as, when the loop can go on to its end.
reads_entry :
    (u : Slot) (e : Entry) (es : List Entry) (old new : Option (List ℕ))
    → slot_of e.name ≡ some u
    → Adds u (e ∷ es) old new
    → (bytes : List ℕ) × (read_entry e ≡ ok bytes) × (old ≡ none) × Adds u es (some bytes) new
reads_entry u e es none none o a = absurd (ground (arith, entries-own u e es o, a))
reads_entry u e es none (some n) o a =
    let (d, one, got) = a in
    let both = sym (entries-own u e es o) ∙ one in
    (n, rw (same_head both) got, refl, (ground (arith, both), refl))
reads_entry u e es (some m) new o a = absurd (ground (arith, entries-own u e es o, a))

step_back :
    (s u : Slot) (e : Entry) (es : List Entry) (bytes : List ℕ) (f g : Files)
    → slot_of e.name ≡ some u
    → Adds u es (some bytes) (file_at u g)
    → Adds s (e ∷ es) (file_at s f) (file_at s g)
    → Adds s es (file_at s (put u bytes f)) (file_at s g)
step_back to_ppfx to_ppfx e es bytes f g o own a = own
step_back to_ppfx to_tpfx e es bytes f g o own a =
    same_entries to_ppfx es (e ∷ es) f.ppfx g.ppfx (sym (entries-other to_ppfx to_tpfx e es o refl))
      a
step_back to_tpfx to_ppfx e es bytes f g o own a =
    same_entries to_tpfx es (e ∷ es) f.tpfx g.tpfx (sym (entries-other to_tpfx to_ppfx e es o refl))
      a
step_back to_tpfx to_tpfx e es bytes f g o own a = own

nothing_added : (s : Slot) (old new : Option (List ℕ)) → Adds s [] old new → old ≡ new
unfolding entries_of
nothing_added s none none a = refl
nothing_added s none (some n) a = absurd (ground (arith, a))
nothing_added s (some m) new a = sym a.1

same_files : (f g : Files) → ((s : Slot) → file_at s f ≡ file_at s g) → f ≡ g
same_files f g h = ap₂ (λ p t. record { ppfx = p; tpfx = t }) (h to_ppfx) (h to_tpfx)

collect_complete :
    (es : List Entry) (seen : List Slot) (f g : Files)
    → Tracks seen f
    → ((s : Slot) → Adds s es (file_at s f) (file_at s g))
    → collect es seen f ≡ ok g
unfolding collect
collect_complete [] seen f g t h =
    ap ok (same_files f g (λ s. nothing_added s (file_at s f) (file_at s g) (h s)))
collect_complete (e ∷ es) seen f g t h = elim (Option-cases (slot_of e.name)) [
  | inl other ↦
      let rest = collect_complete es seen f g t (λ s.
        same_entries s es (e ∷ es) (file_at s f) (file_at s g) (sym (entries-skipped s e es other))
          (h s)) in
      ground (arith, other, rest)
  | inr (u, here) ↦
      let (bytes, got, fresh, own) = reads_entry u e es (file_at u f) (file_at u g) here (h u) in
      let rest =
        collect_complete es (u ∷ seen) (put u bytes f) g (put-Tracks seen f u bytes t)
          (λ s. step_back s u e es bytes f g here own (h s)) in
      let unseen : is_seen u seen ≡ false = t u ∙ ap is_some fresh in
      ground (arith, here, unseen, got, rest)
]

abbrev no_files : Files
no_files = record { ppfx = none; tpfx = none }

Tracks-none : Tracks [] no_files
Tracks-none to_ppfx = refl
Tracks-none to_tpfx = refl

with_ppfx : (g f : Files) → require_ppfx g ≡ ok f → (g ≡ f) × (f.ppfx ≢ none)
with_ppfx g f h = elim (Option-cases g.ppfx) [
  | inl missing ↦ absurd (ground (arith, h, missing))
  | inr (bytes, here) ↦
      let same : g ≡ f = ground (arith, h, here) in
      (same, ground (arith, here, ap (λ f'. f'.ppfx) same))
]

abbrev Extracted : List Entry → Files → Type 0
Extracted es f =
    (length es ≤ max_zip_entries)
    × (f.ppfx ≢ none)
    × IsFile to_ppfx es f.ppfx
    × IsFile to_tpfx es f.tpfx

small_archive :
    (es : List Entry) (f : Files) → extract (some es) ≡ ok f → length es ≤ max_zip_entries
unfolding extract
small_archive es f h = ground (arith, h)

extract_small :
    (es : List Entry)
    → length es ≤ max_zip_entries
    → extract (some es) ≡ (collect es [] no_files >>= require_ppfx)
unfolding extract
extract_small es p = ground arith

extract_sound : (es : List Entry) (f : Files) → extract (some es) ≡ ok f → Extracted es f
extract_sound es f h =
    let small = small_archive es f h in
    let (g, loop, found) =
      >>=-eq-ok (collect es [] no_files) require_ppfx (sym (extract_small es small) ∙ h) in
    let (same, there) = with_ppfx g f found in
    let sound = collect_sound es [] no_files f Tracks-none (loop ∙ ap ok same) in
    (small, there, sound to_ppfx, sound to_tpfx)

Adds-both :
    (es : List Entry) (f : Files)
    → Extracted es f
    → (s : Slot) → Adds s es (file_at s no_files) (file_at s f)
Adds-both es f x to_ppfx = x.2
Adds-both es f x to_tpfx = x.3

extract_complete : (es : List Entry) (f : Files) → Extracted es f → extract (some es) ≡ ok f
extract_complete es f x =
    let loop = collect_complete es [] no_files f Tracks-none (Adds-both es f x) in
    let whole = extract_small es x.0 in ground (arith, whole, loop, x.1)

-- Extract succeeds exactly if the archive has at most `max_zip_entries` entries, exactly one named
-- project.ppfx, whose data can be read, and at most one named project.tpfx, whose data can be read
-- if it is there; the files are then the data of these entries.
pub extract_iff :
    (es : List Entry) (f : Files)
    → (extract (some es) ≡ ok f) ↔ (
        (length es ≤ max_zip_entries)
        × (f.ppfx ≢ none)
        × IsFile to_ppfx es f.ppfx
        × IsFile to_tpfx es f.tpfx)
extract_iff es f = (extract_sound es f, extract_complete es f)
