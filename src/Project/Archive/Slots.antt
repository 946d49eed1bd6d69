-- ===== src/Project/Archive/Slots.antt =====
-- Extract of bridge/internal/project/download.go as the entries go to their slots.
use phcremote_control.Prelude.{
  ℕ, ◌≡◌, refl, sym, ap, ◌∙◌, Bool, true, false, Option, none, some, List, [], ◌∷◌, if◌then◌else◌,
  arith,
}
use phcremote_control.Project.Errors.{ok}
use phcremote_control.Project.Archive.{
  Entry, Files, read_entry, Slot, to_ppfx, to_tpfx, slot_of, is_slot, is_seen, put,
}

-- The entries that go to a slot.
unfoldable pub entries_of : Slot → List Entry → List Entry
entries_of s [] = []
entries_of s (e ∷ es) =
    let rest = entries_of s es in
    elim (slot_of e.name) [ none ↦ rest | some t ↦ if is_slot s t then e ∷ rest else rest ]

-- Exactly one entry goes to the slot and its data can be read; or no entry does.
abbrev pub IsFile : Slot → List Entry → Option (List ℕ) → Type 0
IsFile s es none = entries_of s es ≡ []
IsFile s es (some bytes) = (e : Entry) × (entries_of s es ≡ e ∷ []) × (read_entry e ≡ ok bytes)

abbrev pub file_at : Slot → Files → Option (List ℕ)
file_at to_ppfx f = f.ppfx
file_at to_tpfx f = f.tpfx

-- How entries change what a slot holds.
abbrev pub Adds : Slot → List Entry → Option (List ℕ) → Option (List ℕ) → Type 0
Adds s es none new = IsFile s es new
Adds s es (some bytes) new = (entries_of s es ≡ []) × (new ≡ some bytes)

abbrev pub is_some {ℓ} : {A : Type ℓ} → Option A → Bool
is_some none = false
is_some (some a) = true

abbrev pub Tracks : List Slot → Files → Type 0
Tracks seen f = (s : Slot) → is_seen s seen ≡ is_some (file_at s f)

pub stays : (s : Slot) (old new : Option (List ℕ)) → old ≡ new → Adds s [] old new
unfolding entries_of
stays s none none e = refl
stays s none (some n) e = absurd cc
stays s (some m) new e = (refl, sym e)

pub entries-skipped :
    (s : Slot) (e : Entry) (es : List Entry)
    → slot_of e.name ≡ none
    → entries_of s (e ∷ es) ≡ entries_of s es
unfolding entries_of
entries-skipped s e es o = ground (arith, o)

pub entries-own :
    (s : Slot) (e : Entry) (es : List Entry)
    → slot_of e.name ≡ some s
    → entries_of s (e ∷ es) ≡ e ∷ entries_of s es
unfolding entries_of
entries-own to_ppfx e es o = ground (arith, o)
entries-own to_tpfx e es o = ground (arith, o)

pub entries-other :
    (s u : Slot) (e : Entry) (es : List Entry)
    → slot_of e.name ≡ some u
    → is_slot s u ≡ false
    → entries_of s (e ∷ es) ≡ entries_of s es
unfolding entries_of
entries-other s u e es o d = ground (arith, o, d)

-- What is added depends on the entries of the slot alone.
pub same_entries :
    (s : Slot) (ds es : List Entry) (old new : Option (List ℕ))
    → entries_of s ds ≡ entries_of s es
    → Adds s es old new
    → Adds s ds old new
same_entries s ds es none none o a = o ∙ a
same_entries s ds es none (some n) o a = let (e, one, got) = a in (e, o ∙ one, got)
same_entries s ds es (some m) new o a = (o ∙ a.0, a.1)

pub first_entry :
    (s : Slot) (e : Entry) (es : List Entry) (bytes : List ℕ) (old new : Option (List ℕ))
    → slot_of e.name ≡ some s
    → read_entry e ≡ ok bytes
    → is_some old ≡ false
    → Adds s es (some bytes) new
    → Adds s (e ∷ es) old new
first_entry s e es bytes none none o r n a = absurd cc
first_entry s e es bytes none (some new) o r n a =
    (e, entries-own s e es o ∙ ap (◌∷◌ e) a.0, ground (arith, r, a.1))
first_entry s e es bytes (some m) new o r n a = absurd cc

pub put-Tracks :
    (seen : List Slot) (f : Files) (u : Slot) (bytes : List ℕ)
    → Tracks seen f
    → Tracks (u ∷ seen) (put u bytes f)
put-Tracks seen f to_ppfx bytes t to_ppfx = refl
put-Tracks seen f to_ppfx bytes t to_tpfx = t to_tpfx
put-Tracks seen f to_tpfx bytes t to_ppfx = t to_ppfx
put-Tracks seen f to_tpfx bytes t to_tpfx = refl

-- The step of the loop for an entry that goes to slot `u`.
pub step-Adds :
    (s u : Slot) (e : Entry) (es : List Entry) (bytes : List ℕ) (f g : Files)
    → slot_of e.name ≡ some u
    → read_entry e ≡ ok bytes
    → is_some (file_at u f) ≡ false
    → Adds s es (file_at s (put u bytes f)) (file_at s g)
    → Adds s (e ∷ es) (file_at s f) (file_at s g)
step-Adds to_ppfx to_ppfx e es bytes f g o r n a =
    first_entry to_ppfx e es bytes f.ppfx g.ppfx o r n a
step-Adds to_ppfx to_tpfx e es bytes f g o r n a =
    same_entries to_ppfx (e ∷ es) es f.ppfx g.ppfx (entries-other to_ppfx to_tpfx e es o refl) a
step-Adds to_tpfx to_ppfx e es bytes f g o r n a =
    same_entries to_tpfx (e ∷ es) es f.tpfx g.tpfx (entries-other to_tpfx to_ppfx e es o refl) a
step-Adds to_tpfx to_tpfx e es bytes f g o r n a =
    first_entry to_tpfx e es bytes f.tpfx g.tpfx o r n a
