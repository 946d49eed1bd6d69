-- ===== src/Prelude/Sorts.antt =====
-- sort.SliceStable of Go.
use phcremote_control.Prelude.{Bool, List, [], ◌∷◌, if◌then◌else◌}
use phcremote_control.Text.{text_key}

-- sort.SliceStable
abbrev pub insert_by {ℓ} : {A : Type ℓ} → (A → A → Bool) → A → List A → List A
insert_by less x [] = x ∷ []
insert_by less x (y ∷ ys) = if less y x then y ∷ insert_by less x ys else x ∷ (y ∷ ys)

abbrev pub sort_stable {ℓ} : {A : Type ℓ} → (A → A → Bool) → List A → List A
sort_stable less [] = []
sort_stable less (x ∷ xs) = insert_by less x (sort_stable less xs)
