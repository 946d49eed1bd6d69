-- ===== src/Web/Pages/Counts.antt =====
-- How often a test holds in a list, and a stable sort.
use phcremote_control.Prelude.{
  ℕ, ◌+◌, ◌≡◌, refl, Bool, true, false, List, [], ◌∷◌, ◌++◌, arith, if◌then◌else◌,
}
use phcremote_control.Prelude.Sorts.{insert_by, sort_stable}

module _ {ℓ} {A : Type ℓ} where
  abbrev pub count_where : (A → Bool) → List A → ℕ
  count_where p [] = 0
  count_where p (x ∷ xs) = (if p x then 1 else 0) + count_where p xs

  pub count_where-append :
      (p : A → Bool) (xs ys : List A)
      → count_where p (xs ++ ys) ≡ count_where p xs + count_where p ys
  count_where-append p [] ys = omega arith
  count_where-append p (x ∷ xs) ys = omega (arith, count_where-append p xs ys)

  count_where-insert_by :
      (p : A → Bool) (less : A → A → Bool) (x : A) (xs : List A)
      → count_where p (insert_by less x xs) ≡ (if p x then 1 else 0) + count_where p xs
  count_where-insert_by p less x [] = refl
  count_where-insert_by p less x (y ∷ ys) = ground (arith, count_where-insert_by p less x ys)

  pub count_where-sort_stable :
      (p : A → Bool) (less : A → A → Bool) (xs : List A)
      → count_where p (sort_stable less xs) ≡ count_where p xs
  count_where-sort_stable p less [] = refl
  count_where-sort_stable p less (x ∷ xs) = omega (
    arith,
    count_where-insert_by p less x (sort_stable less xs),
    count_where-sort_stable p less xs,
  )

  -- No element is less than the one before it.
  abbrev pub IsSorted : (A → A → Bool) → List A → Type 0
  IsSorted less [] = Unit
  IsSorted less (x ∷ []) = Unit
  IsSorted less (x ∷ (y ∷ ys)) = (less y x ≡ false) × IsSorted less (y ∷ ys)

  insert_by-IsSorted :
      (less : A → A → Bool)
      → ((a b : A) → less a b ≡ true → less b a ≡ false)
      → (x : A) (xs : List A) → IsSorted less xs
      → IsSorted less (insert_by less x xs)
  insert_by-IsSorted less asym x [] h = tt
  insert_by-IsSorted less asym x (y ∷ []) h = ground (arith, asym y x)
  insert_by-IsSorted less asym x (y ∷ (z ∷ zs)) h =
      ground (arith, h.0, h.1, asym y x, asym z x, insert_by-IsSorted less asym x (z ∷ zs) h.1)

  pub sort_stable-IsSorted :
      (less : A → A → Bool)
      → ((a b : A) → less a b ≡ true → less b a ≡ false)
      → (xs : List A) → IsSorted less (sort_stable less xs)
  sort_stable-IsSorted less asym [] = tt
  sort_stable-IsSorted less asym (x ∷ xs) =
      insert_by-IsSorted less asym x (sort_stable less xs) (sort_stable-IsSorted less asym xs)
