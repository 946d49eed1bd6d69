-- ===== src/Project/Order/Total.antt =====
-- naturalLess of bridge/internal/project/parser.go: which labels it does not tell apart.
use phcremote_control.Prelude.{
  ℕ, zero, suc, ◌+◌, ◌≤◌, ◌≡◌, ◌≢◌, refl, sym, ap, ap₂, ◌∙◌, Bool, true, false, not, ◌⊎◌, inl, inr,
  Bool-cases, [], ◌∷◌, ◌++◌, length, length-append, arith, ltb, ◌==◌, if◌then◌else◌,
}
use phcremote_control.Text.{Text, Unicode, to_lower, ==ₜ_iff}
use phcremote_control.Text.Decimal.{is_digit}
use phcremote_control.Project.Order.{
  span_digits, trim_zeros, or_zero, text_less, is_end, compare_digits, natural_round, natural_from,
  natural_less,
}
use phcremote_control.Project.Order.Laws.{natural_from-enough, span_digits-shrinks}

text_less-total : (s t : Text) → text_less s t ≡ false → text_less t s ≡ false → s ≡ t
text_less-total [] [] e f = refl
text_less-total [] (d ∷ t) e f = cc
text_less-total (c ∷ s) [] e f = cc
text_less-total (c ∷ s) (d ∷ t) e f = ground (arith, e, f, text_less-total s t)

span_digits-whole : (s : Text) → (span_digits s).0 ++ (span_digits s).1 ≡ s
span_digits-whole [] = refl
span_digits-whole (c ∷ s) = ground (arith, span_digits-whole s)

trim_zeros-length : (s : Text) → length (trim_zeros s) ≤ length s
trim_zeros-length [] = omega arith
trim_zeros-length (c ∷ s) = ground (arith, trim_zeros-length s)

trim_zeros-head : (s : Text) → trim_zeros s ≢ b'0' ∷ []
trim_zeros-head [] e = cc
trim_zeros-head (c ∷ s) e = ground (arith, e, trim_zeros-head s)

or_zero-injective : (s t : Text) → s ≢ b'0' ∷ [] → t ≢ b'0' ∷ [] → or_zero s ≡ or_zero t → s ≡ t
or_zero-injective [] [] p q e = refl
or_zero-injective [] (d ∷ t) p q e = absurd (q (sym e))
or_zero-injective (c ∷ s) [] p q e = absurd (p e)
or_zero-injective (c ∷ s) (d ∷ t) p q e = e

trim_zeros-injective : (m n : Text) → length m ≡ length n → trim_zeros m ≡ trim_zeros n → m ≡ n
trim_zeros-injective [] [] h e = refl
trim_zeros-injective [] (d ∷ n) h e = absurd (omega arith)
trim_zeros-injective (c ∷ m) [] h e = absurd (omega arith)
trim_zeros-injective (c ∷ m) (d ∷ n) h e =
    ground
      (arith, h, e, trim_zeros-injective m n, trim_zeros-length m, trim_zeros-length n, ap length e)

-- Runs of digits that are not ordered are the same.
digits-unordered :
    (m n : Text) (x y : Bool)
    → compare_digits m n x ≡ false
    → compare_digits n m y ≡ false
    → (or_zero (trim_zeros m) ≡ or_zero (trim_zeros n))
      × (length m ≡ length n)
      × (x ≡ false)
      × (y ≡ false)
unfolding compare_digits
digits-unordered m n x y e f =
    let a = or_zero (trim_zeros m) in
    let b = or_zero (trim_zeros n) in
    ground (arith, e, f, text_less-total a b, ==ₜ_iff a b, ==ₜ_iff b a)

compare_digits-total :
    (m n : Text) (x y : Bool)
    → compare_digits m n x ≡ false
    → compare_digits n m y ≡ false
    → (m ≡ n) × (x ≡ false) × (y ≡ false)
compare_digits-total m n x y e f =
    let (same, long, left, right) = digits-unordered m n x y e f in
    let trimmed =
      or_zero-injective (trim_zeros m) (trim_zeros n) (trim_zeros-head m) (trim_zeros-head n)
        same in
    (trim_zeros-injective m n long trimmed, left, right)

abbrev plain : ℕ → Text → ℕ → Text → Bool → Bool
plain c l d r after_one =
    if not (c == d)
    then ltb c d
    else if is_end l
    then not (is_end r)
    else if is_end r
    then false
    else after_one

plain_round :
    (c : ℕ) (l : Text) (d : ℕ) (r : Text) (y y' : Bool)
    → plain c l d r y ≡ false
    → plain d r c l y' ≡ false
    → ((c ≡ d) × (l ≡ []) × (r ≡ [])) ⊎ ((c ≡ d) × (y ≡ false) × (y' ≡ false))
plain_round c [] d [] y y' e f = inl (ground (arith, e, f), refl, refl)
plain_round c [] d (b ∷ r) y y' e f = absurd (ground (arith, e, f))
plain_round c (a ∷ l) d [] y y' e f = absurd (ground (arith, e, f))
plain_round c (a ∷ l) d (b ∷ r) y y' e f =
    inr (ground (arith, e, f), ground (arith, e, f), ground (arith, e, f))

-- Where a round finds no order.
round-unordered :
    (c : ℕ) (l : Text) (d : ℕ) (r : Text) (x x' y y' : Bool)
    → natural_round c l d r x y ≡ false
    → natural_round d r c l x' y' ≡ false
    → ((is_digit c ≡ true)
        × (is_digit d ≡ true)
        × ((span_digits (c ∷ l)).0 ≡ (span_digits (d ∷ r)).0)
        × (x ≡ false)
        × (x' ≡ false))
      ⊎ ((c ≡ d) × (l ≡ []) × (r ≡ []))
      ⊎ ((c ≡ d) × (y ≡ false) × (y' ≡ false))
unfolding natural_round
round-unordered c l d r x x' y y' e f = elim (Bool-cases (is_digit c)) [
  | inl left ↦ elim (Bool-cases (is_digit d)) [
    | inl right ↦
        let (same, a, b) =
          compare_digits-total (span_digits (c ∷ l)).0 (span_digits (d ∷ r)).0 x x'
            (ground (arith, e, left, right)) (ground (arith, f, left, right)) in
        inl (left, right, same, a, b)
    | inr other ↦
        inr (plain_round c l d r y y' (ground (arith, e, other)) (ground (arith, f, other)))
  ]
  | inr other ↦ inr (plain_round c l d r y y' (ground (arith, e, other)) (ground (arith, f, other)))
]

-- After the same digits, texts of the same length go on with the same length.
lengths :
    (s t : Text)
    → length s ≡ length t
    → (span_digits s).0 ≡ (span_digits t).0
    → length (span_digits s).1 ≡ length (span_digits t).1
lengths s t h e =
    let one = ap length (span_digits-whole s) in
    let two = ap length (span_digits-whole t) in
    omega (
      arith,
      one,
      two,
      h,
      ap length e,
      length-append (span_digits s).0 (span_digits s).1,
      length-append (span_digits t).0 (span_digits t).1,
    )

natural_from-total :
    (w v : Bool) (f : ℕ) (l r : Text)
    → length l ≤ f
    → (w ≡ false → v ≡ false → length l ≡ length r)
    → natural_from w f l r ≡ false
    → natural_from v f r l ≡ false
    → l ≡ r
unfolding natural_from
natural_from-total w v zero [] [] p h e k = refl
natural_from-total w v zero [] (d ∷ r) p h e k = absurd (omega (arith, h e k))
natural_from-total w v zero (c ∷ l) r p h e k = absurd (omega arith)
natural_from-total w v (suc f) [] [] p h e k = refl
natural_from-total w v (suc f) [] (d ∷ r) p h e k = absurd (omega (arith, h e k))
natural_from-total w v (suc f) (c ∷ l) [] p h e k = absurd (omega (arith, h e k))
natural_from-total w v (suc f) (c ∷ l) (d ∷ r) p h e k =
    elim (round-unordered c l d r _ _ _ _ e k) [
      | inl (left, right, same, a, b) ↦
          let one = span_digits-whole (c ∷ l) in
          let two = span_digits-whole (d ∷ r) in
          let rest =
            natural_from-total w v f (span_digits (c ∷ l)).1 (span_digits (d ∷ r)).1
              (omega (arith, span_digits-shrinks c l left))
              (λ x y. lengths (c ∷ l) (d ∷ r) (h x y) same) a b in
          sym one ∙ ap₂ (◌++◌) same rest ∙ two
      | inr (inl (same, left, right)) ↦ ap₂ (◌∷◌) same (left ∙ sym right)
      | inr (inr (same, a, b)) ↦
          ap₂ (◌∷◌) same
            (natural_from-total w v f l r (omega arith) (λ x y. omega (arith, h x y)) a b)
    ]

lengths_equal : (m n : ℕ) → ltb m n ≡ false → ltb n m ≡ false → m ≡ n
lengths_equal m n e f = ground arith

-- Two labels of which neither comes before the other have the same lower case.
pub natural_less-total :
    ⦃u : Unicode⦄ (s t : Text)
    → natural_less s t ≡ false
    → natural_less t s ≡ false
    → to_lower s ≡ to_lower t
unfolding natural_less
natural_less-total s t e k =
    let l = to_lower s in
    let r = to_lower t in
    let both = length l + length r in
    let w = ltb (length l) (length r) in
    let v = ltb (length r) (length l) in
    let one = natural_from-enough w both (length l) l r (omega arith) (omega arith) in
    let two = natural_from-enough v both (length r) r l (omega arith) (omega arith) in
    natural_from-total w v both l r (omega arith) (lengths_equal (length l) (length r)) (one ∙ e)
      (two ∙ k)
