-- ===== src/Project/Order/Laws.antt =====
-- naturalLess of bridge/internal/project/parser.go as an order of labels.
use phcremote_control.Prelude.{
  ℕ, zero, suc, ◌+◌, ◌≤◌, ◌≡◌, refl, ◌∙◌, Bool, true, false, inl, inr, Bool-cases, [], ◌∷◌, length,
  arith, ltb,
}
use phcremote_control.Text.{Text, Unicode, to_lower, ==ₜ_iff}
use phcremote_control.Text.Decimal.{is_digit}
use phcremote_control.Project.Order.{
  span_digits, trim_zeros, or_zero, text_less, compare_digits, natural_round, natural_from,
  natural_less,
}

span_digits-length : (s : Text) → length (span_digits s).1 ≤ length s
span_digits-length [] = omega arith
span_digits-length (c ∷ s) = ground (arith, span_digits-length s)

pub span_digits-shrinks :
    (c : ℕ) (s : Text) → is_digit c ≡ true → length (span_digits (c ∷ s)).1 ≤ length s
span_digits-shrinks c s h = ground (arith, h, span_digits-length s)

round-cong :
    (c : ℕ) (l : Text) (d : ℕ) (r : Text) {x x' y y' : Bool}
    → (is_digit c ≡ true → x ≡ x')
    → y ≡ y'
    → natural_round c l d r x y ≡ natural_round c l d r x' y'
unfolding natural_round
round-cong c l d r h e = elim (Bool-cases (is_digit c)) [
  | inl digit ↦ rw (h digit, e) refl
  | inr plain ↦ rw (e, plain) refl
]

-- As many rounds as the left text has characters are enough: more change nothing.
pub natural_from-enough :
    (shorter : Bool) (f g : ℕ) (l r : Text)
    → length l ≤ f
    → length l ≤ g
    → natural_from shorter f l r ≡ natural_from shorter g l r
unfolding natural_from
natural_from-enough s zero zero l r p q = refl
natural_from-enough s zero (suc g) [] r p q = refl
natural_from-enough s (suc f) zero [] r p q = refl
natural_from-enough s zero (suc g) (c ∷ l) r p q = absurd (omega arith)
natural_from-enough s (suc f) zero (c ∷ l) r p q = absurd (omega arith)
natural_from-enough s (suc f) (suc g) [] r p q = refl
natural_from-enough s (suc f) (suc g) (c ∷ l) [] p q = refl
natural_from-enough s (suc f) (suc g) (c ∷ l) (d ∷ r) p q =
    round-cong c l d r
      (λ digit.
        natural_from-enough s f g (span_digits (c ∷ l)).1 (span_digits (d ∷ r)).1
          (omega (arith, span_digits-shrinks c l digit))
          (omega (arith, span_digits-shrinks c l digit)))
      (natural_from-enough s f g l r (omega arith) (omega arith))

pub text_less-asym : (s t : Text) → text_less s t ≡ true → text_less t s ≡ false
text_less-asym [] [] e = refl
text_less-asym [] (d ∷ t) e = refl
text_less-asym (c ∷ s) [] e = cc
text_less-asym (c ∷ s) (d ∷ t) e = ground (arith, e, text_less-asym s t)

compare_digits-asym :
    (m n : Text) (x y : Bool)
    → (x ≡ true → y ≡ false)
    → compare_digits m n x ≡ true
    → compare_digits n m y ≡ false
unfolding compare_digits
compare_digits-asym m n x y h e = ground (
  arith,
  h,
  e,
  text_less-asym (or_zero (trim_zeros m)) (or_zero (trim_zeros n)),
  ==ₜ_iff (or_zero (trim_zeros m)) (or_zero (trim_zeros n)),
  ==ₜ_iff (or_zero (trim_zeros n)) (or_zero (trim_zeros m)),
)

round-asym :
    (c : ℕ) (l : Text) (d : ℕ) (r : Text) (x x' y y' : Bool)
    → (x ≡ true → x' ≡ false)
    → (y ≡ true → y' ≡ false)
    → natural_round c l d r x y ≡ true
    → natural_round d r c l x' y' ≡ false
unfolding natural_round
round-asym c l d r x x' y y' h k e =
    ground
      (arith, h, k, e, compare_digits-asym (span_digits (c ∷ l)).0 (span_digits (d ∷ r)).0 x x' h)

natural_from-asym :
    (w v : Bool) (f : ℕ) (l r : Text)
    → (w ≡ true → v ≡ false)
    → natural_from w f l r ≡ true
    → natural_from v f r l ≡ false
unfolding natural_from
natural_from-asym w v zero l r h e = h e
natural_from-asym w v (suc f) [] [] h e = h e
natural_from-asym w v (suc f) [] (d ∷ r) h e = h e
natural_from-asym w v (suc f) (c ∷ l) [] h e = h e
natural_from-asym w v (suc f) (c ∷ l) (d ∷ r) h e =
    round-asym c l d r _ _ _ _
      (natural_from-asym w v f (span_digits (c ∷ l)).1 (span_digits (d ∷ r)).1 h)
      (natural_from-asym w v f l r h) e

shorter-asym : (m n : ℕ) → ltb m n ≡ true → ltb n m ≡ false
shorter-asym m n h = ground arith

-- Of two labels at most one comes before the other.
pub natural_less-asym :
    ⦃u : Unicode⦄ (s t : Text) → natural_less s t ≡ true → natural_less t s ≡ false
unfolding natural_less
natural_less-asym s t e =
    let l = to_lower s in
    let r = to_lower t in
    let both = length l + length r in
    let w = ltb (length l) (length r) in
    let v = ltb (length r) (length l) in
    let one = natural_from-enough w both (length l) l r (omega arith) (omega arith) in
    let two = natural_from-enough v (length r) both r l (omega arith) (omega arith) in
    two ∙ natural_from-asym w v both l r (shorter-asym (length l) (length r)) (one ∙ e)
