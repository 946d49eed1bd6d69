-- ===== src/Text/Trim.antt =====
-- `strings.TrimSpace` on texts without white space.
use mathlib.Core.List.{reverse, reverse_aux, reverse-reverse}
use phcremote_control.Prelude.{ℕ, ◌≡◌, refl, ap, ◌∙◌, false, List, [], ◌∷◌, arith, All, All-mono}
use phcremote_control.Prelude.Int.{ℤ}
use phcremote_control.Text.{Text, is_space, trim_left, trim_space}
use phcremote_control.Text.Decimal.{itoa, IsNumeral, itoa-IsNumeral}

-- Without white space at either end.
abbrev pub IsTrimmed : Text → Type 0
IsTrimmed s = trim_space s ≡ s

pub trim_left-none : (s : Text) → All (λ c. is_space c ≡ false) s → trim_left s ≡ s
trim_left-none [] h = refl
trim_left-none (c ∷ s) h = ground (arith, h.0)

pub numeral-space : (c : ℕ) → IsNumeral c → is_space c ≡ false
unfolding is_space
numeral-space c h = ground (arith, h)

pub reverse_aux-All {ℓ κ} :
    {A : Type ℓ} (P : A → Type κ) (xs ys : List A) → All P xs → All P ys → All P (reverse_aux xs ys)
reverse_aux-All P [] ys h k = k
reverse_aux-All P (x ∷ xs) ys h k = reverse_aux-All P xs (x ∷ ys) h.1 (h.0, k)

pub reverse-All {ℓ κ} : {A : Type ℓ} (P : A → Type κ) (xs : List A) → All P xs → All P (reverse xs)
reverse-All P xs h = reverse_aux-All P xs [] h tt

pub IsTrimmed-none : (s : Text) → All (λ c. is_space c ≡ false) s → IsTrimmed s
IsTrimmed-none s h =
    let back = trim_left-none (reverse s) (reverse-All _ s h) in
    ap (λ t. reverse (trim_left (reverse t))) (trim_left-none s h)
    ∙ ap reverse back
    ∙ reverse-reverse s

pub itoa-IsTrimmed : (n : ℤ) → IsTrimmed (itoa n)
itoa-IsTrimmed n = IsTrimmed-none (itoa n) (All-mono numeral-space (itoa n) (itoa-IsNumeral n))
