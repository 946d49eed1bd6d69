-- ===== src/Project/Order.antt =====
-- The order of labels in bridge/internal/project/parser.go: naturalLess and kindRank.
pub mod Laws
pub mod Total
use phcremote_control.Prelude.{
  ℕ, zero, suc, Bool, true, false, not, ◌&&◌, [], ◌∷◌, length, ltb, ◌==◌, if◌then◌else◌,
}
use phcremote_control.Text.{Text, Unicode, to_lower, ◌==ₜ◌}
use phcremote_control.Text.Decimal.{is_digit}
use phcremote_control.Domain.{DeviceKind, light, dimmer, shutter, outlet, scene, button}

-- The digits that a text begins with, and what follows them.
abbrev pub span_digits : Text → Text × Text
span_digits [] = ([], [])
span_digits (c ∷ s) =
    let (digits, rest) = span_digits s in if is_digit c then (c ∷ digits, rest) else ([], c ∷ s)

-- strings.TrimLeft(…, "0")
abbrev pub trim_zeros : Text → Text
trim_zeros [] = []
trim_zeros (c ∷ s) = if c == b'0' then trim_zeros s else c ∷ s

abbrev pub or_zero : Text → Text
or_zero [] = b'0' ∷ []
or_zero (c ∷ s) = c ∷ s

-- s < t; on valid UTF-8 the order of the bytes is that of the code points.
abbrev pub text_less : Text → Text → Bool
text_less [] [] = false
text_less [] (d ∷ t) = true
text_less (c ∷ s) [] = false
text_less (c ∷ s) (d ∷ t) = if c == d then text_less s t else ltb c d

abbrev pub is_end : Text → Bool
is_end [] = true
is_end (c ∷ s) = false

-- Two runs of digits: their order, or `rest` when they are the same.
unfoldable pub compare_digits : Text → Text → Bool → Bool
compare_digits m n rest =
    let a = or_zero (trim_zeros m) in
    let b = or_zero (trim_zeros n) in
    if not (length a == length b)
    then ltb (length a) (length b)
    else if not (a ==ₜ b)
    then text_less a b
    else if not (length m == length n)
    then ltb (length m) (length n)
    else rest

-- A round of the loop at two characters, with what comes after runs of digits and after one
-- character.
unfoldable pub natural_round : ℕ → Text → ℕ → Text → Bool → Bool → Bool
natural_round c l d r after_digits after_one =
    if is_digit c && is_digit d
    then compare_digits (span_digits (c ∷ l)).0 (span_digits (d ∷ r)).0 after_digits
    else if not (c == d)
    then ltb c d
    else if is_end l
    then not (is_end r)
    else if is_end r
    then false
    else after_one

-- The loop on what is left of both texts; `shorter` is len(l) < len(r), for the whole texts.
unfoldable pub natural_from : Bool → ℕ → Text → Text → Bool
natural_from shorter zero l r = shorter
natural_from shorter (suc f) [] r = shorter
natural_from shorter (suc f) (c ∷ l) [] = shorter
natural_from shorter (suc f) (c ∷ l) (d ∷ r) =
    let after_digits = natural_from shorter f (span_digits (c ∷ l)).1 (span_digits (d ∷ r)).1 in
    let after_one = natural_from shorter f l r in natural_round c l d r after_digits after_one

-- Each round takes a character of the left text, so that its length is enough rounds.
unfoldable pub natural_less : ⦃u : Unicode⦄ → Text → Text → Bool
natural_less left right =
    let l = to_lower left in
    let r = to_lower right in natural_from (ltb (length l) (length r)) (length l) l r

unfoldable pub kind_rank : DeviceKind → ℕ
kind_rank light = 0
kind_rank dimmer = 1
kind_rank shutter = 2
kind_rank outlet = 3
kind_rank scene = 4
kind_rank button = 5
