-- ===== src/Stm/Transport/Lines.antt =====
-- The lines that bridge/internal/stm/transport.go reads.
use mathlib.Core.List.{append_assoc}
use phcremote_control.Prelude.{
  ℕ, ◌+◌, ◌≤◌, ◌<◌, ◌≡◌, ◌≢◌, ◌⊎◌, sym, subst, All, ◌∙◌, true, false, some, Option-cases, [], ◌∷◌,
  ◌++◌, length, length-append, arith, Bool-cases, inl, inr, ◌==◌,
}
use phcremote_control.Text.{Text, codes, cut, ◌==ₜ◌, ==ₜ_iff, ==ₜ_sound}
use phcremote_control.Stm.Errors.{ok}
use phcremote_control.Stm.Transport.{max_header_line, read_line, is_blank_line}

-- What cut finds: the text before the first byte `b`, and the text after it.
cut-parts :
    (b : ℕ) (s l r : Text)
    → cut b s ≡ some (l, r)
    → (s ≡ l ++ b ∷ r) × All (λ c. (c == b) ≡ false) l
cut-parts b [] l r e = cc
cut-parts b (c ∷ s) l r e = elim (Bool-cases (c == b)) [
  | inl here ↦
      let first : l ≡ [] = ground (arith, here) in
      (ground (arith, here), subst (All (λ c. (c == b) ≡ false)) (sym first) tt)
  | inr later ↦ elim (Option-cases (cut b s)) [
    | inl missing ↦ absurd (ground (arith, later, missing))
    | inr ((l', r'), found) ↦
        let (split, free) = cut-parts b s l' r' found in
        let first : l ≡ c ∷ l' = ground (arith, later, found) in
        (
          ground (arith, later, found, split),
          subst (All (λ d. (d == b) ≡ false)) (sym first) (later, free),
        )
  ]
]

-- A line: bytes other than a line feed, and then a line feed.
abbrev pub IsLine : Text → Type 0
IsLine l = (s : Text) × (l ≡ s ++ 10 ∷ []) × All (λ c. (c == 10) ≡ false) s

-- A line that was read is the beginning of the input, has a byte and keeps the limit.
abbrev pub Line : Text → Text → Text → Type 0
Line input l rest = (input ≡ l ++ rest) × (0 < length l) × (length l ≤ max_header_line) × (IsLine l)

-- The header: lines up to the first blank one, which is its last.
pub data IsHeader : Text → Type 0 where
  last_line : {l : Text} → (l ≡ codes "\r\n") ⊎ (l ≡ codes "\n") → IsHeader l
  next_line :
      {l h : Text} → IsLine l → l ≢ codes "\r\n" → l ≢ codes "\n" → IsHeader h → IsHeader (l ++ h)

pub blank-IsHeader : (l : Text) → is_blank_line l ≡ true → IsHeader l
blank-IsHeader l e = elim (Bool-cases (l ==ₜ codes "\r\n")) [
  | inl here ↦ last_line (inl (==ₜ_sound l (codes "\r\n") here))
  | inr there ↦ last_line (inr (==ₜ_sound l (codes "\n") (ground (arith, there))))
]

pub field-IsHeader :
    (l h : Text) → IsLine l → is_blank_line l ≡ false → IsHeader h → IsHeader (l ++ h)
field-IsHeader l h line e k =
    next_line line (λ same. absurd (ground (arith, e, ==ₜ_iff l (codes "\r\n"), same)))
      (λ same. absurd (ground (arith, e, ==ₜ_iff l (codes "\n"), same))) k

pub read_line-Line : (input l rest : Text) → read_line input ≡ ok (l, rest) → Line input l rest
unfolding read_line
read_line-Line input l rest e = elim (Option-cases (cut 10 input)) [
  | inl missing ↦ absurd (ground (arith, missing))
  | inr ((s, r), found) ↦
      let (split, free) = cut-parts 10 input s r found in
      let small = length-append s (10 ∷ []) in
      let shape : (l ≡ s ++ 10 ∷ []) × (rest ≡ r) × (length s + 1 ≤ max_header_line) =
        ground (arith, found) in
      let whole = split ∙ sym (append_assoc s (10 ∷ []) r) in
      (
        ground (arith, shape.0, shape.1, whole),
        ground (arith, shape.0, small),
        ground (arith, shape.0, shape.2, small),
        (s, shape.0, free),
      )
]
