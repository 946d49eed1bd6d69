-- ===== src/Stm/Transport/Blocks.antt =====
-- rewrite of bridge/internal/stm/transport.go on a response whose header is within the limits.
use mathlib.Core.List.{append_assoc}
use phcremote_control.Prelude.{
  ℕ, zero, suc, ◌+◌, ◌≤◌, ◌<◌, ◌≡◌, ◌≢◌, ◌⊎◌, refl, ap, ◌∙◌, Bool, true, false, some, List, [], ◌∷◌,
  ◌++◌, length, length-append, arith, All, Bool-cases, inl, inr, if◌then◌else◌,
}
use phcremote_control.Text.{Text, cut}
use phcremote_control.Stm.Errors.{ok}
use phcremote_control.Stm.Transport.{
  max_header_bytes, max_header_line, is_bare_date, trim_breaks, read_line, is_blank_line,
  starts_bare, header_loop, rewrite, read_all,
}

-- A line of this content, with its newline.
abbrev pub line : Text → Text
line s = s ++ 10 ∷ []

abbrev pub lines : List Text → Text → Text
lines [] rest = rest
lines (s ∷ ss) rest = line s ++ lines ss rest

-- The content of a header line within the limit.
abbrev pub IsContent : Text → Type 0
IsContent s = All (λ c. c ≢ 10) s × (length s + 1 ≤ max_header_line)

-- Not the line that ends the header.
abbrev pub IsField : Text → Type 0
IsField s = IsContent s × (is_blank_line (line s) ≡ false)

abbrev pub IsBlank : Text → Type 0
IsBlank s = (s ≡ []) ⊎ (s ≡ 13 ∷ [])

cut-line : (s rest : Text) → All (λ c. c ≢ 10) s → cut 10 (line s ++ rest) ≡ some (s, rest)
cut-line [] rest h = refl
cut-line (c ∷ s) rest h = ground (arith, h.0, cut-line s rest h.1)

pub read_line-line : (s rest : Text) → IsContent s → read_line (line s ++ rest) ≡ ok (line s, rest)
unfolding read_line
read_line-line s rest h = ground (arith, cut-line s rest h.0, h.1)

-- One round, on a line that ends the header, is dropped, or is kept.
module _ (f : ℕ) (first sanitized : Bool) (total : ℕ) (out s rest : Text) (h : IsContent s)
    (room : total + length (line s) ≤ max_header_bytes) where
  round-ends :
      starts_bare first (line s) ≡ false
      → is_blank_line (line s) ≡ true
      → header_loop (suc f) first sanitized total out (line s ++ rest)
        ≡ (ok (out ++ line s, rest), sanitized)
  unfolding header_loop
  round-ends plain blank = ground (arith, read_line-line s rest h, plain, blank)

  round-drops :
      starts_bare first (line s) ≡ true
      → header_loop (suc f) first sanitized total out (line s ++ rest)
        ≡ header_loop f false true (total + length (line s)) out rest
  unfolding header_loop
  round-drops bare = ground (arith, read_line-line s rest h, bare)

  round-keeps :
      starts_bare first (line s) ≡ false
      → is_blank_line (line s) ≡ false
      → header_loop (suc f) first sanitized total out (line s ++ rest)
        ≡ header_loop f false sanitized (total + length (line s)) (out ++ line s) rest
  unfolding header_loop
  round-keeps plain field = ground (arith, read_line-line s rest h, plain, field)

IsBlank-IsContent : (s : Text) → IsBlank s → IsContent s
IsBlank-IsContent s b = ground arith

blank-line : (s : Text) → IsBlank s → is_blank_line (line s) ≡ true
blank-line s (inl e) = rw e refl
blank-line s (inr e) = rw e refl

length-line : (s rest : Text) → length (line s ++ rest) ≡ length (line s) + length rest
length-line s rest = length-append (line s) rest

-- The lines after the first.
loop-lines :
    (ss : List Text) (f : ℕ) (sanitized : Bool) (total : ℕ) (out blank body : Text)
    → All IsField ss
    → IsBlank blank
    → length ss < f
    → total + length (lines ss (line blank)) ≤ max_header_bytes
    → header_loop f false sanitized total out (lines ss (line blank ++ body))
      ≡ (ok (out ++ lines ss (line blank), body), sanitized)
loop-lines ss zero sanitized total out blank body h b fuel room = absurd (omega arith)
loop-lines [] (suc f) sanitized total out blank body h b fuel room =
    round-ends f false sanitized total out blank body (IsBlank-IsContent blank b) room refl
      (blank-line blank b)
loop-lines (s ∷ ss) (suc f) sanitized total out blank body h b fuel room =
    let size = length-line s (lines ss (line blank)) in
    let kept =
      round-keeps f false sanitized total out s (lines ss (line blank ++ body)) h.0.0
        (omega (arith, size)) refl h.0.1 in
    let more =
      loop-lines ss f sanitized (total + length (line s)) (out ++ line s) blank body h.1 b
        (omega arith) (omega (arith, size)) in
    kept
    ∙ more
    ∙ ap (λ o. (ok (o, body), sanitized)) (append_assoc out (line s) (lines ss (line blank)))

-- The first line goes if it is a bare date.
abbrev pub without_bare : List Text → List Text × Bool
without_bare [] = ([], false)
without_bare (s ∷ ss) = if is_bare_date (trim_breaks (line s)) then (ss, true) else (s ∷ ss, false)

blank-plain : (s : Text) → IsBlank s → starts_bare true (line s) ≡ false
unfolding is_bare_date trim_breaks
blank-plain s (inl e) = rw e refl
blank-plain s (inr e) = rw e refl

lines-append : (ss : List Text) (s t : Text) → lines ss s ++ t ≡ lines ss (s ++ t)
lines-append [] s t = refl
lines-append (r ∷ rs) s t =
    append_assoc (line r) (lines rs s) t ∙ ap (λ u. line r ++ u) (lines-append rs s t)

length-lines : (ss : List Text) (rest : Text) → length ss ≤ length (lines ss rest)
length-lines [] rest = omega arith
length-lines (s ∷ ss) rest =
    omega (arith, length-line s (lines ss rest), length-append s (10 ∷ []), length-lines ss rest)

first-lines :
    (ss : List Text) (f : ℕ) (status blank body : Text)
    → All IsField ss
    → IsBlank blank
    → length ss < f
    → length status + length (lines ss (line blank)) ≤ max_header_bytes
    → header_loop f true false (length status) status (lines ss (line blank ++ body))
      ≡ (ok (status ++ lines (without_bare ss).0 (line blank), body), (without_bare ss).1)
first-lines ss zero status blank body h b fuel room = absurd (omega arith)
first-lines [] (suc f) status blank body h b fuel room =
    round-ends f true false (length status) status blank body (IsBlank-IsContent blank b) room
      (blank-plain blank b) (blank-line blank b)
first-lines (s ∷ ss) (suc f) status blank body h b fuel room =
    let size = length-line s (lines ss (line blank)) in
    let here : length status + length (line s) ≤ max_header_bytes = omega (arith, size) in
    let rest = lines ss (line blank ++ body) in
    let more = λ (sanitized : Bool) (out : Text).
      loop-lines ss f sanitized (length status + length (line s)) out blank body h.1 b (omega arith)
        (omega (arith, size)) in
    elim (Bool-cases (is_bare_date (trim_breaks (line s)))) [
      | inl bare ↦ rw bare (
          round-drops f true false (length status) status s rest h.0.0 here bare ∙ more true status)
      | inr plain ↦ rw plain (
          round-keeps f true false (length status) status s rest h.0.0 here plain h.0.1
          ∙ more false (status ++ line s)
          ∙ ap (λ o. (ok (o, body), false)) (append_assoc status (line s) (lines ss (line blank))))
    ]

-- A response whose header has a status line, other lines and a blank line within the limits is read
-- without its first header line if that is a bare date, and else unchanged; the report says which.
pub read_all-lines :
    (status blank body : Text) (ss : List Text)
    → IsContent status
    → All IsField ss
    → IsBlank blank
    → length (line status) + length (lines ss (line blank)) ≤ max_header_bytes
    → read_all (line status ++ lines ss (line blank ++ body))
      ≡ (ok (line status ++ lines (without_bare ss).0 (line blank ++ body)), (without_bare ss).1)
unfolding read_all rewrite
read_all-lines status blank body ss h k b room =
    let rest = lines ss (line blank ++ body) in
    let got = read_line-line status rest h in
    let looped =
      first-lines ss (suc (length rest)) (line status) blank body k b
        (omega (arith, length-lines ss (line blank ++ body))) room in
    let kept = (without_bare ss).0 in
    let regrouped =
      append_assoc (line status) (lines kept (line blank)) body
      ∙ ap (λ u. line status ++ u) (lines-append kept (line blank) body) in
    ground (arith, got, looped, regrouped)
