-- ===== src/Stm/Transport.antt =====
-- bridge/internal/stm/transport.go: the connection that drops the one malformed header line.
pub mod Blocks
pub mod Bounds
pub mod Lines
use mathlib.Core.List.{reverse}
use phcremote_control.Prelude.{
  ℕ, zero, suc, ◌+◌, ◌*◌, ◌^◌, Bool, true, false, ◌&&◌, ◌||◌, Option, none, some, List, [], ◌∷◌,
  ◌++◌, length, ltb, ◌==◌, if◌then◌else◌,
}
use phcremote_control.Text.{Text, codes, ◌==ₜ◌, has_prefix, trim_prefix, cut}
use phcremote_control.Text.Decimal.{is_digit}
use phcremote_control.Stm.Errors.{
  Result, ok, err, line_too_long, input_ended, header_too_large, in_status_line, in_header,
  out_of_fuel,
}

abbrev pub max_header_bytes : ℕ
max_header_bytes = 16 * 2 ^ 10

abbrev pub max_header_line : ℕ
max_header_line = 4 * 2 ^ 10

-- The parts of the expression bareDateLine: what is left of a text after a match of the part.
one_of : List Text → Text → Option Text
one_of [] s = none
one_of (w ∷ ws) s = if has_prefix s w then some (trim_prefix s w) else one_of ws s

digits : ℕ → Text → Option Text
digits zero s = some s
digits (suc n) [] = none
digits (suc n) (c ∷ s) = let rest = digits n s in if is_digit c then rest else none

optional : Text → Text → Text
optional w s = trim_prefix s w

-- \d{1,2}, greedily: what follows is no digit.
one_or_two : Text → Option Text
one_or_two [] = none
one_or_two (c ∷ []) = if is_digit c then some [] else none
one_or_two (c ∷ (d ∷ s)) =
    if is_digit c then (if is_digit d then some s else some (d ∷ s)) else none

is_zone : Text → Bool
is_zone s = s ==ₜ [] || s ==ₜ codes " GMT" || s ==ₜ codes " UTC"

weekdays : List Text
weekdays =
    codes "Mon"
    ∷ codes "Tue"
    ∷ codes "Wed"
    ∷ codes "Thu"
    ∷ codes "Fri"
    ∷ codes "Sat"
    ∷ codes "Sun"
    ∷ []

months : List Text
months =
    codes "Jan"
    ∷ codes "Feb"
    ∷ codes "Mar"
    ∷ codes "Apr"
    ∷ codes "May"
    ∷ codes "Jun"
    ∷ codes "Jul"
    ∷ codes "Aug"
    ∷ codes "Sep"
    ∷ codes "Oct"
    ∷ codes "Nov"
    ∷ codes "Dec"
    ∷ []

infixl 5 ◌>=>◌
abbrev ◌>=>◌ : Option Text → (Text → Option Text) → Option Text
none >=> k = none
some s >=> k = k s

abbrev ends_in : (Text → Bool) → Option Text → Bool
ends_in p none = false
ends_in p (some s) = p s

-- bareDateLine.MatchString
unfoldable pub is_bare_date : Text → Bool
unfolding one_of digits optional one_or_two is_zone weekdays months
is_bare_date line = ends_in is_zone (
    one_of weekdays line
    >=> one_of (codes ", " ∷ [])
    >=> one_or_two
    >=> one_of (codes " " ∷ [])
    >=> one_of months
    >=> one_of (codes " " ∷ [])
    >=> digits 4
    >=> one_of (codes " " ∷ [])
    >=> digits 2
    >=> one_of (codes ":" ∷ [])
    >=> (λ s. digits 2 (optional (codes " ") s))
    >=> one_of (codes ":" ∷ [])
    >=> digits 2)

abbrev is_line_break : ℕ → Bool
is_line_break c = c == 13 || c == 10

drop_breaks : Text → Text
drop_breaks [] = []
drop_breaks (c ∷ s) = if is_line_break c then drop_breaks s else c ∷ s

-- strings.TrimRight(line, "\r\n")
unfoldable pub trim_breaks : Text → Text
unfolding drop_breaks
trim_breaks line = reverse (drop_breaks (reverse line))

-- A line with its newline, and what follows it; the input ends, or cannot be read on, after the
-- bytes given.
unfoldable pub read_line : Text → Result (Text × Text)
read_line input = elim (cut 10 input) [
  | none ↦ err (if ltb max_header_line (length input) then line_too_long else input_ended)
  | some (line, rest) ↦
      if ltb max_header_line (length line + 1)
      then err line_too_long
      else ok (line ++ 10 ∷ [], rest)
]

-- Whether the line ends the header.
abbrev pub is_blank_line : Text → Bool
is_blank_line line = line ==ₜ codes "\r\n" || line ==ₜ codes "\n"

-- What rewrite leaves: the header that is served first with the input after it, or the error; and
-- didSanitize.
abbrev pub Rewritten : Type 0
Rewritten = Result (Text × Text) × Bool

abbrev pub starts_bare : Bool → Text → Bool
starts_bare first line = first && is_bare_date (trim_breaks line)

unfoldable pub header_loop : ℕ → Bool → Bool → ℕ → Text → Text → Rewritten
unfolding read_line
header_loop zero first sanitized total out input = (err out_of_fuel, sanitized)
header_loop (suc f) first sanitized total out input = elim (read_line input) [
  | err e ↦ (err (in_header e), sanitized)
  | ok (line, rest) ↦
      let total' = total + length line in
      let dropped = header_loop f false true total' out rest in
      let kept = header_loop f false sanitized total' (out ++ line) rest in
      if ltb max_header_bytes total'
      then (err header_too_large, sanitized)
      else if starts_bare first line
      then dropped
      else if is_blank_line line
      then (ok (out ++ line, rest), sanitized)
      else kept
]

-- Each round reads a byte at least.
unfoldable pub rewrite : Text → Rewritten
unfolding header_loop read_line
rewrite input = elim (read_line input) [
  | err e ↦ (err (in_status_line e), false)
  | ok (status, rest) ↦ header_loop (suc (length rest)) true false (length status) status rest
]

abbrev joined : Result (Text × Text) → Result Text
joined (ok (header, rest)) = ok (header ++ rest)
joined (err e) = err e

-- What the reads of the connection give one after the other, and what is reported.
unfoldable pub read_all : Text → Result Text × Bool
unfolding rewrite
read_all input = let (answer, sanitized) = rewrite input in (joined answer, sanitized)
