-- ===== src/Text/Decimal.antt =====
-- Numbers in decimal: `strconv.Itoa`, which is also what `%d` prints, and `strconv.Atoi`.
use phcremote_control.Prelude.{
  ◌≢◌, length, length-append, Bool-cases, inl, inr, tests, ℕ, zero, suc, ◌+◌, ◌-◌, ◌*◌, ◌/◌, ◌%◌,
  ◌^◌, ◌≤◌, ◌<◌, ◌≡◌, refl, sym, ap, Bool, true, ◌&&◌, Option, none, some, List, [], ◌∷◌, ◌++◌,
  arith, ltb, leb, ◌==◌, if◌then◌else◌, All, All-append, All-mono,
}
use phcremote_control.Prelude.Int.{ℤ, pos, negsuc}

-- The digits of a number, the first one first; a number has fewer digits than `suc` of itself.
decimal_from : ℕ → ℕ → List ℕ
decimal_from zero n = []
decimal_from (suc f) n =
    let more = decimal_from f (n / 10) ++ (b'0' + n % 10) ∷ [] in
    if ltb n 10 then (b'0' + n) ∷ [] else more

pub decimal : ℕ → List ℕ
unfolding decimal_from
decimal n = decimal_from (suc n) n

unfoldable pub itoa : ℤ → List ℕ
unfolding decimal
itoa (pos n) = decimal n
itoa (negsuc n) = b'-' ∷ decimal (suc n)

abbrev pub is_digit : ℕ → Bool
is_digit c = leb b'0' c && leb c b'9'

-- The digits of a text read on from a number.
read_digits : ℕ → List ℕ → Option ℕ
read_digits n [] = some n
read_digits n (c ∷ s) =
    let rest = read_digits (n * 10 + (c - b'0')) s in if is_digit c then rest else none

pub number : List ℕ → Option ℕ
unfolding read_digits
number [] = none
number (c ∷ s) = read_digits 0 (c ∷ s)

up_to : ℕ → Option ℕ → Option ℕ
up_to limit none = none
up_to limit (some n) = if leb n limit then some n else none

positive : Option ℕ → Option ℤ
positive none = none
positive (some n) = some (pos n)

negative : Option ℕ → Option ℤ
negative none = none
negative (some zero) = some (pos 0)
negative (some (suc n)) = some (negsuc n)

-- `none` where the text is no 64-bit integer.
unfoldable pub atoi : List ℕ → Option ℤ
unfolding number up_to positive negative
atoi [] = none
atoi (c ∷ s) =
    if c == b'-'
    then negative (up_to (2 ^ 63) (number s))
    else if c == b'+'
    then positive (up_to (2 ^ 63 - 1) (number s))
    else positive (up_to (2 ^ 63 - 1) (number (c ∷ s)))

clamped : ℕ → Option ℕ → ℕ
clamped limit none = 0
clamped limit (some n) = if leb n limit then n else limit

negated : ℕ → ℤ
negated zero = pos 0
negated (suc n) = negsuc n

-- The number that strconv.Atoi returns, also beside an error: the nearest 64-bit integer where the
-- text is an integer out of range, and 0 where it is none.
unfoldable pub atoi_number : List ℕ → ℤ
unfolding number clamped negated
atoi_number [] = pos 0
atoi_number (c ∷ s) =
    if c == b'-'
    then negated (clamped (2 ^ 63) (number s))
    else if c == b'+'
    then pos (clamped (2 ^ 63 - 1) (number s))
    else pos (clamped (2 ^ 63 - 1) (number (c ∷ s)))

read_digits-append :
    (n : ℕ) (s : List ℕ) (c m : ℕ)
    → read_digits n s ≡ some m
    → is_digit c ≡ true
    → read_digits n (s ++ c ∷ []) ≡ some (m * 10 + (c - b'0'))
unfolding read_digits
read_digits-append n [] c m e d = ground arith
read_digits-append n (x ∷ s) c m e d =
    ground (arith, read_digits-append (n * 10 + (x - b'0')) s c m)

read_digits-decimal_from : (f n : ℕ) → n < f → read_digits 0 (decimal_from f n) ≡ some n
unfolding decimal_from read_digits
read_digits-decimal_from zero n h = elim h [ ]
read_digits-decimal_from (suc f) n h = ground (
  arith,
  read_digits-decimal_from f (n / 10),
  read_digits-append 0 (decimal_from f (n / 10)) (b'0' + n % 10) (n / 10),
)

abbrev pub IsDigit : ℕ → Type 0
IsDigit c = (b'0' ≤ c) × (c ≤ b'9')

decimal_from-IsDigit : (f n : ℕ) → All IsDigit (decimal_from f n)
unfolding decimal_from
decimal_from-IsDigit zero n = tt
decimal_from-IsDigit (suc f) n = elim (Bool-cases (ltb n 10)) [
  | inl small ↦ rw small (omega (tests))
  | inr big ↦ rw big (
      All-append IsDigit (decimal_from f (n / 10)) ((b'0' + n % 10) ∷ [])
        (decimal_from-IsDigit f (n / 10)) (omega arith))
]

-- A number is printed with digits only.
pub decimal-IsDigit : (n : ℕ) → All IsDigit (decimal n)
unfolding decimal
decimal-IsDigit n = decimal_from-IsDigit (suc n) n

decimal_from-ne-nil : (f n : ℕ) → decimal_from (suc f) n ≢ []
unfolding decimal_from
decimal_from-ne-nil f n e =
    ground (arith, length-append (decimal_from f (n / 10)) ((b'0' + n % 10) ∷ []), ap length e)

number_of_read : (s : List ℕ) (m : ℕ) → s ≢ [] → read_digits 0 s ≡ some m → number s ≡ some m
unfolding number
number_of_read [] m h e = absurd (h refl)
number_of_read (c ∷ s) m h e = e

pub number-decimal : (n : ℕ) → number (decimal n) ≡ some n
unfolding decimal
number-decimal n =
    number_of_read (decimal n) n (decimal_from-ne-nil n n)
      (read_digits-decimal_from (suc n) n (omega arith))

pub decimal_injective : (m n : ℕ) → decimal m ≡ decimal n → m ≡ n
decimal_injective m n e = ground (arith, number-decimal m, number-decimal n, ap number e)

-- Reading what was printed gives the number again, for each 64-bit integer.
atoi-digits :
    (s : List ℕ) (n : ℕ) → All IsDigit s → number s ≡ some n → n < 2 ^ 63 → atoi s ≡ some (pos n)
unfolding atoi number
atoi-digits [] n d e h = cc
atoi-digits (c ∷ s) n d e h = ground arith

pub atoi-itoa_pos : (n : ℕ) → n < 2 ^ 63 → atoi (itoa (pos n)) ≡ some (pos n)
unfolding itoa
atoi-itoa_pos n h = atoi-digits (decimal n) n (decimal-IsDigit n) (number-decimal n) h

pub atoi-itoa_negsuc : (n : ℕ) → n < 2 ^ 63 → atoi (itoa (negsuc n)) ≡ some (negsuc n)
unfolding itoa atoi
atoi-itoa_negsuc n h = ground (arith, number-decimal (suc n))

itoa-sign : (m n : ℕ) (s : List ℕ) → All IsDigit s → s ≡ b'-' ∷ decimal n → ⊥
itoa-sign m n [] d e = cc
itoa-sign m n (c ∷ s) d e = ground (arith, d.0)

pub itoa_injective : (a b : ℤ) → itoa a ≡ itoa b → a ≡ b
unfolding itoa
itoa_injective (pos m) (pos n) e = ap pos (decimal_injective m n e)
itoa_injective (pos m) (negsuc n) e = absurd (itoa-sign m (suc n) (decimal m) (decimal-IsDigit m) e)
itoa_injective (negsuc m) (pos n) e =
    absurd (itoa-sign n (suc m) (decimal n) (decimal-IsDigit n) (sym e))
itoa_injective (negsuc m) (negsuc n) e = ground (arith, decimal_injective (suc m) (suc n))

-- A printed integer holds no character above the digits, such as `:` or `<`.
pub itoa-below : (a : ℤ) → All (λ c. c < b':') (itoa a)
unfolding itoa
itoa-below (pos n) = All-mono (λ c d. omega arith) (decimal n) (decimal-IsDigit n)
itoa-below (negsuc n) =
    (omega arith, All-mono (λ c d. omega arith) (decimal (suc n)) (decimal-IsDigit (suc n)))

abbrev pub IsNumeral : ℕ → Type 0
IsNumeral c = (b'-' ≤ c) × (c ≤ b'9') × (c ≢ b'.') × (c ≢ b'/')

-- A printed integer holds digits and a sign only.
pub itoa-IsNumeral : (a : ℤ) → All IsNumeral (itoa a)
unfolding itoa
itoa-IsNumeral (pos n) = All-mono (λ c d. ground (arith, d)) (decimal n) (decimal-IsDigit n)
itoa-IsNumeral (negsuc n) =
    (ground arith, All-mono (λ c d. ground (arith, d)) (decimal (suc n)) (decimal-IsDigit (suc n)))

abbrev pub IsInt64 : ℤ → Type 0
IsInt64 (pos n) = n < 2 ^ 63
IsInt64 (negsuc n) = n < 2 ^ 63

pub atoi-itoa : (a : ℤ) → IsInt64 a → atoi (itoa a) ≡ some a
atoi-itoa (pos n) h = atoi-itoa_pos n h
atoi-itoa (negsuc n) h = atoi-itoa_negsuc n h
