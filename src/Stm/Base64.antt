-- ===== src/Stm/Base64.antt =====
-- base64.StdEncoding of Go's library, which decodeTyped of bridge/internal/stm/xmlrpc.go calls.
use phcremote_control.Prelude.{
  ℕ, ◌+◌, ◌-◌, ◌*◌, ◌/◌, ◌%◌, ◌<◌, ◌≡◌, refl, Bool, true, false, ◌&&◌, Option, none, some, List, [],
  ◌∷◌, ◌++◌, arith, ltb, leb, ◌==◌, if◌then◌else◌, All,
}
use phcremote_control.Text.{Text, is_space, split_words, fields, join}

letter : ℕ → ℕ
letter v =
    if ltb v 26
    then b'A' + v
    else if ltb v 52
    then b'a' + (v - 26)
    else if ltb v 62
    then b'0' + (v - 52)
    else if v == 62
    then b'+'
    else b'/'

letter_value : ℕ → Option ℕ
letter_value c =
    if leb b'A' c && leb c b'Z'
    then some (c - b'A')
    else if leb b'a' c && leb c b'z'
    then some (c - b'a' + 26)
    else if leb b'0' c && leb c b'9'
    then some (c - b'0' + 52)
    else if c == b'+'
    then some 62
    else if c == b'/'
    then some 63
    else none

letter_value-letter : (v : ℕ) → v < 64 → letter_value (letter v) ≡ some v
unfolding letter letter_value
letter_value-letter v h = ground arith

letter-pad : (v : ℕ) → v < 64 → (letter v == b'=') ≡ false
unfolding letter
letter-pad v h = ground arith

-- StdEncoding.EncodeToString
pub encode64 : List ℕ → Text
encode64 [] = []
encode64 (a ∷ []) = letter (a / 4) ∷ letter (a % 4 * 16) ∷ b'=' ∷ b'=' ∷ []
encode64 (a ∷ (b ∷ [])) =
    letter (a / 4) ∷ letter (a % 4 * 16 + b / 16) ∷ letter (b % 16 * 4) ∷ b'=' ∷ []
encode64 (a ∷ (b ∷ (c ∷ s))) =
    letter (a / 4)
    ∷ letter (a % 4 * 16 + b / 16)
    ∷ letter (b % 16 * 4 + c / 64)
    ∷ letter (c % 64)
    ∷ encode64 s

abbrev is_empty : Text → Bool
is_empty [] = true
is_empty (_ ∷ _) = false

infixl 5 ◌>>=◌
abbrev ◌>>=◌ {ℓ κ} : {A : Type ℓ} {B : Type κ} → Option A → (A → Option B) → Option B
none >>= k = none
some a >>= k = k a

-- The one, two or three bytes of four letters, the last group padded.
one_byte : ℕ → ℕ → Option (List ℕ)
unfolding letter_value
one_byte c d = do x ← letter_value c; y ← letter_value d; some ((x * 4 + y / 16) ∷ [])

two_bytes : ℕ → ℕ → ℕ → Option (List ℕ)
unfolding letter_value
two_bytes c d e = do
  x ← letter_value c
  y ← letter_value d
  z ← letter_value e
  some ((x * 4 + y / 16) ∷ (y % 16 * 16 + z / 4) ∷ [])

three_bytes : ℕ → ℕ → ℕ → ℕ → Option (List ℕ)
unfolding letter_value
three_bytes c d e f = do
  x ← letter_value c
  y ← letter_value d
  z ← letter_value e
  w ← letter_value f
  some ((x * 4 + y / 16) ∷ (y % 16 * 16 + z / 4) ∷ (z % 4 * 64 + w) ∷ [])

-- StdEncoding.DecodeString of a text without line breaks; `none` is its error.
unfoldable pub decode64 : Text → Option (List ℕ)
unfolding one_byte two_bytes three_bytes
decode64 [] = some []
decode64 (c ∷ (d ∷ (e ∷ (f ∷ s)))) =
    let more = decode64 s >>= (λ rest. three_bytes c d e f >>= (λ bs. some (bs ++ rest))) in
    if e == b'='
    then (if f == b'=' && is_empty s then one_byte c d else none)
    else if f == b'='
    then (if is_empty s then two_bytes c d e else none)
    else more
decode64 _ = none

pub decode64-encode64 : (s : List ℕ) → All (λ b. b < 256) s → decode64 (encode64 s) ≡ some s
unfolding decode64 encode64 one_byte two_bytes three_bytes
decode64-encode64 [] h = refl
decode64-encode64 (a ∷ []) h =
    ground (arith, h, letter_value-letter (a / 4), letter_value-letter (a % 4 * 16))
decode64-encode64 (a ∷ (b ∷ [])) h = ground (
  arith,
  h,
  letter_value-letter (a / 4),
  letter_value-letter (a % 4 * 16 + b / 16),
  letter_value-letter (b % 16 * 4),
  letter-pad (b % 16 * 4),
)
decode64-encode64 (a ∷ (b ∷ (c ∷ s))) h = ground (
  arith,
  h,
  letter_value-letter (a / 4),
  letter_value-letter (a % 4 * 16 + b / 16),
  letter_value-letter (b % 16 * 4 + c / 64),
  letter_value-letter (c % 64),
  letter-pad (b % 16 * 4 + c / 64),
  letter-pad (c % 64),
  decode64-encode64 s h.1.1.1,
)

letter-space : (v : ℕ) → v < 64 → is_space (letter v) ≡ false
unfolding letter is_space
letter-space v h = ground arith

-- No white space stands in an encoded text.
pub encode64-space :
    (s : List ℕ) → All (λ b. b < 256) s → All (λ c. is_space c ≡ false) (encode64 s)
unfolding encode64 is_space
encode64-space [] h = tt
encode64-space (a ∷ []) h = (
  letter-space (a / 4) (omega arith),
  (letter-space (a % 4 * 16) (omega arith), (refl, (refl, tt))),
)
encode64-space (a ∷ (b ∷ [])) h = (
  letter-space (a / 4) (omega arith),
  (
    letter-space (a % 4 * 16 + b / 16) (omega arith),
    (letter-space (b % 16 * 4) (omega arith), (refl, tt)),
  ),
)
encode64-space (a ∷ (b ∷ (c ∷ s))) h = (
  letter-space (a / 4) (omega arith),
  (
    letter-space (a % 4 * 16 + b / 16) (omega arith),
    (
      letter-space (b % 16 * 4 + c / 64) (omega arith),
      (letter-space (c % 64) (omega arith), encode64-space s h.1.1.1),
    ),
  ),
)

-- A text without white space is its only field.
split_words-none : (s : Text) → All (λ c. is_space c ≡ false) s → split_words s ≡ (s, [])
split_words-none [] h = refl
split_words-none (c ∷ s) h = ground (arith, h.0, split_words-none s h.1)

pub join-fields_none : (s : Text) → All (λ c. is_space c ≡ false) s → join [] (fields s) ≡ s
join-fields_none [] h = refl
join-fields_none (c ∷ s) h = ground (arith, split_words-none (c ∷ s) h)
