-- ===== src/Text.antt =====
-- Go strings as lists of code points, with the functions of `strings` and `unicode` that the bridge
-- calls. A text is valid UTF-8, so searches for ASCII bytes and for texts go by code points.
pub mod Decimal
pub mod Trim
use Prim.Native.Char.{code}
use mathlib.Core.List.{reverse}
use phcremote_control.Prelude.{
  ℕ, String, ◌≡◌, refl, ◌↔◌, Bool, true, false, ◌&&◌, ◌||◌, Option, none, some, List, [], ◌∷◌, ◌++◌,
  map, arith, leb, ◌==◌, ◌≢◌, All, if◌then◌else◌,
}
use phcremote_control.Prelude.Dict.{Key}

abbrev pub Text : Type 0
Text = List ℕ

abbrev pub codes : String → Text
codes String.[] = []
codes (String.◌∷◌ c s) = code c ∷ codes s

-- s == t
infix 50 ◌==ₜ◌
abbrev pub ◌==ₜ◌ : Text → Text → Bool
[] ==ₜ [] = true
[] ==ₜ (d ∷ t) = false
(c ∷ s) ==ₜ [] = false
(c ∷ s) ==ₜ (d ∷ t) = c == d && s ==ₜ t

pub ==ₜ_sound : (s t : Text) → (s ==ₜ t) ≡ true → s ≡ t
==ₜ_sound [] [] h = refl
==ₜ_sound [] (d ∷ t) h = cc
==ₜ_sound (c ∷ s) [] h = cc
==ₜ_sound (c ∷ s) (d ∷ t) h = ground (arith, ==ₜ_sound s t)

pub ==ₜ_refl : (s : Text) → (s ==ₜ s) ≡ true
==ₜ_refl [] = refl
==ₜ_refl (c ∷ s) = ground (arith, ==ₜ_refl s)

pub ==ₜ_iff : (s t : Text) → ((s ==ₜ t) ≡ true) ↔ (s ≡ t)
==ₜ_iff s t = (==ₜ_sound s t, λ e. rw e (==ₜ_refl t))

instance abbrev pub text_key : Key Text
text_key = record { beq = ◌==ₜ◌; beq_iff = ==ₜ_iff }

-- strings.HasPrefix
abbrev pub has_prefix : Text → Text → Bool
has_prefix s [] = true
has_prefix [] (p ∷ ps) = false
has_prefix (c ∷ s) (p ∷ ps) = c == p && has_prefix s ps

-- strings.Contains
abbrev pub contains : Text → Text → Bool
contains [] p = has_prefix [] p
contains (c ∷ s) p = has_prefix (c ∷ s) p || contains s p

abbrev drop_like : Text → Text → Text
drop_like s [] = s
drop_like [] (p ∷ ps) = []
drop_like (c ∷ s) (p ∷ ps) = drop_like s ps

-- strings.TrimPrefix
abbrev pub trim_prefix : Text → Text → Text
trim_prefix s p = if has_prefix s p then drop_like s p else s

-- strings.HasSuffix and strings.TrimSuffix
abbrev pub has_suffix : Text → Text → Bool
has_suffix s p = has_prefix (reverse s) (reverse p)

abbrev pub trim_suffix : Text → Text → Text
trim_suffix s p = reverse (trim_prefix (reverse s) (reverse p))

-- unicode.IsSpace
unfoldable pub is_space : ℕ → Bool
is_space c =
    leb 9 c && leb c 13
    || c == 32
    || c == 0x85
    || c == 0xa0
    || c == 0x1680
    || leb 0x2000 c && leb c 0x200a
    || c == 0x2028
    || c == 0x2029
    || c == 0x202f
    || c == 0x205f
    || c == 0x3000

abbrev pub trim_left : Text → Text
trim_left [] = []
trim_left (c ∷ s) = if is_space c then trim_left s else c ∷ s

-- strings.TrimSpace
abbrev pub trim_space : Text → Text
trim_space s = reverse (trim_left (reverse (trim_left s)))

abbrev pub flush : Text → List Text → List Text
flush [] ws = ws
flush (c ∷ w) ws = (c ∷ w) ∷ ws

-- The word that the text begins with (empty before a space), and the words after it.
abbrev pub split_words : Text → Text × List Text
split_words [] = ([], [])
split_words (c ∷ s) =
    let (w, ws) = split_words s in if is_space c then ([], flush w ws) else (c ∷ w, ws)

-- strings.Fields
abbrev pub fields : Text → List Text
fields s = let (w, ws) = split_words s in flush w ws

-- strings.Split by one byte: the first part and the others, so there is always one.
abbrev pub split : ℕ → Text → Text × List Text
split sep [] = ([], [])
split sep (c ∷ s) = let (w, ws) = split sep s in if c == sep then ([], w ∷ ws) else (c ∷ w, ws)

-- strings.Join
abbrev pub join : Text → List Text → Text
join sep [] = []
join sep (w ∷ []) = w
join sep (w ∷ (v ∷ ws)) = w ++ (sep ++ join sep (v ∷ ws))

-- strings.IndexByte, and the text around that place.
abbrev pub cut : ℕ → Text → Option (Text × Text)
cut b [] = none
cut b (c ∷ s) =
    let rest = cut b s in
    if c == b then some ([], s) else elim rest [ none ↦ none | some (l, r) ↦ some (c ∷ l, r) ]

-- The table of `unicode.ToLower`, which is data of Go's library: the theorems hold for each table.
pub record Unicode : Type 0 where
  pub lower : ℕ → ℕ

-- strings.ToLower
abbrev pub to_lower : ⦃u : Unicode⦄ → Text → Text
to_lower ⦃u⦄ = map u.lower

-- A separator that neither head holds is found at one place.
pub append-separator :
    (b : ℕ) (s t u v : Text)
    → All (λ c. c ≢ b) s
    → All (λ c. c ≢ b) t
    → s ++ b ∷ u ≡ t ++ b ∷ v
    → (s ≡ t) × (u ≡ v)
append-separator b [] [] u v p q e = ground arith
append-separator b [] (d ∷ t) u v p q e = ground arith
append-separator b (c ∷ s) [] u v p q e = ground arith
append-separator b (c ∷ s) (d ∷ t) u v p q e = ground (arith, append-separator b s t u v)

pub append_cancel : (s t u : Text) → s ++ t ≡ s ++ u → t ≡ u
append_cancel [] t u e = e
append_cancel (c ∷ s) t u e = append_cancel s t u (ground arith)
