-- ===== src/Domain/FloorIds.antt =====
-- StableFloorID of bridge/internal/domain/model.go.
use phcremote_control.Prelude.{
  ℕ, ◌<◌, ◌≡◌, refl, ◌≢◌, List, [], ◌∷◌, ◌++◌, map, arith, All, All-append,
}
use phcremote_control.Text.{Text, codes, append_cancel}
use phcremote_control.Domain.{rune_bytes, utf8, base64_letter, sextets, stable_floor_id}

-- Unicode scalar values end at 0x10ffff.
abbrev pub IsText : Text → Type 0
IsText = All (λ c. c < 0x110000)

abbrev IsBytes : List ℕ → Type 0
IsBytes = All (λ b. b < 256)

rune-IsBytes : (c : ℕ) → c < 0x110000 → IsBytes (rune_bytes c)
unfolding rune_bytes
rune-IsBytes c h = ground arith

utf8-IsBytes : (s : Text) → IsText s → IsBytes (utf8 s)
unfolding utf8
utf8-IsBytes [] h = tt
utf8-IsBytes (c ∷ s) h =
    All-append _ (rune_bytes c) (utf8 s) (rune-IsBytes c h.0) (utf8-IsBytes s h.1)

-- The first byte tells how many belong to the character.
rune-append :
    (c d : ℕ) (s t : List ℕ)
    → c < 0x110000
    → d < 0x110000
    → rune_bytes c ++ s ≡ rune_bytes d ++ t
    → (c ≡ d) × (s ≡ t)
unfolding rune_bytes
rune-append c d s t h k e = ground arith

utf8_nil : (c : ℕ) (s : List ℕ) → rune_bytes c ++ s ≢ []
unfolding rune_bytes
utf8_nil c s e = ground arith

utf8_injective : (s t : Text) → IsText s → IsText t → utf8 s ≡ utf8 t → s ≡ t
unfolding utf8
utf8_injective [] [] p q e = refl
utf8_injective [] (d ∷ t) p q e = ground (arith, utf8_nil d (utf8 t))
utf8_injective (c ∷ s) [] p q e = ground (arith, utf8_nil c (utf8 s))
utf8_injective (c ∷ s) (d ∷ t) p q e =
    ground (arith, rune-append c d (utf8 s) (utf8 t), utf8_injective s t)

sextets_injective : (s t : List ℕ) → IsBytes s → IsBytes t → sextets s ≡ sextets t → s ≡ t
unfolding sextets
sextets_injective (a ∷ (b ∷ (c ∷ s))) (x ∷ (y ∷ (z ∷ t))) p q e =
    ground (arith, sextets_injective s t)
sextets_injective _ _ p q e = ground arith

sextets-below : (s : List ℕ) → IsBytes s → All (λ v. v < 64) (sextets s)
unfolding sextets
sextets-below [] p = tt
sextets-below (a ∷ []) p = omega arith
sextets-below (a ∷ (b ∷ [])) p = omega arith
sextets-below (a ∷ (b ∷ (c ∷ s))) p =
    (omega arith, (omega arith, (omega arith, (omega arith, sextets-below s p.1.1.1))))

letter_injective : (v w : ℕ) → v < 64 → w < 64 → base64_letter v ≡ base64_letter w → v ≡ w
unfolding base64_letter
letter_injective v w h k e = ground arith

letters_injective :
    (s t : List ℕ)
    → All (λ v. v < 64) s
    → All (λ v. v < 64) t
    → map base64_letter s ≡ map base64_letter t
    → s ≡ t
letters_injective [] [] p q e = refl
letters_injective [] (w ∷ t) p q e = cc
letters_injective (v ∷ s) [] p q e = cc
letters_injective (v ∷ s) (w ∷ t) p q e =
    ground (arith, letter_injective v w, letters_injective s t)

-- Two texts of Unicode code points with the same floor identity are the same text.
pub stable_floor_id_injective :
    (s t : Text) → IsText s → IsText t → stable_floor_id s ≡ stable_floor_id t → s ≡ t
unfolding stable_floor_id
stable_floor_id_injective s t p q e =
    let b = append_cancel (codes "floor:v1:") _ _ e in
    let bs = utf8-IsBytes s p in
    let bt = utf8-IsBytes t q in
    utf8_injective s t p q (
      sextets_injective _ _ bs bt
        (letters_injective _ _ (sextets-below _ bs) (sextets-below _ bt) b))
