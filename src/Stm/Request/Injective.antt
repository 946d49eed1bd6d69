-- ===== src/Stm/Request/Injective.antt =====
-- encodeCall of bridge/internal/stm/xmlrpc.go.
use phcremote_control.Prelude.{
  ℕ, ◌≤◌, ◌<◌, ◌≡◌, ◌≢◌, ◌⊎◌, refl, sym, subst, ap₂, List, [], ◌∷◌, ◌++◌, arith, All, All-append,
  All-mono,
}
use phcremote_control.Prelude.Int.{ℤ}
use phcremote_control.Text.{Text, codes, append-separator, append_cancel}
use phcremote_control.Text.Decimal.{itoa, itoa_injective, itoa-below}
use phcremote_control.Stm.Request.{escape_rune, escape, encode_params, encode_call}

-- The characters that XML allows.
abbrev pub IsXmlRune : ℕ → Type 0
IsXmlRune c =
    ((c ≡ 9) ⊎ ((c ≡ 10) ⊎ ((c ≡ 13) ⊎ (32 ≤ c))))
    × ((c < 0xd800) ⊎ (0xdfff < c))
    × (c ≢ 0xfffd)
    × (c ≢ 0xfffe)
    × (c ≢ 0xffff)

escape_rune-below : (c : ℕ) → All (λ d. d ≢ b'<') (escape_rune c)
unfolding escape_rune
escape_rune-below c = ground arith

escape-below : (s : Text) → All (λ d. d ≢ b'<') (escape s)
unfolding escape
escape-below [] = tt
escape-below (c ∷ s) =
    All-append (λ d. d ≢ b'<') (escape_rune c) (escape s) (escape_rune-below c) (escape-below s)

escape_rune-first :
    (c d : ℕ) (s t : Text)
    → IsXmlRune c
    → IsXmlRune d
    → escape_rune c ++ s ≡ escape_rune d ++ t
    → c ≡ d
unfolding escape_rune
escape_rune-first c d s t h k e = ground (arith, h.0, h.1, k.0, k.1)

escape-injective : (s t : Text) → All IsXmlRune s → All IsXmlRune t → escape s ≡ escape t → s ≡ t
unfolding escape
escape-injective [] [] h k e = refl
escape-injective [] (d ∷ t) h k e = unfold escape_rune in (ground arith)
escape-injective (c ∷ s) [] h k e = unfold escape_rune in (ground arith)
escape-injective (c ∷ s) (d ∷ t) h k e =
    let same = escape_rune-first c d (escape s) (escape t) h.0 k.0 e in
    let e' = subst (λ d. escape_rune c ++ escape s ≡ escape_rune d ++ escape t) (sym same) e in
    ap₂ ◌∷◌ same (escape-injective s t h.1 k.1 (append_cancel (escape_rune c) _ _ e'))

encode_params-injective : (ps qs : List ℤ) → encode_params ps ≡ encode_params qs → ps ≡ qs
unfolding encode_params
encode_params-injective [] [] e = refl
encode_params-injective [] (q ∷ qs) e = ground arith
encode_params-injective (p ∷ ps) [] e = ground arith
encode_params-injective (p ∷ ps) (q ∷ qs) e =
    let bare = append_cancel (codes "<param><value><i4>") _ _ e in
    let numeral =
      λ (n : ℤ). All-mono {Q = λ c. c ≢ b'<'} (λ c h. omega arith) (itoa n) (itoa-below n) in
    let (same, rest) = append-separator b'<' (itoa p) (itoa q) _ _ (numeral p) (numeral q) bare in
    ap₂ ◌∷◌ (itoa_injective p q same)
      (encode_params-injective ps qs (append_cancel (codes "/i4></value></param>") _ _ rest))

-- Two requests with the same text have the same method, if the names of both are of characters that
-- XML allows, and the same parameters.
pub encode_call-injective :
    (m n : Text) (ps qs : List ℤ)
    → All IsXmlRune m
    → All IsXmlRune n
    → encode_call m ps ≡ encode_call n qs
    → (m ≡ n) × (ps ≡ qs)
unfolding encode_call
encode_call-injective m n ps qs hm hn e =
    let bare = append_cancel (codes "<?xml version=\"1.0\"?><methodCall><methodName>") _ _ e in
    let (same, rest) =
      append-separator b'<' (escape m) (escape n) _ _ (escape-below m) (escape-below n) bare in
    (
      escape-injective m n hm hn same,
      encode_params-injective ps qs (append_cancel (codes "/methodName><params>") _ _ rest),
    )
