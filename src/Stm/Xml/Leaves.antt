-- ===== src/Stm/Xml/Leaves.antt =====
-- decodeTyped and leafText of bridge/internal/stm/xmlrpc.go on elements that hold a text.
use phcremote_control.Prelude.{
  ℕ, zero, suc, ◌<◌, ◌≤◌, ◌≡◌, refl, sym, ap, ◌∙◌, subst, Bool, true, false, List, [], ◌∷◌, length,
  arith, All, if◌then◌else◌,
}
use phcremote_control.Text.{Text, codes, ◌==ₜ◌, trim_space, is_space}
use phcremote_control.Prelude.Int.{ℤ}
use phcremote_control.Text.Decimal.{itoa, atoi, IsInt64, atoi-itoa}
use phcremote_control.Text.Trim.{itoa-IsTrimmed}
use phcremote_control.Stm.Errors.{ok}
use phcremote_control.Stm.Value.{Value, Members, int, string, bytes, boolean}
use phcremote_control.Stm.Base64.{
  encode64, decode64, decode64-encode64, encode64-space, join-fields_none,
}
use phcremote_control.Stm.Xml.{
  Token, Read, end_of, leaf_text, read_scalar, decode_value, decode_typed, decode_struct, is_scalar,
}
use phcremote_control.Stm.Xml.Written.{text_tokens, leaf}
use phcremote_control.Stm.Xml.Rounds.{Runs, round}

pub leaf_text-text :
    (name s : Text) (rest : List Token)
    → leaf_text 1 [] (text_tokens s (end_of name ∷ rest)) ≡ ok (s, rest)
unfolding leaf_text
leaf_text-text name [] rest = refl
leaf_text-text name (c ∷ s) rest = refl

pub typed-scalar :
    (f : ℕ) (name s : Text) (rest : List Token) (v : Value)
    → (name ==ₜ codes "array") ≡ false
    → (name ==ₜ codes "struct") ≡ false
    → read_scalar name s ≡ ok v
    → 0 < f
    → decode_typed f name (text_tokens s (end_of name ∷ rest)) ≡ ok (v, rest)
unfolding decode_value
typed-scalar zero name s rest v a b e h = absurd (omega arith)
typed-scalar (suc f) name s rest v a b e h = rw (a, b, leaf_text-text name s rest, e)

pub length-text_tokens : (s : Text) (rest : List Token) → length rest ≤ length (text_tokens s rest)
length-text_tokens [] rest = omega arith
length-text_tokens (c ∷ s) rest = omega arith

pub scalar-value :
    (name s : Text) (rest : List Token) (v : Value)
    → (name ==ₜ codes "array") ≡ false
    → (name ==ₜ codes "struct") ≡ false
    → read_scalar name s ≡ ok v
    → (text : Text)
    → Runs (λ f. decode_value f text (leaf name s rest)) (length (leaf name s rest)) (ok (v, rest))
scalar-value name s rest v a b e text =
    let longer = length-text_tokens s (end_of name ∷ rest) in
    round (λ f. decode_value f text (leaf name s rest))
      (length (text_tokens s (end_of name ∷ rest))) (ok (v, rest))
      λ f h.
        let positive : 0 < f = omega (arith, longer) in
        let typed = typed-scalar f name s rest v a b e positive in unfold decode_value in typed

pub read-int :
    (name : Text) (n : ℤ)
    → is_scalar name (codes "i4") (codes "int") ≡ true
    → IsInt64 n
    → read_scalar name (itoa n) ≡ ok (int n)
unfolding read_scalar
read-int name n e h =
    let whole = ap atoi (itoa-IsTrimmed n) ∙ atoi-itoa n h in ground (arith, e, whole)

pub read-base64 :
    (b : List ℕ) → All (λ c. c < 256) b → read_scalar (codes "base64") (encode64 b) ≡ ok (bytes b)
unfolding read_scalar
read-base64 b h =
    let joined = join-fields_none (encode64 b) (encode64-space b h) in
    let whole = ap decode64 joined ∙ decode64-encode64 b h in ground (arith, whole)

pub read-string : (s : Text) → read_scalar (codes "string") s ≡ ok (string s)
unfolding read_scalar
read-string s = refl

pub read-boolean :
    (b : Bool) → read_scalar (codes "boolean") (codes (if b then "1" else "0")) ≡ ok (boolean b)
unfolding read_scalar is_space
read-boolean true = refl
read-boolean false = refl

pub name-struct :
    (name : Text) (key : Text) (out : Members) (ts : List Token) (r : Read Value)
    → trim_space name ≡ name
    → Runs (λ f. decode_struct f name out ts) (length ts) r
    → Runs
        (λ f. decode_struct f key out (leaf (codes "name") name ts))
        (length (leaf (codes "name") name ts))
        r
name-struct name key out ts r trimmed k =
    let longer = length-text_tokens name (end_of (codes "name") ∷ ts) in
    round (λ f. decode_struct f key out (leaf (codes "name") name ts))
      (length (text_tokens name (end_of (codes "name") ∷ ts))) r
      λ f h.
        let more = k f (omega (arith, longer)) in
        let more' = subst (λ n. decode_struct f n out ts ≡ r) (sym trimmed) more in
        let text = leaf_text-text (codes "name") name ts in unfold decode_value in (rw text more')
