-- ===== src/Stm/Xml.antt =====
-- decodeResponse of bridge/internal/stm/xmlrpc.go, over the tokens that the XML decoder gives.
pub mod Fuel
pub mod Written
pub mod Collected
pub mod Rounds
pub mod Leaves
pub mod Documents
pub mod RoundTrip
use phcremote_control.Prelude.{
  ℕ, zero, suc, ◌+◌, ◌-◌, ◌*◌, Bool, false, ◌||◌, Option, none, some, List, [], ◌∷◌, ◌++◌, length,
  ◌==◌, if◌then◌else◌,
}
use phcremote_control.Domain.{utf8}
use phcremote_control.Text.{Text, codes, ◌==ₜ◌, trim_space, fields, join, Unicode, to_lower}
use phcremote_control.Text.Decimal.{atoi}
use phcremote_control.Stm.Errors.{
  Result, ok, err, ◌>>=◌, bad_xml, no_answer, malformed_fault, bad_base64, unsupported_charset,
  out_of_fuel, no_value, bad_integer, faulty,
}
use phcremote_control.Stm.Value.{
  Value, Values, Members, int, string, bytes, boolean, array, struct, no_values, no_members,
  add_value, set_member, int_member, string_member,
}
use phcremote_control.Stm.Base64.{decode64}

-- What dec.Token returns, one after the other: the start and the end of an element, by its local
-- name, character data, any other token, an error. The end of the list is the end of the input.
pub data Token : Type 0 where
  start : Text → Token
  end_of : Text → Token
  chars : Text → Token
  comment fails : Token

-- A value and the tokens after it.
abbrev pub Read {ℓ} : Type ℓ → Type ℓ
Read A = Result (A × List Token)

unfoldable pub leaf_text : ℕ → Text → List Token → Read Text
leaf_text depth b [] = err bad_xml
leaf_text depth b (start _ ∷ ts) = leaf_text (depth + 1) b ts
leaf_text depth b (end_of _ ∷ ts) =
    let rest = leaf_text (depth - 1) b ts in if depth - 1 == 0 then ok (b, ts) else rest
leaf_text depth b (chars s ∷ ts) = leaf_text depth (b ++ s) ts
leaf_text depth b (comment ∷ ts) = leaf_text depth b ts
leaf_text depth b (fails ∷ ts) = err bad_xml

unfoldable pub read_int : Text → Result Value
read_int s = elim (atoi (trim_space s)) [ none ↦ err (bad_integer s) | some n ↦ ok (int n) ]

unfoldable pub read_base64 : Text → Result Value
read_base64 s = elim (decode64 (join [] (fields s))) [
  | none ↦ err bad_base64
  | some b ↦ ok (bytes b)
]

abbrev scalar : (Text → Result Value) → Text × List Token → Read Value
scalar read (s, ts) = read s >>= (λ v. ok (v, ts))

abbrev pub is_scalar : Text → Text → Text → Bool
is_scalar name a b = name ==ₜ a || name ==ₜ b

unfoldable pub read_scalar : Text → Text → Result Value
unfolding read_int read_base64
read_scalar name s =
    if is_scalar name (codes "i4") (codes "int")
    then read_int s
    else if name ==ₜ codes "boolean"
    then ok (boolean (trim_space s ==ₜ codes "1"))
    else if name ==ₜ codes "base64"
    then read_base64 s
    else ok (string s)

-- Each call takes a token or a step from decode_value to decode_typed, at the cost of one unit of
-- fuel.
unfoldable mutual
  unfolding leaf_text read_scalar

  pub decode_value : ℕ → Text → List Token → Read Value
  decode_value zero text ts = err out_of_fuel
  decode_value (suc f) text [] = err bad_xml
  decode_value (suc f) text (start name ∷ ts) = decode_typed f name ts
  decode_value (suc f) text (end_of _ ∷ ts) = ok (string text, ts)
  decode_value (suc f) text (chars s ∷ ts) = decode_value f (text ++ s) ts
  decode_value (suc f) text (comment ∷ ts) = decode_value f text ts
  decode_value (suc f) text (fails ∷ ts) = err bad_xml

  pub decode_typed : ℕ → Text → List Token → Read Value
  decode_typed zero name ts = err out_of_fuel
  decode_typed (suc f) name ts =
      let items = decode_array f no_values ts in
      let fields' = decode_struct f [] no_members ts in
      if name ==ₜ codes "array"
      then items
      else if name ==ₜ codes "struct"
      then fields'
      else (leaf_text 1 [] ts >>= scalar (read_scalar name))

  pub decode_array : ℕ → Values → List Token → Read Value
  decode_array zero out ts = err out_of_fuel
  decode_array (suc f) out [] = err bad_xml
  decode_array (suc f) out (start name ∷ ts) =
      let item = decode_value f [] ts >>= (λ (v, rest). decode_array f (add_value out v) rest) in
      let skip = decode_array f out ts in if name ==ₜ codes "value" then item else skip
  decode_array (suc f) out (end_of name ∷ ts) =
      let skip = decode_array f out ts in
      if name ==ₜ codes "array" then ok (array out, ts) else skip
  decode_array (suc f) out (chars _ ∷ ts) = decode_array f out ts
  decode_array (suc f) out (comment ∷ ts) = decode_array f out ts
  decode_array (suc f) out (fails ∷ ts) = err bad_xml

  pub decode_struct : ℕ → Text → Members → List Token → Read Value
  decode_struct zero key out ts = err out_of_fuel
  decode_struct (suc f) key out [] = err bad_xml
  decode_struct (suc f) key out (start name ∷ ts) =
      let named = leaf_text 1 [] ts >>= (λ (s, rest). decode_struct f (trim_space s) out rest) in
      let item =
        decode_value f [] ts >>= (λ (v, rest). decode_struct f key (set_member key v out) rest) in
      let skip = decode_struct f key out ts in
      if name ==ₜ codes "name" then named else if name ==ₜ codes "value" then item else skip
  decode_struct (suc f) key out (end_of name ∷ ts) =
      let skip = decode_struct f key out ts in
      if name ==ₜ codes "struct" then ok (struct out, ts) else skip
  decode_struct (suc f) key out (chars _ ∷ ts) = decode_struct f key out ts
  decode_struct (suc f) key out (comment ∷ ts) = decode_struct f key out ts
  decode_struct (suc f) key out (fails ∷ ts) = err bad_xml

unfoldable pub first_value : ℕ → Text → List Token → Read Value
first_value f container [] = err bad_xml
first_value f container (start name ∷ ts) =
    let skip = first_value f container ts in
    if name ==ₜ codes "value" then decode_value f [] ts else skip
first_value f container (end_of name ∷ ts) =
    let skip = first_value f container ts in
    if name ==ₜ container then err (no_value container) else skip
first_value f container (chars _ ∷ ts) = first_value f container ts
first_value f container (comment ∷ ts) = first_value f container ts
first_value f container (fails ∷ ts) = err bad_xml

abbrev or_empty : Option Text → Text
or_empty none = []
or_empty (some t) = t

unfoldable pub as_fault : Value → Result Value
as_fault (struct ms) = err (
    faulty (record {
      number = (int_member (codes "faultCode") ms).0;
      message = or_empty (string_member (codes "faultString") ms);
    }))
as_fault _ = err malformed_fault

unfoldable pub find_answer : ℕ → List Token → Result Value
unfolding first_value as_fault
find_answer f [] = err no_answer
find_answer f (start name ∷ ts) =
    let skip = find_answer f ts in
    if name ==ₜ codes "fault"
    then (first_value f (codes "fault") ts >>= (λ (v, _). as_fault v))
    else if name ==ₜ codes "params"
    then (first_value f (codes "params") ts >>= (λ (v, _). ok v))
    else skip
find_answer f (end_of _ ∷ ts) = find_answer f ts
find_answer f (chars _ ∷ ts) = find_answer f ts
find_answer f (comment ∷ ts) = find_answer f ts
find_answer f (fails ∷ ts) = err bad_xml

unfoldable pub decode_response : List Token → Result Value
unfolding find_answer
decode_response ts = find_answer (2 * length ts + 1) ts

abbrev is_one_of : Text → List Text → Bool
is_one_of c [] = false
is_one_of c (name ∷ names) = c ==ₜ name || is_one_of c names

-- The bytes of the declared character set in UTF-8. Reading the input does not fail, since it is in
-- memory.
unfoldable pub charset_reader : ⦃u : Unicode⦄ → Text → List ℕ → Result (List ℕ)
charset_reader charset input =
    let c = to_lower (trim_space charset) in
    if is_one_of c ([] ∷ codes "utf-8" ∷ codes "utf8" ∷ codes "us-ascii" ∷ codes "ascii" ∷ [])
    then ok input
    else if is_one_of c (
        codes "iso-8859-1"
        ∷ codes "iso8859-1"
        ∷ codes "iso_8859-1"
        ∷ codes "latin1"
        ∷ codes "latin-1"
        ∷ [])
    then ok (utf8 input)
    else err unsupported_charset
