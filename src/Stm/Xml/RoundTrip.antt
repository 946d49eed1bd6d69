-- ===== src/Stm/Xml/RoundTrip.antt =====
-- decodeResponse of bridge/internal/stm/xmlrpc.go on documents that were written.
use phcremote_control.Prelude.{
  ℕ, ◌+◌, ◌*◌, ◌<◌, ◌≤◌, ◌≡◌, refl, ◌∙◌, List, [], ◌∷◌, ◌++◌, length, arith,
}
use phcremote_control.Text.{Text, codes}
use phcremote_control.Stm.Errors.{ok}
use phcremote_control.Stm.Value.{Value}
use phcremote_control.Stm.Xml.{
  Token, start, end_of, chars, comment, fails, decode_value, first_value, find_answer,
  decode_response,
}
use phcremote_control.Stm.Xml.Written.{
  Style, IsLayout, HasLayout, pad, write, write_response, IsSendable,
}
use phcremote_control.Stm.Xml.Rounds.{gap-value}
use phcremote_control.Stm.Xml.Documents.{value-Runs}

find_answer-gap :
    (f : ℕ) (gap ts : List Token) → IsLayout gap → find_answer f (gap ++ ts) ≡ find_answer f ts
unfolding find_answer
find_answer-gap f [] ts l = refl
find_answer-gap f (chars s ∷ gap) ts l = find_answer-gap f gap ts l.1
find_answer-gap f (comment ∷ gap) ts l = find_answer-gap f gap ts l.1
find_answer-gap f (start name ∷ gap) ts l = absurd l.0
find_answer-gap f (end_of name ∷ gap) ts l = absurd l.0
find_answer-gap f (fails ∷ gap) ts l = absurd l.0

first_value-gap :
    (f : ℕ) (container : Text) (gap ts : List Token)
    → IsLayout gap
    → first_value f container (gap ++ ts) ≡ first_value f container ts
unfolding first_value
first_value-gap f container [] ts l = refl
first_value-gap f container (chars s ∷ gap) ts l = first_value-gap f container gap ts l.1
first_value-gap f container (comment ∷ gap) ts l = first_value-gap f container gap ts l.1
first_value-gap f container (start name ∷ gap) ts l = absurd l.0
first_value-gap f container (end_of name ∷ gap) ts l = absurd l.0
first_value-gap f container (fails ∷ gap) ts l = absurd l.0

find-response :
    (f : ℕ) (ts : List Token)
    → find_answer f (start (codes "methodResponse") ∷ ts) ≡ find_answer f ts
unfolding find_answer
find-response f ts = refl

find-params :
    (f : ℕ) (ts : List Token) (v : Value) (rest : List Token)
    → first_value f (codes "params") ts ≡ ok (v, rest)
    → find_answer f (start (codes "params") ∷ ts) ≡ ok v
unfolding find_answer
find-params f ts v rest e = rw e

first-param :
    (f : ℕ) (ts : List Token)
    → first_value f (codes "params") (start (codes "param") ∷ ts)
      ≡ first_value f (codes "params") ts
unfolding first_value
first-param f ts = refl

first-value :
    (f : ℕ) (ts : List Token)
    → first_value f (codes "params") (start (codes "value") ∷ ts) ≡ decode_value f [] ts
unfolding first_value
first-value f ts = refl

length-pad : (gap ts : List Token) → length ts ≤ length (gap ++ ts)
length-pad [] ts = omega arith
length-pad (t ∷ gap) ts = omega (arith, length-pad gap ts)

-- A response that carries a sendable value, whatever character data and comments stand between its
-- elements and whichever of the two names each integer's element has, decodes to that value.
pub decode-write_response :
    (style : Style) (v : Value)
    → HasLayout style
    → IsSendable v
    → decode_response (write_response style v) ≡ ok v
unfolding write_response decode_response
decode-write_response style v layout h =
    let tail = pad style (
      end_of (codes "param")
      ∷ pad style (end_of (codes "params") ∷ pad style (end_of (codes "methodResponse") ∷ []))) in
    let after = pad style (end_of (codes "value") ∷ tail) in
    let content = pad style (write style v after) in
    let value = start (codes "value") ∷ content in
    let param = start (codes "param") ∷ pad style value in
    let params = start (codes "params") ∷ pad style param in
    let response = start (codes "methodResponse") ∷ pad style params in
    let f = 2 * length (write_response style v) + 1 in
    let enough : 2 * length content < f = omega (
      arith,
      length-pad (style.gap value) value,
      length-pad (style.gap param) param,
      length-pad (style.gap params) params,
      length-pad (style.gap response) response,
    ) in
    let read =
      gap-value (style.gap (write style v after)) (write style v after) (ok (v, after)) (layout _)
        (λ text. value-Runs style layout v after text h) [] f enough in
    let first =
      first_value-gap f (codes "params") (style.gap param) param (layout _)
      ∙ first-param f (pad style value)
      ∙ first_value-gap f (codes "params") (style.gap value) value (layout _)
      ∙ first-value f content
      ∙ read in
    find_answer-gap f (style.gap response) response (layout _)
    ∙ find-response f (pad style params)
    ∙ find_answer-gap f (style.gap params) params (layout _)
    ∙ find-params f (pad style param) v after first
