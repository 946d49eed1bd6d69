-- ===== src/Stm/Xml/Rounds.antt =====
-- One round of the loops of decodeValue, decodeArray and decodeStruct.
use phcremote_control.Prelude.{ℕ, zero, suc, ◌*◌, ◌<◌, ◌≡◌, ◌∙◌, List, [], ◌∷◌, ◌++◌, length, arith}
use phcremote_control.Text.{Text, codes}
use phcremote_control.Stm.Errors.{ok}
use phcremote_control.Stm.Value.{
  Value, Values, Members, no_values, no_members, add_value, set_member,
}
use phcremote_control.Stm.Xml.{
  Token, Read, start, end_of, chars, comment, fails, decode_value, decode_array, decode_struct,
}
use phcremote_control.Stm.Xml.Fuel.{decode_value-shrinks}
use phcremote_control.Stm.Xml.Written.{IsLayout}

-- With more than twice `n` units of fuel, `p` gives `r`.
abbrev pub Runs : (ℕ → Read Value) → ℕ → Read Value → Type 0
Runs p n r = (f : ℕ) → 2 * n < f → p f ≡ r

-- A round that takes a token has a unit to spend.
pub round :
    (p : ℕ → Read Value) (n : ℕ) (r : Read Value)
    → ((f : ℕ) → 2 * n < f → p (suc f) ≡ r)
    → Runs p (suc n) r
round p n r k zero h = absurd (omega arith)
round p n r k (suc f) h = k f (omega arith)

-- White space and comments are passed over.
pub gap-value :
    (gap ts : List Token) (r : Read Value)
    → IsLayout gap
    → ((text : Text) → Runs (λ f. decode_value f text ts) (length ts) r)
    → (text : Text) → Runs (λ f. decode_value f text (gap ++ ts)) (length (gap ++ ts)) r
unfolding decode_value
gap-value [] ts r l k = k
gap-value (chars s ∷ gap) ts r l k = λ text.
    round (λ f. decode_value f text (chars s ∷ (gap ++ ts))) _ r
      (λ f h. gap-value gap ts r l.1 k (text ++ s) f h)
gap-value (comment ∷ gap) ts r l k = λ text.
    round (λ f. decode_value f text (comment ∷ (gap ++ ts))) _ r
      (λ f h. gap-value gap ts r l.1 k text f h)
gap-value (start name ∷ gap) ts r l k = absurd l.0
gap-value (end_of name ∷ gap) ts r l k = absurd l.0
gap-value (fails ∷ gap) ts r l k = absurd l.0

pub gap-array :
    (gap ts : List Token) (out : Values) (r : Read Value)
    → IsLayout gap
    → Runs (λ f. decode_array f out ts) (length ts) r
    → Runs (λ f. decode_array f out (gap ++ ts)) (length (gap ++ ts)) r
unfolding decode_value
gap-array [] ts out r l k = k
gap-array (chars s ∷ gap) ts out r l k =
    round (λ f. decode_array f out (chars s ∷ (gap ++ ts))) _ r (gap-array gap ts out r l.1 k)
gap-array (comment ∷ gap) ts out r l k =
    round (λ f. decode_array f out (comment ∷ (gap ++ ts))) _ r (gap-array gap ts out r l.1 k)
gap-array (start name ∷ gap) ts out r l k = absurd l.0
gap-array (end_of name ∷ gap) ts out r l k = absurd l.0
gap-array (fails ∷ gap) ts out r l k = absurd l.0

pub gap-struct :
    (gap ts : List Token) (key : Text) (out : Members) (r : Read Value)
    → IsLayout gap
    → Runs (λ f. decode_struct f key out ts) (length ts) r
    → Runs (λ f. decode_struct f key out (gap ++ ts)) (length (gap ++ ts)) r
unfolding decode_value
gap-struct [] ts key out r l k = k
gap-struct (chars s ∷ gap) ts key out r l k =
    round (λ f. decode_struct f key out (chars s ∷ (gap ++ ts))) _ r
      (gap-struct gap ts key out r l.1 k)
gap-struct (comment ∷ gap) ts key out r l k =
    round (λ f. decode_struct f key out (comment ∷ (gap ++ ts))) _ r
      (gap-struct gap ts key out r l.1 k)
gap-struct (start name ∷ gap) ts key out r l k = absurd l.0
gap-struct (end_of name ∷ gap) ts key out r l k = absurd l.0
gap-struct (fails ∷ gap) ts key out r l k = absurd l.0

-- A `value` element of an array, and one of a struct after its name.
pub item-array :
    (tv ts : List Token) (out : Values) (v : Value) (r : Read Value)
    → Runs (λ f. decode_value f [] tv) (length tv) (ok (v, ts))
    → Runs (λ f. decode_array f (add_value out v) ts) (length ts) r
    → Runs (λ f. decode_array f out (start (codes "value") ∷ tv)) (suc (length tv)) r
item-array tv ts out v r read more =
    round (λ f. decode_array f out (start (codes "value") ∷ tv)) (length tv) r
      λ f h.
        let first = read f h in
        let shorter = decode_value-shrinks f [] tv ts v h first in
        let rest = more f (omega arith) in unfold decode_value in (rw first rest)

pub item-struct :
    (tv ts : List Token) (key : Text) (out : Members) (v : Value) (r : Read Value)
    → Runs (λ f. decode_value f [] tv) (length tv) (ok (v, ts))
    → Runs (λ f. decode_struct f key (set_member key v out) ts) (length ts) r
    → Runs (λ f. decode_struct f key out (start (codes "value") ∷ tv)) (suc (length tv)) r
item-struct tv ts key out v r read more =
    round (λ f. decode_struct f key out (start (codes "value") ∷ tv)) (length tv) r
      λ f h.
        let first = read f h in
        let shorter = decode_value-shrinks f [] tv ts v h first in
        let rest = more f (omega arith) in unfold decode_value in (rw first rest)

pub round_twice :
    (p : ℕ → Read Value) (n : ℕ) (r : Read Value)
    → ((f : ℕ) → 2 * n < f → p (suc (suc f)) ≡ r)
    → Runs p (suc n) r
round_twice p n r k zero h = absurd (omega arith)
round_twice p n r k (suc zero) h = absurd (omega arith)
round_twice p n r k (suc (suc f)) h = k f (omega arith)

pub into_array :
    (ts : List Token) (text : Text) (r : Read Value)
    → Runs (λ f. decode_array f no_values ts) (length ts) r
    → Runs (λ f. decode_value f text (start (codes "array") ∷ ts)) (suc (length ts)) r
unfolding decode_value
into_array ts text r k =
    round_twice (λ f. decode_value f text (start (codes "array") ∷ ts)) (length ts) r k

pub into_struct :
    (ts : List Token) (text : Text) (r : Read Value)
    → Runs (λ f. decode_struct f [] no_members ts) (length ts) r
    → Runs (λ f. decode_value f text (start (codes "struct") ∷ ts)) (suc (length ts)) r
unfolding decode_value
into_struct ts text r k =
    round_twice (λ f. decode_value f text (start (codes "struct") ∷ ts)) (length ts) r k

-- A tag that stands for nothing in an array, or in a struct.
pub passes_array :
    (t : Token) (out : Values) (ts : List Token) (r : Read Value)
    → ((f : ℕ) → decode_array (suc f) out (t ∷ ts) ≡ decode_array f out ts)
    → Runs (λ f. decode_array f out ts) (length ts) r
    → Runs (λ f. decode_array f out (t ∷ ts)) (suc (length ts)) r
passes_array t out ts r e k =
    round (λ f. decode_array f out (t ∷ ts)) (length ts) r (λ f h. e f ∙ k f h)

pub passes_struct :
    (t : Token) (key : Text) (out : Members) (ts : List Token) (r : Read Value)
    → ((f : ℕ) → decode_struct (suc f) key out (t ∷ ts) ≡ decode_struct f key out ts)
    → Runs (λ f. decode_struct f key out ts) (length ts) r
    → Runs (λ f. decode_struct f key out (t ∷ ts)) (suc (length ts)) r
passes_struct t key out ts r e k =
    round (λ f. decode_struct f key out (t ∷ ts)) (length ts) r (λ f h. e f ∙ k f h)
