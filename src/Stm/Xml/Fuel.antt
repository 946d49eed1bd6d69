-- ===== src/Stm/Xml/Fuel.antt =====
-- The fuel of the decoder of bridge/internal/stm/xmlrpc.go: each read leaves fewer tokens, so a unit
-- or two for each token is enough.
use phcremote_control.Prelude.{
  ℕ, zero, suc, ◌+◌, ◌*◌, ◌<◌, ◌≤◌, ◌≡◌, ◌≢◌, subst, Bool, true, false, List, [], ◌∷◌, ◌++◌, ◌-◌,
  length, arith, if◌then◌else◌,
}
use phcremote_control.Text.{Text, codes, trim_space}
use phcremote_control.Stm.Errors.{StmError, Result, ok, err, ok-eq, ◌>>=◌, out_of_fuel, no_value}
use phcremote_control.Stm.Value.{
  Value, Values, Members, struct, no_values, no_members, add_value, set_member,
}
use phcremote_control.Stm.Xml.{
  Token, Read, start, end_of, chars, comment, fails, leaf_text, read_int, read_base64, read_scalar,
  decode_value, decode_typed, decode_array, decode_struct, first_value, as_fault, find_answer,
  decode_response,
}

-- A read that keeps within its fuel, and leaves fewer than `n` tokens where it succeeds.
data Settles {ℓ} {A : Type ℓ} (n : ℕ) : Read A → Type ℓ where
  reads : {a : A} {rest : List Token} → length rest < n → Settles n (ok (a, rest))
  stops : {e : StmError} → e ≢ out_of_fuel → Settles n (err e)

Settles-le {ℓ} : {A : Type ℓ} {m n : ℕ} {r : Read A} → m ≤ n → Settles m r → Settles n r
Settles-le h (reads k) = reads (omega arith)
Settles-le h (stops k) = stops k

Settles-bind {ℓ κ} :
    {A : Type ℓ} {B : Type κ} {m n : ℕ} {r : Read A} (k : A × List Token → Read B)
    → Settles m r
    → ((a : A) (rest : List Token) → length rest < m → Settles n (k (a, rest)))
    → Settles n (r >>= k)
Settles-bind k (reads {a} {rest} h) next = next a rest h
Settles-bind k (stops h) next = stops h

Settles-if {ℓ} :
    {A : Type ℓ} {n : ℕ} (b : Bool) {x y : Read A}
    → Settles n x
    → Settles n y
    → Settles n (if b then x else y)
Settles-if true h k = h
Settles-if false h k = k

leaf_text-Settles :
    (depth : ℕ) (b : Text) (ts : List Token) → Settles (length ts) (leaf_text depth b ts)
unfolding leaf_text
leaf_text-Settles depth b [] = stops (cc)
leaf_text-Settles depth b (start _ ∷ ts) =
    Settles-le (omega arith) (leaf_text-Settles (depth + 1) b ts)
leaf_text-Settles depth b (end_of _ ∷ ts) =
    Settles-if _ (reads (omega arith))
      (Settles-le (omega arith) (leaf_text-Settles (depth - 1) b ts))
leaf_text-Settles depth b (chars s ∷ ts) =
    Settles-le (omega arith) (leaf_text-Settles depth (b ++ s) ts)
leaf_text-Settles depth b (comment ∷ ts) = Settles-le (omega arith) (leaf_text-Settles depth b ts)
leaf_text-Settles depth b (fails ∷ ts) = stops (cc)

read_int-fuel : (s : Text) → read_int s ≢ err out_of_fuel
unfolding read_int
read_int-fuel s = ground arith

read_base64-fuel : (s : Text) → read_base64 s ≢ err out_of_fuel
unfolding read_base64
read_base64-fuel s = ground arith

read_scalar-fuel : (name s : Text) → read_scalar name s ≢ err out_of_fuel
unfolding read_scalar
read_scalar-fuel name s = ground (arith, read_int-fuel s, read_base64-fuel s)

scalar-Settles :
    (r : Result Value) (n : ℕ) (rest : List Token)
    → r ≢ err out_of_fuel
    → length rest < n
    → Settles n (r >>= (λ v. ok (v, rest)))
scalar-Settles (ok v) n rest h k = reads k
scalar-Settles (err e) n rest h k = stops (λ same. h (rw same))

mutual
  unfolding decode_value

  decode_value-Settles :
      (f : ℕ) (text : Text) (ts : List Token)
      → 2 * length ts < f
      → Settles (length ts) (decode_value f text ts)
  decode_value-Settles zero text ts h = absurd (omega arith)
  decode_value-Settles (suc f) text [] h = stops (cc)
  decode_value-Settles (suc f) text (start name ∷ ts) h =
      Settles-le (omega arith) (decode_typed-Settles f name ts (omega arith))
  decode_value-Settles (suc f) text (end_of _ ∷ ts) h = reads (omega arith)
  decode_value-Settles (suc f) text (chars s ∷ ts) h =
      Settles-le (omega arith) (decode_value-Settles f (text ++ s) ts (omega arith))
  decode_value-Settles (suc f) text (comment ∷ ts) h =
      Settles-le (omega arith) (decode_value-Settles f text ts (omega arith))
  decode_value-Settles (suc f) text (fails ∷ ts) h = stops (cc)

  decode_typed-Settles :
      (f : ℕ) (name : Text) (ts : List Token)
      → 2 * length ts + 1 < f
      → Settles (length ts) (decode_typed f name ts)
  decode_typed-Settles zero name ts h = absurd (omega arith)
  decode_typed-Settles (suc f) name ts h =
      Settles-if _ (decode_array-Settles f no_values ts (omega arith)) (
        Settles-if _ (decode_struct-Settles f [] no_members ts (omega arith)) (
          Settles-bind _ (leaf_text-Settles 1 [] ts)
            (λ s rest k. scalar-Settles (read_scalar name s) _ rest (read_scalar-fuel name s) k)))

  decode_array-Settles :
      (f : ℕ) (out : Values) (ts : List Token)
      → 2 * length ts < f
      → Settles (length ts) (decode_array f out ts)
  decode_array-Settles zero out ts h = absurd (omega arith)
  decode_array-Settles (suc f) out [] h = stops (cc)
  decode_array-Settles (suc f) out (start name ∷ ts) h =
      Settles-if _
        (Settles-bind _ (decode_value-Settles f [] ts (omega arith)) (λ v rest k.
          Settles-le (omega arith) (decode_array-Settles f (add_value out v) rest (omega arith))))
        (Settles-le (omega arith) (decode_array-Settles f out ts (omega arith)))
  decode_array-Settles (suc f) out (end_of name ∷ ts) h =
      Settles-if _ (reads (omega arith))
        (Settles-le (omega arith) (decode_array-Settles f out ts (omega arith)))
  decode_array-Settles (suc f) out (chars _ ∷ ts) h =
      Settles-le (omega arith) (decode_array-Settles f out ts (omega arith))
  decode_array-Settles (suc f) out (comment ∷ ts) h =
      Settles-le (omega arith) (decode_array-Settles f out ts (omega arith))
  decode_array-Settles (suc f) out (fails ∷ ts) h = stops (cc)

  decode_struct-Settles :
      (f : ℕ) (key : Text) (out : Members) (ts : List Token)
      → 2 * length ts < f
      → Settles (length ts) (decode_struct f key out ts)
  decode_struct-Settles zero key out ts h = absurd (omega arith)
  decode_struct-Settles (suc f) key out [] h = stops (cc)
  decode_struct-Settles (suc f) key out (start name ∷ ts) h =
      Settles-if _
        (Settles-bind _ (leaf_text-Settles 1 [] ts) (λ s rest k.
          Settles-le (omega arith) (decode_struct-Settles f (trim_space s) out rest (omega arith))))
        (Settles-if _
          (Settles-bind _ (decode_value-Settles f [] ts (omega arith)) (λ v rest k.
            Settles-le (omega arith)
              (decode_struct-Settles f key (set_member key v out) rest (omega arith))))
          (Settles-le (omega arith) (decode_struct-Settles f key out ts (omega arith))))
  decode_struct-Settles (suc f) key out (end_of name ∷ ts) h =
      Settles-if _ (reads (omega arith))
        (Settles-le (omega arith) (decode_struct-Settles f key out ts (omega arith)))
  decode_struct-Settles (suc f) key out (chars _ ∷ ts) h =
      Settles-le (omega arith) (decode_struct-Settles f key out ts (omega arith))
  decode_struct-Settles (suc f) key out (comment ∷ ts) h =
      Settles-le (omega arith) (decode_struct-Settles f key out ts (omega arith))
  decode_struct-Settles (suc f) key out (fails ∷ ts) h = stops (cc)

Settles-ok {ℓ} :
    {A : Type ℓ} {n : ℕ} {r : Read A} {a : A} {rest : List Token}
    → Settles n r
    → r ≡ ok (a, rest)
    → length rest < n
Settles-ok {n} (reads h) e = subst (λ r. length (r.1) < n) (ok-eq e) h
Settles-ok (stops h) e = cc

-- The rest of a value that was read is shorter.
pub decode_value-shrinks :
    (f : ℕ) (text : Text) (ts rest : List Token) (v : Value)
    → 2 * length ts < f
    → decode_value f text ts ≡ ok (v, rest)
    → length rest < length ts
decode_value-shrinks f text ts rest v h e = Settles-ok (decode_value-Settles f text ts h) e

first_value-Settles :
    (f : ℕ) (container : Text) (ts : List Token)
    → 2 * length ts < f
    → Settles (length ts) (first_value f container ts)
unfolding first_value
first_value-Settles f container [] h = stops (cc)
first_value-Settles f container (start name ∷ ts) h =
    Settles-if _ (Settles-le (omega arith) (decode_value-Settles f [] ts (omega arith)))
      (Settles-le (omega arith) (first_value-Settles f container ts (omega arith)))
first_value-Settles f container (end_of name ∷ ts) h =
    Settles-if _ (stops {e = no_value container} (cc))
      (Settles-le (omega arith) (first_value-Settles f container ts (omega arith)))
first_value-Settles f container (chars _ ∷ ts) h =
    Settles-le (omega arith) (first_value-Settles f container ts (omega arith))
first_value-Settles f container (comment ∷ ts) h =
    Settles-le (omega arith) (first_value-Settles f container ts (omega arith))
first_value-Settles f container (fails ∷ ts) h = stops (cc)

as_fault-fuel : (v : Value) → as_fault v ≢ err out_of_fuel
unfolding as_fault
as_fault-fuel (struct ms) = cc
as_fault-fuel _ = cc

conclude-fuel {ℓ} :
    {A : Type ℓ} {n : ℕ} {r : Read A} (k : A → Result Value)
    → Settles n r
    → ((a : A) → k a ≢ err out_of_fuel)
    → (r >>= (λ (a, _). k a)) ≢ err out_of_fuel
conclude-fuel k (reads {a} h) next = next a
conclude-fuel k (stops h) next = λ same. h (cc)

find_answer-fuel :
    (f : ℕ) (ts : List Token) → 2 * length ts < f → find_answer f ts ≢ err out_of_fuel
unfolding find_answer
find_answer-fuel f [] h = cc
find_answer-fuel f (start name ∷ ts) h = ground (
  arith,
  conclude-fuel as_fault (first_value-Settles f (codes "fault") ts (omega arith)) as_fault-fuel,
  conclude-fuel ok (first_value-Settles f (codes "params") ts (omega arith)) (λ v. cc),
  find_answer-fuel f ts,
)
find_answer-fuel f (end_of _ ∷ ts) h = find_answer-fuel f ts (omega arith)
find_answer-fuel f (chars _ ∷ ts) h = find_answer-fuel f ts (omega arith)
find_answer-fuel f (comment ∷ ts) h = find_answer-fuel f ts (omega arith)
find_answer-fuel f (fails ∷ ts) h = cc

-- Whatever the tokens, decoding a response ends within the fuel that it is given.
pub decode_response-fuel : (ts : List Token) → decode_response ts ≢ err out_of_fuel
unfolding decode_response
decode_response-fuel ts = find_answer-fuel (2 * length ts + 1) ts (omega arith)
