-- ===== src/Stm/Client/Telegrams.antt =====
-- SendTelegram of bridge/internal/stm/client.go.
use phcremote_control.Prelude.{
  suc, ◌≤◌, ◌≡◌, ◌↔◌, ◌∙◌, subst, refl, ap, List, [], ◌∷◌, length, arith,
}
use phcremote_control.Prelude.Int.{ℤ}
use phcremote_control.Text.{codes}
use phcremote_control.Stm.Errors.{Result, ok, err, ◌>>=◌}
use phcremote_control.Stm.Value.{
  Value, Values, int, string, bytes, boolean, array, struct, no_values, value,
}
use phcremote_control.Stm.Xml.{decode_response}
use phcremote_control.Stm.Request.{encode_call}
use phcremote_control.Stm.Client.{
  max_response_bytes, Outcome, undone, unread, body, Exchange, Client, count_values, ints_of,
  reply_of, read_outcome, send_telegram,
}
use phcremote_control.Stm.Endpoint.{endpoint_url}

-- The array of these integers.
abbrev pub int_values : List ℤ → Values
int_values [] = no_values
int_values (n ∷ ns) = value (int n) (int_values ns)

ints_of-int_values : (ns : List ℤ) → ints_of (int_values ns) ≡ ok ns
unfolding ints_of
ints_of-int_values [] = refl
ints_of-int_values (n ∷ ns) = ground (arith, ints_of-int_values ns)

count-int_values : (ns : List ℤ) → count_values (int_values ns) ≡ length ns
count-int_values [] = refl
count-int_values (n ∷ ns) = ap suc (count-int_values ns)

ints_cons :
    (n : ℤ) (r : Result (List ℤ)) (vs : Values) (ns : List ℤ)
    → ((ms : List ℤ) → r ≡ ok ms → vs ≡ int_values ms)
    → (r >>= (λ ms. ok (n ∷ ms))) ≡ ok ns
    → value (int n) vs ≡ int_values ns
ints_cons n (ok ms) vs ns more e = ground (arith, more ms refl)
ints_cons n (err x) vs ns more e = cc

int_values_of : (vs : Values) (ns : List ℤ) → ints_of vs ≡ ok ns → vs ≡ int_values ns
unfolding ints_of
int_values_of no_values [] e = refl
int_values_of no_values (m ∷ ms) e = cc
int_values_of (value (int n) vs) ns e =
    ints_cons n (ints_of vs) vs ns (λ ms same. int_values_of vs ms same) e
int_values_of (value (string s) vs) ns e = cc
int_values_of (value (bytes s) vs) ns e = cc
int_values_of (value (boolean s) vs) ns e = cc
int_values_of (value (array s) vs) ns e = cc
int_values_of (value (struct s) vs) ns e = cc

abbrev pub IsReply : Value → List ℤ → Type 0
IsReply v ns = (v ≡ array (int_values ns)) × (length ns ≡ 5)

reply_of-IsReply : (v : Value) (ns : List ℤ) → reply_of v ≡ ok ns → IsReply v ns
unfolding reply_of
reply_of-IsReply (array vs) ns e =
    let given : ints_of vs ≡ ok ns = ground arith in
    let shape = int_values_of vs ns given in
    let five : count_values vs ≡ 5 = ground arith in
    (ap array shape, ground (arith, shape, five, count-int_values ns))
reply_of-IsReply (int n) ns e = cc
reply_of-IsReply (string n) ns e = cc
reply_of-IsReply (bytes n) ns e = cc
reply_of-IsReply (boolean n) ns e = cc
reply_of-IsReply (struct n) ns e = cc

reply_of-int_values : (ns : List ℤ) → length ns ≡ 5 → reply_of (array (int_values ns)) ≡ ok ns
unfolding reply_of
reply_of-int_values ns h = ground (arith, count-int_values ns, ints_of-int_values ns)

-- The response has at most the bytes that are read, and decodes to this value.
abbrev pub Delivers : Outcome → Value → Type 0
Delivers (body n ts) v = (n ≤ max_response_bytes) × (decode_response ts ≡ ok v)
Delivers _ v = ⊥

Delivers-read : (o : Outcome) (v : Value) → read_outcome o ≡ ok v → Delivers o v
unfolding read_outcome
Delivers-read undone v e = cc
Delivers-read unread v e = cc
Delivers-read (body n ts) v e = (ground arith, ground arith)

pub read-Delivers : (o : Outcome) (v : Value) → Delivers o v → read_outcome o ≡ ok v
unfolding read_outcome
read-Delivers undone v h = absurd h
read-Delivers unread v h = absurd h
read-Delivers (body n ts) v h = ground (arith, h.0, h.1)

reply_from :
    (o : Outcome) (r : Result Value) (ns : List ℤ)
    → read_outcome o ≡ r
    → (r >>= reply_of) ≡ ok ns
    → Delivers o (array (int_values ns)) × (length ns ≡ 5)
reply_from o (ok v) ns e got =
    let (shape, five) = reply_of-IsReply v ns got in
    (subst (Delivers o) shape (Delivers-read o v e), five)
reply_from o (err x) ns e got = cc

module _ {W : Type 0} (post : Exchange W) where
  -- SendTelegram succeeds with a reply exactly if that has five integers and the response to the
  -- request was read, has at most max_response_bytes bytes and decodes to the array of them.
  pub send_telegram_iff :
      (stm_index module_address content : ℤ) (c : Client W) (ns : List ℤ)
      → let params = stm_index ∷ module_address ∷ content ∷ [] in
        let sent = encode_call (codes "service.stm.sendTelegram") params in
        let answer = (post (endpoint_url c.endpoint) sent c.world).0 in
        ((send_telegram post stm_index module_address content c).0 ≡ ok ns)
        ↔ (Delivers answer.outcome (array (int_values ns)) × (length ns ≡ 5))
  unfolding send_telegram
  send_telegram_iff stm_index module_address content c ns =
      let params = stm_index ∷ module_address ∷ content ∷ [] in
      let sent = encode_call (codes "service.stm.sendTelegram") params in
      let answer = (post (endpoint_url c.endpoint) sent c.world).0 in
      let o = answer.outcome in
      (
        λ e. reply_from o (read_outcome o) ns refl e,
        λ h.
            ap (λ r. r >>= reply_of) (read-Delivers o (array (int_values ns)) h.0)
            ∙ reply_of-int_values ns h.1,
      )
