-- ===== src/Stm/Client.antt =====
-- bridge/internal/stm/client.go: the typed calls over an HTTP exchange.
pub mod Telegrams
pub mod Chunks
use phcremote_control.Prelude.{
  ℕ, suc, ◌+◌, ◌*◌, ◌^◌, Bool, false, ◌||◌, not, Option, none, some, List, [], ◌∷◌, ◌++◌, length,
  ltb, ◌==◌, if◌then◌else◌,
}
use phcremote_control.Prelude.Int.{ℤ, pos}
use phcremote_control.Text.{Text, codes}
use phcremote_control.Text.Decimal.{itoa}
use phcremote_control.Stm.Errors.{
  Result, ok, err, ◌>>=◌, request_failed, body_failed, response_too_large, not_a_struct,
  no_cur_or_total, not_an_array, element_not_int, reply_length,
}
use phcremote_control.Stm.Value.{
  Value, Values, int, array, struct, no_values, value, int_member, string_member, bytes_member,
}
use phcremote_control.Stm.Xml.{Token, decode_response}
use phcremote_control.Stm.Request.{encode_call}
use phcremote_control.Stm.Endpoint.{Endpoint, endpoint_url}

-- 24 MiB
abbrev pub max_response_bytes : ℕ
max_response_bytes = 24 * 2 ^ 20

-- What http.Client.Do gives: an error (also that of the request), or a response, whose body cannot
-- be read or has so many bytes and these tokens; and what the connection reported, if it was read.
pub data Outcome : Type 0 where
  undone unread : Outcome
  body : ℕ → List Token → Outcome

pub record Answer : Type 0 where
  pub sanitized : Option Bool
  pub outcome : Outcome

-- A POST of a body to a URL, over the state of the network and of the STM.
abbrev pub Exchange : Type 0 → Type 0
Exchange W = Text → Text → W → Answer × W

-- The client, and the state of what it talks to.
pub record Client (W : Type 0) : Type 0 where
  pub endpoint : Endpoint
  pub last_sanitized : Bool
  pub world : W

-- NewClient
unfoldable pub new_client : {W : Type 0} → Endpoint → W → Client W
new_client e w = record { endpoint = e; last_sanitized = false; world = w }

unfoldable pub record_sanitized : {W : Type 0} → Option Bool → Client W → Client W
record_sanitized none c = c
record_sanitized (some b) c = record c { last_sanitized = b }

unfoldable pub last_response_sanitized : {W : Type 0} → Client W → Bool
last_response_sanitized c = c.last_sanitized

unfoldable pub read_outcome : Outcome → Result Value
read_outcome undone = err request_failed
read_outcome unread = err body_failed
read_outcome (body n ts) =
    if ltb max_response_bytes n then err response_too_large else decode_response ts

pub record Identity : Type 0 where
  pub stm_address : ℤ
  pub facility_id : Text
  pub device_id : Text
  pub device_name : Text

-- stm.FileChunk, whose first, second and fourth field Download reads.
pub record Chunk : Type 0 where
  pub cur : ℤ
  pub total : ℤ
  pub crc : ℤ
  pub bin : List ℕ

abbrev list_or : Option (List ℕ) → List ℕ
list_or none = []
list_or (some t) = t

unfoldable pub identity_of : Value → Result Identity
identity_of (struct ms) = ok (record {
  stm_address = (int_member (codes "STM-Address") ms).0;
  facility_id = list_or (string_member (codes "Facility-ID") ms);
  device_id = list_or (string_member (codes "Device-ID") ms);
  device_name = list_or (string_member (codes "Device-Name") ms);
})
identity_of _ = err not_a_struct

unfoldable pub chunk_of : Value → Result Chunk
chunk_of (struct ms) =
    let (cur, has_cur) = int_member (codes "cur") ms in
    let (total, has_total) = int_member (codes "total") ms in
    if not has_cur || not has_total
    then err no_cur_or_total
    else ok (record {
      cur = cur;
      total = total;
      crc = (int_member (codes "crc") ms).0;
      bin = list_or (bytes_member (codes "bin") ms);
    })
chunk_of _ = err not_a_struct

abbrev pub count_values : Values → ℕ
count_values no_values = 0
count_values (value v vs) = suc (count_values vs)

unfoldable pub ints_of : Values → Result (List ℤ)
ints_of no_values = ok []
ints_of (value (int n) vs) = ints_of vs >>= (λ ns. ok (n ∷ ns))
ints_of (value _ vs) = err element_not_int

unfoldable pub reply_of : Value → Result (List ℤ)
unfolding ints_of
reply_of (array vs) =
    if count_values vs == 5 then ints_of vs else err (reply_length (count_values vs))
reply_of _ = err not_an_array

-- RawWhoAreYou's request.
unfoldable pub raw_request : Endpoint → Text
raw_request e =
    let call = encode_call (codes "service.stm.whoAreYou") [] in
    codes "POST / HTTP/1.1\r\nHost: "
    ++ (e.host
        ++ b':'
          ∷ (itoa e.port
              ++ (codes "\r\nContent-Type: application/x-www-form-urlencoded\r\nContent-Length: "
                  ++ (itoa (pos (length call))
                      ++ (codes "\r\nConnection: close\r\n\r\n" ++ call)))))

module _ {W : Type 0} (post : Exchange W) where
  unfoldable pub call : Text → List ℤ → Client W → Result Value × Client W
  unfolding read_outcome record_sanitized
  call method params c =
      let (answer, w) = post (endpoint_url c.endpoint) (encode_call method params) c.world in
      (read_outcome answer.outcome, record_sanitized answer.sanitized (record c { world = w }))

  unfoldable pub who_are_you : Client W → Result Identity × Client W
  unfolding call
  who_are_you c = let (v, c') = call (codes "service.stm.whoAreYou") [] c in (v >>= identity_of, c')

  unfoldable pub read_file : ℤ → ℤ → ℤ → Client W → Result Chunk × Client W
  unfolding call
  read_file file chunk mode c =
      let (v, c') = call (codes "service.stm.readFile") (file ∷ chunk ∷ mode ∷ []) c in
      (v >>= chunk_of, c')

  unfoldable pub send_telegram : ℤ → ℤ → ℤ → Client W → Result (List ℤ) × Client W
  unfolding call
  send_telegram stm_index module_address content c =
      let params = stm_index ∷ module_address ∷ content ∷ [] in
      let (v, c') = call (codes "service.stm.sendTelegram") params c in (v >>= reply_of, c')

  unfoldable pub sim_input_event : ℤ → ℤ → ℤ → ℤ → ℤ → Client W → Result (Unit {0}) × Client W
  unfolding call
  sim_input_event stm_index mod_index channel event_type key_type c =
      let params = stm_index ∷ mod_index ∷ channel ∷ event_type ∷ key_type ∷ [] in
      let (v, c') = call (codes "service.stm.simInputEvent") params c in (v >>= (λ _. ok tt), c')
