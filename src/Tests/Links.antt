-- ===== src/Tests/Links.antt =====
-- The theorems on bridge/internal/stm, for an STM that answers with documents.
use phcremote_control.Prelude.{
  ℕ, ◌+◌, ◌≡◌, ◌≢◌, ◌↔◌, refl, true, some, List, [], ◌∷◌, ◌++◌, arith, length, ltb,
}
use phcremote_control.Prelude.Int.{ℤ, pos, negsuc}
use phcremote_control.Text.{Text, codes, is_space}
use phcremote_control.Project.Errors as Project
use phcremote_control.Project.Download.{FileChunk, download}
use phcremote_control.Stm.Errors.{ok, err, out_of_fuel}
use phcremote_control.Stm.Value.{
  Value, int, string, bytes, boolean, array, struct, no_values, value, no_members, member,
  has_member,
}
use phcremote_control.Stm.Xml.{Token, start, end_of, chars, comment, fails, decode_response}
use phcremote_control.Stm.Xml.Fuel.{decode_response-fuel}
use phcremote_control.Stm.Xml.Written.{Style, HasLayout, write_response, IsSendable}
use phcremote_control.Stm.Xml.RoundTrip.{decode-write_response}
use phcremote_control.Stm.Client.{
  body, Exchange, Client, new_client, record_sanitized, send_telegram,
}
use phcremote_control.Stm.Endpoint.{Endpoint}
use phcremote_control.Stm.Client.Telegrams.{Delivers, int_values, send_telegram_iff}
use phcremote_control.Stm.Client.Chunks.{
  chunk_value, file_reader, Sends, closes, sends, download-Sends,
}
use phcremote_control.Stm.Transport.{rewrite, is_bare_date, trim_breaks}
use phcremote_control.Stm.Transport.Bounds.{Served, rewrite-Served}

-- Indented line breaks and a comment before a start of an element, nothing before an end.
abbrev indent : List Token → List Token
indent (start name ∷ ts) = chars (10 ∷ (32 ∷ [])) ∷ (comment ∷ [])
indent _ = []

abbrev pub spaced : Style
spaced = record { short = λ ts. ltb (length ts) 9; gap = indent }

pub spaced-HasLayout : HasLayout spaced
spaced-HasLayout (start name ∷ ts) = (tt, (tt, tt))
spaced-HasLayout (end_of name ∷ ts) = tt
spaced-HasLayout (chars s ∷ ts) = tt
spaced-HasLayout (comment ∷ ts) = tt
spaced-HasLayout (fails ∷ ts) = tt
spaced-HasLayout [] = tt

-- A struct in an array, with each kind of value.
abbrev nested : Value
nested = array (
    value
      (struct (
        member (codes "Device-Name") (string (codes "PHC"))
          (member (codes "bin") (bytes (80 ∷ (75 ∷ []))) no_members)))
      (value (int (negsuc 4)) (value (boolean true) (value (string []) no_values))))

nested-IsSendable : IsSendable nested
unfolding IsSendable has_member is_space
nested-IsSendable = (
  (refl, refl, tt, (refl, refl, (omega arith, (omega arith, tt)), tt)),
  (omega arith, (tt, (tt, tt))),
)

decode-write_response_example : decode_response (write_response spaced nested) ≡ ok nested
decode-write_response_example =
    decode-write_response spaced nested spaced-HasLayout nested-IsSendable

-- An array that does not end.
decode_response-fuel_example :
    decode_response
      (start (codes "params") ∷ (start (codes "value") ∷ (start (codes "array") ∷ [])))
    ≢ err out_of_fuel
decode_response-fuel_example =
    decode_response-fuel
      (start (codes "params") ∷ (start (codes "value") ∷ (start (codes "array") ∷ [])))

abbrev pub address : Endpoint
address = record { host = codes "stm"; port = pos 6680 }

abbrev reply : List ℤ
reply = pos 0 ∷ (pos 67 ∷ (pos 1 ∷ (pos 0 ∷ (pos 4 ∷ []))))

-- It answers each request with the same document, and counts them.
abbrev pub answering : Value → Exchange ℕ
answering v url request w =
    (record { sanitized = some true; outcome = body 600 (write_response spaced v) }, w + 1)

abbrev telegraph : Exchange ℕ
telegraph = answering (array (int_values reply))

abbrev pub fresh_client : Client ℕ
fresh_client = new_client address 0

send_telegram_iff_example :
    ((send_telegram telegraph (pos 0) (pos 67) (pos 1) fresh_client).0 ≡ ok reply) ↔ (
      Delivers
        (body 600 (write_response spaced (array (int_values reply))))
        (array (int_values reply))
      × (length reply ≡ 5))
send_telegram_iff_example = send_telegram_iff telegraph (pos 0) (pos 67) (pos 1) fresh_client reply

abbrev pub whole : FileChunk
whole = record { cur = pos 0; total = pos 1; bin = 80 ∷ (75 ∷ []) }

abbrev pub library : Exchange ℕ
library = answering (chunk_value whole (pos 7))

abbrev pub after_one : Client ℕ
after_one = record { endpoint = address; last_sanitized = true; world = 1 }

pub whole-Sends : Sends library 0 fresh_client (whole ∷ []) after_one
unfolding new_client record_sanitized
whole-Sends =
    sends spaced 600 (pos 7) refl spaced-HasLayout (omega arith)
      (omega arith, omega arith, omega arith, (omega arith, (omega arith, tt))) closes

download-Sends_example :
    download (file_reader library) fresh_client ≡ (Project.ok (80 ∷ (75 ∷ [])), after_one)
download-Sends_example =
    download-Sends library 1 fresh_client after_one (whole ∷ []) whole-Sends
      (refl, refl, (λ e. absurd cc), refl) (omega arith) (omega arith) (omega arith)

pub whole-downloaded :
    download (file_reader library) fresh_client ≡ (Project.ok (80 ∷ (75 ∷ [])), after_one)
whole-downloaded =
    download-Sends library 1 fresh_client after_one (whole ∷ []) whole-Sends
      (refl, refl, (λ e. absurd cc), refl) (omega arith) (omega arith) (omega arith)

abbrev status : Text
status = codes "HTTP/1.0 200 OK\r\n"

abbrev bare : Text
bare = codes "Thu, 11 Jun 2026 21: 56:00\r\n"

abbrev header : Text
header = codes "Server: STM\r\n\r\n"

bare-is_bare : is_bare_date (trim_breaks bare) ≡ true
unfolding is_bare_date trim_breaks
bare-is_bare = refl

rewrite-status :
    rewrite (status ++ (bare ++ (header ++ codes "ok"))) ≡ (ok (status ++ header, codes "ok"), true)
unfolding rewrite is_bare_date trim_breaks
rewrite-status = refl

rewrite-Served_example :
    Served (status ++ (bare ++ (header ++ codes "ok"))) (status ++ header) (codes "ok") true
rewrite-Served_example =
    rewrite-Served (status ++ (bare ++ (header ++ codes "ok"))) (status ++ header) (codes "ok") true
      rewrite-status
