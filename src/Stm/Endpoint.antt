-- ===== src/Stm/Endpoint.antt =====
-- Endpoint and ParseEndpoint of bridge/internal/stm/client.go.
pub mod Parsed
use phcremote_control.Prelude.{
  ℕ, ◌+◌, Bool, true, false, ◌&&◌, ◌||◌, not, Option, none, some, [], ◌∷◌, ◌++◌, ◌==◌,
  if◌then◌else◌, any,
}
use phcremote_control.Prelude.Int.{ℤ, pos, ltb_ℤ}
use phcremote_control.Text.{Text, codes, trim_space, cut}
use phcremote_control.Text.Decimal.{itoa, atoi}
use phcremote_control.Stm.Errors.{Result, ok, err, empty_address, empty_host, invalid_port}

pub record Endpoint : Type 0 where
  pub host : Text
  pub port : ℤ

abbrev pub holds : ℕ → Text → Bool
holds c = any (λ d. d == c)

-- net.SplitHostPort for an address in brackets, after the first one, and for another address.
split_bracketed : Text → Option (Text × Text)
split_bracketed s = elim (cut b']' s) [
  | none ↦ none
  | some (host, []) ↦ none
  | some (host, c ∷ port) ↦
      if c == b':'
        && not (holds b':' port)
        && not (holds b'[' host)
        && not (holds b'[' port)
        && not (holds b']' port)
      then some (host, port)
      else none
]

split_plain : Text → Option (Text × Text)
split_plain s = elim (cut b':' s) [
  | none ↦ none
  | some (host, port) ↦
      if holds b':' port || holds b'[' s || holds b']' s then none else some (host, port)
]

-- net.SplitHostPort; `none` is its error.
unfoldable pub split_host_port : Text → Option (Text × Text)
unfolding split_bracketed split_plain
split_host_port [] = none
split_host_port (c ∷ s) = if c == b'[' then split_bracketed s else split_plain (c ∷ s)

abbrev is_nil : Text → Bool
is_nil [] = true
is_nil (_ ∷ _) = false

abbrev is_port : ℤ → Bool
is_port n = not (ltb_ℤ n (pos 1) || ltb_ℤ (pos 65535) n)

unfoldable pub endpoint_of : Text → Option ℤ → Result Endpoint
endpoint_of host none = err invalid_port
endpoint_of host (some n) =
    if not (is_port n)
    then err invalid_port
    else if is_nil host
    then err empty_host
    else ok (record { host = host; port = n })

unfoldable pub parse_trimmed : Text → Result Endpoint
unfolding split_host_port endpoint_of
parse_trimmed addr = if is_nil addr then err empty_address else elim (split_host_port addr) [
  | none ↦ ok (record { host = addr; port = pos 6680 })
  | some (host, port) ↦ endpoint_of host (atoi port)
]

unfoldable pub parse_endpoint : Text → Result Endpoint
unfolding parse_trimmed
parse_endpoint addr = parse_trimmed (trim_space addr)

unfoldable pub endpoint_url : Endpoint → Text
endpoint_url e = codes "http://" ++ (e.host ++ b':' ∷ (itoa e.port ++ b'/' ∷ []))
