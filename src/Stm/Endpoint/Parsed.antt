-- ===== src/Stm/Endpoint/Parsed.antt =====
-- ParseEndpoint of bridge/internal/stm/client.go.
use phcremote_control.Prelude.{
  ℕ, ◌≤◌, ◌≡◌, ◌≢◌, refl, ap, ◌∙◌, false, Option, none, some, Option-cases, inl, inr, [], ◌∷◌, ◌++◌,
  arith, All, All-mono,
}
use phcremote_control.Prelude.Int.{ℤ, pos, negsuc}
use phcremote_control.Text.{Text, cut, trim_space}
use phcremote_control.Text.Decimal.{itoa, atoi, atoi-itoa, IsNumeral, itoa-IsNumeral}
use phcremote_control.Text.Trim.{IsTrimmed}
use phcremote_control.Stm.Errors.{ok}
use phcremote_control.Stm.Endpoint.{
  split_plain, Endpoint, holds, split_host_port, endpoint_of, parse_trimmed, parse_endpoint,
}

abbrev pub IsEndpoint : Endpoint → Type 0
IsEndpoint e = (e.host ≢ []) × ((n : ℕ) × (e.port ≡ pos n) × (1 ≤ n) × (n ≤ 65535))

endpoint_of-IsEndpoint :
    (host : Text) (port : Option ℤ) (e : Endpoint) → endpoint_of host port ≡ ok e → IsEndpoint e
unfolding endpoint_of
endpoint_of-IsEndpoint host none e same = cc
endpoint_of-IsEndpoint host (some (negsuc n)) e same = ground arith
endpoint_of-IsEndpoint [] (some (pos n)) e same = ground arith
endpoint_of-IsEndpoint (c ∷ host) (some (pos n)) e same =
    let given : e ≡ record { host = c ∷ host; port = pos n } = ground arith in
    let bounds : (1 ≤ n) × (n ≤ 65535) = ground arith in
    (λ empty. absurd (cc), (n, ap (λ (e : Endpoint). e.port) given, bounds.0, bounds.1))

parse_trimmed-IsEndpoint : (addr : Text) (e : Endpoint) → parse_trimmed addr ≡ ok e → IsEndpoint e
unfolding parse_trimmed
parse_trimmed-IsEndpoint [] e same = cc
parse_trimmed-IsEndpoint (c ∷ s) e same = elim (Option-cases (split_host_port (c ∷ s))) [
  | inl alone ↦
      let given : e ≡ record { host = c ∷ s; port = pos 6680 } = ground (arith, alone) in
      (λ empty. absurd (cc), (6680, ap (λ (e : Endpoint). e.port) given, omega arith, omega arith))
  | inr ((host, port), both) ↦
      let given : endpoint_of host (atoi port) ≡ ok e = ground (arith, both) in
      endpoint_of-IsEndpoint host (atoi port) e given
]

-- An endpoint that is parsed has a host, and a port from 1 to 65535.
pub parse_endpoint-IsEndpoint :
    (addr : Text) (e : Endpoint) → parse_endpoint addr ≡ ok e → IsEndpoint e
unfolding parse_endpoint
parse_endpoint-IsEndpoint addr e same = parse_trimmed-IsEndpoint (trim_space addr) e same

-- A host name: no colon and no bracket.
abbrev pub IsHostRune : ℕ → Type 0
IsHostRune c = (c ≢ b':') × (c ≢ b'[') × (c ≢ b']')

cut-host : (s t : Text) → All IsHostRune s → cut b':' (s ++ b':' ∷ t) ≡ some (s, t)
cut-host [] t h = refl
cut-host (c ∷ s) t h = ground (arith, h.0.0, cut-host s t h.1)

holds-none : (c : ℕ) (s : Text) → All (λ d. d ≢ c) s → holds c s ≡ false
holds-none c [] h = refl
holds-none c (d ∷ s) h = ground (arith, h.0, holds-none c s h.1)

holds-append :
    (c : ℕ) (s t : Text) → holds c s ≡ false → holds c t ≡ false → holds c (s ++ t) ≡ false
holds-append c [] t h k = k
holds-append c (d ∷ s) t h k = ground (arith, holds-append c s t)

port-rune : (c : ℕ) → IsNumeral c → IsHostRune c
port-rune c h = ground (arith, h.0, h.1)

split_plain-host :
    (host port : Text)
    → All IsHostRune host
    → All IsHostRune port
    → split_plain (host ++ b':' ∷ port) ≡ some (host, port)
unfolding split_plain
split_plain-host host port h k =
    let colon = holds-none b':' port (All-mono (λ c x. x.0) port k) in
    let opening =
      holds-append b'[' host (b':' ∷ port) (holds-none b'[' host (All-mono (λ c x. x.1) host h))
        (holds-none b'[' port (All-mono (λ c x. x.1) port k)) in
    let closing =
      holds-append b']' host (b':' ∷ port) (holds-none b']' host (All-mono (λ c x. x.2) host h))
        (holds-none b']' port (All-mono (λ c x. x.2) port k)) in
    ground (arith, cut-host host port h, colon, opening, closing)

-- A host name with a port from 1 to 65535 after a colon is parsed to that endpoint.
pub parse_endpoint-joined :
    (c : ℕ) (host : Text) (n : ℕ)
    → All IsHostRune (c ∷ host)
    → IsTrimmed (c ∷ (host ++ b':' ∷ itoa (pos n)))
    → 1 ≤ n
    → n ≤ 65535
    → parse_endpoint (c ∷ (host ++ b':' ∷ itoa (pos n)))
      ≡ ok (record { host = c ∷ host; port = pos n })
unfolding parse_endpoint endpoint_of
parse_endpoint-joined c host n h trimmed low high =
    let port = itoa (pos n) in
    let digits = All-mono port-rune port (itoa-IsNumeral (pos n)) in
    let parts = split_plain-host (c ∷ host) port h digits in
    let read = atoi-itoa (pos n) (omega arith) in
    ap parse_trimmed trimmed ∙ ground (arith, parts, h.0.1, read)
