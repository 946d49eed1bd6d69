-- ===== src/Controller/State.antt =====
-- bridge/internal/controller/events.go: the revisioned state under `stateMu`. Each operation
-- returns the new state and the events that it publishes, in their order; the revision is a uint64.
pub mod Mirror
pub mod Masks
pub mod Power
use phcremote_control.Prelude.{
  ℕ, ◌+◌, ◌-◌, ◌/◌, ◌%◌, ◌^◌, Bool, true, false, Option, none, some, List, [], ◌∷◌, ◌++◌, ◌==◌,
  if◌then◌else◌,
}
use phcremote_control.Prelude.Int.{ℤ, pos, negsuc}
use phcremote_control.Prelude.Dict.{Dict, nat_key, lookup, insert}
use phcremote_control.Text.{Text, text_key}
use phcremote_control.Controller.Types.{
  PowerState, unknown, power_off, power_on, ConnectionStatus, connected, disconnected, Snapshot,
  Event, state, connection, PolledChannel,
}

pub record State : Type 0 where
  pub revision : ℕ
  pub connection : ConnectionStatus
  pub stale : Bool
  pub states : Dict Text PowerState

abbrev pub snapshot_of : State → Snapshot
snapshot_of s = record {
  revision = s.revision;
  connection = s.connection;
  stale = s.stale;
  devices = s.states;
}

abbrev pub u64 : ℕ → ℕ
u64 n = n % 2 ^ 64

abbrev same_bool : Bool → Bool → Bool
same_bool true true = true
same_bool false false = true
same_bool _ _ = false

abbrev pub is_connected : ConnectionStatus → Bool
is_connected connected = true
is_connected disconnected = false

-- The connection event for the state as it stands.
abbrev announce : State → State × List Event
announce s = (s, connection s.revision s.connection s.stale ∷ [])

unfoldable pub set_stale : Bool → State → State × List Event
set_stale b s =
    if same_bool s.stale b
    then (s, [])
    else announce (record s { stale = b; revision = u64 (s.revision + 1) })

unfoldable pub record_connected : State → State × List Event
record_connected s =
    if is_connected s.connection
    then (s, [])
    else announce (record s { connection = connected; revision = u64 (s.revision + 1) })

abbrev is_settled : ConnectionStatus → Bool → Bool
is_settled disconnected b = b
is_settled connected b = false

unfoldable pub record_disconnected : State → State × List Event
record_disconnected s =
    if is_settled s.connection s.stale
    then (s, [])
    else announce
        (record s { connection = disconnected; stale = true; revision = u64 (s.revision + 1) })

-- uint64(bitmask)
to_u64 : ℤ → ℕ
to_u64 (pos n) = u64 n
to_u64 (negsuc n) = 2 ^ 64 - 1 - n % 2 ^ 64

-- A shift by a negative count, read as an unsigned one, leaves no bit.
unfoldable pub power_at : ℤ → ℤ → PowerState
unfolding to_u64
power_at bitmask (pos k) = if to_u64 bitmask / 2 ^ k % 2 == 1 then power_on else power_off
power_at bitmask (negsuc k) = power_off

abbrev same_power : PowerState → PowerState → Bool
same_power unknown unknown = true
same_power power_off power_off = true
same_power power_on power_on = true
same_power _ _ = false

abbrev pub already : Option PowerState → PowerState → Bool
already none p = false
already (some q) p = same_power q p

unfoldable pub set_power : Text → PowerState → State → State × List Event
set_power id p s =
    let r = u64 (s.revision + 1) in
    if already (lookup id s.states) p
    then (s, [])
    else (record s { states = insert id p s.states; revision = r }, state r id p ∷ [])

unfoldable pub update_channels : ℤ → List PolledChannel → State → State × List Event
update_channels bitmask [] s = (s, [])
update_channels bitmask (c ∷ cs) s =
    let (s', now) = set_power c.device_id (power_at bitmask c.channel) s in
    let (s'', later) = update_channels bitmask cs s' in (s'', now ++ later)

unfoldable pub polled : Dict ℕ (List PolledChannel) → ℕ → List PolledChannel
polled modules address = elim (lookup address modules) [ none ↦ [] | some cs ↦ cs ]

unfoldable pub update_module_state :
    Dict ℕ (List PolledChannel) → ℕ → ℤ → State → State × List Event
update_module_state modules address bitmask = update_channels bitmask (polled modules address)
