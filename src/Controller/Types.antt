-- ===== src/Controller/Types.antt =====
-- bridge/internal/controller/types.go
pub mod Laws
use Prim.Native.Nat.{bit_or}
use phcremote_control.Prelude.{
  ◌≡◌, refl, ◌⊎◌, inl, inr, ℕ, Bool, true, false, ◌&&◌, ◌||◌, leb, ◌==◌, if◌then◌else◌,
}
use phcremote_control.Prelude.Int.{ℤ, pos, negsuc, ltb_ℤ, pos_part}
use phcremote_control.Prelude.Dict.{Dict}
use phcremote_control.Text.{Text}
use phcremote_control.Domain.{ModuleClass, amd, ChannelRef}

-- The errors that the controller returns or passes on.
pub data Error : Type 0 where
  negative_config : Error
  invalid_amd_reference invalid_emd_reference : Error
  controller_stopped device_not_found unsupported_action : Error
  scheduler_stopped nil_operation nil_background_operation : Error
  device_without_id duplicate_device nil_client : Error
  canceled deadline_exceeded : Error
  bad_reply_length : ℕ → Error
  not_an_int : Error
  -- any other error of the STM client
  stm : ℕ → Error

pub data Result {ℓ} (A : Type ℓ) : Type ℓ where
  ok : A → Result A
  err : Error → Result A

infixl 5 ◌>>=◌
abbrev pub ◌>>=◌ {ℓ κ} : {A : Type ℓ} {B : Type κ} → Result A → (A → Result B) → Result B
ok a >>= f = f a
err e >>= f = err e

abbrev pub is_ok {ℓ} : {A : Type ℓ} → Result A → Bool
is_ok (ok a) = true
is_ok (err e) = false

pub Result-cases {ℓ} :
    {A : Type ℓ} (r : Result A) → ((a : A) × (r ≡ ok a)) ⊎ ((e : Error) × (r ≡ err e))
Result-cases (ok a) = inl (a, refl)
Result-cases (err e) = inr (e, refl)

-- A chain that succeeds has an intermediate value.
pub >>=-eq-ok {ℓ κ} :
    {A : Type ℓ} {B : Type κ} {out : B} (r : Result A) (next : A → Result B)
    → r >>= next ≡ ok out
    → (found : A) × (r ≡ ok found) × (next found ≡ ok out)
>>=-eq-ok (err e) next whole = cc
>>=-eq-ok (ok found) next whole = (found, refl, whole)

pub ok_injective {ℓ} : {A : Type ℓ} (a b : A) → ok a ≡ ok b → a ≡ b
ok_injective a b e = cc

-- Durations are counted in nanoseconds.
pub record Config : Type 0 where
  pub active_poll_interval : ℤ
  pub subscriber_grace : ℤ
  pub operation_timeout : ℤ
  pub idle_health_interval : ℤ
  pub queue_depth : ℤ
  pub event_buffer : ℤ
  pub disable_refresh : Bool

abbrev pub is_negative : ℤ → Bool
is_negative a = ltb_ℤ a (pos 0)

-- A field that is zero takes its default.
unfoldable pub or_default : ℤ → ℕ → ℤ
or_default (pos n) d = if n == 0 then pos d else pos n
or_default (negsuc n) d = negsuc n

unfoldable pub normalized : Config → Result Config
normalized c =
    if is_negative c.active_poll_interval
      || is_negative c.subscriber_grace
      || is_negative c.operation_timeout
      || is_negative c.idle_health_interval
      || is_negative c.queue_depth
      || is_negative c.event_buffer
    then err negative_config
    else ok (record c {
      active_poll_interval = or_default c.active_poll_interval 2_500_000_000;
      subscriber_grace = or_default c.subscriber_grace 15_000_000_000;
      operation_timeout = or_default c.operation_timeout 10_000_000_000;
      queue_depth = or_default c.queue_depth 64;
      event_buffer = or_default c.event_buffer 32;
    })

pub data Action : Type 0 where
  on off toggle raise lower stop tilt_open tilt_close short_press long_press activate : Action
  -- a request may name any other action
  other : Text → Action

pub record Capability : Type 0 where
  pub action : Action
  pub experimental : Bool

pub data PowerState : Type 0 where
  unknown power_off power_on : PowerState

pub data ConnectionStatus : Type 0 where
  connected disconnected : ConnectionStatus

pub record Snapshot : Type 0 where
  pub revision : ℕ
  pub connection : ConnectionStatus
  pub stale : Bool
  pub devices : Dict Text PowerState

-- An event carries the fields of its kind.
pub data Event : Type 0 where
  snapshot : ℕ → Snapshot → Event
  state : ℕ → Text → PowerState → Event
  connection : ℕ → ConnectionStatus → Bool → Event

abbrev pub event_revision : Event → ℕ
event_revision (snapshot r s) = r
event_revision (state r d p) = r
event_revision (connection r c s) = r

pub record PolledChannel : Type 0 where
  pub device_id : Text
  pub channel : ℤ

in_range : ℤ → Bool
in_range a = if is_negative a then false else leb (pos_part a) 63

abbrev pub is_amd : ModuleClass → Bool
is_amd amd = true
is_amd _ = false

-- The six bits of the DIP switch under the AMD module class.
unfoldable pub amd_bus_address : ChannelRef → Result ℕ
unfolding in_range
amd_bus_address ref =
    if is_amd ref.module_class && (in_range ref.dip && in_range ref.channel)
    then ok (bit_or 0x40 (pos_part ref.dip))
    else err invalid_amd_reference
