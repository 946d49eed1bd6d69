-- ===== src/Controller/Types/Laws.antt =====
-- Config.normalized and amdBusAddress of bridge/internal/controller/types.go.
use phcremote_control.Prelude.{ℕ, ◌+◌, ◌<◌, ◌≡◌, arith, true, false}
use phcremote_control.Prelude.Int.{ℤ, pos, pos_part, ltb_ℤ}
use phcremote_control.Domain.{amd, ChannelRef}
use phcremote_control.Controller.Bits.{bit_or_address}
use phcremote_control.Controller.Types.{
  Config, ok, is_negative, or_default, normalized, amd_bus_address, is_amd, is_ok,
}

-- Where the queues and intervals of an accepted configuration stand: all are positive but the idle
-- health interval, which may be zero.
pub record IsUsable (c : Config) : Type 0 where
  pub polls : 0 < pos_part c.active_poll_interval
  pub grace : 0 < pos_part c.subscriber_grace
  pub timeout : 0 < pos_part c.operation_timeout
  pub health : is_negative c.idle_health_interval ≡ false
  pub queue : 0 < pos_part c.queue_depth
  pub buffer : 0 < pos_part c.event_buffer

or_default_pos : (a : ℤ) (d : ℕ) → 0 < d → is_negative a ≡ false → 0 < pos_part (or_default a d)
unfolding or_default
or_default_pos a d h n = ground arith

-- An accepted configuration has no negative field.
record IsAccepted (c d : Config) : Type 0 where
  polls : is_negative c.active_poll_interval ≡ false
  grace : is_negative c.subscriber_grace ≡ false
  timeout : is_negative c.operation_timeout ≡ false
  health : is_negative c.idle_health_interval ≡ false
  queue : is_negative c.queue_depth ≡ false
  buffer : is_negative c.event_buffer ≡ false
  result : d ≡ record c {
    active_poll_interval = or_default c.active_poll_interval 2_500_000_000;
    subscriber_grace = or_default c.subscriber_grace 15_000_000_000;
    operation_timeout = or_default c.operation_timeout 10_000_000_000;
    queue_depth = or_default c.queue_depth 64;
    event_buffer = or_default c.event_buffer 32;
  }

normalized-IsAccepted : (c d : Config) → normalized c ≡ ok d → IsAccepted c d
unfolding normalized
normalized-IsAccepted c d e = ground arith

-- In a configuration that is accepted, the poll interval, the grace, the timeout, the queue depth and
-- the event buffer are positive after the defaults are filled in, and the health interval is not
-- negative.
pub normalized-IsUsable : (c d : Config) → normalized c ≡ ok d → IsUsable d
normalized-IsUsable c d e =
    let a = normalized-IsAccepted c d e in
    rw a.result (record {
      polls = or_default_pos _ _ (omega arith) a.polls;
      grace = or_default_pos _ _ (omega arith) a.grace;
      timeout = or_default_pos _ _ (omega arith) a.timeout;
      health = a.health;
      queue = or_default_pos _ _ (omega arith) a.queue;
      buffer = or_default_pos _ _ (omega arith) a.buffer;
    })

-- If a bus address is given for a reference, the reference is an AMD one with a DIP switch and a
-- channel from 0 to 63, and the address is 64 above the DIP switch.
pub amd_bus_address_eq :
    (r : ChannelRef) (a : ℕ)
    → amd_bus_address r ≡ ok a
    → (r.module_class ≡ amd)
      × (r.dip ≡ pos (pos_part r.dip))
      × (r.channel ≡ pos (pos_part r.channel))
      × (pos_part r.dip < 64)
      × (pos_part r.channel < 64)
      × (a ≡ 64 + pos_part r.dip)
unfolding amd_bus_address
amd_bus_address_eq r a e = ground (arith, bit_or_address (pos_part r.dip))

-- An AMD reference within six bits has a bus address.
pub amd_bus_address_ok :
    (r : ChannelRef)
    → is_amd r.module_class ≡ true
    → ltb_ℤ r.dip (pos 0) ≡ false
    → ltb_ℤ r.channel (pos 0) ≡ false
    → pos_part r.dip < 64
    → pos_part r.channel < 64
    → is_ok (amd_bus_address r) ≡ true
unfolding amd_bus_address
amd_bus_address_ok r a d c l m = ground arith
