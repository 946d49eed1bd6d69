-- ===== src/Project/Motors.antt =====
-- The channels of motors in bridge/internal/project/parser.go.
use phcremote_control.Prelude.{◌≡◌, ◌↔◌, Bool, true, ◌&&◌, arith}
use phcremote_control.Prelude.Int.{ℤ, eq_ℤ, eq_ℤ_iff}
use phcremote_control.Prelude.Dict.{Key, Dict, insert}
use phcremote_control.Text.{Text, text_key, ◌==ₜ◌, ==ₜ_iff}
use phcremote_control.Project.Labels.{Direction, up, down}

pub record MotorKey : Type 0 where
  pub sort_index : ℤ
  pub floor : Text
  pub category : Text
  pub label : Text

pub record MotorChannel : Type 0 where
  pub module_addr : ℤ
  pub channel : ℤ

abbrev pub same_key : MotorKey → MotorKey → Bool
same_key a b =
    eq_ℤ a.sort_index b.sort_index
    && a.floor ==ₜ b.floor
    && a.category ==ₜ b.category
    && a.label ==ₜ b.label

pub same_key_iff : (a b : MotorKey) → (same_key a b ≡ true) ↔ (a ≡ b)
same_key_iff a b = ground (
  arith,
  eq_ℤ_iff a.sort_index b.sort_index,
  ==ₜ_iff a.floor b.floor,
  ==ₜ_iff a.category b.category,
  ==ₜ_iff a.label b.label,
)

instance abbrev pub motor_key : Key MotorKey
motor_key = record { beq = same_key; beq_iff = same_key_iff }

-- downChannels and upChannels
pub record Motors : Type 0 where
  pub downs : Dict MotorKey MotorChannel
  pub ups : Dict MotorKey MotorChannel

abbrev pub put_motor : Direction → MotorKey → MotorChannel → Motors → Motors
put_motor down key value ms = record ms { downs = insert key value ms.downs }
put_motor up key value ms = record ms { ups = insert key value ms.ups }
