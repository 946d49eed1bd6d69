-- ===== src/Controller/Commands.antt =====
-- bridge/internal/controller/commands.go: what a device can do, and the STM calls that do it.
pub mod Plans
use Prim.Native.Nat.{bit_or}
use phcremote_control.Prelude.{
  ℕ, ◌*◌, ◌^◌, Bool, true, false, ◌&&◌, not, none, some, List, [], ◌∷◌, ◌++◌, ◌==◌, if◌then◌else◌,
  any,
}
use phcremote_control.Prelude.Int.{ℤ, pos_part}
use phcremote_control.Text.{Text, codes, contains, Unicode, to_lower, ◌==ₜ◌}
use phcremote_control.Domain.{
  ModuleClass, emd, DeviceKind, light, dimmer, outlet, shutter, scene, button, ChannelRef, Device,
  InputEvent, input_event_code, short_press_events, long_press_events, tip_events,
}
use phcremote_control.Controller.Types.{
  invalid_emd_reference, unsupported_action, Result, ok, err, is_negative, Action, on, off, toggle,
  raise, lower, stop, tilt_open, tilt_close, short_press, long_press, activate, other, Capability,
  amd_bus_address,
}

-- The interface STMClient over the state `W` of the STM and of the connection to it: each call may
-- change that state, whether it succeeds or not.
pub record StmClient (W : Type 0) : Type 0 where
  -- STM index, module address, content
  pub send_telegram : ℕ → ℕ → ℕ → W → Result (List ℤ) × W
  -- STM index, module, channel, event type, key type
  pub sim_input_event : ℕ → ℤ → ℤ → ℕ → ℕ → W → Result (Unit {0}) × W

abbrev plain : Action → Capability
plain a = record { action = a; experimental = false }

abbrev trial : Action → Capability
trial a = record { action = a; experimental = true }

jalousie_keywords : List Text
jalousie_keywords =
    codes "jalousie"
    ∷ codes "raffstore"
    ∷ codes "lamelle"
    ∷ codes "lamellen"
    ∷ codes "venetian"
    ∷ codes "slat"
    ∷ []

unfoldable pub is_jalousie : ⦃u : Unicode⦄ → Device → Bool
unfolding jalousie_keywords
is_jalousie d = any (contains (to_lower (d.category ++ b' ' ∷ d.name))) jalousie_keywords

capabilities_of : DeviceKind → Bool → List Capability
capabilities_of light j = plain on ∷ plain off ∷ plain toggle ∷ []
capabilities_of outlet j = plain on ∷ plain off ∷ plain toggle ∷ []
capabilities_of shutter j =
    (plain raise ∷ plain stop ∷ plain lower ∷ [])
    ++ (if j then trial tilt_open ∷ trial tilt_close ∷ [] else [])
capabilities_of scene j = plain activate ∷ []
capabilities_of button j = plain short_press ∷ plain long_press ∷ []
capabilities_of dimmer j = []

unfoldable pub capabilities_for : ⦃u : Unicode⦄ → Device → List Capability
unfolding capabilities_of
capabilities_for d = capabilities_of d.kind (is_jalousie d)

-- The strings of the actions are compared.
unfoldable pub same_action : Action → Action → Bool
same_action on on = true
same_action off off = true
same_action toggle toggle = true
same_action raise raise = true
same_action lower lower = true
same_action stop stop = true
same_action tilt_open tilt_open = true
same_action tilt_close tilt_close = true
same_action short_press short_press = true
same_action long_press long_press = true
same_action activate activate = true
same_action (other s) (other t) = s ==ₜ t
same_action _ _ = false

unfoldable pub supports : ⦃u : Unicode⦄ → Device → Action → Bool
unfolding capabilities_for same_action
supports d a = any (λ c. same_action c.action a) (capabilities_for d)

unfoldable pub preferred_up_ref : Device → ChannelRef
preferred_up_ref d = elim d.up_ref [ none ↦ d.ref | some r ↦ r ]

is_emd : ModuleClass → Bool
is_emd emd = true
is_emd _ = false

unfoldable pub is_valid_emd : ChannelRef → Bool
unfolding is_emd
is_valid_emd r = is_emd r.module_class && (not (is_negative r.dip) && not (is_negative r.channel))

module _ {W : Type 0} (client : StmClient W) where
  -- The loop over the events; the first failing call ends it.
  unfoldable pub send_events : ChannelRef → List InputEvent → W → Result (Unit {0}) × W
  send_events r [] w = (ok tt, w)
  send_events r (e ∷ es) w =
      let (answer, w') = client.sim_input_event 0 r.dip r.channel (input_event_code e) 4 w in
      let rest = send_events r es w' in elim answer [ ok _ ↦ rest | err x ↦ (err x, w') ]

  unfoldable pub send_input_plan : ChannelRef → List InputEvent → W → Result (Unit {0}) × W
  send_input_plan r es w =
      if is_valid_emd r then send_events r es w else (err invalid_emd_reference, w)

  forget : Result (List ℤ) × W → Result (Unit {0}) × W
  forget (ok reply, w) = (ok tt, w)
  forget (err e, w) = (err e, w)

  -- The telegram for an output: the channel above five bits of command.
  switch_output : Device → ℕ → W → Result (Unit {0}) × W
  unfolding forget
  switch_output d command w = elim (amd_bus_address d.ref) [
    | ok address ↦
        forget (client.send_telegram 0 address (bit_or (pos_part d.ref.channel * 2 ^ 5) command) w)
    | err e ↦ (err e, w)
  ]

  unfoldable pub execute_device : Device → Action → W → Result (Unit {0}) × W
  unfolding switch_output
  execute_device d on = switch_output d 2
  execute_device d off = switch_output d 3
  execute_device d toggle = switch_output d 6
  execute_device d raise = send_input_plan (preferred_up_ref d) short_press_events
  execute_device d lower = send_input_plan d.ref short_press_events
  execute_device d stop = send_input_plan d.ref long_press_events
  execute_device d tilt_open = send_input_plan (preferred_up_ref d) tip_events
  execute_device d tilt_close = send_input_plan d.ref tip_events
  execute_device d activate = send_input_plan d.ref short_press_events
  execute_device d short_press = send_input_plan d.ref short_press_events
  execute_device d long_press = send_input_plan d.ref long_press_events
  execute_device d (other s) = λ w. (err unsupported_action, w)
