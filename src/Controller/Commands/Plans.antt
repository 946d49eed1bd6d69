-- ===== src/Controller/Commands/Plans.antt =====
-- executeDevice of bridge/internal/controller/commands.go beside a table of the calls that the STM
-- gets.
use phcremote_control.Prelude.{
  ℕ, ◌+◌, ◌*◌, ◌<◌, ◌≡◌, refl, Bool, true, false, inl, inr, ◌&&◌, List, [], ◌∷◌, arith, any, map,
}
use phcremote_control.Prelude.Int.{ℤ, pos_part}
use phcremote_control.Text.{Unicode}
use phcremote_control.Domain.{
  DeviceKind, light, dimmer, outlet, shutter, scene, button, ChannelRef, Device, InputEvent,
  long_press, input_event_code, short_press_events, long_press_events, tip_events,
}
use phcremote_control.Controller.Bits.{bit_or_content}
use phcremote_control.Controller.Types.{
  Result-cases, is_ok, invalid_emd_reference, unsupported_action, Result, ok, err, Action, on, off,
  toggle, raise, lower, stop, tilt_open, tilt_close, short_press, long_press, activate, other,
  amd_bus_address,
}
use phcremote_control.Controller.Types.Laws.{amd_bus_address_eq}
use phcremote_control.Controller.Commands.{
  StmClient, is_jalousie, capabilities_of, same_action, supports, preferred_up_ref, is_valid_emd,
  send_events, send_input_plan, switch_output, execute_device,
}

-- One call of the STM: a telegram to a module address, or an input event of a channel.
pub data Call : Type 0 where
  telegram : ℕ → ℕ → Call
  input : ℤ → ℤ → ℕ → Call

module _ {W : Type 0} (client : StmClient W) where
  abbrev pub call : Call → W → Result (Unit {0}) × W
  call (telegram address content) w =
      let (answer, w') = client.send_telegram 0 address content w in
      (elim answer [ ok r ↦ ok tt | err e ↦ err e ], w')
  call (input dip channel event) w = client.sim_input_event 0 dip channel event 4 w

  -- The calls one after the other, up to the first that fails.
  abbrev pub perform : List Call → W → Result (Unit {0}) × W
  perform [] w = (ok tt, w)
  perform (c ∷ cs) w =
      let (answer, w') = call c w in
      let rest = perform cs w' in elim answer [ ok _ ↦ rest | err e ↦ (err e, w') ]

-- The event types of the STM, by number.
abbrev short : List ℕ
short = 2 ∷ 4 ∷ 5 ∷ []

abbrev long : List ℕ
long = 2 ∷ 3 ∷ []

abbrev tip : List ℕ
tip = 2 ∷ 4 ∷ []

abbrev pub Plan : Type 0
Plan = Result (List Call)

abbrev inputs : ChannelRef → List ℕ → List Call
inputs r es = map (λ e. input r.dip r.channel e) es

abbrev input_plan : ChannelRef → List ℕ → Plan
input_plan r es = elim (is_valid_emd r) [
  | true ↦ ok (inputs r es)
  | false ↦ err invalid_emd_reference
]

abbrev output_plan : ChannelRef → ℕ → Plan
output_plan r command = elim (amd_bus_address r) [
  | ok _ ↦ ok (telegram (64 + pos_part r.dip) (pos_part r.channel * 32 + command) ∷ [])
  | err e ↦ err e
]

-- The calls that an action stands for; an error is found before the first of them.
abbrev pub plan : Device → Action → Plan
plan d on = output_plan d.ref 2
plan d off = output_plan d.ref 3
plan d toggle = output_plan d.ref 6
plan d raise = input_plan (preferred_up_ref d) short
plan d lower = input_plan d.ref short
plan d stop = input_plan d.ref long
plan d tilt_open = input_plan (preferred_up_ref d) tip
plan d tilt_close = input_plan d.ref tip
plan d activate = input_plan d.ref short
plan d short_press = input_plan d.ref short
plan d long_press = input_plan d.ref long
plan d (other s) = err unsupported_action

module _ {W : Type 0} (client : StmClient W) where
  abbrev pub run_plan : Plan → W → Result (Unit {0}) × W
  run_plan (ok cs) w = perform client cs w
  run_plan (err e) w = (err e, w)

  send_events-perform :
      (r : ChannelRef) (es : List InputEvent) (w : W)
      → send_events client r es w ≡ perform client (inputs r (map input_event_code es)) w
  unfolding send_events
  send_events-perform r [] w = refl
  send_events-perform r (e ∷ es) w = ground (
    arith,
    send_events-perform r es (client.sim_input_event 0 r.dip r.channel (input_event_code e) 4 w).1,
  )

  send_input_plan-run :
      (r : ChannelRef) (es : List InputEvent) (ns : List ℕ) (w : W)
      → map input_event_code es ≡ ns
      → send_input_plan client r es w ≡ run_plan (input_plan r ns) w
  unfolding send_input_plan
  send_input_plan-run r es ns w e = rw (← e) (ground (arith, send_events-perform r es w))

  switch_output-run :
      (d : Device) (command : ℕ) (w : W)
      → command < 8
      → switch_output client d command w ≡ run_plan (output_plan d.ref command) w
  unfolding switch_output
  switch_output-run d command w h = elim (Result-cases (amd_bus_address d.ref)) [
    | inl (a, e) ↦
        let f = amd_bus_address_eq d.ref a e in
        ground (arith, e, f, bit_or_content (pos_part d.ref.channel) command)
    | inr (x, e) ↦ ground (arith, e)
  ]

  -- Each action makes exactly the calls of the table, in their order and up to the first that
  -- fails, and returns the error of that one.
  pub execute_device-run :
      (d : Device) (a : Action) (w : W) → execute_device client d a w ≡ run_plan (plan d a) w
  unfolding execute_device short_press_events long_press_events tip_events input_event_code
  execute_device-run d on w = switch_output-run d 2 w (omega arith)
  execute_device-run d off w = switch_output-run d 3 w (omega arith)
  execute_device-run d toggle w = switch_output-run d 6 w (omega arith)
  execute_device-run d raise w =
      send_input_plan-run (preferred_up_ref d) short_press_events short w refl
  execute_device-run d lower w = send_input_plan-run d.ref short_press_events short w refl
  execute_device-run d stop w = send_input_plan-run d.ref long_press_events long w refl
  execute_device-run d tilt_open w = send_input_plan-run (preferred_up_ref d) tip_events tip w refl
  execute_device-run d tilt_close w = send_input_plan-run d.ref tip_events tip w refl
  execute_device-run d activate w = send_input_plan-run d.ref short_press_events short w refl
  execute_device-run d short_press w = send_input_plan-run d.ref short_press_events short w refl
  execute_device-run d long_press w = send_input_plan-run d.ref long_press_events long w refl
  execute_device-run d (other s) w = refl

-- The references that a device of each kind has.
abbrev pub has_refs : DeviceKind → Device → Bool
has_refs light d = is_ok (amd_bus_address d.ref)
has_refs outlet d = is_ok (amd_bus_address d.ref)
has_refs _ d = is_valid_emd d.ref && is_valid_emd (preferred_up_ref d)

-- There is something to send.
abbrev pub sends : Plan → Bool
sends (ok []) = false
sends (ok (c ∷ cs)) = true
sends (err e) = false

plan_of_kind :
    (k : DeviceKind) (jalousie : Bool) (d : Device) (a : Action)
    → has_refs k d ≡ true
    → any (λ c. same_action c.action a) (capabilities_of k jalousie) ≡ true
    → sends (plan d a) ≡ true
unfolding capabilities_of same_action
plan_of_kind light j d a h s = ground arith
plan_of_kind outlet j d a h s = ground arith
plan_of_kind shutter j d a h s = ground arith
plan_of_kind scene j d a h s = ground arith
plan_of_kind button j d a h s = ground arith
plan_of_kind dimmer j d a h s = ground arith

-- If a device has the valid references of its kind and supports an action, the plan of the action
-- passes every local check and has something to send.
pub supports-plan :
    ⦃u : Unicode⦄ (d : Device) (a : Action)
    → has_refs d.kind d ≡ true
    → supports d a ≡ true
    → sends (plan d a) ≡ true
unfolding supports
supports-plan d a h s = plan_of_kind d.kind (is_jalousie d) d a h s

abbrev pub is_shutter : DeviceKind → Bool
is_shutter shutter = true
is_shutter _ = false

offers_tilt :
    (k : DeviceKind) (j : Bool)
    → any (λ c. same_action c.action tilt_open) (capabilities_of k j) ≡ (is_shutter k && j)
unfolding capabilities_of same_action
offers_tilt k j = ground arith

-- Slats can be tilted exactly on a shutter that is named a jalousie.
pub supports-tilt_open :
    ⦃u : Unicode⦄ (d : Device) → supports d tilt_open ≡ (is_shutter d.kind && is_jalousie d)
unfolding supports
supports-tilt_open d = offers_tilt d.kind (is_jalousie d)
