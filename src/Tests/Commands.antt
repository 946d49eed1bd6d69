-- ===== src/Tests/Commands.antt =====
-- Commands, polling and construction on the house.
use phcremote_control.Prelude.{ℕ, ◌≡◌, refl, true, none, some, [], ◌∷◌, All}
use phcremote_control.Prelude.Int.{pos}
use phcremote_control.Prelude.Dict.{lookup, insert}
use phcremote_control.Text.{codes, text_key}
use phcremote_control.Controller.Types.{
  ok, on, toggle, raise, or_default, normalized, amd_bus_address,
}
use phcremote_control.Controller.Commands.{is_valid_emd, preferred_up_ref, supports, execute_device}
use phcremote_control.Controller.Commands.Plans.{
  plan, run_plan, has_refs, sends, execute_device-run, supports-plan,
}
use phcremote_control.Controller.State.{polled, update_channels}
use phcremote_control.Controller.State.Power.{Distinct, told, Tells, told-update}
use phcremote_control.Controller.Build.{new, add_floors, assemble}
use phcremote_control.Controller.Build.Polled.{BelongsTo, new-polled}
use phcremote_control.Controller.Run.{runs, scheduled, execute}
use phcremote_control.Controller.Run.Outcomes.{refusal, Answers, execute_accepted}
use phcremote_control.Controller.Polling.{poll_module}
use phcremote_control.Controller.Polling.Reads.{telegram, Reading, poll_module-Reading}
use phcremote_control.Tests.Data.{
  ascii, stm, lamp_ref, lamp, awning, house, defaults, settings, lamp_channel, built,
}

abbrev zero_world : ℕ
zero_world = 0

pub built-new : new house defaults ≡ ok built
unfolding new normalized add_floors lookup amd_bus_address insert or_default
built-new = refl

pub normalized-settings : normalized defaults ≡ ok settings
unfolding normalized or_default
normalized-settings = refl

lamp-address : amd_bus_address lamp_ref ≡ ok 67
unfolding amd_bus_address
lamp-address = refl

execute_device-run_example :
    execute_device stm lamp toggle zero_world ≡ run_plan stm (plan lamp toggle) zero_world
execute_device-run_example = execute_device-run stm lamp toggle zero_world

awning-refs : has_refs awning.kind awning ≡ true
unfolding is_valid_emd preferred_up_ref
awning-refs = refl

awning-supports : supports awning raise ≡ true
unfolding supports
awning-supports = refl

supports-plan_example : sends (plan awning raise) ≡ true
supports-plan_example = supports-plan awning raise awning-refs awning-supports

pub lamp-found : lookup (codes "lamp") built.devices ≡ some lamp
unfolding assemble lookup
lamp-found = refl

pub lamp-accepted : refusal stm runs (codes "lamp") on built zero_world ≡ none
unfolding assemble lookup supports
lamp-accepted = refl

execute_accepted_example :
    Answers built
      (scheduled runs (run_plan stm (plan lamp on)) zero_world)
      (execute stm runs (codes "lamp") on built zero_world)
execute_accepted_example =
    execute_accepted stm runs (codes "lamp") on built zero_world lamp lamp-found lamp-accepted

polled-Distinct : Distinct (polled built.modules 67)
unfolding assemble polled lookup
polled-Distinct = (tt, tt)

poll_module-Reading_example :
    Reading 67 built (telegram stm runs 67 zero_world) (poll_module stm runs 67 built zero_world)
poll_module-Reading_example = poll_module-Reading stm runs 67 built zero_world polled-Distinct

told-update_example :
    Tells
      (pos 4)
      built.state.states
      (lamp_channel ∷ [])
      (told (update_channels (pos 4) (lamp_channel ∷ []) built.state).1)
told-update_example = told-update (pos 4) (lamp_channel ∷ []) built.state (tt, tt)

new-polled_example :
    Distinct (polled built.modules 67) × All (BelongsTo built.devices 67) (polled built.modules 67)
new-polled_example = new-polled house defaults built built-new 67
