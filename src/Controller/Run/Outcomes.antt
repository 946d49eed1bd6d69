-- ===== src/Controller/Run/Outcomes.antt =====
-- Execute of bridge/internal/controller/commands.go: its outcome on each path.
use phcremote_control.Prelude.{
  ℕ, ◌+◌, ◌≡◌, ◌≢◌, ◌⊎◌, inl, inr, refl, sym, subst, fun_ext, true, false, Option, none, some,
  arith, if◌then◌else◌,
}
use phcremote_control.Prelude.Dict.{lookup}
use phcremote_control.Text.{Text, text_key, Unicode}
use phcremote_control.Domain.{Device}
use phcremote_control.Controller.Types.{
  Error, negative_config, invalid_amd_reference, invalid_emd_reference, scheduler_stopped,
  nil_operation, nil_background_operation, device_without_id, duplicate_device, nil_client,
  canceled, deadline_exceeded, bad_reply_length, not_an_int, stm, controller_stopped,
  device_not_found, unsupported_action, Result, ok, err, Action, connected, disconnected,
}
use phcremote_control.Controller.Commands.{StmClient, supports}
use phcremote_control.Controller.Commands.Plans.{run_plan, plan, execute_device-run}
use phcremote_control.Controller.State.{State, u64, record_connected, record_disconnected}
use phcremote_control.Controller.Build.{Controller}
use phcremote_control.Controller.Run.{
  Turn, scheduled, apply, is_failure, note_error, request_refresh, conclude, run_command, execute,
}

pub record_connected-connection : (s : State) → (record_connected s).0.connection ≡ connected
unfolding record_connected
record_connected-connection s = ground arith

record_disconnected-state :
    (s : State)
    → ((record_disconnected s).0.connection ≡ disconnected)
      × ((record_disconnected s).0.stale ≡ true)
unfolding record_disconnected
record_disconnected-state s = ground arith

-- What an error leaves: all as it was after a cancellation or when the scheduler stopped, and else a
-- state that is disconnected and stale.
abbrev pub AfterError : Error → Controller → Controller → Type 0
AfterError e c c' =
    ((c' ≡ c) × ((e ≡ canceled) ⊎ (e ≡ scheduler_stopped)))
    ⊎ ((c'.command_id ≡ c.command_id)
        × (c'.state.connection ≡ disconnected)
        × (c'.state.stale ≡ true)
        × (e ≢ canceled)
        × (e ≢ scheduler_stopped))

is_failure-cases :
    (e : Error)
    → ((is_failure e ≡ false) × ((e ≡ canceled) ⊎ (e ≡ scheduler_stopped)))
      ⊎ ((is_failure e ≡ true) × (e ≢ canceled) × (e ≢ scheduler_stopped))
unfolding is_failure
is_failure-cases canceled = inl (refl, inl refl)
is_failure-cases scheduler_stopped = inl (refl, inr refl)
is_failure-cases negative_config = inr (refl, (λ e. cc), λ e. cc)
is_failure-cases invalid_amd_reference = inr (refl, (λ e. cc), λ e. cc)
is_failure-cases invalid_emd_reference = inr (refl, (λ e. cc), λ e. cc)
is_failure-cases controller_stopped = inr (refl, (λ e. cc), λ e. cc)
is_failure-cases device_not_found = inr (refl, (λ e. cc), λ e. cc)
is_failure-cases unsupported_action = inr (refl, (λ e. cc), λ e. cc)
is_failure-cases nil_operation = inr (refl, (λ e. cc), λ e. cc)
is_failure-cases nil_background_operation = inr (refl, (λ e. cc), λ e. cc)
is_failure-cases device_without_id = inr (refl, (λ e. cc), λ e. cc)
is_failure-cases duplicate_device = inr (refl, (λ e. cc), λ e. cc)
is_failure-cases nil_client = inr (refl, (λ e. cc), λ e. cc)
is_failure-cases deadline_exceeded = inr (refl, (λ e. cc), λ e. cc)
is_failure-cases (bad_reply_length n) = inr (refl, (λ e. cc), λ e. cc)
is_failure-cases not_an_int = inr (refl, (λ e. cc), λ e. cc)
is_failure-cases (stm n) = inr (refl, (λ e. cc), λ e. cc)

pub note_error-AfterError : (e : Error) (c : Controller) → AfterError e c (note_error e c)
unfolding note_error apply
note_error-AfterError e c = elim (is_failure-cases e) [
  | inl (quiet, which) ↦ inl (ground (arith, quiet), which)
  | inr (loud, one, other) ↦
      let down = record_disconnected-state c.state in
      inr (ground (arith, loud), ground (arith, loud, down), ground (arith, loud, down), one, other)
]

abbrev pub AfterSuccess : ℕ → Controller → Controller → Type 0
AfterSuccess n c c' =
    (c'.command_id ≡ n)
    × (c'.state ≡ (record_connected c.state).0)
    × (c'.state.connection ≡ connected)

conclude-ok :
    (id : Text) (x : Unit {0}) (c : Controller)
    → ((conclude id (ok x) c).0 ≡ ok (u64 (c.command_id + 1)))
      × AfterSuccess (u64 (c.command_id + 1)) c (conclude id (ok x) c).1
unfolding conclude request_refresh apply
conclude-ok id x c = ground (arith, record_connected-connection c.state)

-- The answer to a command, from what the scheduler gives.
abbrev pub Answers :
    {W : Type 0} → Controller → Result (Unit {0}) × W → Result ℕ × Controller × W → Type 0
Answers c (ok _, w') (r, c', w'') =
    (w'' ≡ w') × (r ≡ ok (u64 (c.command_id + 1))) × AfterSuccess (u64 (c.command_id + 1)) c c'
Answers c (err e, w') (r, c', w'') = (w'' ≡ w') × (r ≡ err e) × AfterError e c c'

module _ ⦃u : Unicode⦄ {W : Type 0} (client : StmClient W) (turn : Turn) (id : Text) (a : Action)
    (c : Controller) (w : W) where
  -- The refusals before anything is scheduled, in the order in which they are tried.
  abbrev pub refusal : Option Error
  refusal = if c.stopped then some controller_stopped else elim (lookup id c.devices) [
    | none ↦ some device_not_found
    | some d ↦ if supports d a then none else some unsupported_action
  ]

  conclude-Answers :
      (r : Result (Unit {0}) × W) → Answers c r (let (x, c') = conclude id r.0 c in (x, c', r.1))
  conclude-Answers (ok x, w') = let (number, after) = conclude-ok id x c in (refl, number, after)
  conclude-Answers (err e, w') =
      (refl, unfold conclude in refl, unfold conclude in note_error-AfterError e c)

  run_command-Answers :
      (d : Device)
      → Answers c
          (scheduled turn (run_plan client (plan d a)) w)
          (run_command client turn d a id c w)
  unfolding run_command
  run_command-Answers d = rw (← fun_ext (execute_device-run client d a)) (conclude-Answers _)

  -- A command that is not refused goes to the scheduler, as the plan of its device. If all its
  -- calls succeed, the state is connected and the command gets the next number; an error comes back
  -- as it is, with the number unused, and puts the state down unless it is a cancellation.
  pub execute_accepted :
      (d : Device)
      → lookup id c.devices ≡ some d
      → refusal ≡ none
      → Answers c (scheduled turn (run_plan client (plan d a)) w) (execute client turn id a c w)
  unfolding execute
  execute_accepted d found h =
      let e : execute client turn id a c w ≡ run_command client turn d a id c w = ground arith in
      subst (Answers c (scheduled turn (run_plan client (plan d a)) w)) (sym e)
        (run_command-Answers d)
