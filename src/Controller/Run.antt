-- ===== src/Controller/Run.antt =====
-- Execute of bridge/internal/controller/commands.go on a running controller. The scheduler's answer to an operation is an argument, a `Turn`; the queue itself
-- is in `Scheduler`.
pub mod Outcomes
use phcremote_control.Prelude.{
  ℕ, ◌+◌, Bool, true, false, none, some, List, [], ◌∷◌, ◌++◌, length, ltb, if◌then◌else◌,
}
use phcremote_control.Prelude.Int.{pos_part}
use phcremote_control.Prelude.Dict.{lookup}
use phcremote_control.Text.{Text, text_key, Unicode}
use phcremote_control.Domain.{Device}
use phcremote_control.Controller.Types.{
  Error, controller_stopped, device_not_found, unsupported_action, canceled, scheduler_stopped,
  Result, ok, err, Action, Event,
}
use phcremote_control.Controller.Commands.{StmClient, supports, execute_device}
use phcremote_control.Controller.State.{State, u64, record_connected, record_disconnected}
use phcremote_control.Controller.Subscribers.{publish_all}
use phcremote_control.Controller.Build.{Controller}

-- How the scheduler answers: it runs the operation and hands over its result; or the caller's
-- context or the scheduler ends first, before the operation is run or while its result is awaited.
pub data Turn : Type 0 where
  runs : Turn
  refuses : Error → Turn
  abandons : Error → Turn

unfoldable pub scheduled {ℓ} :
    {A : Type ℓ} {W : Type ℓ} → Turn → (W → Result A × W) → W → Result A × W
scheduled runs op w = op w
scheduled (refuses e) op w = (err e, w)
scheduled (abandons e) op w = (err e, (op w).1)

-- The state changes under its lock, then its events are published.
unfoldable pub apply : (State → State × List Event) → Controller → Controller
apply f c =
    let (s, es) = f c.state in record c { state = s; subscribers = publish_all es c.subscribers }

-- err != context.Canceled && err != ErrSchedulerStopped
unfoldable pub is_failure : Error → Bool
is_failure canceled = false
is_failure scheduler_stopped = false
is_failure _ = true

unfoldable pub note_error : Error → Controller → Controller
note_error e c = if is_failure e then apply record_disconnected c else c

-- A refresh that finds its channel full is dropped.
unfoldable pub enqueue_refresh : ℕ → Controller → Controller
enqueue_refresh address c =
    if ltb (length c.refresh_module) (pos_part c.config.queue_depth)
    then record c { refresh_module = c.refresh_module ++ address ∷ [] }
    else c

unfoldable pub request_refresh : Text → Controller → Controller
unfolding enqueue_refresh
request_refresh id c = elim (lookup id c.device_modules) [
  | none ↦ c
  | some address ↦ if c.config.disable_refresh then c else enqueue_refresh address c
]

-- The last part of Execute, on the scheduler's answer.
unfoldable pub conclude : Text → Result (Unit {0}) → Controller → Result ℕ × Controller
conclude id (err e) c = (err e, note_error e c)
conclude id (ok _) c =
    let c' = request_refresh id (apply record_connected c) in
    let n = u64 (c'.command_id + 1) in (ok n, record c' { command_id = n })

module _ ⦃u : Unicode⦄ {W : Type 0} (client : StmClient W) where
  unfoldable pub run_command :
      Turn → Device → Action → Text → Controller → W → Result ℕ × Controller × W
  run_command turn d a id c w =
      let (answer, w') = scheduled turn (execute_device client d a) w in
      let (result, c') = conclude id answer c in (result, c', w')

  -- The number of the command stands for its text.
  unfoldable pub execute : Turn → Text → Action → Controller → W → Result ℕ × Controller × W
  execute turn id a c w =
      if c.stopped then (err controller_stopped, c, w) else elim (lookup id c.devices) [
        | none ↦ (err device_not_found, c, w)
        | some d ↦
            if supports d a then run_command turn d a id c w else (err unsupported_action, c, w)
      ]
