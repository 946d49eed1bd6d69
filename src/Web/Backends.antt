-- ===== src/Web/Backends.antt =====
-- The controller of bridge/internal/controller as the interface Backend of bridge/internal/web.
use phcremote_control.Prelude.{ℕ, Option, none, some}
use phcremote_control.Text.{Text, Unicode}
use phcremote_control.Controller.Types.{Result, Action}
use phcremote_control.Controller.Commands.{StmClient}
use phcremote_control.Controller.Build.{Controller}
use phcremote_control.Controller.Run.{Turn, execute}
use phcremote_control.Controller.Sessions.{subscribe, end_subscription, close}
use phcremote_control.Controller.Access.{project_of, controller_snapshot, capabilities}
use phcremote_control.Web.Server.{Backend}

with_world {ℓ} : {W A : Type ℓ} → W → Option (A × Controller) → Option (A × (Controller × W))
with_world w none = none
with_world w (some (a, c)) = some (a, (c, w))

unfoldable pub run_execute :
    ⦃u : Unicode⦄ {W : Type 0}
    → StmClient W
    → Turn
    → Text
    → Action
    → Controller × W
    → Result ℕ × (Controller × W)
run_execute client turn id a (c, w) =
    let (r, c', w') = execute client turn id a c w in (r, (c', w'))

-- With the state of the STM, and what the scheduler answers to a command.
unfoldable pub controller_backend :
    ⦃u : Unicode⦄ {W : Type 0} → StmClient W → Turn → Backend (Controller × W)
unfolding with_world run_execute
controller_backend client turn = record {
  project = λ b. project_of b.0;
  snapshot = λ b. controller_snapshot b.0;
  capabilities = λ id b. capabilities id b.0;
  execute = λ id a b. run_execute client turn id a b;
  subscribe = λ buffer b. with_world b.1 (subscribe buffer b.0);
  unsubscribe = λ sub b. (end_subscription sub b.0, b.1);
  close = λ b. (close b.0, b.1);
}
