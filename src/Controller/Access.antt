-- ===== src/Controller/Access.antt =====
-- What bridge/internal/controller tells of a controller, and RunBackground.
use phcremote_control.Prelude.{Option, none, some, List, if◌then◌else◌}
use phcremote_control.Prelude.Dict.{lookup}
use phcremote_control.Text.{Text, text_key, Unicode}
use phcremote_control.Domain.{Device, Project}
use phcremote_control.Controller.Types.{
  controller_stopped, device_not_found, Result, ok, err, Capability, Snapshot,
}
use phcremote_control.Controller.Commands.{capabilities_for}
use phcremote_control.Controller.State.{snapshot_of}
use phcremote_control.Controller.Build.{Controller}
use phcremote_control.Controller.Run.{Turn, scheduled}

-- Project, Device and Snapshot
unfoldable pub project_of : Controller → Project
project_of c = c.project

unfoldable pub device_of : Text → Controller → Option Device
device_of id c = lookup id c.devices

unfoldable pub controller_snapshot : Controller → Snapshot
controller_snapshot c = snapshot_of c.state

unfoldable pub capabilities : ⦃u : Unicode⦄ → Text → Controller → Result (List Capability)
unfolding device_of
capabilities id c = elim (device_of id c) [
  | none ↦ err device_not_found
  | some d ↦ ok (capabilities_for d)
]

-- The operation is not nil.
unfoldable pub run_background {ℓ} :
    {A : Type ℓ} {W : Type ℓ} → Turn → (W → Result A × W) → Controller → W → Result A × W
run_background turn op c w = if c.stopped then (err controller_stopped, w) else scheduled turn op w
