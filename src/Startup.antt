-- ===== src/Startup.antt =====
-- The start of the bridge: the project that bridge/internal/project builds is given to New of
-- bridge/internal/controller.
use mathlib.Core.List.{Permᴰ}
use phcremote_control.Prelude.{◌<◌, ◌≡◌, ◌≢◌, sym, ◌∙◌, true, List, [], ◌∷◌, All}
use phcremote_control.Prelude.Int.{pos_part}
use phcremote_control.Prelude.Dict.{Dict}
use phcremote_control.Text.{Text, Unicode}
use phcremote_control.Domain.{ChannelRef, Device, Floor, Project, stable_device_id}
use phcremote_control.Controller.Types.{ok, Config, normalized, is_amd}
use phcremote_control.Controller.Types.Laws.{amd_bus_address_ok}
use phcremote_control.Controller.Build.{Controller, new}
use phcremote_control.Controller.Build.Accepts.{IsAcceptable, new-accepts}
use phcremote_control.Project.Errors as Project
use phcremote_control.Project.Builder.{FloorBuilder, build_project}
use phcremote_control.Project.Channels.{RawChannel, ToolAction}
use phcremote_control.Project.Motors.{MotorKey, MotorChannel}
use phcremote_control.Project.Builder.Identities.{build_project-once}
use phcremote_control.Project.Builder.References.{
  IsIdentified, FloorsIdentified, build_project-FloorsIdentified,
}

-- The addresses of an output are within six bits.
abbrev pub InRange : Device → Type 0
InRange d =
    is_amd d.ref.module_class ≡ true → (pos_part d.ref.dip < 64) × (pos_part d.ref.channel < 64)

stable_device_id-ne-nil : (r : ChannelRef) → stable_device_id r ≢ []
unfolding stable_device_id
stable_device_id-ne-nil r e = cc

IsAcceptable-device : (d : Device) → IsIdentified d → InRange d → IsAcceptable d
IsAcceptable-device d h r = record {
  id = λ e. stable_device_id-ne-nil d.ref (sym h.id ∙ e);
  address = λ a. amd_bus_address_ok d.ref a h.dip h.channel (r a).0 (r a).1;
}

IsAcceptable-devices :
    (ds : List Device) → All IsIdentified ds → All InRange ds → All IsAcceptable ds
IsAcceptable-devices [] h r = tt
IsAcceptable-devices (d ∷ ds) h r = (IsAcceptable-device d h.0 r.0, IsAcceptable-devices ds h.1 r.1)

IsAcceptable-floors :
    (fs : List Floor)
    → FloorsIdentified fs
    → All (λ f. All InRange f.devices) fs
    → All (λ f. All IsAcceptable f.devices) fs
IsAcceptable-floors [] h r = tt
IsAcceptable-floors (f ∷ fs) h r =
    (IsAcceptable-devices f.devices h.0 r.0, IsAcceptable-floors fs h.1 r.1)

-- If ranging over the map of floors goes through each entry once, the configuration is accepted and
-- the addresses of the outputs are below 64, then New builds a controller for a project that
-- buildProject returned.
pub new-build_project :
    ⦃u : Unicode⦄ (range_motors : Dict MotorKey MotorChannel → List (MotorKey × MotorChannel))
    (range_floors : Dict Text FloorBuilder → List (Text × FloorBuilder))
    → ((m : Dict Text FloorBuilder) → Permᴰ (range_floors m) m)
    → (name : Text) (channels : List RawChannel) (actions : List ToolAction) (p : Project)
    → build_project range_motors range_floors name channels actions ≡ Project.ok p
    → All (λ f. All InRange f.devices) p.floors
    → (c c' : Config) → normalized c ≡ ok c'
    → (k : Controller) × (new p c ≡ ok k)
new-build_project range_motors range_floors perm name channels actions p e r c c' n =
    let identified =
      build_project-FloorsIdentified range_motors range_floors perm name channels actions p e in
    new-accepts p c c' n (IsAcceptable-floors p.floors identified r)
      (build_project-once range_motors range_floors perm name channels actions p e)
