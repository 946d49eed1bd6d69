-- ===== src/Web/Api.antt =====
-- bridge/internal/web/api.go.
use phcremote_control.Prelude.{ℕ, not, ◌||◌, Option, none, some, List, [], ◌∷◌, ltb, if◌then◌else◌}
use phcremote_control.Text.{Text, codes, ◌==ₜ◌, contains, trim_prefix, has_suffix, trim_suffix}
use phcremote_control.Domain.{Device, Floor}
use phcremote_control.Controller.Types.{
  Error, device_not_found, unsupported_action, controller_stopped, deadline_exceeded, Result, ok,
  err, Action, Capability,
}
use phcremote_control.Web.Server.{
  Backend, Library, Server, Body, Request, ApiDevice, ApiFloor, Response, json_error, status_json,
  state_json, project_json, accepted, reloaded,
}
use phcremote_control.Web.Guards.{not_found, require_method, require_mutation}
use phcremote_control.Web.Reload.{Reloaded, installed, failed, ReloadFunc, reload}

abbrev pub max_json_body : ℕ
max_json_body = 1024

unfoldable pub status_for_error : Error → ℕ
status_for_error device_not_found = 404
status_for_error unsupported_action = 409
status_for_error controller_stopped = 503
status_for_error deadline_exceeded = 504
status_for_error _ = 503

unfoldable pub public_error : Error → Text
public_error device_not_found = codes "device not found"
public_error unsupported_action = codes "action unsupported by device"
public_error deadline_exceeded = codes "STM operation timed out"
public_error _ = codes "STM unavailable"

unfoldable pub controller_error : Error → Response
controller_error e = json_error (status_for_error e) (public_error e)

-- decodeJSON: a body beyond the limit is an error of one of the two Decode calls.
unfoldable pub decode_json {ℓ} : {A : Type ℓ} → Body → Option A → Option A
decode_json b first =
    if ltb max_json_body b.bytes then none else if b.is_single then first else none

unfoldable pub invalid_json : Response
invalid_json = json_error 400 (codes "invalid JSON request")

device_prefix : Text
device_prefix = codes "/api/v1/devices/"

-- The device that the path of a command names.
unfoldable pub command_device : Text → Option Text
unfolding device_prefix
command_device path =
    let remainder = trim_prefix path device_prefix in
    let id = trim_suffix remainder (codes "/commands") in
    if not (has_suffix remainder (codes "/commands"))
    then none
    else if id ==ₜ [] || contains id (codes "/")
    then none
    else some id

reload_status : Reloaded → ℕ
unfolding status_for_error
reload_status (failed e) = status_for_error e
reload_status _ = 503

unfoldable pub reload_response : Reloaded → Response
unfolding reload_status
reload_response installed = reloaded
reload_response r = json_error (reload_status r) (codes "project reload failed")

unfoldable pub command_response : Result ℕ → Response
unfolding controller_error
command_response (ok number) = accepted number
command_response (err e) = controller_error e

module _ {B : Type 0} (backend : Backend B) where
  abbrev api_device : Device → List Capability → ApiDevice
  api_device d cs = record {
    id = d.id;
    name = d.name;
    kind = d.kind;
    category = d.category;
    capabilities = cs;
  }

  -- A device whose capabilities are not found is left out.
  unfoldable pub api_devices : List Device → B → List ApiDevice
  api_devices [] b = []
  api_devices (d ∷ ds) b = elim (backend.capabilities d.id b) [
    | ok cs ↦ api_device d cs ∷ api_devices ds b
    | err e ↦ api_devices ds b
  ]

  unfoldable pub api_floors : List Floor → B → List ApiFloor
  unfolding api_devices
  api_floors [] b = []
  api_floors (f ∷ fs) b =
      record { id = f.id; name = f.name; devices = api_devices f.devices b } ∷ api_floors fs b

  unfoldable pub status_api : Server B → Request → Response
  unfolding require_method
  status_api s r = elim (require_method (codes "GET") r) [
    | some refusal ↦ refusal
    | none ↦
        let snap = backend.snapshot s.backend in
        status_json snap.revision snap.connection snap.stale ((backend.project s.backend).name)
  ]

  unfoldable pub state_api : Server B → Request → Response
  unfolding require_method
  state_api s r = elim (require_method (codes "GET") r) [
    | some refusal ↦ refusal
    | none ↦ state_json (backend.snapshot s.backend)
  ]

  unfoldable pub project_api : Server B → Request → Response
  unfolding require_method api_floors
  project_api s r = elim (require_method (codes "GET") r) [
    | some refusal ↦ refusal
    | none ↦
        let p = backend.project s.backend in project_json p.name (api_floors p.floors s.backend)
  ]

  unfoldable pub send_command : Server B → Text → Option Action → Response × Server B
  unfolding invalid_json command_response
  send_command s id none = (invalid_json, s)
  send_command s id (some a) =
      let (answer, b) = backend.execute id a s.backend in
      (command_response answer, record s { backend = b })

  module _ (library : Library) where
    unfoldable pub command_api : Server B → Request → Response × Server B
    unfolding require_mutation command_device decode_json send_command
    command_api s r = elim (require_mutation library s r) [
      | some refusal ↦ (refusal, s)
      | none ↦ elim (command_device r.path) [
        | none ↦ (not_found, s)
        | some id ↦ send_command s id (decode_json r.body r.body.as_command)
      ]
    ]

    -- The empty object, or any other without fields.
    unfoldable pub empty_body : Body → Option (Unit {0})
    empty_body b = if b.as_empty then some tt else none

    unfoldable pub run_reload :
        Option (ReloadFunc B) → Server B → Option (Unit {0}) → Response × Server B
    unfolding invalid_json reload_response
    run_reload f s none = (invalid_json, s)
    run_reload f s (some _) = let (r, s', _) = reload backend f s in (reload_response r, s')

    unfoldable pub reload_api : Option (ReloadFunc B) → Server B → Request → Response × Server B
    unfolding require_mutation decode_json run_reload empty_body
    reload_api f s r = elim (require_mutation library s r) [
      | some refusal ↦ (refusal, s)
      | none ↦ run_reload f s (decode_json r.body (empty_body r.body))
    ]
