-- ===== src/Web/Handler/Commands.antt =====
-- A command from its request in bridge/internal/web to the calls of the STM.
use phcremote_control.Prelude.{
  ℕ, ◌+◌, ◌≡◌, ◌≢◌, ◌⊎◌, refl, sym, ap, subst, true, false, inl, inr, Option, none, some, arith,
  Bool-cases,
}
use phcremote_control.Prelude.Dict.{lookup}
use phcremote_control.Text.{Text, codes, ◌==ₜ◌, ==ₜ_iff, ==ₜ_sound, has_prefix, text_key, Unicode}
use phcremote_control.Domain.{Device}
use phcremote_control.Controller.Types.{
  Error, negative_config, invalid_amd_reference, invalid_emd_reference, scheduler_stopped,
  nil_operation, nil_background_operation, device_without_id, duplicate_device, nil_client,
  canceled, deadline_exceeded, bad_reply_length, not_an_int, stm, controller_stopped,
  device_not_found, unsupported_action, Result, ok, err, Action,
}
use phcremote_control.Controller.Commands.{StmClient}
use phcremote_control.Controller.Commands.Plans.{run_plan, plan}
use phcremote_control.Controller.State.{u64}
use phcremote_control.Controller.Build.{Controller}
use phcremote_control.Controller.Run.{Turn, scheduled, execute}
use phcremote_control.Controller.Run.Outcomes.{
  refusal, Answers, AfterError, AfterSuccess, execute_accepted,
}
use phcremote_control.Web.Server.{Library, Server, Request, Response, accepted, json_error}
use phcremote_control.Web.Guards.{
  require_method, security, check_mutation, is_json, require_mutation,
}
use phcremote_control.Web.Reload.{ReloadFunc}
use phcremote_control.Web.Api.{
  controller_error, status_for_error, public_error, decode_json, command_device, command_response,
  send_command, command_api,
}
use phcremote_control.Web.Handler.{route, serve}
use phcremote_control.Web.Handler.Safety.{IsMutation}
use phcremote_control.Web.Backends.{controller_backend, run_execute}

elsewhere :
    (path t : Text)
    → has_prefix path (codes "/api/v1/devices/") ≡ true
    → has_prefix t (codes "/api/v1/devices/") ≡ false
    → (path ==ₜ t) ≡ false
elsewhere path t there away = elim (Bool-cases (path ==ₜ t)) [
  | inr other ↦ other
  | inl same ↦
      absurd
        (ground (arith, ap (λ p. has_prefix p (codes "/api/v1/devices/")) (==ₜ_sound path t same)))
]

module _ {B : Type 0} (library : Library) (s : Server B) (r : Request) where
  check_mutation-passes : IsMutation library s r → check_mutation library s r ≡ none
  unfolding check_mutation is_json
  check_mutation-passes h = ground (arith, ==ₜ_iff r.origin s.origin.text)

  require_mutation-passes : IsMutation library s r → require_mutation library s r ≡ none
  unfolding require_mutation require_method
  require_mutation-passes h =
      ground (arith, ==ₜ_iff r.method (codes "POST"), check_mutation-passes h)

-- A request for this command, from the site's own pages.
abbrev pub IsCommand : {B : Type 0} → Library → Server B → Request → Text → Action → Type 0
IsCommand library s r id a =
    (IsMutation library s r)
    × (has_prefix r.path (codes "/api/v1/devices/") ≡ true)
    × (command_device r.path ≡ some id)
    × (r.body.as_command ≡ some a)

module _ ⦃u : Unicode⦄ {W : Type 0} (client : StmClient W) (turn : Turn) (library : Library)
    (f : Option (ReloadFunc (Controller × W))) (s : Server (Controller × W)) (r : Request) where
  abbrev served : Result ℕ × Controller × W → Response × Server (Controller × W)
  served (answer, c, w) = (command_response answer, record s { backend = (c, w) })

  command_api-execute :
      (id : Text) (a : Action)
      → IsCommand library s r id a
      → command_api (controller_backend client turn) library s r
        ≡ served (execute client turn id a s.backend.0 s.backend.1)
  unfolding command_api send_command decode_json controller_backend run_execute
  command_api-execute id a h = ground (arith, h, require_mutation-passes library s r h.0)

  serve-execute :
      (id : Text) (a : Action)
      → IsCommand library s r id a
      → serve (controller_backend client turn) library f s r
        ≡ served (execute client turn id a s.backend.0 s.backend.1)
  unfolding serve route security
  serve-execute id a h = ground (
    arith,
    h,
    command_api-execute id a h,
    elsewhere r.path (codes "/api/v1/status"),
    elsewhere r.path (codes "/api/v1/project"),
    elsewhere r.path (codes "/api/v1/state"),
    elsewhere r.path (codes "/api/v1/events"),
    elsewhere r.path (codes "/api/v1/project/reload"),
  )

  -- The status and the text of the response to an error.
  abbrev pub IsShown : Error → ℕ → Text → Type 0
  IsShown e n t =
      ((e ≡ unsupported_action) × (n ≡ 409) × (t ≡ codes "action unsupported by device"))
      ⊎ (((e ≡ device_not_found) × (n ≡ 404) × (t ≡ codes "device not found"))
          ⊎ (((e ≡ deadline_exceeded) × (n ≡ 504) × (t ≡ codes "STM operation timed out"))
              ⊎ ((e ≢ unsupported_action)
                  × (e ≢ device_not_found)
                  × (e ≢ deadline_exceeded)
                  × (n ≡ 503)
                  × (t ≡ codes "STM unavailable"))))

  error-IsShown : (e : Error) → IsShown e (status_for_error e) (public_error e)
  unfolding status_for_error public_error
  error-IsShown unsupported_action = inl (refl, refl, refl)
  error-IsShown device_not_found = inr (inl (refl, refl, refl))
  error-IsShown deadline_exceeded = inr (inr (inl (refl, refl, refl)))
  error-IsShown negative_config = inr (inr (inr ((λ e. cc), (λ e. cc), (λ e. cc), refl, refl)))
  error-IsShown invalid_amd_reference =
      inr (inr (inr ((λ e. cc), (λ e. cc), (λ e. cc), refl, refl)))
  error-IsShown invalid_emd_reference =
      inr (inr (inr ((λ e. cc), (λ e. cc), (λ e. cc), refl, refl)))
  error-IsShown controller_stopped = inr (inr (inr ((λ e. cc), (λ e. cc), (λ e. cc), refl, refl)))
  error-IsShown scheduler_stopped = inr (inr (inr ((λ e. cc), (λ e. cc), (λ e. cc), refl, refl)))
  error-IsShown nil_operation = inr (inr (inr ((λ e. cc), (λ e. cc), (λ e. cc), refl, refl)))
  error-IsShown nil_background_operation =
      inr (inr (inr ((λ e. cc), (λ e. cc), (λ e. cc), refl, refl)))
  error-IsShown device_without_id = inr (inr (inr ((λ e. cc), (λ e. cc), (λ e. cc), refl, refl)))
  error-IsShown duplicate_device = inr (inr (inr ((λ e. cc), (λ e. cc), (λ e. cc), refl, refl)))
  error-IsShown nil_client = inr (inr (inr ((λ e. cc), (λ e. cc), (λ e. cc), refl, refl)))
  error-IsShown canceled = inr (inr (inr ((λ e. cc), (λ e. cc), (λ e. cc), refl, refl)))
  error-IsShown (bad_reply_length n) = inr (inr (inr ((λ e. cc), (λ e. cc), (λ e. cc), refl, refl)))
  error-IsShown not_an_int = inr (inr (inr ((λ e. cc), (λ e. cc), (λ e. cc), refl, refl)))
  error-IsShown (stm n) = inr (inr (inr ((λ e. cc), (λ e. cc), (λ e. cc), refl, refl)))

  -- The response and the server after a command, from what the scheduler gives.
  abbrev pub Replies : Result (Unit {0}) × W → Response × Server (Controller × W) → Type 0
  Replies (ok _, w') out =
      (c' : Controller) × (out
        ≡ (accepted (u64 (s.backend.0.command_id + 1)), record s { backend = (c', w') }))
      × AfterSuccess (u64 (s.backend.0.command_id + 1)) s.backend.0 c'
  Replies (err e, w') out =
      (c' : Controller) × (n : ℕ) × (t : Text) × (IsShown e n t)
      × (out ≡ (json_error n t, record s { backend = (c', w') }))
      × AfterError e s.backend.0 c'

  served-Replies :
      (answer : Result (Unit {0}) × W) (out : Result ℕ × Controller × W)
      → Answers s.backend.0 answer out
      → Replies answer (served out)
  unfolding command_response controller_error
  served-Replies (ok _, w') (r', c', w'') h = (c', ground (arith, h), h.2)
  served-Replies (err e, w') (r', c', w'') h =
      (c', status_for_error e, public_error e, error-IsShown e, ground (arith, h), h.2)

  -- A request for a command that the controller does not refuse makes the calls of the device's plan,
  -- as the scheduler runs it. The response is the number of the command, and the controller is
  -- connected, if the scheduler reports success, and otherwise the status and text of its error.
  pub serve-Replies :
      (id : Text) (a : Action) (d : Device)
      → IsCommand library s r id a
      → lookup id s.backend.0.devices ≡ some d
      → refusal client turn id a s.backend.0 s.backend.1 ≡ none
      → Replies
          (scheduled turn (run_plan client (plan d a)) s.backend.1)
          (serve (controller_backend client turn) library f s r)
  serve-Replies id a d h found free =
      let (c, w) = s.backend in
      let out = execute client turn id a s.backend.0 s.backend.1 in
      subst (Replies (scheduled turn (run_plan client (plan d a)) s.backend.1))
        (sym (serve-execute id a h))
        (served-Replies _ out
          (execute_accepted client turn id a s.backend.0 s.backend.1 d found free))
