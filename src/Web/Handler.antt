-- ===== src/Web/Handler.antt =====
-- Handler of bridge/internal/web/server.go, with the start and the end of eventsAPI of events.go.
pub mod Safety
pub mod Commands
use phcremote_control.Prelude.{ℕ, Option, none, some, if◌then◌else◌}
use phcremote_control.Prelude.Int.{pos}
use phcremote_control.Text.{codes, ◌==ₜ◌, has_prefix, Unicode}
use phcremote_control.Controller.Types.{Result, ok, err}
use phcremote_control.Web.Server.{
  Backend, Library, Server, Request, Response, http_error, streaming, waiting,
}
use phcremote_control.Web.Guards.{require_method, security, static}
use phcremote_control.Web.Reload.{ReloadFunc, project_notifier, remove_notifier}
use phcremote_control.Web.Api.{
  controller_error, status_api, state_api, project_api, command_api, reload_api,
}
use phcremote_control.Web.Pages.{page_response}

module _ {B : Type 0} (backend : Backend B) where
  begin_events : Option (Result ℕ × B) → Server B → Response × Server B
  begin_events none s = (waiting, s)
  begin_events (some (err e, b)) s = (controller_error e, record s { backend = b })
  begin_events (some (ok sub, b)) s =
      let (id, s') = project_notifier (record s { backend = b }) in (streaming sub id, s')

  -- eventsAPI up to its loop.
  unfoldable pub events_api : Server B → Request → Response × Server B
  unfolding require_method begin_events
  events_api s r = elim (require_method (codes "GET") r) [
    | some refusal ↦ (refusal, s)
    | none ↦
        if r.can_flush
        then begin_events (backend.subscribe (pos 32) s.backend) s
        else (http_error 500 (codes "streaming unsupported"), s)
  ]

  -- The deferred calls of eventsAPI, the last first. The subscription is one of the backend that was
  -- served when the stream began.
  unfoldable pub end_events : ℕ → ℕ → B → Server B → B × Server B
  end_events sub id b s = (backend.unsubscribe sub b, remove_notifier id s)

  -- The handlers by path; the path is one that ServeMux neither cleans nor redirects.
  unfoldable pub route :
      ⦃u : Unicode⦄ → Library → Option (ReloadFunc B) → Server B → Request → Response × Server B
  unfolding events_api status_api state_api project_api command_api reload_api static page_response
  route library f s r =
      if r.path ==ₜ codes "/api/v1/status"
      then (status_api backend s r, s)
      else if r.path ==ₜ codes "/api/v1/project"
      then (project_api backend s r, s)
      else if r.path ==ₜ codes "/api/v1/state"
      then (state_api backend s r, s)
      else if r.path ==ₜ codes "/api/v1/events"
      then events_api s r
      else if r.path ==ₜ codes "/api/v1/project/reload"
      then reload_api backend library f s r
      else if has_prefix r.path (codes "/api/v1/devices/")
      then command_api backend library s r
      else if has_prefix r.path (codes "/static/")
      then (static library s r, s)
      else (page_response backend library s r, s)

  unfoldable pub serve :
      ⦃u : Unicode⦄ → Library → Option (ReloadFunc B) → Server B → Request → Response × Server B
  unfolding route security
  serve library f s r = elim (security library s r) [
    | some refusal ↦ (refusal, s)
    | none ↦ route library f s r
  ]
