-- ===== src/Web/Handler/Safety.antt =====
-- What a request has to be to change something in bridge/internal/web.
use phcremote_control.Prelude.{
  ◌≤◌, ◌≡◌, ◌≢◌, ◌⊎◌, inl, inr, refl, ap, Bool, true, false, Option, none, some, Option-cases,
  arith, if◌then◌else◌,
}
use phcremote_control.Text.{Text, codes, ◌==ₜ◌, ==ₜ_sound, has_prefix, Unicode}
use phcremote_control.Controller.Types.{Action}
use phcremote_control.Web.Server.{Backend, Library, Server, Body, Request, Response}
use phcremote_control.Web.Guards.{
  require_method, equal_host, security, check_mutation, is_json, require_mutation,
}
use phcremote_control.Web.Reload.{ReloadFunc, reload}
use phcremote_control.Web.Api.{
  max_json_body, decode_json, command_device, send_command, command_api, run_reload, reload_api,
  empty_body,
}
use phcremote_control.Web.Handler.{route, serve}

-- A request from the site's own pages that may change something.
abbrev pub IsMutation : {B : Type 0} → Library → Server B → Request → Type 0
IsMutation library s r =
    (equal_host library s r.host s.origin.host ≡ true)
    × (r.method ≡ codes "POST")
    × (r.origin ≡ s.origin.text)
    × (library.media_type r.content_type ≡ some (codes "application/json"))
    × (library.equal_fold r.sec_fetch_site (codes "cross-site") ≡ false)
    × (r.body.bytes ≤ max_json_body)
    × (r.body.is_single ≡ true)

abbrev Passes : {B : Type 0} → Library → Server B → Request → Type 0
Passes library s r =
    (r.method ≡ codes "POST")
    × (r.origin ≡ s.origin.text)
    × (library.media_type r.content_type ≡ some (codes "application/json"))
    × (library.equal_fold r.sec_fetch_site (codes "cross-site") ≡ false)

require_method-none : (m : Text) (r : Request) → require_method m r ≡ none → r.method ≡ m
unfolding require_method
require_method-none m r e = ==ₜ_sound r.method m (ground arith)

module _ (library : Library) {B : Type 0} (s : Server B) where
  is_json-type :
      (t : Option Text) → is_json library s t ≡ true → t ≡ some (codes "application/json")
  unfolding is_json
  is_json-type none e = cc
  is_json-type (some t) e = ap some (==ₜ_sound t (codes "application/json") e)

  check_mutation-none :
      (r : Request)
      → check_mutation library s r ≡ none
      → (r.origin ≡ s.origin.text)
        × (library.media_type r.content_type ≡ some (codes "application/json"))
        × (library.equal_fold r.sec_fetch_site (codes "cross-site") ≡ false)
  unfolding check_mutation
  check_mutation-none r e = (
    ==ₜ_sound r.origin s.origin.text (ground arith),
    is_json-type (library.media_type r.content_type) (ground arith),
    ground arith,
  )

  require_mutation-none : (r : Request) → require_mutation library s r ≡ none → Passes library s r
  unfolding require_mutation
  require_mutation-none r e = elim (Option-cases (require_method (codes "POST") r)) [
    | inr (refusal, refused) ↦ absurd (ground (arith, refused))
    | inl fine ↦
        let method = require_method-none (codes "POST") r fine in
        let rest = check_mutation-none r (ground (arith, fine)) in (method, rest.0, rest.1, rest.2)
  ]

decode_json-some {ℓ} :
    {A : Type ℓ} (b : Body) (first : Option A) (a : A)
    → decode_json b first ≡ some a
    → (b.bytes ≤ max_json_body) × (b.is_single ≡ true) × (first ≡ some a)
unfolding decode_json
decode_json-some b first a e = (ground arith, ground arith, ground arith)

module _ ⦃u : Unicode⦄ {B : Type 0} (backend : Backend B) (library : Library)
    (f : Option (ReloadFunc B)) (s : Server B) (r : Request) where
  -- What a request may do to the server: nothing, one command, or one reload.
  abbrev pub Changes : Server B → Type 0
  Changes s' =
      (s' ≡ s)
      ⊎ ((IsMutation library s r)
          × (((id : Text) × (a : Action) × (command_device r.path ≡ some id)
                × (r.body.as_command ≡ some a)
                × (s' ≡ record s { backend = (backend.execute id a s.backend).1 }))
              ⊎ ((r.path ≡ codes "/api/v1/project/reload")
                  × (r.body.as_empty ≡ true)
                  × (s' ≡ (reload backend f s).1))))

  command-Changes :
      equal_host library s r.host s.origin.host ≡ true
      → Changes ((command_api backend library s r).1)
  unfolding command_api send_command
  command-Changes host = elim (Option-cases (require_mutation library s r)) [
    | inr (refusal, refused) ↦ inl (ground (arith, refused))
    | inl passed ↦ elim (Option-cases (command_device r.path)) [
      | inl nowhere ↦ inl (ground (arith, passed, nowhere))
      | inr (id, there) ↦ elim (Option-cases (decode_json r.body r.body.as_command)) [
        | inl bad ↦ inl (ground (arith, passed, there, bad))
        | inr (a, good) ↦
            let passes = require_mutation-none library s r passed in
            let body = decode_json-some r.body r.body.as_command a good in
            inr (
              (host, passes.0, passes.1, passes.2, passes.3, body.0, body.1),
              inl (id, a, there, body.2, ground (arith, passed, there, good)),
            )
      ]
    ]
  ]

  empty_body-true :
      (b : Body) (o : Unit {0}) → empty_body backend library b ≡ some o → b.as_empty ≡ true
  unfolding empty_body
  empty_body-true b o e = ground arith

  reload-Changes :
      equal_host library s r.host s.origin.host ≡ true
      → r.path ≡ codes "/api/v1/project/reload"
      → Changes ((reload_api backend library f s r).1)
  unfolding reload_api run_reload
  reload-Changes host path = elim (Option-cases (require_mutation library s r)) [
    | inr (refusal, refused) ↦ inl (ground (arith, refused))
    | inl passed ↦
        let first = empty_body backend library r.body in
        elim (Option-cases (decode_json r.body first)) [
          | inl bad ↦ inl (ground (arith, passed, bad))
          | inr (o, good) ↦
              let passes = require_mutation-none library s r passed in
              let body = decode_json-some r.body first o good in
              inr (
                (host, passes.0, passes.1, passes.2, passes.3, body.0, body.1),
                inr (path, empty_body-true r.body o body.2, ground (arith, passed, good)),
              )
        ]
  ]

  security-none : security library s r ≡ none → equal_host library s r.host s.origin.host ≡ true
  unfolding security
  security-none e = ground arith

  choice-Changes :
      (b : Bool) (x y : Response × Server B)
      → (b ≡ true → Changes x.1)
      → Changes y.1
      → Changes ((if b then x else y).1)
  choice-Changes true x y h k = h refl
  choice-Changes false x y h k = k

  guard-Changes :
      (o : Option Response) (x : Response × Server B)
      → (o ≡ none → Changes x.1)
      → let out : Response × Server B = elim o [ some refusal ↦ (refusal, s) | none ↦ x ] in
        Changes out.1
  guard-Changes none x h = h refl
  guard-Changes (some refusal) x h = inl refl

  route-Changes :
      equal_host library s r.host s.origin.host ≡ true
      → r.path ≢ codes "/api/v1/events"
      → Changes ((route backend library f s r).1)
  unfolding route
  route-Changes host elsewhere =
      let same : Changes s = inl refl in
      choice-Changes (r.path ==ₜ codes "/api/v1/status") _ _ (λ _. same)
        (choice-Changes (r.path ==ₜ codes "/api/v1/project") _ _ (λ _. same)
          (choice-Changes (r.path ==ₜ codes "/api/v1/state") _ _ (λ _. same)
            (choice-Changes (r.path ==ₜ codes "/api/v1/events") _ _
              (λ e. absurd (elsewhere (==ₜ_sound r.path (codes "/api/v1/events") e)))
              (choice-Changes (r.path ==ₜ codes "/api/v1/project/reload") _ _
                (λ e. reload-Changes host (==ₜ_sound r.path (codes "/api/v1/project/reload") e))
                (choice-Changes (has_prefix r.path (codes "/api/v1/devices/")) _ _
                  (λ _. command-Changes host)
                  (choice-Changes (has_prefix r.path (codes "/static/")) _ _ (λ _. same) same))))))

  -- But for the start of an event stream, a request changes the server only if it has the site's host
  -- and origin, is a POST of one JSON value of at most max_json_body bytes and does not come from
  -- another site; then it executes one command, of the device that the path names and the action that
  -- the body names, or it reloads the project.
  pub serve-Changes : r.path ≢ codes "/api/v1/events" → Changes ((serve backend library f s r).1)
  unfolding serve
  serve-Changes elsewhere =
      guard-Changes (security library s r) (route backend library f s r)
        (λ passed. route-Changes (security-none passed) elsewhere)
