-- ===== src/Web/Guards.antt =====
-- bridge/internal/web/server.go: the tests that a request has to pass, and the static files.
use phcremote_control.Prelude.{Bool, false, not, ◌||◌, Option, none, some, [], if◌then◌else◌}
use phcremote_control.Prelude.Dict.{lookup}
use phcremote_control.Text.{Text, codes, ◌==ₜ◌, text_key, contains, trim_prefix, trim_suffix}
use phcremote_control.Web.Server.{
  Library, Server, Request, Asset, Response, http_error, asset, not_modified,
}

abbrev pub not_found : Response
not_found = http_error 404 (codes "404 page not found")

unfoldable pub require_method : Text → Request → Option Response
require_method method r =
    if r.method ==ₜ method then none else some (http_error 405 (codes "method not allowed"))

module _ (library : Library) {B : Type 0} (s : Server B) where
  unfoldable pub equal_host : Text → Text → Bool
  equal_host got want =
      library.equal_fold (trim_suffix got (codes ".")) (trim_suffix want (codes "."))

  -- The test of the host, before any handler.
  unfoldable pub security : Request → Option Response
  unfolding equal_host
  security r =
      if equal_host r.host s.origin.host then none else some (http_error 400 (codes "invalid host"))

  unfoldable pub is_json : Option Text → Bool
  is_json none = false
  is_json (some t) = t ==ₜ codes "application/json"

  unfoldable pub check_mutation : Request → Option Response
  unfolding is_json
  check_mutation r =
      if not (r.origin ==ₜ s.origin.text)
      then some (http_error 403 (codes "invalid origin"))
      else if not (is_json (library.media_type r.content_type))
      then some (http_error 415 (codes "content type must be application/json"))
      else if library.equal_fold r.sec_fetch_site (codes "cross-site")
      then some (http_error 403 (codes "cross-site request rejected"))
      else none

  -- `none` where the request may change something.
  unfoldable pub require_mutation : Request → Option Response
  unfolding require_method check_mutation is_json
  require_mutation r = elim (require_method (codes "POST") r) [
    | none ↦ check_mutation r
    | some refusal ↦ some refusal
  ]

  serve_asset : Request → Option Asset → Response
  serve_asset r none = not_found
  serve_asset r (some a) = if r.if_none_match ==ₜ a.etag then not_modified a.etag else asset a

  unfoldable pub static : Request → Response
  unfolding require_method serve_asset
  static r =
      let name = trim_prefix r.path (codes "/static/") in
      elim (require_method (codes "GET") r) [
        | some refusal ↦ refusal
        | none ↦
            if name ==ₜ [] || contains name (codes "/")
            then not_found
            else serve_asset r (lookup name s.assets)
      ]
