-- ===== src/Web/Server.antt =====
-- bridge/internal/web/server.go: the state of the server, requests and responses.
use phcremote_control.Prelude.{
  ℕ, Bool, false, not, ◌&&◌, Option, none, some, List, [], ◌∷◌, ◌++◌, ◌⊎◌, inl, inr, if◌then◌else◌,
}
use phcremote_control.Prelude.Int.{ℤ, pos, eq_ℤ, ltb_ℤ}
use phcremote_control.Prelude.Dict.{Dict, insert}
use phcremote_control.Text.{Text, codes, ◌==ₜ◌, text_key}
use phcremote_control.Domain.{DeviceKind, Project}
use phcremote_control.Web.Views.{PageData}
use phcremote_control.Controller.Types.{Result, Action, Capability, Snapshot, ConnectionStatus}

-- What the server uses of a backend `B`; Execute may change it.
pub record Backend (B : Type 0) : Type 0 where
  pub project : B → Project
  pub snapshot : B → Snapshot
  pub capabilities : Text → B → Result (List Capability)
  -- the number of the accepted command
  pub execute : Text → Action → B → Result ℕ × B
  -- for a buffer of this size, the number of the subscription; `none` where the call waits
  pub subscribe : ℤ → B → Option (Result ℕ × B)
  pub unsubscribe : ℕ → B → B
  pub close : B → B

-- What the server uses of Go's library: strings.EqualFold, mime.ParseMediaType (`none` is an error),
-- url.PathEscape and url.PathUnescape.
pub record Library : Type 0 where
  pub equal_fold : Text → Text → Bool
  pub media_type : Text → Option Text
  pub path_escape : Text → Text
  pub path_unescape : Text → Option Text

-- The parts of url.URL that New tests.
pub record Origin : Type 0 where
  pub scheme : Text
  pub host : Text
  pub path : Text
  pub raw_query : Text
  pub fragment : Text
  pub has_user : Bool
  -- URL.String
  pub text : Text

pub record Asset : Type 0 where
  pub bytes : List ℕ
  pub content_type : Text
  pub etag : Text

-- A notifier is a channel of one place: whether a reload waits in it. The backend is there from New to
-- Close.
pub record Server (B : Type 0) : Type 0 where
  pub origin : Origin
  pub stm_address : Text
  pub heartbeat : ℤ
  pub assets : Dict Text Asset
  pub backend : B
  pub next_notify : ℕ
  pub notifiers : Dict ℕ Bool

pub data WebError : Type 0 where
  bad_origin negative_heartbeat : WebError

abbrev is_exact : Option Origin → Bool
is_exact none = false
is_exact (some o) =
    o.scheme ==ₜ codes "http"
    && not (o.host ==ₜ [])
    && o.path ==ₜ []
    && o.raw_query ==ₜ []
    && o.fragment ==ₜ []
    && not o.has_user

abbrev or_heartbeat : ℤ → ℤ
or_heartbeat n = if eq_ℤ n (pos 0) then pos 15_000_000_000 else n

-- New after the backend was found not to be nil; the origin is what url.Parse gives. The templates
-- and assets are embedded and load.
unfoldable pub new_server :
    {B : Type 0} → B → Option Origin → Text → ℤ → Dict Text Asset → (Server B) ⊎ WebError
new_server b none stm heartbeat assets = inr bad_origin
new_server b (some o) stm heartbeat assets =
    if not (is_exact (some o))
    then inr bad_origin
    else if ltb_ℤ (or_heartbeat heartbeat) (pos 0)
    then inr negative_heartbeat
    else inl (record {
      origin = o;
      stm_address = stm;
      heartbeat = or_heartbeat heartbeat;
      assets = assets;
      backend = b;
      next_notify = 0;
      notifiers = [];
    })

-- An entry of the embedded directory: a subdirectory, or a file whose data can be read or not.
pub data Embedded : Type 0 where
  directory : Text → Embedded
  file : Text → Option (List ℕ) → Embedded

abbrev or_octets : Text → Text
or_octets t = if t ==ₜ [] then codes "application/octet-stream" else t

-- loadAssets, with mime.TypeByExtension of a name's extension and the SHA-256 sum in hexadecimal;
-- `none` is its error.
unfoldable pub load_assets :
    (Text → Text) → (List ℕ → Text) → List Embedded → Dict Text Asset → Option (Dict Text Asset)
load_assets type_of sum [] assets = some assets
load_assets type_of sum (directory name ∷ es) assets = load_assets type_of sum es assets
load_assets type_of sum (file name none ∷ es) assets = none
load_assets type_of sum (file name (some bytes) ∷ es) assets =
    let entry : Asset = record {
      bytes = bytes;
      content_type = or_octets (type_of name);
      etag = b'"' ∷ (sum bytes ++ b'"' ∷ []);
    } in
    load_assets type_of sum es (insert name entry assets)

-- The body of a request: its size, what the first value decodes to for the wanted type, and whether
-- nothing follows it.
pub record Body : Type 0 where
  pub bytes : ℕ
  pub as_command : Option Action
  pub as_empty : Bool
  pub is_single : Bool

pub record Request : Type 0 where
  pub method : Text
  pub host : Text
  pub path : Text
  pub lang : Text
  pub origin : Text
  pub content_type : Text
  pub sec_fetch_site : Text
  pub if_none_match : Text
  pub accept_language : Text
  -- whether the connection's writer is a http.Flusher
  pub can_flush : Bool
  pub body : Body

pub record ApiDevice : Type 0 where
  pub id : Text
  pub name : Text
  pub kind : DeviceKind
  pub category : Text
  pub capabilities : List Capability

pub record ApiFloor : Type 0 where
  pub id : Text
  pub name : Text
  pub devices : List ApiDevice

-- The responses: an error with its text, JSON values, an asset, a page.
pub data Response : Type 0 where
  http_error : ℕ → Text → Response
  json_error : ℕ → Text → Response
  status_json : ℕ → ConnectionStatus → Bool → Text → Response
  state_json : Snapshot → Response
  project_json : Text → List ApiFloor → Response
  accepted : ℕ → Response
  reloaded : Response
  asset : Asset → Response
  not_modified : Text → Response
  page : PageData → Response
  -- the start of an event stream, with the number of its subscription and of its notifier
  streaming : ℕ → ℕ → Response
  -- none yet
  waiting : Response
