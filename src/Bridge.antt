-- ===== src/Bridge.antt =====
-- bridge/cmd/phc-bridge/main.go: the start, the reload function and the background loader.
pub mod Seeds
pub mod Reloads
pub mod Waits
use phcremote_control.Prelude.{
  ℕ, ◌*◌, Bool, true, false, ◌||◌, Option, none, some, ◌⊎◌, inr, List, [], ◌∷◌, ltb, if◌then◌else◌,
}
use phcremote_control.Prelude.Int.{ℤ}
use phcremote_control.Text.{Text, codes, ◌==ₜ◌, Unicode}
use phcremote_control.Domain.{Project}
use phcremote_control.Controller.Types as Controller
use phcremote_control.Controller.Types.{Config}
use phcremote_control.Controller.Build.{Controller, new}
use phcremote_control.Controller.Run.{Turn}
use phcremote_control.Controller.Access.{run_background}
use phcremote_control.Project.Errors as Project
use phcremote_control.Project.Errors.{◌>>=◌}
use phcremote_control.Project.Download.{FileChunk, ChunkReader, download}
use phcremote_control.Project.Archive.{Entry, extract}
use phcremote_control.Project.Parse.{Decoders, parse_files}
use phcremote_control.Cache as Cache
use phcremote_control.Cache.{Codec, Disk, Store, Run, load, save}
use phcremote_control.Stm.Client.{Exchange, Client}
use phcremote_control.Stm.Client.Chunks.{file_reader}

-- What the program uses of Go's library: the zip reader, the XML decoder and JSON.
pub record Libraries : Type 0 where
  pub unzip : List ℕ → Option (List Entry)
  pub decoders : Decoders
  pub codec : Codec

-- An empty project.
abbrev pub no_project : Project
no_project = record { name = []; floors = [] }

-- What the first controller is built from.
unfoldable pub seed_of : Cache.Result (Option Project) → Project
seed_of (Cache.err e) = no_project
seed_of (Cache.ok none) = no_project
seed_of (Cache.ok (some p)) = p

-- The first controller; an error ends the program.
unfoldable pub start : Codec → Config → Option Store → Disk → Controller.Result Controller
unfolding seed_of
start codec config store disk = new (seed_of (load codec store disk)) config

-- The answer of a chunk's operation, or what the controller says where it was not awaited.
answered : Controller.Result (FileChunk ⊎ Project.ReadError) → FileChunk ⊎ Project.ReadError
answered (Controller.ok a) = a
answered (Controller.err e) = inr (Project.from_controller e)

with_answer : {A W : Type 0} → A × W → Controller.Result A × W
with_answer (a, w) = (Controller.ok a, w)

-- scheduledReader.ReadFile, with what the scheduler answers to each chunk.
unfoldable pub scheduled_reader :
    {W : Type 0} → Exchange W → (ℕ → Turn) → Controller → ChunkReader (Client W)
unfolding answered with_answer
scheduled_reader post turns control i w =
    let (answer, w') =
      run_background (turns i) (λ c. with_answer (file_reader post i c)) control w in
    (answered answer, w')

-- The result of the reload function.
pub data Loaded : Type 0 where
  loaded : Controller → Loaded
  project_failed : Project.ProjectError → Loaded
  controller_failed : Controller.Error → Loaded

unfoldable pub of_controller : Controller.Result Controller → Loaded
of_controller (Controller.ok k) = loaded k
of_controller (Controller.err e) = controller_failed e

module _ ⦃u : Unicode⦄ (libraries : Libraries) {W : Type 0} (post : Exchange W) where
  unfoldable pub parse_archive : Project.Result (List ℕ) → Project.Result Project
  parse_archive (Project.err e) = Project.err e
  parse_archive (Project.ok zip) = extract (libraries.unzip zip) >>= parse_files libraries.decoders

  -- Download, Extract and Parse.
  unfoldable pub fetch_project :
      (ℕ → Turn) → Controller → Client W → Project.Result Project × Client W
  unfolding parse_archive
  fetch_project turns control c =
      let (zip, c') = download (scheduled_reader post turns control) c in (parse_archive zip, c')

  -- A Save that fails is only logged.
  unfoldable pub keep_project :
      Config → Option Store → Run → Project.Result Project → Disk → Loaded × Disk
  unfolding of_controller
  keep_project config store run (Project.err e) disk = (project_failed e, disk)
  keep_project config store run (Project.ok p) disk =
      let (_, disk') = save libraries.codec store run p disk in
      (of_controller (new p config), disk')

  unfoldable pub reload_project :
      Config
      → Option Store
      → Run
      → (ℕ → Turn)
      → Controller
      → Client W
      → Disk
      → Loaded × Client W × Disk
  unfolding fetch_project keep_project
  reload_project config store run turns control c disk =
      let (p, c') = fetch_project turns control c in
      let (answer, disk') = keep_project config store run p disk in (answer, c', disk')

-- How an attempt of the background loader goes: the project is there, it failed, or the context
-- ended during it or during the wait after it.
pub data Attempt : Type 0 where
  succeeds fails stops_in stops_after : Attempt

abbrev pub max_backoff : ℕ
max_backoff = 60_000_000_000

unfoldable pub next_backoff : ℕ → ℕ
next_backoff backoff = if ltb max_backoff (backoff * 2) then max_backoff else backoff * 2

-- The waits that are begun, and whether the project was loaded; `none` while the loader goes on.
unfoldable pub load_from : ℕ → List Attempt → List ℕ × Option Bool
unfolding next_backoff
load_from backoff [] = ([], none)
load_from backoff (succeeds ∷ as') = ([], some true)
load_from backoff (stops_in ∷ as') = ([], some false)
load_from backoff (stops_after ∷ as') = (backoff ∷ [], some false)
load_from backoff (fails ∷ as') =
    let (waits, end_state) = load_from (next_backoff backoff) as' in (backoff ∷ waits, end_state)

-- Two seconds at first.
unfoldable pub background_loader : List Attempt → List ℕ × Option Bool
unfolding load_from
background_loader = load_from 2_000_000_000

-- envOr, on the variable's value.
unfoldable pub env_or : Text → Text → Text
env_or value fallback = if value ==ₜ [] then fallback else value

-- strconv.ParseBool
unfoldable pub parse_bool : Text → Option Bool
parse_bool s =
    if s ==ₜ codes "1"
      || s ==ₜ codes "t"
      || s ==ₜ codes "T"
      || s ==ₜ codes "true"
      || s ==ₜ codes "TRUE"
      || s ==ₜ codes "True"
    then some true
    else if s ==ₜ codes "0"
        || s ==ₜ codes "f"
        || s ==ₜ codes "F"
        || s ==ₜ codes "false"
        || s ==ₜ codes "FALSE"
        || s ==ₜ codes "False"
    then some false
    else none

or_bool : Bool → Option Bool → Bool
or_bool fallback none = fallback
or_bool fallback (some b) = b

unfoldable pub env_bool : Text → Bool → Bool
unfolding parse_bool or_bool
env_bool value fallback = if value ==ₜ [] then fallback else or_bool fallback (parse_bool value)

-- envDuration with time.ParseDuration; `none` ends the program.
unfoldable pub env_duration : (Text → Option ℤ) → Text → ℤ → Option ℤ
env_duration parse value fallback = if value ==ₜ [] then some fallback else parse value

pub data Level : Type 0 where
  debug info warn error : Level

-- newLogger
unfoldable pub log_level : Text → Level
log_level s =
    if s ==ₜ codes "debug"
    then debug
    else if s ==ₜ codes "warn"
    then warn
    else if s ==ₜ codes "error"
    then error
    else info
