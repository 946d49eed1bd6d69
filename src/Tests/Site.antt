-- ===== src/Tests/Site.antt =====
-- The theorems on bridge/internal/cache and bridge/internal/web, for a small site.
use phcremote_control.Prelude.{
  ℕ, ◌≡◌, refl, ap, subst, List, true, false, none, some, [], ◌∷◌, arith,
}
use phcremote_control.Prelude.Int.{pos}
use phcremote_control.Prelude.Dict.{nat_key, lookup}
use phcremote_control.Text.{codes, ◌==ₜ◌}
use phcremote_control.Domain.{Floor}
use phcremote_control.Controller.Types as Controller
use phcremote_control.Controller.Types.{on, disconnected, Snapshot}
use phcremote_control.Controller.Build.{Controller}
use phcremote_control.Controller.Run.{runs}
use phcremote_control.Cache.{unreadable, Disk, Store, Run, save}
use phcremote_control.Cache.Atomic.{IsElsewhere, IsSaved, load-save}
use phcremote_control.Web.Server.{Backend, Library, Server, Request}
use phcremote_control.Web.Reload.{ReloadFunc, reload}
use phcremote_control.Web.Events.{
  project_reload, heartbeat, EventStream, on_event, on_beat, stream_round,
}
use phcremote_control.Web.Events.Streams.{Rounds, rests, turns, shuts, IsTold, reload-IsTold}
use phcremote_control.Web.Handler.{serve}
use phcremote_control.Web.Handler.Commands.{IsCommand, Replies, serve-Replies}
use phcremote_control.Web.Guards.{equal_host}
use phcremote_control.Web.Api.{command_device}
use phcremote_control.Controller.Run.{scheduled}
use phcremote_control.Controller.Commands.Plans.{run_plan, plan}
use phcremote_control.Tests.Commands.{lamp-found, lamp-accepted}
use phcremote_control.Web.Handler.Safety.{Changes, serve-Changes}
use phcremote_control.Web.Backends.{controller_backend}
use phcremote_control.Tests.Codec.{codec, some_bytes}
use phcremote_control.Cache.{file_of, stored, stored_floors}
use phcremote_control.Tests.Data.{ascii, stm, house, lamp, awning, built}

abbrev pub store : Store
store = record { path = codes "dir/project.json"; stm_key = codes "stm" }

-- A Save that goes well.
abbrev pub good_run : Run
good_run = record {
  temp = some (codes "dir/project-1.tmp");
  chmod = true;
  write = true;
  partial = [];
  sync = true;
  close = true;
  rename = true;
  remove = true;
}

abbrev pub old_disk : Disk
old_disk = (codes "dir/project.json", unreadable) ∷ []

pub good_run-IsElsewhere : IsElsewhere good_run store
good_run-IsElsewhere name e same = ground (arith, e, same)

again :
    (bytes : List ℕ)
    → codec.marshal (file_of store house) ≡ some bytes
    → codec.unmarshal bytes ≡ some (file_of store (stored house))
unfolding stored_floors
again bytes e =
    let same : some_bytes (codec.marshal (file_of store house)) ≡ bytes = ap some_bytes e in
    subst (λ bs. codec.unmarshal bs ≡ some (file_of store (stored house))) same refl

load-save_example :
    IsSaved codec store house old_disk (save codec (some store) good_run house old_disk)
load-save_example = load-save codec store good_run house old_disk good_run-IsElsewhere again

abbrev backend : Backend (Controller × ℕ)
backend = controller_backend stm runs

abbrev library : Library
library = record {
  equal_fold = ◌==ₜ◌;
  media_type = λ t. some t;
  path_escape = λ t. t;
  path_unescape = λ t. some t;
}

abbrev server : Server (Controller × ℕ)
server = record {
  origin = record {
    scheme = codes "http";
    host = codes "phc";
    path = [];
    raw_query = [];
    fragment = [];
    has_user = false;
    text = codes "http://phc";
  };
  stm_address = codes "stm";
  heartbeat = pos 15_000_000_000;
  assets = [];
  backend = (built, 0);
  next_notify = 4;
  notifiers = (4, false) ∷ [];
}

-- A command that is accepted.
abbrev command : Request
command = record {
  method = codes "POST";
  host = codes "phc";
  path = codes "/api/v1/devices/lamp/commands";
  lang = [];
  origin = codes "http://phc";
  content_type = codes "application/json";
  sec_fetch_site = codes "same-origin";
  if_none_match = [];
  accept_language = [];
  can_flush = true;
  body = record { bytes = 15; as_command = some on; as_empty = false; is_single = true };
}

serve-Changes_example :
    Changes backend library none server command ((serve backend library none server command).1)
serve-Changes_example = serve-Changes backend library none server command (λ e. absurd cc)

command-IsCommand : IsCommand library server command (codes "lamp") on
unfolding equal_host command_device
command-IsCommand = ((refl, refl, refl, refl, refl, omega arith, refl), refl, refl, refl)

serve-Replies_example :
    Replies stm runs library none server command
      (scheduled runs (run_plan stm (plan lamp on)) 0)
      (serve backend library none server command)
serve-Replies_example =
    serve-Replies stm runs library none server command (codes "lamp") on lamp command-IsCommand
      lamp-found lamp-accepted

abbrev refreshed : ReloadFunc (Controller × ℕ)
refreshed b = (Controller.ok (some (built, 9)), b)

abbrev stream : EventStream
stream = record { queue = []; is_open = true; signal = true; sent = []; ended = false }

abbrev told : EventStream
told = record {
  queue = [];
  is_open = false;
  signal = false;
  sent = project_reload ∷ (heartbeat ∷ []);
  ended = true;
}

-- A heartbeat, then the channel is closed, and then its end is read.
beat_then_told : Rounds stream told
unfolding stream_round
beat_then_told = turns (on_beat true) refl refl (shuts (turns (on_event true) refl refl rests))

signal_waits : some true ≡ lookup 4 ((reload backend (some refreshed) server).1).notifiers
unfolding reload lookup
signal_waits = refl

reload-IsTold_example : IsTold told
unfolding lookup
reload-IsTold_example =
    reload-IsTold backend refreshed server (built, 9) (built, 0) refl 4 false refl stream told refl
      signal_waits beat_then_told

abbrev ground_floor : Floor
ground_floor = record {
  id = codes "eg";
  name = codes "EG";
  devices = lamp ∷ (awning ∷ []);
  sort_index = pos 1;
}

abbrev nothing_known : Snapshot
nothing_known = record { revision = 0; connection = disconnected; stale = true; devices = [] }
