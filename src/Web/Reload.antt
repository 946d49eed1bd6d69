-- ===== src/Web/Reload.antt =====
-- Reload, install and the notifiers of bridge/internal/web/server.go and events.go.
pub mod Installs
use phcremote_control.Prelude.{ℕ, ◌+◌, ◌%◌, ◌^◌, Bool, true, false, Option, none, some, [], ◌∷◌}
use phcremote_control.Prelude.Dict.{Dict, nat_key, insert, delete}
use phcremote_control.Controller.Types.{Error, Result, ok, err}
use phcremote_control.Web.Server.{Backend, Server}

-- What Reload returns: nil, the error of the reload function, or one of its own.
pub data Reloaded : Type 0 where
  installed : Reloaded
  failed : Error → Reloaded
  unavailable no_backend : Reloaded

-- A reload function, which may use the backend that is served: an error, or the next backend, which
-- may be nil.
abbrev pub ReloadFunc : Type 0 → Type 0
ReloadFunc B = B → Result (Option B) × B

-- projectNotifier: the channel's number, which its remover forgets again.
unfoldable pub project_notifier : {B : Type 0} → Server B → ℕ × Server B
project_notifier s =
    let id = (s.next_notify + 1) % 2 ^ 64 in
    (id, record s { next_notify = id; notifiers = insert id false s.notifiers })

unfoldable pub remove_notifier : {B : Type 0} → ℕ → Server B → Server B
remove_notifier id s = record s { notifiers = delete id s.notifiers }

-- A channel that is full keeps its one signal.
unfoldable pub signal_all : Dict ℕ Bool → Dict ℕ Bool
signal_all [] = []
signal_all ((id, waiting) ∷ m) = (id, true) ∷ signal_all m

unfoldable pub notify_project_reload : {B : Type 0} → Server B → Server B
unfolding signal_all
notify_project_reload s = record s { notifiers = signal_all s.notifiers }

unfoldable pub swap : {B : Type 0} → B → Server B → B × Server B
swap next s = (s.backend, record s { backend = next })

module _ {B : Type 0} (backend : Backend B) where
  -- The server, and the previous backend after it was closed.
  unfoldable pub install : B → Server B → Server B × B
  unfolding swap notify_project_reload
  install next s =
      let (previous, s') = swap next s in (notify_project_reload s', backend.close previous)

  -- The answer of the reload function and the backend as it left it; the closed backend, if any.
  unfoldable pub finish_reload : Result (Option B) × B → Server B → Reloaded × Server B × Option B
  unfolding install
  finish_reload (err e, b) s = (failed e, record s { backend = b }, none)
  finish_reload (ok none, b) s = (no_backend, record s { backend = b }, none)
  finish_reload (ok (some next), b) s =
      let (s', closed) = install next (record s { backend = b }) in (installed, s', some closed)

  unfoldable pub reload : Option (ReloadFunc B) → Server B → Reloaded × Server B × Option B
  unfolding finish_reload
  reload none s = (unavailable, s, none)
  reload (some f) s = finish_reload (f s.backend) s

  -- Close: the backend that was served, closed; none is served any more.
  unfoldable pub close_server : Server B → B
  close_server s = backend.close s.backend
