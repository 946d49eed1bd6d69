-- ===== src/Web/Reload/Installs.antt =====
-- What Reload of bridge/internal/web/server.go leaves, on every branch.
use phcremote_control.Prelude.{ℕ, ◌≡◌, refl, Bool, true, Option, none, some, [], ◌∷◌, arith}
use phcremote_control.Prelude.Dict.{Dict, nat_key, lookup}
use phcremote_control.Controller.Types.{Result, ok, err}
use phcremote_control.Web.Server.{Backend, Server}
use phcremote_control.Web.Reload.{
  Reloaded, installed, failed, no_backend, ReloadFunc, signal_all, finish_reload, reload,
}

abbrev pub signalled : Option Bool → Option Bool
signalled none = none
signalled (some waiting) = some true

lookup-signal_all : (id : ℕ) (m : Dict ℕ Bool) → lookup id (signal_all m) ≡ signalled (lookup id m)
unfolding lookup signal_all
lookup-signal_all id [] = refl
lookup-signal_all id ((k, w) ∷ m) = ground (arith, lookup-signal_all id m)

module _ {B : Type 0} (backend : Backend B) where
  -- What is left after each answer of the reload function.
  abbrev pub Leaves : Result (Option B) × B → Server B → Reloaded × Server B × Option B → Type 0
  Leaves (ok (some next), b) s (r, s', closed) =
      (r ≡ installed)
      × (s'.backend ≡ next)
      × (closed ≡ some (backend.close b))
      × ((id : ℕ) → lookup id s'.notifiers ≡ signalled (lookup id s.notifiers))
  Leaves (ok none, b) s (r, s', closed) =
      (r ≡ no_backend) × (s' ≡ record s { backend = b }) × (closed ≡ none)
  Leaves (err e, b) s (r, s', closed) =
      (r ≡ failed e) × (s' ≡ record s { backend = b }) × (closed ≡ none)

  finish-Leaves :
      (answer : Result (Option B) × B) (s : Server B)
      → Leaves answer s (finish_reload backend answer s)
  unfolding finish_reload
  finish-Leaves (ok (some next), b) s = (refl, refl, refl, λ id. lookup-signal_all id s.notifiers)
  finish-Leaves (ok none, b) s = (refl, refl, refl)
  finish-Leaves (err e, b) s = (refl, refl, refl)

  -- A reload with a next backend serves that, closes the previous one as the reload function left it,
  -- and puts a signal into each registered notifier; a reload that fails, or gives no backend, keeps
  -- the previous one open and signals nobody.
  pub reload-Leaves :
      (f : ReloadFunc B) (s : Server B) → Leaves (f s.backend) s (reload backend (some f) s)
  unfolding reload
  reload-Leaves f s = finish-Leaves (f s.backend) s
