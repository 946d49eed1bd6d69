-- ===== src/Controller/Lifecycle.antt =====
-- pollLoop of bridge/internal/controller/polling.go beside subscriptions and commands, as a step relation: each step is one turn of the
-- loop, or one whole call of a client.
use phcremote_control.Prelude.{
  ℕ, ◌+◌, ◌≤◌, ◌<◌, ◌^◌, ◌≡◌, refl, subst, Bool, true, false, ◌⊎◌, Option, some, List, [], ◌∷◌,
  arith, not, ◌&&◌,
}
use phcremote_control.Prelude.Int.{ℤ}
use phcremote_control.Text.{Text, Unicode}
use phcremote_control.Controller.Types.{ok, Config, Action}
use phcremote_control.Domain.{Project}
use phcremote_control.Controller.Commands.{StmClient}
use phcremote_control.Controller.Build.{Controller, new, new-assemble, assemble}
use phcremote_control.Controller.Run.{Turn, execute}
use phcremote_control.Controller.Polling.{
  Loop, System, start_loop, idle_health, on_wake, on_poll_tick, on_grace_tick, on_health_tick,
  on_refresh, probe, refresh,
}
use phcremote_control.Controller.Sessions.{subscribe, end_subscription}
use phcremote_control.Controller.Frame.{
  Frame, frame, frame-poll_module, frame-poll_sweep, frame-execute, joined, frame-subscribe,
  frame-end_subscription, end-subscribed,
}

module _ ⦃u : Unicode⦄ {W : Type 0} (client : StmClient W) where
  -- The scheduler's turns are arbitrary. The count of first subscriptions stays below 2^64.
  pub data Step (s : System W) : System W → Type 0 where
    joins :
        (buffer : ℤ) (id : ℕ) (c : Controller)
        → s.controller.subscribers.epoch + 1 < 2 ^ 64
        → subscribe buffer s.controller ≡ some (ok id, c)
        → Step s (record s { controller = c })
    leaves : (id : ℕ) → Step s (record s { controller = end_subscription id s.controller })
    commands :
        (turn : Turn) (id : Text) (a : Action)
        → Step s (
            let (r, c, w) = execute client turn id a s.controller s.world in
            record s { controller = c; world = w })
    wakes :
        (turns : ℕ → Option Turn) → s.controller.poll_wake ≡ true → Step s (on_wake client turns s)
    polls :
        (turns : ℕ → Option Turn) → s.loop.poll_timer ≡ true → Step s (on_poll_tick client turns s)
    graces : s.loop.grace_timer ≡ true → Step s (on_grace_tick client s)
    probes : (turn : Turn) → s.loop.health_timer ≡ true → Step s (on_health_tick client turn s)
    refreshes : (turn : Turn) → Step s (on_refresh client turn s)

  pub data Reach (s : System W) : System W → Type 0 where
    here : Reach s s
    next : {t v : System W} → Reach s t → Step t v → Reach s v

-- What holds between two steps, over what the loop sees of the controller.
pub record Watches (f : Frame) (l : Loop) : Type 0 where
  -- the poll timer runs exactly while the loop is active
  pub polling : l.poll_timer ≡ l.active
  -- the health timer runs exactly while it is not, where it is enabled
  pub health : l.health_timer ≡ (f.idle && not l.active)
  -- a subscriber is polled, or the loop is about to look
  pub served : f.subscribed ≡ true → (f.wake ≡ true) ⊎ (l.active ≡ true)
  pub current : f.subscribed ≡ true → l.seen_epoch ≡ f.epoch → l.active ≡ true
  -- with nobody there, the loop is idle, or about to look, or in its period of grace
  pub ends : f.subscribed ≡ false → l.active ≡ true → (f.wake ≡ true) ⊎ (l.grace_timer ≡ true)
  pub grace : l.grace_timer ≡ true → l.active ≡ true
  pub seen : l.seen_epoch ≤ f.epoch
  pub counted : f.epoch < 2 ^ 64

abbrev pub IsWatched : {W : Type 0} → System W → Type 0
IsWatched s = Watches (frame s.controller) s.loop

joined-Watches : (f : Frame) (l : Loop) → f.epoch + 1 < 2 ^ 64 → Watches f l → Watches (joined f) l
joined-Watches f l h w = ground arith

left-Watches :
    (f : Frame) (l : Loop) (b : Bool)
    → (b ≡ true → f.subscribed ≡ true)
    → Watches f l
    → Watches (record f { subscribed = b; wake = true }) l
left-Watches f l b k w = ground arith

module _ {W : Type 0} (client : StmClient W) where
  on_wake-Watches :
      (turns : ℕ → Option Turn) (s : System W) → IsWatched s → IsWatched (on_wake client turns s)
  unfolding on_wake idle_health
  on_wake-Watches turns s w =
      ground
        (arith, frame-poll_sweep client turns (record s.controller { poll_wake = false }) s.world)

  on_poll_tick-Watches :
      (turns : ℕ → Option Turn) (s : System W)
      → s.loop.poll_timer ≡ true
      → IsWatched s
      → IsWatched (on_poll_tick client turns s)
  unfolding on_poll_tick
  on_poll_tick-Watches turns s h w =
      ground (arith, frame-poll_sweep client turns s.controller s.world)

  on_grace_tick-Watches : (s : System W) → IsWatched s → IsWatched (on_grace_tick client s)
  unfolding on_grace_tick
  on_grace_tick-Watches s w = ground arith

  frame-probe :
      (turn : Turn) (as' : List ℕ) (s : System W)
      → (frame (probe client turn as' s).controller ≡ frame s.controller)
        × ((probe client turn as' s).loop ≡ s.loop)
  unfolding probe
  frame-probe turn [] s = (refl, refl)
  frame-probe turn (a ∷ as') s = (frame-poll_module client turn a s.controller s.world, refl)

  frame-refresh :
      (turn : Turn) (as' : List ℕ) (s : System W)
      → (frame (refresh client turn as' s).controller ≡ frame s.controller)
        × ((refresh client turn as' s).loop ≡ s.loop)
  unfolding refresh idle_health
  frame-refresh turn [] s = (refl, refl)
  frame-refresh turn (a ∷ as') s =
      (frame-poll_module client turn a (record s.controller { refresh_module = as' }) s.world, refl)

  on_health_tick-Watches :
      (turn : Turn) (s : System W)
      → s.loop.health_timer ≡ true
      → IsWatched s
      → IsWatched (on_health_tick client turn s)
  unfolding on_health_tick
  on_health_tick-Watches turn s h w =
      ground (arith, frame-probe turn s.controller.module_addresses s)

  on_refresh-Watches :
      (turn : Turn) (s : System W) → IsWatched s → IsWatched (on_refresh client turn s)
  unfolding on_refresh
  on_refresh-Watches turn s w = ground (arith, frame-refresh turn s.controller.refresh_module s)

  -- Each step keeps the watch.
  pub Step-Watches : ⦃u : Unicode⦄ {s t : System W} → Step client s t → IsWatched s → IsWatched t
  Step-Watches {s} (joins buffer id c h e) w =
      rw (frame-subscribe buffer s.controller c id e)
        (joined-Watches (frame s.controller) s.loop h w)
  Step-Watches {s} (leaves id) w =
      rw (frame-end_subscription id s.controller)
        (left-Watches (frame s.controller) s.loop _ (end-subscribed id s.controller) w)
  Step-Watches {s} (commands turn id a) w =
      rw (frame-execute client turn id a s.controller s.world) w
  Step-Watches {s} (wakes turns h) w = on_wake-Watches turns s w
  Step-Watches {s} (polls turns h) w = on_poll_tick-Watches turns s h w
  Step-Watches {s} (graces h) w = on_grace_tick-Watches s w
  Step-Watches {s} (probes turn h) w = on_health_tick-Watches turn s h w
  Step-Watches {s} (refreshes turn) w = on_refresh-Watches turn s w

  Reach-Watches : ⦃u : Unicode⦄ {s t : System W} → Reach client s t → IsWatched s → IsWatched t
  Reach-Watches here w = w
  Reach-Watches (next r st) w = Step-Watches st (Reach-Watches r w)

-- A controller as it is built, its loop and the STM.
abbrev pub started : {W : Type 0} → Controller → W → System W
started c w = record { controller = c; loop = start_loop c; world = w }

-- In whatever order clients come and go, with fewer than 2^64 first subscriptions, commands run with
-- whatever answers of the scheduler and timers fire, on a controller that New built: while somebody is
-- subscribed, the loop is active or has a wake-up before it; while nobody is, an active loop has a
-- wake-up or the end of its period of grace before it; the poll timer runs exactly while the loop is
-- active, and the health timer, if enabled, exactly while it is not.
pub started-Watches :
    ⦃u : Unicode⦄ {W : Type 0} (client : StmClient W) (p : Project) (k : Config) (c : Controller)
    (w : W) (t : System W)
    → new p k ≡ ok c
    → Reach client (started c w) t
    → IsWatched t
unfolding assemble start_loop idle_health
started-Watches client p k c w t e r =
    let (k', tables, one, two, same) = new-assemble p k c e in
    Reach-Watches client r (subst (λ x. IsWatched (started x w)) same (ground arith))
