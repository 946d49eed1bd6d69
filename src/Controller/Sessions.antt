-- ===== src/Controller/Sessions.antt =====
-- Subscribe, its cancel function and Close of bridge/internal/controller/controller.go.
pub mod Starts
use phcremote_control.Prelude.{ℕ, true, Option, none, some, if◌then◌else◌}
use phcremote_control.Prelude.Int.{ℤ}
use phcremote_control.Controller.Types.{controller_stopped, Result, ok, err}
use phcremote_control.Controller.State.{snapshot_of, set_stale}
use phcremote_control.Controller.Subscribers.{
  Subscribers, register, make_ready, unsubscribe, close_all,
}
use phcremote_control.Controller.Build.{Controller}
use phcremote_control.Controller.Run.{apply}

-- A wake-up that finds one pending is dropped.
unfoldable pub wake_poller : Controller → Controller
wake_poller c = record c { poll_wake = true }

-- After the first critical section; the first subscriber makes the state stale.
unfoldable pub begin_subscription : ℤ → Controller → ℕ × Controller
begin_subscription buffer c =
    let (subs, id, first) = register buffer c.config.event_buffer c.subscribers in
    let c' : Controller = record c { subscribers = subs } in
    (id, if first then apply (set_stale true) c' else c')

unfoldable pub finish_subscription :
    ℕ → Controller → Option Subscribers → Option (Result ℕ × Controller)
unfolding wake_poller
finish_subscription id c none = none
finish_subscription id c (some subs) = some (ok id, wake_poller (record c { subscribers = subs }))

-- `none` where the send of the snapshot would wait for ever.
unfoldable pub subscribe : ℤ → Controller → Option (Result ℕ × Controller)
subscribe buffer c =
    let (id, c') = begin_subscription buffer c in
    if c.stopped
    then some (err controller_stopped, c)
    else finish_subscription id c' (make_ready id (snapshot_of c'.state) c'.subscribers)

-- The cancel function.
unfoldable pub end_subscription : ℕ → Controller → Controller
unfolding wake_poller
end_subscription id c = wake_poller (record c { subscribers = unsubscribe id c.subscribers })

unfoldable pub close : Controller → Controller
close c = record c { stopped = true; subscribers = close_all c.subscribers }
