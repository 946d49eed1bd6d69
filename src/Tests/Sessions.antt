-- ===== src/Tests/Sessions.antt =====
-- Subscriptions, the event stream, the poll loop and the scheduler on the house.
use phcremote_control.Prelude.{
  ℕ, ◌<◌, ◌^◌, ◌≡◌, refl, true, false, some, List, [], ◌∷◌, length, arith,
}
use phcremote_control.Prelude.Int.{pos, pos_part}
use phcremote_control.Prelude.Dict.{lookup, nat_key}
use phcremote_control.Text.{codes, text_key}
use phcremote_control.Controller.Types.{ok, state, power_on, on, Event, connection, connected}
use phcremote_control.Controller.State.{
  snapshot_of, set_power, power_at, update_channels, update_module_state, polled, record_connected,
}
use phcremote_control.Controller.State.Mirror.{
  Tells, follow_all, Counts, Change, connects, updates, change, change_all, change_all-Tells,
}
use phcremote_control.Controller.Subscribers.Buffers.{IsSound, greeted}
use phcremote_control.Controller.Subscribers.Gaps.{Within, done, keeps, contiguous_view}
use phcremote_control.Controller.Build.{Controller, assemble}
use phcremote_control.Controller.Run.{runs, execute}
use phcremote_control.Controller.Polling.{System}
use phcremote_control.Controller.Sessions.{subscribe}
use phcremote_control.Controller.Sessions.Starts.{newcomer, subscribe_starts}
use phcremote_control.Controller.Lifecycle.{
  commands, here, next, IsWatched, started, started-Watches,
}
use phcremote_control.Controller.Scheduler.{
  Scheduler, new_scheduler, waiting, submit_command, turn, chosen, stop,
}
use phcremote_control.Controller.Scheduler.Accounts.{Runs, IsOrderly, held, count, run_accounts}
use phcremote_control.Tests.Commands.{built-new}
use phcremote_control.Tests.Data.{ascii, stm, house, defaults, tables, built}

abbrev zero_world : ℕ
zero_world = 0

abbrev after_command : System ℕ
after_command =
    let (r, c, w) = execute stm runs (codes "lamp") on built zero_world in
    record (started built zero_world) { controller = c; world = w }

started-Watches_example : IsWatched after_command
started-Watches_example =
    started-Watches stm house defaults built zero_world after_command built-new
      (next here (commands runs (codes "lamp") on))

abbrev row : List Change
row = connects ∷ (updates 67 (pos 4) ∷ [])

change_all-Tells_example : Tells built.state (change_all tables.modules row built.state)
change_all-Tells_example = change_all-Tells tables.modules row built.state

abbrev news : List Event
news = connection 1 connected true ∷ (state 2 (codes "lamp") power_on ∷ [])

news-row : (change_all tables.modules row built.state).1 ≡ news
unfolding change_all change record_connected update_module_state assemble update_channels polled
    lookup set_power power_at
news-row = refl

news-short : length (change_all tables.modules row built.state).1 < 2 ^ 64
news-short = rw news-row (omega arith)

news-Within : Within news (change_all tables.modules row built.state).1
news-Within = rw news-row (keeps _ (keeps _ done))

news-Counts :
    Counts built.state.revision news (change_all tables.modules row built.state).0.revision
unfolding change_all change record_connected update_module_state assemble update_channels polled
    lookup set_power power_at
news-Counts = (refl, (refl, refl))

contiguous_view_example :
    follow_all (snapshot_of built.state) news
    ≡ snapshot_of (change_all tables.modules row built.state).0
contiguous_view_example =
    contiguous_view tables.modules row built.state news news-short news-Within news-Counts

built-IsSound : IsSound built.subscribers
unfolding assemble
built-IsSound = tt

built-buffer : 0 < pos_part built.config.event_buffer
unfolding assemble
built-buffer = omega arith

built-running : built.stopped ≡ false
unfolding assemble
built-running = refl

subscribe_starts_example :
    (n : ℕ) × (c' : Controller) × (subscribe (pos 0) built ≡ some (ok n, c'))
    × IsSound c'.subscribers
    × (lookup n c'.subscribers.entries
        ≡ some (greeted (snapshot_of c'.state) (newcomer (pos 0) built)))
    × (c'.poll_wake ≡ true)
subscribe_starts_example = subscribe_starts (pos 0) built built-buffer built-IsSound built-running

abbrev waits : Scheduler
waits = record {
  depth = 2;
  commands = 7 ∷ [];
  background = 8 ∷ [];
  cancelled = false;
  place = waiting;
  replies = [];
}

abbrev polls_first : Scheduler
polls_first = record {
  depth = 2;
  commands = 7 ∷ [];
  background = [];
  cancelled = false;
  place = chosen 8;
  replies = [];
}

abbrev one_command : Scheduler
one_command = record {
  depth = 2;
  commands = [];
  background = [];
  cancelled = false;
  place = chosen 7;
  replies = [];
}

one_command-Runs : Runs (new_scheduler (pos 2)) (7 ∷ []) one_command
unfolding turn submit_command new_scheduler
one_command-Runs = Runs.turns stop (Runs.turns stop (Runs.submits 7 Runs.here refl) refl) refl

run_accounts_example : IsOrderly one_command × ((r : ℕ) → held r one_command ≡ count r (7 ∷ []))
run_accounts_example = run_accounts (pos 2) one_command-Runs
