-- ===== src/Controller/Frame.antt =====
-- What pollLoop of bridge/internal/controller/polling.go sees of a controller.
use phcremote_control.Prelude.{
  ℕ, ◌+◌, ◌≡◌, refl, ap, ◌∙◌, Bool, true, false, Option, none, some, List, [], ◌∷◌, ◌++◌, arith,
  Bool-cases, Option-cases, inl, inr, if◌then◌else◌,
}
use phcremote_control.Prelude.Int.{ℤ}
use phcremote_control.Prelude.Dict.{Dict, nat_key, lookup, insert, delete}
use phcremote_control.Text.{Text, text_key, Unicode}
use phcremote_control.Controller.Types.{Error, Result, ok, err, Action, Event, snapshot, Snapshot}
use phcremote_control.Controller.Commands.{StmClient, execute_device}
use phcremote_control.Controller.State.{
  State, u64, snapshot_of, set_stale, record_connected, record_disconnected,
}
use phcremote_control.Controller.Subscribers.{
  Subscriber, Subscribers, deliver_each, publish, publish_all, register, make_ready, unsubscribe,
  capacity_of,
}
use phcremote_control.Controller.Build.{Controller}
use phcremote_control.Controller.Run.{
  Turn, scheduled, apply, note_error, request_refresh, conclude, run_command, execute,
}
use phcremote_control.Controller.Polling.{
  note_reading, poll_module, sweep_from, finish_sweep, poll_sweep, idle_health, has_subscribers,
}
use phcremote_control.Controller.Sessions.{
  subscribe, begin_subscription, finish_subscription, end_subscription,
}

pub record Frame : Type 0 where
  pub subscribed : Bool
  pub epoch : ℕ
  pub wake : Bool
  pub idle : Bool

abbrev pub frame : Controller → Frame
frame c = record {
  subscribed = has_subscribers c.subscribers.entries;
  epoch = c.subscribers.epoch;
  wake = c.poll_wake;
  idle = idle_health c;
}

deliver_each-subscribed :
    (e : Event) (m : Dict ℕ Subscriber) → has_subscribers (deliver_each e m) ≡ has_subscribers m
unfolding deliver_each
deliver_each-subscribed e [] = refl
deliver_each-subscribed e (x ∷ m) = refl

publish_all-subscribed :
    (es : List Event) (s : Subscribers)
    → (has_subscribers (publish_all es s).entries ≡ has_subscribers s.entries)
      × ((publish_all es s).epoch ≡ s.epoch)
unfolding publish_all publish
publish_all-subscribed [] s = (refl, refl)
publish_all-subscribed (e ∷ es) s =
    let (a, b) = publish_all-subscribed es (publish e s) in
    (a ∙ deliver_each-subscribed e s.entries, b)

pub frame-apply : (f : State → State × List Event) (c : Controller) → frame (apply f c) ≡ frame c
unfolding apply idle_health
frame-apply f c = ground (arith, publish_all-subscribed (f c.state).1 c.subscribers)

frame-note_error : (e : Error) (c : Controller) → frame (note_error e c) ≡ frame c
unfolding note_error
frame-note_error e c = ground (arith, frame-apply record_disconnected c)

frame-note_reading :
    (a : ℕ) (r : Result ℤ) (c : Controller) → frame (note_reading a r c).1 ≡ frame c
unfolding note_reading
frame-note_reading a (ok mask) c =
    frame-apply _ (apply record_connected c) ∙ frame-apply record_connected c
frame-note_reading a (err e) c = frame-note_error e c

frame-request_refresh : (id : Text) (c : Controller) → frame (request_refresh id c) ≡ frame c
unfolding request_refresh idle_health
frame-request_refresh id c = ground arith

frame-number : (n : ℕ) (c : Controller) → frame (record c { command_id = n }) ≡ frame c
unfolding idle_health
frame-number n c = refl

frame-conclude :
    (id : Text) (r : Result (Unit {0})) (c : Controller) → frame (conclude id r c).1 ≡ frame c
unfolding conclude
frame-conclude id (err e) c = frame-note_error e c
frame-conclude id (ok x) c =
    frame-number _ (request_refresh id (apply record_connected c))
    ∙ frame-request_refresh id (apply record_connected c)
    ∙ frame-apply record_connected c

module _ {W : Type 0} (client : StmClient W) where
  pub frame-poll_module :
      (turn : Turn) (a : ℕ) (c : Controller) (w : W)
      → frame (poll_module client turn a c w).1 ≡ frame c
  unfolding poll_module
  frame-poll_module turn a c w = frame-note_reading a _ c

  frame-sweep_from :
      (turns : ℕ → Option Turn) (as' : List ℕ) (c : Controller) (w : W)
      → frame (sweep_from client turns as' c w).1 ≡ frame c
  unfolding sweep_from
  frame-sweep_from turns [] c w = refl
  frame-sweep_from turns (a ∷ as') c w = elim (Option-cases (turns a)) [
    | inl e ↦ rw (e, sweep_from) refl
    | inr (turn, e) ↦
        let r = poll_module client turn a c w in
        ground (arith, e, frame-poll_module turn a c w, frame-sweep_from turns as' r.1 r.2)
  ]

  finish_sweep-frame :
      (r : Option Bool × Controller × W) → frame (finish_sweep client r).0 ≡ frame r.1
  unfolding finish_sweep
  finish_sweep-frame (some true, c, w) = frame-apply (set_stale false) c
  finish_sweep-frame (some false, c, w) = refl
  finish_sweep-frame (none, c, w) = refl

  pub frame-poll_sweep :
      (turns : ℕ → Option Turn) (c : Controller) (w : W)
      → frame (poll_sweep client turns c w).0 ≡ frame c
  unfolding poll_sweep
  frame-poll_sweep turns c w = finish_sweep-frame _ ∙ frame-sweep_from turns c.module_addresses c w

  pub frame-execute :
      ⦃u : Unicode⦄ (turn : Turn) (id : Text) (a : Action) (c : Controller) (w : W)
      → frame (execute client turn id a c w).1 ≡ frame c
  unfolding execute run_command
  frame-execute turn id a c w = elim (Option-cases (lookup id c.devices)) [
    | inl e ↦ ground (arith, e)
    | inr (d, e) ↦
        ground (arith, e, frame-conclude id (scheduled turn (execute_device client d a) w).0 c)
  ]

insert-subscribed :
    (id : ℕ) (s : Subscriber) (m : Dict ℕ Subscriber) → has_subscribers (insert id s m) ≡ true
unfolding insert
insert-subscribed id s [] = refl
insert-subscribed id s ((j, t) ∷ m) = ground arith

-- The new subscriber: a first one begins an epoch, and each wakes the loop.
abbrev pub joined : Frame → Frame
joined f = record f {
  subscribed = true;
  epoch = if f.subscribed then f.epoch else u64 (f.epoch + 1);
  wake = true;
}

abbrev registered : ℤ → Controller → Controller
registered buffer c = record c {
  subscribers = (register buffer c.config.event_buffer c.subscribers).0;
}

frame-registered :
    (buffer : ℤ) (c : Controller)
    → frame (registered buffer c)
      ≡ record (frame c) { subscribed = true; epoch = (joined (frame c)).epoch }
unfolding register idle_health
frame-registered buffer c = ground (
  arith,
  insert-subscribed (u64 (c.subscribers.next_subscriber + 1))
      (record { capacity = capacity_of buffer c.config.event_buffer; ready = false; queue = [] })
      c.subscribers.entries,
)

frame-begin :
    (buffer : ℤ) (c : Controller)
    → frame (begin_subscription buffer c).1
      ≡ record (frame c) { subscribed = true; epoch = (joined (frame c)).epoch }
unfolding begin_subscription
frame-begin buffer c = elim (Bool-cases (register buffer c.config.event_buffer c.subscribers).2) [
  | inl first ↦
      rw (first, begin_subscription)
        (frame-apply (set_stale true) (registered buffer c) ∙ frame-registered buffer c)
  | inr later ↦ rw (later, begin_subscription) (frame-registered buffer c)
]

frame-finish :
    (m id n : ℕ) (view : Snapshot) (c c' : Controller)
    → finish_subscription m c (make_ready n view c.subscribers) ≡ some (ok id, c')
    → has_subscribers c.subscribers.entries ≡ true
    → frame c' ≡ record (frame c) { subscribed = true; wake = true }
unfolding finish_subscription make_ready idle_health
frame-finish m id n view c c' e h = elim (Option-cases (lookup n c.subscribers.entries)) [
  | inl none_there ↦ ground (arith, none_there)
  | inr (entry, there) ↦ ground (
    arith,
    there,
    insert-subscribed n
        (record entry { ready = true; queue = entry.queue ++ snapshot view.revision view ∷ [] })
        c.subscribers.entries,
  )
]

pub frame-subscribe :
    (buffer : ℤ) (c c' : Controller) (id : ℕ)
    → subscribe buffer c ≡ some (ok id, c')
    → frame c' ≡ joined (frame c)
unfolding subscribe
frame-subscribe buffer c c' id e =
    let b = begin_subscription buffer c in
    let k = frame-begin buffer c in
    let finished : finish_subscription b.0 b.1
          (make_ready b.0 (snapshot_of b.1.state) b.1.subscribers)
        ≡ some (ok id, c') =
      ground arith in
    let there = ap (λ (f : Frame). f.subscribed) k in
    ground (arith, k, frame-finish b.0 id b.0 (snapshot_of b.1.state) b.1 c' finished there)

pub frame-end_subscription :
    (id : ℕ) (c : Controller)
    → frame (end_subscription id c) ≡ record (frame c) {
      subscribed = has_subscribers (end_subscription id c).subscribers.entries;
      wake = true;
    }
unfolding end_subscription idle_health unsubscribe
frame-end_subscription id c = refl

delete-subscribed :
    (id : ℕ) (m : Dict ℕ Subscriber)
    → has_subscribers (delete id m) ≡ true
    → has_subscribers m ≡ true
unfolding delete
delete-subscribed id [] e = e
delete-subscribed id (x ∷ m) e = refl

pub end-subscribed :
    (id : ℕ) (c : Controller)
    → has_subscribers (end_subscription id c).subscribers.entries ≡ true
    → has_subscribers c.subscribers.entries ≡ true
unfolding end_subscription unsubscribe
end-subscribed id c e = delete-subscribed id c.subscribers.entries e
