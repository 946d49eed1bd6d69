-- ===== src/Controller/Subscribers.antt =====
-- The event channels of bridge/internal/controller/controller.go, under `subsMu`: a channel is its
-- buffer, and a send that finds the buffer full is dropped.
pub mod Buffers
pub mod Gaps
use phcremote_control.Prelude.{
  ℕ, ◌+◌, Bool, true, false, Option, none, some, List, [], ◌∷◌, ◌++◌, length, ltb, if◌then◌else◌,
}
use phcremote_control.Prelude.Int.{ℤ, pos_part, pos, ltb_ℤ}
use phcremote_control.Prelude.Dict.{Dict, nat_key, lookup, insert, delete}
use phcremote_control.Controller.Types.{Snapshot, Event, snapshot}
use phcremote_control.Controller.State.{u64}

pub record Subscriber : Type 0 where
  pub capacity : ℕ
  pub ready : Bool
  pub queue : List Event

pub record Subscribers : Type 0 where
  pub entries : Dict ℕ Subscriber
  pub next_subscriber : ℕ
  pub epoch : ℕ

abbrev pub no_subscribers : Subscribers
no_subscribers = record { entries = []; next_subscriber = 0; epoch = 0 }

-- select { case channel <- event: default: }
unfoldable pub offer : Event → Subscriber → Subscriber
offer e s = if ltb (length s.queue) s.capacity then record s { queue = s.queue ++ e ∷ [] } else s

unfoldable pub deliver : Event → Subscriber → Subscriber
deliver e s = if s.ready then offer e s else s

unfoldable pub deliver_each : Event → Dict ℕ Subscriber → Dict ℕ Subscriber
deliver_each e [] = []
deliver_each e ((id, s) ∷ m) = (id, deliver e s) ∷ deliver_each e m

unfoldable pub publish : Event → Subscribers → Subscribers
unfolding deliver_each
publish e s = record s { entries = deliver_each e s.entries }

unfoldable pub publish_all : List Event → Subscribers → Subscribers
publish_all [] s = s
publish_all (e ∷ es) s = publish_all es (publish e s)

abbrev is_empty : Dict ℕ Subscriber → Bool
is_empty [] = true
is_empty (x ∷ m) = false

-- A buffer below one takes the configured one.
abbrev pub capacity_of : ℤ → ℤ → ℕ
capacity_of buffer default = if ltb_ℤ buffer (pos 1) then pos_part default else pos_part buffer

-- The first critical section of Subscribe: the identity, and whether it is the first subscriber.
unfoldable pub register : ℤ → ℤ → Subscribers → Subscribers × ℕ × Bool
register buffer default s =
    let id = u64 (s.next_subscriber + 1) in
    let first = is_empty s.entries in
    let entry : Subscriber = record {
      capacity = capacity_of buffer default;
      ready = false;
      queue = [];
    } in
    (
      record s {
        entries = insert id entry s.entries;
        next_subscriber = id;
        epoch = if first then u64 (s.epoch + 1) else s.epoch;
      },
      id,
      first,
    )

-- A plain send; `none` where it would wait for a receiver, with `subsMu` held.
send : Event → Subscriber → Option Subscriber
send e s =
    if ltb (length s.queue) s.capacity then some (record s { queue = s.queue ++ e ∷ [] }) else none

-- The second critical section: the subscriber, if it is still there, gets the snapshot.
unfoldable pub make_ready : ℕ → Snapshot → Subscribers → Option Subscribers
unfolding send
make_ready id view s = elim (lookup id s.entries) [
  | none ↦ some s
  | some entry ↦ elim (send (snapshot view.revision view) (record entry { ready = true })) [
    | none ↦ none
    | some entry' ↦ some (record s { entries = insert id entry' s.entries })
  ]
]

-- The cancel function of a subscription; the channel is closed and may be read to its end.
unfoldable pub unsubscribe : ℕ → Subscribers → Subscribers
unsubscribe id s = record s { entries = delete id s.entries }

-- The end of Close.
unfoldable pub close_all : Subscribers → Subscribers
close_all s = record s { entries = [] }

take_first : Subscriber → Subscriber × Option Event
take_first s = elim s.queue [ [] ↦ (s, none) | e ∷ es ↦ (record s { queue = es }, some e) ]

-- A consumer takes the oldest event of its buffer.
unfoldable pub receive : ℕ → Subscribers → Subscribers × Option Event
unfolding take_first
receive id s = elim (lookup id s.entries) [
  | none ↦ (s, none)
  | some entry ↦
      let (entry', e) = take_first entry in (record s { entries = insert id entry' s.entries }, e)
]
