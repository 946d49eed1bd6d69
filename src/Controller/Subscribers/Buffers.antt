-- ===== src/Controller/Subscribers/Buffers.antt =====
-- The buffers of the event channels of bridge/internal/controller/controller.go.
use phcremote_control.Prelude.{
  ℕ, ◌≤◌, ◌<◌, ◌≡◌, refl, false, true, some, List, [], ◌∷◌, length, length-append, arith,
  Option-cases, Bool-cases, inl, inr, ◌==◌,
}
use phcremote_control.Prelude.Int.{ℤ, pos_part}
use phcremote_control.Prelude.Dict.{Dict, nat_key, lookup, insert, delete}
use phcremote_control.Controller.Types.{Snapshot, Event, snapshot}
use phcremote_control.Controller.Subscribers.{
  Subscriber, Subscribers, offer, deliver, deliver_each, publish, publish_all, register, make_ready,
  take_first, unsubscribe, receive,
}

-- A channel has room for its snapshot, holds no more than its capacity, and nothing until it is
-- ready.
pub record IsChannel (s : Subscriber) : Type 0 where
  pub room : 0 < s.capacity
  pub bounded : length s.queue ≤ s.capacity
  pub quiet : s.ready ≡ false → s.queue ≡ []

abbrev pub AllChannels : Dict ℕ Subscriber → Type 0
AllChannels [] = Unit
AllChannels ((id, s) ∷ m) = IsChannel s × AllChannels m

abbrev pub IsSound : Subscribers → Type 0
IsSound s = AllChannels s.entries

deliver-IsChannel : (e : Event) (s : Subscriber) → IsChannel s → IsChannel (deliver e s)
unfolding deliver offer
deliver-IsChannel e s h = ground (arith, length-append s.queue (e ∷ []))

deliver_each-AllChannels :
    (e : Event) (m : Dict ℕ Subscriber) → AllChannels m → AllChannels (deliver_each e m)
unfolding deliver_each
deliver_each-AllChannels e [] h = tt
deliver_each-AllChannels e ((id, s) ∷ m) h =
    (deliver-IsChannel e s h.0, deliver_each-AllChannels e m h.1)

pub publish-IsSound : (e : Event) (s : Subscribers) → IsSound s → IsSound (publish e s)
unfolding publish
publish-IsSound e s h = deliver_each-AllChannels e s.entries h

pub publish_all-IsSound :
    (es : List Event) (s : Subscribers) → IsSound s → IsSound (publish_all es s)
unfolding publish_all
publish_all-IsSound [] s h = h
publish_all-IsSound (e ∷ es) s h = publish_all-IsSound es (publish e s) (publish-IsSound e s h)

lookup-IsChannel :
    (id : ℕ) (m : Dict ℕ Subscriber) (s : Subscriber)
    → AllChannels m
    → lookup id m ≡ some s
    → IsChannel s
unfolding lookup
lookup-IsChannel id [] s h e = cc
lookup-IsChannel id ((j, t) ∷ m) s h e = elim (Bool-cases (j == id)) [
  | inl hit ↦ ground (arith, h.0)
  | inr miss ↦ lookup-IsChannel id m s h.1 (ground arith)
]

insert-AllChannels :
    (id : ℕ) (s : Subscriber) (m : Dict ℕ Subscriber)
    → IsChannel s
    → AllChannels m
    → AllChannels (insert id s m)
unfolding insert
insert-AllChannels id s [] c h = (c, tt)
insert-AllChannels id s ((j, t) ∷ m) c h = elim (Bool-cases (j == id)) [
  | inl hit ↦ rw hit (c, h.1)
  | inr miss ↦ rw miss (h.0, insert-AllChannels id s m c h.1)
]

delete-AllChannels : (id : ℕ) (m : Dict ℕ Subscriber) → AllChannels m → AllChannels (delete id m)
unfolding delete
delete-AllChannels id [] h = tt
delete-AllChannels id ((j, t) ∷ m) h = elim (Bool-cases (j == id)) [
  | inl hit ↦ rw hit (delete-AllChannels id m h.1)
  | inr miss ↦ rw miss (h.0, delete-AllChannels id m h.1)
]

pub register-IsSound :
    (buffer default : ℤ) (s : Subscribers)
    → 0 < pos_part default
    → IsSound s
    → IsSound (register buffer default s).0
unfolding register
register-IsSound buffer default s d h =
    insert-AllChannels _ _ s.entries
      (record { room = ground arith; bounded = omega arith; quiet = λ _. refl }) h

pub unsubscribe-IsSound : (id : ℕ) (s : Subscribers) → IsSound s → IsSound (unsubscribe id s)
unfolding unsubscribe
unsubscribe-IsSound id s h = delete-AllChannels id s.entries h

take_first-IsChannel : (s : Subscriber) → IsChannel s → IsChannel (take_first s).0
unfolding take_first
take_first-IsChannel s h = ground arith

pub receive-IsSound : (id : ℕ) (s : Subscribers) → IsSound s → IsSound (receive id s).0
unfolding receive
receive-IsSound id s h = elim (Option-cases (lookup id s.entries)) [
  | inl e ↦ rw (e, receive) h
  | inr (c, e) ↦
      rw (e, receive)
        (insert-AllChannels id _ s.entries
          (take_first-IsChannel c (lookup-IsChannel id s.entries c h e)) h)
]

-- A subscriber that got its snapshot.
abbrev pub greeted : Snapshot → Subscriber → Subscriber
greeted view c = record c { ready = true; queue = snapshot view.revision view ∷ [] }

-- A subscriber that is not ready gets its snapshot at once: the send under `subsMu` never waits.
pub make_ready_greets :
    (id : ℕ) (view : Snapshot) (s : Subscribers) (c : Subscriber)
    → IsSound s
    → lookup id s.entries ≡ some c
    → c.ready ≡ false
    → (make_ready id view s ≡ some (record s { entries = insert id (greeted view c) s.entries }))
      × AllChannels (insert id (greeted view c) s.entries)
unfolding make_ready
make_ready_greets id view s c h e q =
    let k = lookup-IsChannel id s.entries c h e in
    (
      ground (arith, e, k, k.quiet q),
      insert-AllChannels id (greeted view c) s.entries
          (record { room = k.room; bounded = k.room; quiet = λ f. cc }) h,
    )
