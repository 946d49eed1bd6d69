-- ===== src/Controller/Sessions/Starts.antt =====
-- Subscribe of bridge/internal/controller/controller.go on a running controller.
use phcremote_control.Prelude.{
  ℕ, ◌<◌, ◌≡◌, refl, true, false, some, List, [], ◌∷◌, arith, Bool-cases, inl, inr,
}
use phcremote_control.Prelude.Int.{ℤ, pos_part}
use phcremote_control.Prelude.Dict.{Dict, nat_key, lookup, insert, lookup-insert_self}
use phcremote_control.Controller.Types.{ok, Event}
use phcremote_control.Controller.State.{snapshot_of, set_stale}
use phcremote_control.Controller.Subscribers.{
  Subscriber, Subscribers, deliver, deliver_each, publish, publish_all, register, capacity_of,
}
use phcremote_control.Controller.Subscribers.Buffers.{
  IsSound, register-IsSound, publish_all-IsSound, greeted, make_ready_greets,
}
use phcremote_control.Controller.Build.{Controller}
use phcremote_control.Controller.Run.{apply}
use phcremote_control.Controller.Sessions.{
  subscribe, begin_subscription, finish_subscription, wake_poller,
}

-- What is published does not reach a subscriber that is not ready.
lookup-deliver_each :
    (id : ℕ) (e : Event) (m : Dict ℕ Subscriber) (c : Subscriber)
    → lookup id m ≡ some c
    → c.ready ≡ false
    → lookup id (deliver_each e m) ≡ some c
unfolding deliver_each deliver lookup
lookup-deliver_each id e [] c h q = cc
lookup-deliver_each id e ((j, s) ∷ m) c h q = ground (arith, lookup-deliver_each id e m c)

lookup-publish_all :
    (id : ℕ) (es : List Event) (s : Subscribers) (c : Subscriber)
    → lookup id s.entries ≡ some c
    → c.ready ≡ false
    → lookup id (publish_all es s).entries ≡ some c
unfolding publish_all publish
lookup-publish_all id [] s c h q = h
lookup-publish_all id (e ∷ es) s c h q =
    lookup-publish_all id es (publish e s) c (lookup-deliver_each id e s.entries c h q) q

abbrev pub newcomer : ℤ → Controller → Subscriber
newcomer buffer c = record {
  capacity = capacity_of buffer c.config.event_buffer;
  ready = false;
  queue = [];
}

module _ (buffer : ℤ) (c : Controller) where
  abbrev id : ℕ
  id = (begin_subscription buffer c).0

  abbrev begun : Controller
  begun = (begin_subscription buffer c).1

  abbrev registered : Controller
  registered = record c { subscribers = (register buffer c.config.event_buffer c.subscribers).0 }

  begun-cases :
      (P : Controller → Type 0) → P (apply (set_stale true) registered) → P registered → P begun
  unfolding begin_subscription
  begun-cases P first later =
      elim (Bool-cases (register buffer c.config.event_buffer c.subscribers).2) [
        | inl e ↦ rw (e, begin_subscription) first
        | inr e ↦ rw (e, begin_subscription) later
      ]

  begun-IsSound :
      0 < pos_part c.config.event_buffer → IsSound c.subscribers → IsSound begun.subscribers
  unfolding apply
  begun-IsSound d h =
      let r = register-IsSound buffer c.config.event_buffer c.subscribers d h in
      begun-cases (λ k. IsSound k.subscribers) (publish_all-IsSound _ _ r) r

  begun-lookup : lookup id begun.subscribers.entries ≡ some (newcomer buffer c)
  unfolding apply
  begun-lookup =
      let r : lookup id registered.subscribers.entries ≡ some (newcomer buffer c) =
        (unfold register begin_subscription in
          lookup-insert_self id (newcomer buffer c) c.subscribers.entries) in
      begun-cases (λ k. lookup id k.subscribers.entries ≡ some (newcomer buffer c))
        (lookup-publish_all id _ _ (newcomer buffer c) r refl) r

  -- If the configured event buffer is positive and every channel is within its capacity, a
  -- subscription to a running controller succeeds at once: its channel holds the snapshot of the
  -- state as it then is, every channel stays within its capacity, and the poll loop is woken.
  pub subscribe_starts :
      0 < pos_part c.config.event_buffer
      → IsSound c.subscribers
      → c.stopped ≡ false
      → (n : ℕ) × (c' : Controller) × (subscribe buffer c ≡ some (ok n, c'))
        × IsSound c'.subscribers
        × (lookup n c'.subscribers.entries
            ≡ some (greeted (snapshot_of c'.state) (newcomer buffer c)))
        × (c'.poll_wake ≡ true)
  unfolding subscribe finish_subscription wake_poller
  subscribe_starts d h running =
      let view = snapshot_of begun.state in
      let subs = begun.subscribers in
      let entries = insert id (greeted view (newcomer buffer c)) subs.entries in
      let (ready, sound) =
        make_ready_greets id view subs (newcomer buffer c) (begun-IsSound d h) begun-lookup refl in
      (
        id,
        record begun { subscribers = record subs { entries = entries }; poll_wake = true },
        ground (arith, ready),
        sound,
        lookup-insert_self id _ subs.entries,
        refl,
      )
