-- ===== src/Controller/State/Mirror.antt =====
-- The event stream of bridge/internal/controller/events.go, as a client sees it that starts from a
-- snapshot and follows the events.
use phcremote_control.Prelude.{ℕ, ◌+◌, ◌≡◌, refl, ◌∙◌, ap, Bool, List, [], ◌∷◌, ◌++◌, arith}
use phcremote_control.Prelude.Int.{ℤ}
use phcremote_control.Prelude.Dict.{Dict, insert}
use phcremote_control.Text.{Text, text_key}
use phcremote_control.Controller.Types.{
  PowerState, Snapshot, Event, snapshot, state, connection, event_revision, PolledChannel,
}
use phcremote_control.Controller.State.{
  State, snapshot_of, u64, set_stale, record_connected, record_disconnected, set_power, power_at,
  update_channels, update_module_state,
}

-- What a client does with an event.
abbrev pub follow : Snapshot → Event → Snapshot
follow view (snapshot r fresh) = fresh
follow view (state r id p) = record view { revision = r; devices = insert id p view.devices }
follow view (connection r c b) = record view { revision = r; connection = c; stale = b }

abbrev pub follow_all : Snapshot → List Event → Snapshot
follow_all view [] = view
follow_all view (e ∷ es) = follow_all (follow view e) es

-- The revisions of the events count from `r` to `last`, as a uint64 does.
abbrev pub Counts : ℕ → List Event → ℕ → Type 0
Counts r [] last = last ≡ r
Counts r (e ∷ es) last = (event_revision e ≡ u64 (r + 1)) × Counts (event_revision e) es last

-- The events tell the whole of what happened.
pub record Tells (s : State) (r : State × List Event) : Type 0 where
  pub view : follow_all (snapshot_of s) r.1 ≡ snapshot_of r.0
  pub counts : Counts s.revision r.1 r.0.revision

set_stale-Tells : (b : Bool) (s : State) → Tells s (set_stale b s)
unfolding set_stale
set_stale-Tells b s = ground arith

record_connected-Tells : (s : State) → Tells s (record_connected s)
unfolding record_connected
record_connected-Tells s = ground arith

record_disconnected-Tells : (s : State) → Tells s (record_disconnected s)
unfolding record_disconnected
record_disconnected-Tells s = ground arith

set_power-Tells : (id : Text) (p : PowerState) (s : State) → Tells s (set_power id p s)
unfolding set_power
set_power-Tells id p s = ground arith

follow_all-append :
    (view : Snapshot) (xs ys : List Event)
    → follow_all view (xs ++ ys) ≡ follow_all (follow_all view xs) ys
follow_all-append view [] ys = refl
follow_all-append view (x ∷ xs) ys = follow_all-append (follow view x) xs ys

Counts-append :
    (r m last : ℕ) (xs ys : List Event)
    → Counts r xs m
    → Counts m ys last
    → Counts r (xs ++ ys) last
Counts-append r m last [] [] h k = k ∙ h
Counts-append r m last [] (y ∷ ys) h k = ground arith
Counts-append r m last (x ∷ xs) ys h k = (h.0, Counts-append (event_revision x) m last xs ys h.1 k)

pub Tells-append :
    {s t u : State} (xs ys : List Event) → Tells s (t, xs) → Tells t (u, ys) → Tells s (u, xs ++ ys)
Tells-append {s} {t} {u} xs ys h k = record {
  view = follow_all-append (snapshot_of s) xs ys ∙ ap (λ v. follow_all v ys) h.view ∙ k.view;
  counts = Counts-append s.revision t.revision u.revision xs ys h.counts k.counts;
}

update_channels-Tells :
    (bitmask : ℤ) (cs : List PolledChannel) (s : State) → Tells s (update_channels bitmask cs s)
unfolding update_channels
update_channels-Tells bitmask [] s = record { view = refl; counts = refl }
update_channels-Tells bitmask (c ∷ cs) s =
    let p = power_at bitmask c.channel in
    let r = set_power c.device_id p s in
    Tells-append r.1 (update_channels bitmask cs r.0).1 (set_power-Tells c.device_id p s)
      (update_channels-Tells bitmask cs r.0)

-- What the controller does to its state.
pub data Change : Type 0 where
  stales : Bool → Change
  connects disconnects : Change
  updates : ℕ → ℤ → Change

module _ (modules : Dict ℕ (List PolledChannel)) where
  unfoldable pub change : Change → State → State × List Event
  change (stales b) s = set_stale b s
  change connects s = record_connected s
  change disconnects s = record_disconnected s
  change (updates address bitmask) s = update_module_state modules address bitmask s

  pub change-Tells : (c : Change) (s : State) → Tells s (change c s)
  unfolding change update_module_state
  change-Tells (stales b) s = set_stale-Tells b s
  change-Tells connects s = record_connected-Tells s
  change-Tells disconnects s = record_disconnected-Tells s
  change-Tells (updates address bitmask) s = update_channels-Tells bitmask _ s

  unfoldable pub change_all : List Change → State → State × List Event
  change_all [] s = (s, [])
  change_all (c ∷ cs) s =
      let (s', now) = change c s in let (s'', later) = change_all cs s' in (s'', now ++ later)

  -- After any sequence of changes, a client that held the snapshot and followed the events holds
  -- the snapshot of the new state, and the revisions of the events count up by one, modulo 2^64.
  pub change_all-Tells : (cs : List Change) (s : State) → Tells s (change_all cs s)
  unfolding change_all
  change_all-Tells [] s = record { view = refl; counts = refl }
  change_all-Tells (c ∷ cs) s =
      let r = change c s in
      Tells-append r.1 (change_all cs r.0).1 (change-Tells c s) (change_all-Tells cs r.0)
