-- ===== src/Controller/Subscribers/Gaps.antt =====
-- A slow consumer of the events of bridge/internal/controller, and the gaps that it sees.
use mathlib.Core.List.{append-nil, append_assoc}
use phcremote_control.Prelude.{
  ℕ, suc, ◌+◌, ◌^◌, ◌<◌, ◌≡◌, refl, sym, ap, ◌∙◌, true, List, [], ◌∷◌, ◌++◌, length, length-append,
  arith, Bool-cases, inl, inr, ltb,
}
use phcremote_control.Prelude.Dict.{Dict}
use phcremote_control.Controller.Types.{Event, event_revision, PolledChannel}
use phcremote_control.Controller.State.{State, snapshot_of, u64}
use phcremote_control.Controller.State.Mirror.{
  follow_all, Counts, Change, change_all, change_all-Tells,
}
use phcremote_control.Controller.Subscribers.{Subscriber, offer, deliver}

-- The first list is the second one with some events left out.
pub data Within : List Event → List Event → Type 0 where
  done : Within [] []
  keeps : {es fs : List Event} (e : Event) → Within es fs → Within (e ∷ es) (e ∷ fs)
  drops : {es fs : List Event} (e : Event) → Within es fs → Within es (e ∷ fs)

Within-nil : (es : List Event) → Within [] es
Within-nil [] = done
Within-nil (e ∷ es) = drops e (Within-nil es)

-- What a subscriber that is ready gets of a row of events.
unfoldable pub deliver_all : List Event → Subscriber → Subscriber
deliver_all [] s = s
deliver_all (e ∷ es) s = deliver_all es (deliver e s)

-- The buffer of a ready subscriber grows by some of the events delivered to it, in their order.
pub deliver_all-Within :
    (es : List Event) (s : Subscriber)
    → s.ready ≡ true
    → (kept : List Event) × ((deliver_all es s).queue ≡ s.queue ++ kept) × Within kept es
unfolding deliver_all deliver offer
deliver_all-Within [] s h = ([], ground (arith, append-nil s.queue), done)
deliver_all-Within (e ∷ es) s h = elim (Bool-cases (ltb (length s.queue) s.capacity)) [
  | inl room ↦
      let (kept, q, w) = deliver_all-Within es (record s { queue = s.queue ++ e ∷ [] }) h in
      (e ∷ kept, ground (arith, q, append_assoc s.queue (e ∷ []) kept), keeps e w)
  | inr full ↦ let (kept, q, w) = deliver_all-Within es s h in (kept, ground (arith, q), drops e w)
]

-- An event further on has a later revision.
revision-Within :
    (r last : ℕ) (e : Event) (es fs : List Event)
    → Counts r fs last
    → Within (e ∷ es) fs
    → (k : ℕ) × (k < length fs) × (event_revision e ≡ u64 (r + suc k))
revision-Within r last e es [] c w = elim w [ ]
revision-Within r last e es (g ∷ fs) c (keeps _ w) = (0, omega arith, c.0)
revision-Within r last e es (f ∷ fs) c (drops _ w) =
    let (k, below, is) = revision-Within (event_revision f) last e es fs c.1 w in
    (suc k, omega arith, omega (arith, c.0, is))

-- Revisions without a gap: nothing was missed before the last of them.
pub contiguous-prefix :
    (r last seen : ℕ) (es fs : List Event)
    → Counts r fs last
    → Counts r es seen
    → Within es fs
    → length fs < 2 ^ 64
    → (later : List Event) × (fs ≡ es ++ later)
contiguous-prefix r last seen [] fs c k w h = (fs, refl)
contiguous-prefix r last seen (e ∷ es) [] c k w h = elim w [ ]
contiguous-prefix r last seen (e ∷ es) (g ∷ fs) c k (keeps _ w) h =
    let (later, eq) =
      contiguous-prefix (event_revision e) last seen es fs c.1 k.1 w (omega arith) in
    (later, ap (◌∷◌ e) eq)
contiguous-prefix r last seen (e ∷ es) (f ∷ fs) c k (drops _ w) h =
    let (n, below, is) = revision-Within (event_revision f) last e es fs c.1 w in
    absurd (omega (arith, c.0, k.0, is))

Counts-rest :
    (r seen last : ℕ) (es fs : List Event)
    → Counts r (es ++ fs) last
    → Counts r es seen
    → Counts seen fs last
Counts-rest r seen last [] [] c k = c ∙ sym k
Counts-rest r seen last [] (f ∷ fs) c k = ground arith
Counts-rest r seen last (e ∷ es) fs c k = Counts-rest (event_revision e) seen last es fs c.1 k.1

Counts-length :
    (r last : ℕ) (e : Event) (es : List Event)
    → Counts r (e ∷ es) last
    → last ≡ u64 (r + length (e ∷ es))
Counts-length r last e [] c = omega (arith, c.0, c.1)
Counts-length r last e (f ∷ es) c =
    omega (arith, c.0, Counts-length (event_revision e) last f es c.1)

Counts-still : (r : ℕ) (es : List Event) → Counts r es r → length es < 2 ^ 64 → es ≡ []
Counts-still r [] c h = refl
Counts-still r (e ∷ es) c h = absurd (omega (arith, Counts-length r r e es c))

-- A client that got some of the events of a row of changes, fewer than 2^64, and whose revisions count
-- up without a gap from its snapshot to the revision of the controller, holds the controller's
-- snapshot.
pub contiguous_view :
    (modules : Dict ℕ (List PolledChannel)) (cs : List Change) (s : State) (es : List Event)
    → let r = change_all modules cs s in
      length r.1 < 2 ^ 64
      → Within es r.1
      → Counts s.revision es r.0.revision
      → follow_all (snapshot_of s) es ≡ snapshot_of r.0
contiguous_view modules cs s es h w c =
    let r = change_all modules cs s in
    let t = change_all-Tells modules cs s in
    let (later, eq) =
      contiguous-prefix s.revision r.0.revision r.0.revision es r.1 t.counts c w h in
    let rest = Counts-rest s.revision r.0.revision r.0.revision es later (rw eq at t.counts) c in
    let none_left =
      Counts-still r.0.revision later rest (omega (arith, ap length eq, length-append es later)) in
    ap (follow_all (snapshot_of s)) (sym (append-nil es) ∙ ap (◌++◌ es) (sym none_left) ∙ sym eq)
    ∙ t.view
