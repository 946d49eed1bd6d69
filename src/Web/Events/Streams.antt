-- ===== src/Web/Events/Streams.antt =====
-- Event streams of bridge/internal/web/events.go during a reload.
use phcremote_control.Prelude.{
  ℕ, ◌≡◌, ◌⊎◌, inl, inr, Bool, true, false, some, List, [], ◌∷◌, ◌++◌, arith, subst,
}
use phcremote_control.Prelude.Dict.{nat_key, lookup}
use phcremote_control.Controller.Types.{Event, ok}
use phcremote_control.Web.Server.{Backend, Server}
use phcremote_control.Web.Reload.{ReloadFunc, reload}
use phcremote_control.Web.Reload.Installs.{Leaves, reload-Leaves}
use phcremote_control.Web.Events.{
  Message, project_reload, EventStream, Case, on_done, on_reload, on_event, on_beat, on_queue,
  stream_round,
}

-- A choice of a client that stays and can be written to.
abbrev pub IsServed : Case → Type 0
IsServed on_done = ⊥
IsServed on_reload = Unit
IsServed (on_event wrote) = wrote ≡ true
IsServed (on_beat wrote) = wrote ≡ true

-- Rounds, each of a case that is ready; between them the controller adds events to the queue or closes
-- the channel.
pub data Rounds : EventStream → EventStream → Type 0 where
  rests : {t : EventStream} → Rounds t t
  turns :
      (c : Case) {t u v : EventStream}
      → IsServed c
      → stream_round c t ≡ some u
      → Rounds u v
      → Rounds t v
  arrives :
      (e : Event) {t v : EventStream}
      → Rounds (record t { queue = t.queue ++ e ∷ [] }) v
      → Rounds t v
  shuts : {t v : EventStream} → Rounds (record t { is_open = false }) v → Rounds t v

-- The reload is still to be told, or was the last that was written.
abbrev pub IsTold : EventStream → Type 0
IsTold t =
    ((t.ended ≡ false) × (t.signal ≡ true))
    ⊎ ((t.ended ≡ true) × ((ms : List Message) × (t.sent ≡ project_reload ∷ ms)))

on_queue-IsTold :
    (q : List Event) (t u : EventStream)
    → t.signal ≡ true
    → t.ended ≡ false
    → on_queue true q t ≡ some u
    → IsTold u
unfolding on_queue
on_queue-IsTold [] t u s n e = inr (ground (arith), (t.sent, ground arith))
on_queue-IsTold (x ∷ q) t u s n e = inl (ground arith, ground arith)

stream_round-IsTold :
    (c : Case) (t u : EventStream) → IsServed c → stream_round c t ≡ some u → IsTold t → IsTold u
unfolding stream_round
stream_round-IsTold on_done t u h e told = absurd h
stream_round-IsTold c t u h e (inr (over, _)) = absurd (ground (arith, over))
stream_round-IsTold on_reload t u h e (inl (n, s)) = inr (ground arith, (t.sent, ground arith))
stream_round-IsTold (on_event wrote) t u h e (inl (n, s)) =
    on_queue-IsTold t.queue t u s n (ground (arith, h))
stream_round-IsTold (on_beat wrote) t u h e (inl (n, s)) =
    inl (ground (arith, h), ground (arith, h))

Rounds-IsTold : {t u : EventStream} → Rounds t u → IsTold t → IsTold u
Rounds-IsTold rests told = told
Rounds-IsTold (arrives e more) told = Rounds-IsTold more told
Rounds-IsTold (shuts more) told = Rounds-IsTold more told
Rounds-IsTold (turns c {t} {u} h e more) told =
    Rounds-IsTold more (stream_round-IsTold c t u h e told)

-- After a reload with a next backend, a stream whose notifier was registered and has not ended tells
-- the reload before it ends, whichever cases its loop takes and whatever arrives or is closed between
-- them, unless the client leaves or cannot be written to.
pub reload-IsTold :
    {B : Type 0} (backend : Backend B) (f : ReloadFunc B) (s : Server B) (next b : B)
    → f s.backend ≡ (ok (some next), b)
    → (id : ℕ) (waiting : Bool) → lookup id s.notifiers ≡ some waiting
    → (t u : EventStream) → t.ended ≡ false
    → some t.signal ≡ lookup id ((reload backend (some f) s).1).notifiers
    → Rounds t u
    → IsTold u
reload-IsTold backend f s next b got id waiting there t u n signal rounds =
    let out = reload backend (some f) s in
    let left = subst (λ answer. Leaves backend answer s out) got (reload-Leaves backend f s) in
    let told : t.signal ≡ true = ground (arith, signal, left.3 id, there) in
    Rounds-IsTold rounds (inl (n, told))
