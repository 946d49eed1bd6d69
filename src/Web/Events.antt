-- ===== src/Web/Events.antt =====
-- eventsAPI of bridge/internal/web/events.go: the loop over a subscription's events, the signal of a
-- reload, the ticks of the heartbeat and the end of the request.
pub mod Streams
use phcremote_control.Prelude.{Bool, true, false, Option, none, some, List, [], ◌∷◌, if◌then◌else◌}
use phcremote_control.Text.{Text, codes}
use phcremote_control.Controller.Types.{Event, snapshot, state, connection}

-- What is written: comments, and messages with the name of the event.
pub data Message : Type 0 where
  greeting heartbeat project_reload : Message
  told : Text → Event → Message

-- writeControllerSSE; the state of a state event is never nil here.
unfoldable pub controller_message : Event → Message
controller_message (snapshot r s) = told (codes "snapshot") (snapshot r s)
controller_message (state r d p) = told (codes "state") (state r d p)
controller_message (connection r c s) = told (codes "connection") (connection r c s)

-- The events that wait and whether more can come, whether a reload was signalled, and what was
-- written, the last first.
pub record EventStream : Type 0 where
  pub queue : List Event
  pub is_open : Bool
  pub signal : Bool
  pub sent : List Message
  pub ended : Bool

unfoldable pub begin_stream : List Event → Bool → EventStream
begin_stream queue signal = record {
  queue = queue;
  is_open = true;
  signal = signal;
  sent = greeting ∷ [];
  ended = false;
}

-- A case of the select, with whether a write succeeds.
pub data Case : Type 0 where
  on_done on_reload : Case
  on_event on_beat : Bool → Case

unfoldable pub end_stream : EventStream → EventStream
end_stream t = record t { ended = true }

unfoldable pub tell_reload : EventStream → EventStream
tell_reload t = record t { signal = false; sent = project_reload ∷ t.sent; ended = true }

unfoldable pub write_message : Bool → Message → EventStream → EventStream
unfolding end_stream
write_message wrote m t = if wrote then record t { sent = m ∷ t.sent } else end_stream t

on_queue : Bool → List Event → EventStream → Option EventStream
unfolding tell_reload end_stream write_message controller_message
on_queue wrote (e ∷ es) t =
    some (write_message wrote (controller_message e) (record t { queue = es }))
on_queue wrote [] t =
    if t.is_open then none else if t.signal then some (tell_reload t) else some (end_stream t)

choose : Case → EventStream → Option EventStream
unfolding on_queue end_stream tell_reload write_message
choose on_done t = some (end_stream t)
choose on_reload t = if t.signal then some (tell_reload t) else none
choose (on_event wrote) t = on_queue wrote t.queue t
choose (on_beat wrote) t = some (write_message wrote heartbeat t)

-- One stream_round of the loop; `none` where the case is not ready, or the loop has ended.
unfoldable pub stream_round : Case → EventStream → Option EventStream
unfolding choose on_queue
stream_round c t = if t.ended then none else choose c t
