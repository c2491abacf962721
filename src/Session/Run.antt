-- ===== src/Session/Run.antt =====
-- server/gateway/src/server/session.rs: `run_session` and its handlers.
use voices.Common.{
  ℕ, Bool, true, false, Option, none, some, List, [], ◌∷◌, ◌++◌, ◌&&◌, ◌==◌, if◌then◌else◌,
}
use voices.Presence.{ChannelEvent, ChannelEventKind}
use voices.VoiceServer.Requests.{Result, ok, err}
use voices.Session.{
  ServerSession, ClientEvent, ServerEvent, VoiceHandle, Out, End, finished, failed, panicked, sent,
  unsent, disconnected, join_error, drop_voice,
}
use voices.Session.Join.{Answers, initialize_voice_connection}

-- A session that runs, or the end of `run_session`.
pub data Running : Type 0 where
  running : ServerSession → Running
  ended : End → Running

-- What the loop takes, with the answers to what it then does; `reached` says whether a message got
-- into the outgoing channel.
pub data Input : Type 0 where
  status_done : Bool → Input
  event : Option ClientEvent → Bool → Answers → Input
  chan_event : ChannelEvent → Bool → Input

-- The session is dropped at the end of `run_session`.
abbrev pub end_with : End → ServerSession → Running × List Out
end_with e s = (ended e, drop_voice s.voice)

abbrev pub disconnect_sent : Bool → List Out
disconnect_sent true = sent disconnected ∷ []
disconnect_sent false = unsent disconnected ∷ []

-- `stop_voice`: an error of the send is ignored.
abbrev pub stop_with : Bool → ServerSession → Option VoiceHandle → ServerSession × List Out
stop_with reached s none = (s, [])
stop_with reached s (some h) = (
  record s { voice = none; receiving = s.receiving && reached },
  drop_voice (some h) ++ disconnect_sent (s.receiving && reached),
)

unfoldable pub stop_voice : Bool → ServerSession → ServerSession × List Out
stop_voice reached s = stop_with reached s s.voice

abbrev pub stopped : ServerSession × List Out → Running × List Out
stopped (s, out) = (running s, out)

abbrev pub join_failed : Bool → ServerSession → ℕ → Running × List Out
join_failed true s channel_id = (running s, sent (join_error channel_id) ∷ [])
join_failed false s channel_id = end_with failed s

abbrev pub after_join :
    Bool → ServerSession → ℕ → Result (Option VoiceHandle) End → Running × List Out
after_join reached s channel_id (ok (some h)) = (running (record s { voice = some h }), [])
after_join reached s channel_id (ok none) = join_failed (s.receiving && reached) s channel_id
after_join reached s channel_id (err e) = end_with e s

abbrev pub prepend : List Out → Running × List Out → Running × List Out
prepend out (r, outs) = (r, out ++ outs)

-- `ClientEvent::Join` once the old connection is stopped.
unfoldable pub join_from : Bool → Answers → ℕ → ServerSession → Running × List Out
join_from reached a channel_id s =
    let (out, r) = initialize_voice_connection a s channel_id in
    prepend out (after_join reached s channel_id r)

abbrev pub rejoin_from : Bool → Answers → ℕ → ServerSession × List Out → Running × List Out
rejoin_from reached a channel_id (s, out) = prepend out (join_from reached a channel_id s)

-- `handle_event`; a keepalive never leaves the WebSocket task.
unfoldable pub handle_event : Bool → Answers → ServerSession → ClientEvent → Running × List Out
unfolding stop_voice join_from
handle_event reached a s (ClientEvent.init id name) = stopped (stop_voice reached s)
handle_event reached a s ClientEvent.disconnect = stopped (stop_voice reached s)
handle_event reached a s (ClientEvent.join channel_id) =
    rejoin_from reached a channel_id (stop_voice reached s)
handle_event reached a s ClientEvent.leave = stopped (stop_voice reached s)
handle_event reached a s (ClientEvent.udp_announce addr) = stopped (stop_voice reached s)
handle_event reached a s (ClientEvent.keepalive t) = end_with panicked s

abbrev pub kind_sent : ℕ → ChannelEventKind → ServerEvent
kind_sent src (ChannelEventKind.joined name) =
    ServerEvent.joined (record { user = name; source_id = src })
kind_sent src (ChannelEventKind.left name) =
    ServerEvent.left (record { user = name; source_id = src })

abbrev pub tell : Bool → ServerSession → ServerEvent → Running × List Out
tell true s e = (running s, sent e ∷ [])
tell false s e = end_with failed s

-- `handle_chan_event`
unfoldable pub handle_chan_event : Bool → ServerSession → ChannelEvent → Running × List Out
handle_chan_event reached s e =
    if s.client_id == e.source
    then (running s, [])
    else tell (s.receiving && reached) s (kind_sent e.source_id e.kind)

abbrev pub voice_lost : Bool → ServerSession → Running × List Out
voice_lost true s = (running (record s { voice = none }), sent disconnected ∷ drop_voice s.voice)
voice_lost false s = end_with failed s

abbrev pub finish : ServerSession × List Out → Running × List Out
finish (s, out) = (ended finished, out)

abbrev pub while_in : Option VoiceHandle → ServerSession → Running × List Out → Running × List Out
while_in none s r = (running s, [])
while_in (some h) s r = r

-- One round of the loop. Without a voice connection there is no status task and there are no channel
-- events.
unfoldable pub take : ServerSession → Input → Running × List Out
unfolding handle_event handle_chan_event
take s (status_done reached) = while_in s.voice s (voice_lost (s.receiving && reached) s)
take s (event (some e) reached a) = handle_event reached a s e
take s (event none reached a) = finish (stop_voice reached s)
take s (chan_event e reached) = while_in s.voice s (handle_chan_event reached s e)

unfoldable pub step : Running → Input → Running × List Out
unfolding take
step (running s) i = take s i
step (ended e) i = (ended e, [])

unfoldable pub run : Running → List Input → Running × List Out
run r [] = (r, [])
run r (i ∷ is) = let (r', out) = step r i in prepend out (run r' is)
