-- ===== src/Control/Stream.antt =====
-- ws-proto/src/client.rs: `ControlStream`, the end that the program of a client holds. What is still to
-- come from the task is a list, after which the task is gone; whether the task still takes events is an
-- input.
use voices.Common.{ℕ, Bool, true, false, List, [], ◌∷◌, String, if◌then◌else◌, ◌&&◌}
use voices.Net.{SocketAddr}
use voices.Session.{ClientEvent, ServerEvent, Ready}

pub data ControlStreamError : Type 0 where
  dead_receiver end : ControlStreamError
  unexpected_message : String → ServerEvent → ControlStreamError
  shutdown_error : ControlStreamError

pub data Result (A : Type 0) : Type 0 where
  ok : A → Result A
  err : ControlStreamError → Result A

-- The address and the source id of `UdpAnnounce`.
pub record ServerAnnounce : Type 0 where
  pub addr : SocketAddr
  pub source_id : ℕ

-- `send`, which leaves the event with the task.
unfoldable pub send : Bool → ClientEvent → Result ClientEvent
send true e = ok e
send false e = err dead_receiver

unfoldable pub init : Bool → ℕ → String → Result ClientEvent
unfolding send
init taken user_id name = send taken (ClientEvent.init user_id name)

unfoldable pub announce_udp : Bool → SocketAddr → Result ClientEvent
unfolding send
announce_udp taken socket = send taken (ClientEvent.udp_announce socket)

unfoldable pub join : Bool → ℕ → Result ClientEvent
unfolding send
join taken channel_id = send taken (ClientEvent.join channel_id)

unfoldable pub leave : Bool → Result ClientEvent
unfolding send
leave taken = send taken ClientEvent.leave

unfoldable pub next_event : List ServerEvent → Result ServerEvent × List ServerEvent
next_event [] = (err end, [])
next_event (e ∷ inc) = (ok e, inc)

abbrev pub expect :
    {A : Type 0}
    → (ServerEvent → Result A)
    → Result ServerEvent × List ServerEvent
    → Result A × List ServerEvent
expect pick (ok e, inc) = (pick e, inc)
expect pick (err x, inc) = (err x, inc)

abbrev pub as_initialized : ServerEvent → Result ℕ
as_initialized (ServerEvent.init id) = ok id
as_initialized e = err (unexpected_message "Initialized" e)

abbrev pub as_announce : ServerEvent → Result ServerAnnounce
as_announce (ServerEvent.udp_announce addr src) = ok (record { addr = addr; source_id = src })
as_announce e = err (unexpected_message "Announce" e)

abbrev pub as_ready : ServerEvent → Result Ready
as_ready (ServerEvent.ready r) = ok r
as_ready e = err (unexpected_message "Ready" e)

unfoldable pub await_initialized : List ServerEvent → Result ℕ × List ServerEvent
unfolding next_event
await_initialized inc = expect as_initialized (next_event inc)

unfoldable pub await_voice_udp : List ServerEvent → Result ServerAnnounce × List ServerEvent
unfolding next_event
await_voice_udp inc = expect as_announce (next_event inc)

unfoldable pub await_ready : List ServerEvent → Result Ready × List ServerEvent
unfolding next_event
await_ready inc = expect as_ready (next_event inc)

-- `stop`: the task takes the request in time, and answers it in time.
unfoldable pub stop : Bool → Bool → Result (Unit {0})
stop taken answered = if taken && answered then ok tt else err shutdown_error
