-- ===== src/Control.antt =====
-- ws-proto/src/client.rs: `ControlStreamPriv`, the task between the program of a client and its
-- WebSocket. How a write to the WebSocket ends is an input, and so is whether the program still takes
-- events.
pub mod Stream
pub mod Link
pub mod Carried
pub mod Fifo
pub mod Chain
pub mod OnTime
mod Examples
use voices.Common.{
  ℕ, ◌+◌, ◌%◌, ◌^◌, Bool, true, false, Option, none, some, List, [], ◌∷◌, leb, if◌then◌else◌,
}
use voices.Session.{ClientEvent, ServerEvent}

pub data PrivControlStreamError : Type 0 where
  send_timeout stream_closed ws_error deser_error no_receiver : PrivControlStreamError

-- A write to the WebSocket within `send_timeout`.
pub data Wrote : Type 0 where
  written refused elapsed : Wrote

-- A frame, with the outcome of what is then done: of the write of a `Close`, or whether the program
-- takes the event.
pub data Message : Type 0 where
  close : Wrote → Message
  undecodable : Message
  decoded : ServerEvent → Bool → Message

-- What the loop takes. A `stop` that comes from a drop of the sender has nobody to reply to. The
-- deadline comes with the time of day.
pub data Input : Type 0 where
  stream_end stream_error : Input
  ws_msg : Message → Input
  back_msg : Option ClientEvent → Wrote → Input
  stop : Bool → Wrote → Input
  deadline : ℕ → Wrote → Input

pub data Effect : Type 0 where
  forwarded : ServerEvent → Effect
  sent_json : ClientEvent → Effect
  back_closed ws_closed replied : Effect

pub data Task : Type 0 where
  -- the time of `last`
  running : ℕ → Task
  finished : Task
  failed : PrivControlStreamError → Task

-- 2 seconds
abbrev pub keepalive_time : ℕ
keepalive_time = 2000

-- `send_json`, after which `last` is now.
abbrev pub send_json : ℕ → ClientEvent → Wrote → Task × List Effect
send_json now e written = (running now, sent_json e ∷ [])
send_json now e refused = (failed ws_error, [])
send_json now e elapsed = (failed send_timeout, [])

-- `close`, and what follows it.
abbrev pub close_ws : Wrote → List Effect → Task × List Effect
close_ws written out = (finished, ws_closed ∷ out)
close_ws refused out = (failed ws_error, [])
close_ws elapsed out = (failed send_timeout, [])

abbrev pub forward : ℕ → ServerEvent → Bool → Task × List Effect
forward last (ServerEvent.keepalive t) reached = (running last, [])
forward last e true = (running last, forwarded e ∷ [])
forward last e false = (failed no_receiver, [])

-- A branch of the `select!` of `run`, at a time.
unfoldable pub select : ℕ → ℕ → Input → Task × List Effect
select last now stream_end = (failed stream_closed, back_closed ∷ [])
select last now stream_error = (failed ws_error, [])
select last now (ws_msg (close w)) = close_ws w []
select last now (ws_msg undecodable) = (failed deser_error, [])
select last now (ws_msg (decoded e reached)) = forward last e reached
select last now (back_msg (some e) w) = send_json now e w
select last now (back_msg none w) = close_ws w []
select last now (stop true w) = close_ws w (replied ∷ [])
select last now (stop false w) = close_ws w []
select last now (deadline millis w) =
    let sent = send_json now (ClientEvent.keepalive (millis % 2 ^ 64)) w in
    if leb (last + keepalive_time) now then sent else (running last, [])

-- A round of `run`.
unfoldable pub step : Task → ℕ × Input → Task × List Effect
unfolding select
step (running last) (now, i) = select last now i
step finished i = (finished, [])
step (failed e) i = (failed e, [])
