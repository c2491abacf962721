-- ===== src/Client/Receiver.antt =====
-- client/src/udp.rs: `udp_rx`, the task that decrypts what the voice server sends and hands it to the
-- streams of the player, and `ReceiverState`. A stream is the number of the `new_stream` that made it.
-- Whether a stream's channel takes a packet is an input, as are the errors of the socket.
use voices.Common.{
  ℕ, ◌+◌, ◌%◌, ◌^◌, Bool, true, false, Option, none, some, List, [], ◌∷◌, ◌++◌, Map, lookup, insert,
  remove, if◌then◌else◌,
}
use voices.Net.{Voice, ServerMessage, voice, pong, ip_disco}
use voices.Crypto.{Aead, decrypt}

-- `current`, with the counts of the streams made and of the packets received.
pub record Rx : Type 0 where
  pub current : Map ℕ
  pub streams : ℕ
  pub received : ℕ

pub data VoiceEvent : Type 0 where
  already_present : ℕ → VoiceEvent
  joined : ℕ → VoiceEvent
  left : ℕ → VoiceEvent

-- What `try_send` answers.
pub data TrySend : Type 0 where
  queued full closed : TrySend

-- An error of the socket, with what `fatal` says of it, or a message that may carry nothing.
pub data SockMsg : Type 0 where
  recv_error : Bool → SockMsg
  msg : Option ServerMessage → SockMsg

pub data RxEvent : Type 0 where
  voice_evt : Option VoiceEvent → RxEvent
  sock_msg : SockMsg → RxEvent

pub record RxRound : Type 0 where
  pub event : RxEvent
  pub answer : TrySend
  -- the clock stands after the epoch
  pub clock : Bool

-- What the player is told, and what becomes of a packet.
pub data Told : Type 0 where
  muted : Told
  stream_new : ℕ → Bool → Told
  stream_ended : Bool → Told
  to_stream : ℕ → Voice → Told
  lost : ℕ → Voice → Told
  unknown_id : ℕ → Told

pub data RxEnd : Type 0 where
  stopped : RxEnd
  socket_failed : RxEnd
  decrypt_failed : RxEnd
  clock_failed : RxEnd
  no_message : RxEnd
  todo_panic : RxEnd
  ded_panic : RxEnd

pub data RxState : Type 0 where
  receiving : Rx → RxState
  finished : RxEnd → RxState

-- `register`
unfoldable pub register : ℕ → Bool → Rx → RxState × List Told
register id quiet s = (
  receiving (record s { current = insert id s.streams s.current; streams = s.streams + 1 }),
  stream_new s.streams quiet ∷ [],
)

-- `remove`
unfoldable pub remove_stream : ℕ → Bool → Rx → RxState × List Told
remove_stream id quiet s =
    (receiving (record s { current = remove id s.current }), stream_ended quiet ∷ [])

abbrev pub send_on : TrySend → Rx → ℕ → Voice → RxState × List Told
send_on queued s stream v = (receiving s, to_stream stream v ∷ [])
send_on full s stream v = (receiving s, lost stream v ∷ [])
send_on closed s stream v = (finished ded_panic, [])

abbrev pub send_found : TrySend → Rx → ℕ → Voice → Option ℕ → RxState × List Told
send_found answer s id v (some stream) = send_on answer s stream v
send_found answer s id v none = (receiving s, unknown_id id ∷ [])

-- `send`: a stream that is no longer played is a panic.
unfoldable pub send_rx : TrySend → ℕ → Voice → Rx → RxState × List Told
send_rx answer id v s = send_found answer s id v (lookup id s.current)

-- The start of `udp_rx`
abbrev pub start_rx : Bool → RxState × List Told
start_rx deaf = (
  receiving (record { current = []; streams = 0; received = 0 }),
  if deaf then muted ∷ [] else [],
)

abbrev pub on_decrypted : TrySend → Voice → Rx → Option (List ℕ) → RxState × List Told
on_decrypted answer v s none = (finished decrypt_failed, [])
on_decrypted answer v s (some plain) =
    send_rx answer v.source_id (record v { payload = plain })
      (record s { received = (s.received + 1) % 2 ^ 64 })

module _ (aead : Aead) (key : List ℕ) (deaf : Bool) where
  unfoldable pub on_voice_evt : VoiceEvent → Rx → RxState × List Told
  unfolding register remove_stream
  on_voice_evt (joined id) s = register id deaf s
  on_voice_evt (already_present id) s = register id true s
  on_voice_evt (left id) s = remove_stream id deaf s

  unfoldable pub on_message : RxRound → ServerMessage → Rx → RxState × List Told
  unfolding send_rx decrypt
  on_message r (voice v) s =
      on_decrypted r.answer v s (decrypt aead key v.payload v.sequence v.stream_time)
  on_message r (pong p) s = if r.clock then (receiving s, []) else (finished clock_failed, [])
  on_message r (ip_disco d) s = (finished todo_panic, [])

  -- A round of `udp_rx`.
  unfoldable pub on_rx : RxRound → RxEvent → Rx → RxState × List Told
  unfolding on_voice_evt on_message
  on_rx r (voice_evt none) s = (finished stopped, [])
  on_rx r (voice_evt (some e)) s = on_voice_evt e s
  on_rx r (sock_msg (recv_error true)) s = (finished socket_failed, [])
  on_rx r (sock_msg (recv_error false)) s = (receiving s, [])
  on_rx r (sock_msg (msg none)) s = (finished no_message, [])
  on_rx r (sock_msg (msg (some m))) s = on_message r m s

  unfoldable pub rx_step : RxState → RxRound → RxState × List Told
  unfolding on_rx
  rx_step (receiving s) r = on_rx r r.event s
  rx_step (finished e) r = (finished e, [])

  unfoldable pub rx_run : RxState → List RxRound → RxState × List Told
  rx_run s [] = (s, [])
  rx_run s (r ∷ rs) =
      let (s', out) = rx_step s r in let (end, outs) = rx_run s' rs in (end, out ++ outs)
