-- ===== src/Client/Sender.antt =====
-- client/src/udp.rs: `udp_tx`, the task that encrypts what the microphone yields and sends it.
-- An event is a chunk of the microphone, with whether the socket takes what is sent, or the timer.
-- `sent` is the counter that the task shares with `udp_rx`; what it reads of the other one is an input.
use voices.Common.{
  ℕ, ◌+◌, ◌-◌, ◌%◌, ◌^◌, Bool, true, false, Option, none, some, List, [], ◌∷◌, ◌++◌, leb,
  if◌then◌else◌,
}
use voices.Net.{Payload, voice, ping}
use voices.Crypto.{Aead, encrypt}

-- The variables of the loop.
pub record Tx : Type 0 where
  pub start_seq_num : ℕ
  pub sequence : ℕ
  pub stream_time : ℕ
  pub deadline : ℕ
  pub sent : ℕ

pub data TxState : Type 0 where
  sending : Tx → TxState
  failed : TxState

pub record Wake : Type 0 where
  pub now : ℕ
  -- milliseconds since the epoch, unless the clock stands before it
  pub millis : Option ℕ
  pub received : ℕ

pub data TxEvent : Type 0 where
  mic : Option (List ℕ) → TxEvent
  slept : Wake → TxEvent

pub record TxRound : Type 0 where
  pub event : TxEvent
  pub taken : Bool

abbrev pub keepalive_interval : ℕ
keepalive_interval = 5000

-- `wrapping_add` and `wrapping_sub` on a `u64`.
abbrev pub wrapping_add : ℕ → ℕ → ℕ
wrapping_add a b = (a + b) % 2 ^ 64

abbrev pub wrapping_sub : ℕ → ℕ → ℕ
wrapping_sub a b = (a + 2 ^ 64 - b) % 2 ^ 64

-- The start of `udp_tx`; both numbers are random.
abbrev pub start_tx : ℕ → ℕ → ℕ → TxState
start_tx now seq time = sending (record {
  start_seq_num = seq;
  sequence = seq;
  stream_time = time;
  deadline = now + keepalive_interval;
  sent = 0;
})

-- What the tasks are started with.
pub record Speaker : Type 0 where
  pub key : List ℕ
  pub mute : Bool
  pub source_id : ℕ

unfoldable pub send_voice : Speaker → Bool → Tx → Option (List ℕ) → TxState × List Payload
send_voice c taken t none = (failed, [])
send_voice c false t (some payload) = (failed, [])
send_voice c true t (some payload) = (
  sending (record t {
    sequence = wrapping_add t.sequence 1;
    stream_time = wrapping_add t.stream_time 960;
  }),
  voice (record {
    payload = payload;
    sequence = t.sequence;
    stream_time = t.stream_time;
    source_id = c.source_id;
  })
      ∷ [],
)

-- The ping carries what `swap` returns: the count that was stored before.
unfoldable pub send_ping : Speaker → Bool → Tx → ℕ → Option ℕ → TxState × List Payload
send_ping c taken t received none = (failed, [])
send_ping c false t received (some millis) = (failed, [])
send_ping c true t received (some millis) = (
  sending (record t {
    deadline = t.deadline + keepalive_interval;
    sent = wrapping_sub t.sequence t.start_seq_num;
  }),
  ping (record { seq = millis % 2 ^ 64; recv = received; sent = t.sent; source_id = c.source_id })
      ∷ [],
)

module _ (aead : Aead) (c : Speaker) where
  unfoldable pub on_tx : Tx → Bool → TxEvent → TxState × List Payload
  unfolding send_voice send_ping encrypt
  on_tx t taken (mic none) = (failed, [])
  on_tx t taken (mic (some chunk)) =
      if c.mute
      then (sending t, [])
      else send_voice c taken t (encrypt aead c.key chunk t.sequence t.stream_time)
  on_tx t taken (slept w) =
      if leb t.deadline w.now then send_ping c taken t w.received w.millis else (sending t, [])

  -- A round of `udp_tx`.
  unfoldable pub tx_step : TxState → TxRound → TxState × List Payload
  unfolding on_tx
  tx_step (sending t) r = on_tx t r.taken r.event
  tx_step failed r = (failed, [])

  unfoldable pub tx_run : TxState → List TxRound → TxState × List Payload
  tx_run s [] = (s, [])
  tx_run s (r ∷ rs) =
      let (s', out) = tx_step s r in let (end, outs) = tx_run s' rs in (end, out ++ outs)
