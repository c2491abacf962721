-- ===== src/Client/Sends.antt =====
-- client/src/udp.rs: what a round of `udp_tx` may send.
use voices.Common.{
  ℕ, ◌+◌, ◌%◌, ◌^◌, ◌≡◌, Bool, true, false, Option, none, some, List, [], ◌∷◌, ◌++◌, refl,
  both_branches, leb,
}
use voices.Net.{Voice, Ping, Payload, voice, ping}
use voices.Crypto.{Aead, encrypt}
use voices.Client.Sender.{
  Tx, TxState, sending, failed, TxEvent, mic, slept, TxRound, Speaker, keepalive_interval,
  wrapping_add, wrapping_sub, send_voice, send_ping, on_tx, tx_step, tx_run,
}

-- Nothing, a voice packet under the number and the time that are due, or a ping.
pub data Sends (c : Speaker) (t : Tx) : TxState → List Payload → Type 0 where
  fails : Sends c t failed []
  waits : Sends c t (sending t) []
  speaks :
      (u : Tx) (v : Voice)
      → v.sequence ≡ t.sequence
      → v.stream_time ≡ t.stream_time
      → u ≡ record t {
        sequence = wrapping_add t.sequence 1;
        stream_time = wrapping_add t.stream_time 960;
      }
      → Sends c t (sending u) (voice v ∷ [])
  pings :
      (u : Tx) (g : Ping)
      → g.sent ≡ t.sent
      → u ≡ record t {
        deadline = t.deadline + keepalive_interval;
        sent = wrapping_sub t.sequence t.start_seq_num;
      }
      → Sends c t (sending u) (ping g ∷ [])

abbrev SendsPair : Speaker → Tx → TxState × List Payload → Type 0
SendsPair c t (s, out) = Sends c t s out

send_voice-Sends :
    (c : Speaker) (taken : Bool) (t : Tx) (o : Option (List ℕ))
    → SendsPair c t (send_voice c taken t o)
unfolding send_voice
send_voice-Sends c taken t none = fails
send_voice-Sends c false t (some p) = fails
send_voice-Sends c true t (some p) =
    speaks
      (record t {
        sequence = wrapping_add t.sequence 1;
        stream_time = wrapping_add t.stream_time 960;
      })
      (record {
        payload = p;
        sequence = t.sequence;
        stream_time = t.stream_time;
        source_id = c.source_id;
      })
      refl refl refl

send_ping-Sends :
    (c : Speaker) (taken : Bool) (t : Tx) (received : ℕ) (o : Option ℕ)
    → SendsPair c t (send_ping c taken t received o)
unfolding send_ping
send_ping-Sends c taken t n none = fails
send_ping-Sends c false t n (some m) = fails
send_ping-Sends c true t n (some m) =
    pings
      (record t {
        deadline = t.deadline + keepalive_interval;
        sent = wrapping_sub t.sequence t.start_seq_num;
      })
      (record { seq = m % 2 ^ 64; recv = n; sent = t.sent; source_id = c.source_id }) refl refl

on_tx-Sends :
    (aead : Aead) (c : Speaker) (t : Tx) (taken : Bool) (e : TxEvent)
    → SendsPair c t (on_tx aead c t taken e)
unfolding on_tx
on_tx-Sends aead c t taken (mic none) = fails
on_tx-Sends aead c t taken (mic (some chunk)) =
    both_branches (SendsPair c t) c.mute waits
      (send_voice-Sends c taken t (encrypt aead c.key chunk t.sequence t.stream_time))
on_tx-Sends aead c t taken (slept w) =
    both_branches (SendsPair c t) (leb t.deadline w.now)
      (send_ping-Sends c taken t w.received w.millis) waits

-- What a whole run sends, round by round.
pub data Runs (c : Speaker) : TxState → TxState → List Payload → Type 0 where
  done : (s : TxState) → Runs c s s []
  next :
      (t : Tx) (s u : TxState) (out outs : List Payload)
      → Sends c t s out
      → Runs c s u outs
      → Runs c (sending t) u (out ++ outs)

abbrev RunsPair : Speaker → TxState → TxState × List Payload → Type 0
RunsPair c s (u, out) = Runs c s u out

-- Once it has failed the task sends nothing.
failed-Runs :
    (aead : Aead) (c : Speaker) (rs : List TxRound) → RunsPair c failed (tx_run aead c failed rs)
unfolding tx_run tx_step
failed-Runs aead c [] = done failed
failed-Runs aead c (r ∷ rs) = failed-Runs aead c rs

pub tx_run-Runs :
    (aead : Aead) (c : Speaker) (s : TxState) (rs : List TxRound)
    → Runs c s (tx_run aead c s rs).0 (tx_run aead c s rs).1
unfolding tx_run tx_step
tx_run-Runs aead c s [] = done s
tx_run-Runs aead c failed (r ∷ rs) = failed-Runs aead c rs
tx_run-Runs aead c (sending t) (r ∷ rs) =
    next t (on_tx aead c t r.taken r.event).0
      (tx_run aead c (on_tx aead c t r.taken r.event).0 rs).0 (on_tx aead c t r.taken r.event).1
      (tx_run aead c (on_tx aead c t r.taken r.event).0 rs).1 (on_tx-Sends aead c t r.taken r.event)
      (tx_run-Runs aead c (on_tx aead c t r.taken r.event).0 rs)
