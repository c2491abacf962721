-- ===== src/Client/Routes.antt =====
-- client/src/udp.rs: to which stream `udp_rx` hands a packet.
use voices.Common.{
  both_branches, ℕ, ◌+◌, ◌%◌, ◌^◌, ◌≡◌, Bool, true, false, Option, none, some, List, [], ◌∷◌,
  lookup, lookup-insert, lookup-remove, refl, ap, ◌∙◌, ◌==◌, if◌then◌else◌,
}
use voices.Net.{Voice, ServerMessage, voice, pong, ip_disco}
use voices.Crypto.{Aead, decrypt}
use voices.Client.Receiver.{
  send_found, Rx, already_present, joined, left, TrySend, queued, full, closed, SockMsg, recv_error,
  msg, RxEvent, voice_evt, sock_msg, RxRound, Told, RxEnd, RxState, receiving, finished, register,
  remove_stream, send_rx, start_rx, on_decrypted, on_voice_evt, on_message, on_rx, rx_step, rx_run,
}

-- The number of streams made, and the stream of one speaker, as the voice events alone determine
-- them: the stream of the last event that says the speaker is there, unless one said that it left.
abbrev pub made : ℕ → RxEvent → ℕ
made n (voice_evt (some (joined j))) = n + 1
made n (voice_evt (some (already_present j))) = n + 1
made n _ = n

abbrev pub speaker_stream : ℕ → ℕ → Option ℕ → RxEvent → Option ℕ
speaker_stream id n held (voice_evt (some (joined j))) = if j == id then some n else held
speaker_stream id n held (voice_evt (some (already_present j))) = if j == id then some n else held
speaker_stream id n held (voice_evt (some (left j))) = if j == id then none else held
speaker_stream id n held (voice_evt none) = held
speaker_stream id n held (sock_msg m) = held

unfoldable pub stream_of : ℕ → ℕ → Option ℕ → List RxRound → Option ℕ
stream_of id n held [] = held
stream_of id n held (r ∷ rs) = stream_of id (made n r.event) (speaker_stream id n held r.event) rs

-- What a round does to the stream of `id`, if the task goes on.
Keeps : ℕ → Rx → RxEvent → RxState × List Told → Type 0
Keeps id s e (receiving t, out) =
    (lookup id t.current ≡ speaker_stream id s.streams (lookup id s.current) e)
    × (t.streams ≡ made s.streams e)
Keeps id s e (finished x, out) = Unit

register-Keeps :
    (id j : ℕ) (quiet : Bool) (s : Rx)
    → Keeps id s (voice_evt (some (joined j))) (register j quiet s)
unfolding Keeps register
register-Keeps id j quiet s = (lookup-insert j id s.streams s.current, refl)

sent-Keeps :
    (id : ℕ) (a : TrySend) (s : Rx) (j n : ℕ) (v : Voice) (m : SockMsg) (o : Option ℕ)
    → Keeps id s (sock_msg m) (send_found a (record s { received = n }) j v o)
unfolding Keeps
sent-Keeps id a s j n v m none = (refl, refl)
sent-Keeps id queued s j n v m (some k) = (refl, refl)
sent-Keeps id full s j n v m (some k) = (refl, refl)
sent-Keeps id closed s j n v m (some k) = tt

decrypted-Keeps :
    (id : ℕ) (a : TrySend) (v : Voice) (s : Rx) (m : SockMsg) (o : Option (List ℕ))
    → Keeps id s (sock_msg m) (on_decrypted a v s o)
unfolding Keeps send_rx
decrypted-Keeps id a v s m none = tt
decrypted-Keeps id a v s m (some plain) =
    sent-Keeps id a s v.source_id ((s.received + 1) % 2 ^ 64) (record v { payload = plain }) m
      (lookup v.source_id s.current)

module _ (aead : Aead) (key : List ℕ) (deaf : Bool) where
  message-Keeps :
      (id : ℕ) (r : RxRound) (m : ServerMessage) (s : Rx)
      → Keeps id s (sock_msg (msg (some m))) (on_message aead key deaf r m s)
  unfolding Keeps on_message
  message-Keeps id r (voice v) s =
      decrypted-Keeps id r.answer v s (msg (some (voice v)))
        (decrypt aead key v.payload v.sequence v.stream_time)
  message-Keeps id r (pong p) s =
      both_branches (Keeps id s (sock_msg (msg (some (pong p))))) r.clock (refl, refl) tt
  message-Keeps id r (ip_disco d) s = tt

  rx-Keeps :
      (id : ℕ) (r : RxRound) (e : RxEvent) (s : Rx) → Keeps id s e (on_rx aead key deaf r e s)
  unfolding Keeps on_rx on_voice_evt remove_stream
  rx-Keeps id r (voice_evt none) s = tt
  rx-Keeps id r (voice_evt (some (joined j))) s = register-Keeps id j deaf s
  rx-Keeps id r (voice_evt (some (already_present j))) s = register-Keeps id j true s
  rx-Keeps id r (voice_evt (some (left j))) s = (lookup-remove j id s.current, refl)
  rx-Keeps id r (sock_msg (recv_error true)) s = tt
  rx-Keeps id r (sock_msg (recv_error false)) s = (refl, refl)
  rx-Keeps id r (sock_msg (msg none)) s = tt
  rx-Keeps id r (sock_msg (msg (some m))) s = message-Keeps id r m s

  finished-run :
      (x : RxEnd) (rs : List RxRound) → (rx_run aead key deaf (finished x) rs).0 ≡ finished x
  unfolding rx_run rx_step
  finished-run x [] = refl
  finished-run x (r ∷ rs) = finished-run x rs

  step-Keeps :
      (id : ℕ) (s t : Rx) (e : RxEvent) (x : RxState × List Told) (rs : List RxRound)
      → Keeps id s e x
      → ((u : Rx)
          → (rx_run aead key deaf (receiving u) rs).0 ≡ receiving t
          → lookup id t.current ≡ stream_of id u.streams (lookup id u.current) rs)
      → (rx_run aead key deaf x.0 rs).0 ≡ receiving t
      → lookup id t.current
        ≡ stream_of id (made s.streams e) (speaker_stream id s.streams (lookup id s.current) e) rs
  unfolding Keeps
  step-Keeps id s t e (receiving u, out) rs (k, m) ih h =
      ih u h
      ∙ ap (λ n. stream_of id n (lookup id u.current) rs) m
      ∙ ap (λ o. stream_of id (made s.streams e) o rs) k
  step-Keeps id s t e (finished x, out) rs k ih h = absurd (cc (finished-run x rs, h))

  -- The streams after a list of rounds, if the task goes on.
  pub run-Keeps :
      (id : ℕ) (s t : Rx) (rs : List RxRound)
      → (rx_run aead key deaf (receiving s) rs).0 ≡ receiving t
      → lookup id t.current ≡ stream_of id s.streams (lookup id s.current) rs
  unfolding rx_run stream_of rx_step
  run-Keeps id s t [] h = cc h
  run-Keeps id s t (r ∷ rs) h =
      step-Keeps id s t r.event (on_rx aead key deaf r r.event s) rs (rx-Keeps id r r.event s)
        (λ u h'. run-Keeps id u t rs h') h

  start-Keeps :
      (id : ℕ) (s : Rx) (rs : List RxRound)
      → (rx_run aead key deaf (start_rx deaf).0 rs).0 ≡ receiving s
      → lookup id s.current ≡ stream_of id 0 none rs
  unfolding lookup
  start-Keeps id s rs h = run-Keeps id (record { current = []; streams = 0; received = 0 }) s rs h

  -- Whatever the task has received since its start, it treats a voice packet that decrypts by the voice
  -- events alone: it counts the packet, and hands it with its decrypted payload to the stream of the
  -- last event that says that the packet's source is present, where it is lost if the stream is full
  -- and ends the task if the stream is closed; without such an event, or if the source left since, the
  -- packet is dropped.
  pub run-routes :
      (s : Rx) (rs : List RxRound) (r : RxRound) (v : Voice) (plain : List ℕ)
      → (rx_run aead key deaf (start_rx deaf).0 rs).0 ≡ receiving s
      → r.event ≡ sock_msg (msg (some (voice v)))
      → decrypt aead key v.payload v.sequence v.stream_time ≡ some plain
      → rx_step aead key deaf (receiving s) r
        ≡ send_found r.answer
            (record s { received = (s.received + 1) % 2 ^ 64 })
            v.source_id
            (record v { payload = plain })
            (stream_of v.source_id 0 none rs)
  unfolding rx_step on_rx on_message send_rx
  run-routes s rs r v plain h e d = rw (e, d, start-Keeps v.source_id s rs h) refl
