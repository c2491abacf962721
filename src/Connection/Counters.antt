-- ===== src/Connection/Counters.antt =====
-- server/voice/core/src/channel/connection.rs: the statistics and the keep-alive deadline of a
-- peered connection, against what it did since it was peered.
use voices.Common.{
  ◌∙◌, refl, ap, subst, sym, inr, ◌≢◌, ◌⊎◌, inl, ℕ, suc, ◌+◌, ◌%◌, ◌^◌, ◌≡◌, none, some, List, [],
  ◌∷◌, ◌++◌, arith, Bool,
}
use voices.Net.{ServerMessage}
use voices.Crypto.{Aead}
use voices.Connection.{
  VoiceConnection, Phase, waiting, peered, stopped, Peering, Round, Event, ctl, udp_pkt, voice_rx,
  timer, voice, ping, received, idle_timeout, Output, send_to, voice_tx, peered_step, phase_step,
  step, run,
}

-- The packets put on the broadcast, and the packets of others that were sent to the client.
unfoldable pub broadcasts : List Output → ℕ
broadcasts [] = 0
broadcasts (voice_tx s v ∷ out) = suc (broadcasts out)
broadcasts (_ ∷ out) = broadcasts out

unfoldable pub forwards : List Output → ℕ
forwards [] = 0
forwards (send_to (ServerMessage.voice v) a ∷ out) = suc (forwards out)
forwards (_ ∷ out) = forwards out

-- The sequence number of the last packet put on the broadcast.
unfoldable pub last_sequence : ℕ → List Output → ℕ
last_sequence s [] = s
last_sequence s (voice_tx i v ∷ out) = last_sequence v.sequence out
last_sequence s (_ ∷ out) = last_sequence s out

abbrev ping_time : ℕ → ℕ → Event → ℕ
ping_time last now (udp_pkt (some (ping g))) = now
ping_time last now _ = last

-- When the client was last heard: the last ping, or else the time given.
unfoldable pub last_heard : ℕ → List Round → ℕ
last_heard last [] = last
last_heard last (r ∷ rs) = last_heard (ping_time last r.now r.event) rs

record Tracks (p q : Peering) (now last : ℕ) (e : Event) (out : List Output) : Type 0 where
  received : q.received % 2 ^ 64 ≡ (p.received + broadcasts out) % 2 ^ 64
  sent : q.sent % 2 ^ 64 ≡ (p.sent + forwards out) % 2 ^ 64
  seq : q.seq ≡ last_sequence p.seq out
  deadline :
      p.ping_deadline ≡ last + idle_timeout → q.ping_deadline ≡ ping_time last now e + idle_timeout

peered_step-Tracks :
    (aead : Aead) (now last : ℕ) (sent : Bool) (c : VoiceConnection) (p q : Peering) (e : Event)
    → c.phase ≡ peered p
    → (peered_step aead now sent c p e).0.phase ≡ peered q
    → Tracks p q now last e (peered_step aead now sent c p e).1
unfolding peered_step broadcasts forwards last_sequence
peered_step-Tracks aead now last sent c p q (udp_pkt (some (voice v))) h k = ground arith
peered_step-Tracks aead now last sent c p q (udp_pkt (some (ping g))) h k = ground arith
peered_step-Tracks aead now last sent c p q (udp_pkt none) h k = ground arith
peered_step-Tracks aead now last sent c p q (voice_rx (received i v)) h k = ground arith
peered_step-Tracks aead now last sent c p q (voice_rx _) h k = ground arith
peered_step-Tracks aead now last sent c p q timer h k = ground arith
peered_step-Tracks aead now last sent c p q (ctl (some _)) h k = ground arith
peered_step-Tracks aead now last sent c p q (ctl none) h k = ground arith

broadcasts-append : (xs ys : List Output) → broadcasts (xs ++ ys) ≡ broadcasts xs + broadcasts ys
unfolding broadcasts
broadcasts-append [] ys = omega arith
broadcasts-append (voice_tx i v ∷ xs) ys = omega (arith, broadcasts-append xs ys)
broadcasts-append (_ ∷ xs) ys = broadcasts-append xs ys

forwards-append : (xs ys : List Output) → forwards (xs ++ ys) ≡ forwards xs + forwards ys
unfolding forwards
forwards-append [] ys = omega arith
forwards-append (send_to (ServerMessage.voice v) a ∷ xs) ys = omega (arith, forwards-append xs ys)
forwards-append (_ ∷ xs) ys = forwards-append xs ys

last_sequence-append :
    (s : ℕ) (xs ys : List Output)
    → last_sequence s (xs ++ ys) ≡ last_sequence (last_sequence s xs) ys
unfolding last_sequence
last_sequence-append s [] ys = refl
last_sequence-append s (voice_tx i v ∷ xs) ys = last_sequence-append v.sequence xs ys
last_sequence-append s (_ ∷ xs) ys = last_sequence-append s xs ys

step-stopped :
    (aead : Aead) (c : VoiceConnection) (r : Round) → c.phase ≡ stopped → step aead c r ≡ (c, [])
unfolding step phase_step
step-stopped aead c r h = ap (phase_step aead c r) h

pub run-stopped :
    (aead : Aead) (c : VoiceConnection) (rs : List Round)
    → c.phase ≡ stopped
    → run aead c rs ≡ (c, [])
unfolding run
run-stopped aead c [] h = refl
run-stopped aead c (r ∷ rs) h =
    ap (λ x. let y = run aead x.0 rs in (y.0, x.1 ++ y.1)) (step-stopped aead c r h)
    ∙ run-stopped aead c rs h

abbrev NotWaiting : Phase → Type 0
NotWaiting ph = (ph ≡ stopped) ⊎ ((p : Peering) × (ph ≡ peered p))

peered_step-NotWaiting :
    (aead : Aead) (now : ℕ) (sent : Bool) (c : VoiceConnection) (p : Peering) (e : Event)
    → c.phase ≡ peered p
    → (d : ℕ) → (peered_step aead now sent c p e).0.phase ≢ waiting d
unfolding peered_step
peered_step-NotWaiting aead now sent c p (udp_pkt (some (voice v))) h d = ground arith
peered_step-NotWaiting aead now sent c p (udp_pkt (some (ping g))) h d = ground arith
peered_step-NotWaiting aead now sent c p (udp_pkt none) h d = ground arith
peered_step-NotWaiting aead now sent c p (voice_rx _) h d = ground arith
peered_step-NotWaiting aead now sent c p timer h d = ground arith
peered_step-NotWaiting aead now sent c p (ctl _) h d = ground arith

Phase-cases : (ph : Phase) → ((d : ℕ) → ph ≢ waiting d) → NotWaiting ph
Phase-cases (waiting d) n = absurd (n d refl)
Phase-cases (peered p) n = inr (p, refl)
Phase-cases stopped n = inl refl

-- What a peered connection has counted, and when it will give up, after some rounds.
pub record Statistics (p q : Peering) (last : ℕ) (rs : List Round) (out : List Output)
    : Type 0 where
  pub received : q.received % 2 ^ 64 ≡ (p.received + broadcasts out) % 2 ^ 64
  pub sent : q.sent % 2 ^ 64 ≡ (p.sent + forwards out) % 2 ^ 64
  pub seq : q.seq ≡ last_sequence p.seq out
  pub deadline : q.ping_deadline ≡ last_heard last rs + idle_timeout

pub step_peered :
    (aead : Aead) (c : VoiceConnection) (r : Round) (p : Peering)
    → c.phase ≡ peered p
    → step aead c r ≡ peered_step aead r.now r.sent c p r.event
unfolding step phase_step
step_peered aead c r p h = ap (phase_step aead c r) h

Statistics-more :
    (p p' q : Peering) (last : ℕ) (r : Round) (rs : List Round) (xs ys : List Output)
    → p.ping_deadline ≡ last + idle_timeout
    → Tracks p p' r.now last r.event xs
    → Statistics p' q (ping_time last r.now r.event) rs ys
    → Statistics p q last (r ∷ rs) (xs ++ ys)
unfolding last_heard
Statistics-more p p' q last r rs xs ys d t u = record {
  received = omega (arith, t.received, u.received, broadcasts-append xs ys);
  sent = omega (arith, t.sent, u.sent, forwards-append xs ys);
  seq = u.seq ∙ (ap (λ s. last_sequence s ys) t.seq ∙ sym (last_sequence-append p.seq xs ys));
  deadline = u.deadline;
}

module _ (aead : Aead) (c : VoiceConnection) (r : Round) (p : Peering)
    (h : c.phase ≡ peered p) where
  after_round : NotWaiting (step aead c r).0.phase
  after_round = Phase-cases _ (
      subst (λ x. (d : ℕ) → x.0.phase ≢ waiting d) (sym (step_peered aead c r p h))
        (peered_step-NotWaiting aead r.now r.sent c p r.event h))

  step-Tracks :
      (q : Peering) (last : ℕ)
      → (step aead c r).0.phase ≡ peered q
      → Tracks p q r.now last r.event (step aead c r).1
  step-Tracks q last =
      subst (λ x. x.0.phase ≡ peered q → Tracks p q r.now last r.event x.1)
        (sym (step_peered aead c r p h)) (peered_step-Tracks aead r.now last r.sent c p q r.event h)

-- While a connection stays peered, `received` counts the client's packets that went out on the
-- broadcast and `sent` the packets sent to the client, both modulo 2^64, `seq` is the sequence number
-- of the last packet broadcast, and the deadline is 15 seconds after the last ping that it got (at
-- first, after the time that the deadline was set from).
pub run-Statistics :
    (aead : Aead) (c : VoiceConnection) (rs : List Round) (p q : Peering) (last : ℕ)
    → c.phase ≡ peered p
    → p.ping_deadline ≡ last + idle_timeout
    → (run aead c rs).0.phase ≡ peered q
    → Statistics p q last rs (run aead c rs).1
unfolding run last_sequence last_heard broadcasts forwards
run-Statistics aead c [] p q last h d k = ground arith
run-Statistics aead c (r ∷ rs) p q last h d k =
    run_more (after_round aead c r p h) (λ p'. run-Statistics aead (step aead c r).0 rs p' q)
  where
    run_more :
        NotWaiting (step aead c r).0.phase
        → ((p' : Peering) (last' : ℕ)
            → (step aead c r).0.phase ≡ peered p'
            → p'.ping_deadline ≡ last' + idle_timeout
            → (run aead (step aead c r).0 rs).0.phase ≡ peered q
            → Statistics p' q last' rs (run aead (step aead c r).0 rs).1)
        → Statistics p q last (r ∷ rs) (run aead c (r ∷ rs)).1
    run_more (inl s) ih = ground (arith, run-stopped aead (step aead c r).0 rs s)
    run_more (inr (p', e)) ih =
        let t = step-Tracks aead c r p h p' last e in
        Statistics-more p p' q last r rs _ _ d t
          (ih p' (ping_time last r.now r.event) e (t.deadline d) k)
