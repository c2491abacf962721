-- ===== src/Connection/Wire.antt =====
-- server/voice/core/src/channel/connection.rs: where the datagrams of a connection go.
use voices.Common.{
  ◌==◌, leb, if◌then◌else◌, inl, inr, ◌⊎◌, sym, ◌≡◌, ℕ, refl, subst, Option, none, some, List, [],
  ◌∷◌, ◌++◌, All, Bool, true, false, inl, inr,
}
use voices.Net.{SocketAddr, Voice, Ping}
use voices.Crypto.{Aead, encrypt}
use voices.Connection.{
  VoiceConnection, Phase, waiting, peered, stopped, Peering, Round, Event, ctl, udp_pkt, voice_rx,
  timer, init, status, stop, voice, ping, received, lagged, closed, Output, send_to, init_response,
  status_response, stop_response, voice_tx, on_voice, on_ping, on_forward, waiting_step,
  peered_step, phase_step, step, run, start,
}

pub All-append {ℓ κ} :
    {A : Type ℓ} (P : A → Type κ) (xs ys : List A) → All P xs → All P ys → All P (xs ++ ys)
All-append P [] ys a b = b
All-append P (x ∷ xs) ys a b = (a.0, All-append P xs ys a.1 b)

abbrev first_init : Event → Option SocketAddr → Option SocketAddr
first_init (ctl (some (init a))) later = some a
first_init _ later = later

-- The address that the first `Init` brings.
unfoldable pub peer_addr : List Round → Option SocketAddr
peer_addr [] = none
peer_addr (r ∷ rs) = first_init r.event (peer_addr rs)

-- A datagram goes to the given address; where there is none, it is no datagram.
abbrev pub GoesTo : Option SocketAddr → Output → Type 0
GoesTo (some a) (send_to m to) = to ≡ a
GoesTo none (send_to m to) = ⊥
GoesTo o (init_response k s) = Unit
GoesTo o (status_response s) = Unit
GoesTo o stop_response = Unit
GoesTo o (voice_tx s v) = Unit

-- The task sends to the given address only, and goes on doing so.
abbrev Bound : Option SocketAddr → Phase → Type 0
Bound o (waiting d) = ⊥
Bound o (peered p) = some p.addr ≡ o
Bound o stopped = Unit

abbrev Keeps : Option SocketAddr → VoiceConnection × List Output → Type 0
Keeps o x = All (GoesTo o) x.1 × Bound o x.0.phase

module _ (c : VoiceConnection) (p : Peering) where
  on_voice-Keeps : (v : Voice) (o : Option (List ℕ)) → Keeps (some p.addr) (on_voice c p v o)
  unfolding on_voice
  on_voice-Keeps v none = (tt, tt)
  on_voice-Keeps v (some b) = ((tt, tt), refl)

  on_ping-Keeps : (now : ℕ) (sent : Bool) (g : Ping) → Keeps (some p.addr) (on_ping now sent c p g)
  unfolding on_ping
  on_ping-Keeps now true g = ((refl, tt), refl)
  on_ping-Keeps now false g = (tt, tt)

  on_forward-Keeps :
      (sent : Bool) (v : Voice) (o : Option (List ℕ))
      → Keeps (some p.addr) (on_forward sent c p v o)
  unfolding on_forward
  on_forward-Keeps sent v none = (tt, tt)
  on_forward-Keeps true v (some b) = ((refl, tt), refl)
  on_forward-Keeps false v (some b) = (tt, tt)

  module _ (h : c.phase ≡ peered p) where
    stays : Bound (some p.addr) c.phase
    stays = subst (Bound (some p.addr)) (sym h) refl

    if-Keeps :
        (b : Bool) (x y : VoiceConnection × List Output)
        → Keeps (some p.addr) x
        → Keeps (some p.addr) y
        → Keeps (some p.addr) (if b then x else y)
    if-Keeps true x y k l = k
    if-Keeps false x y k l = l

    peered_step-Keeps :
        (aead : Aead) (now : ℕ) (sent : Bool) (e : Event)
        → Keeps (some p.addr) (peered_step aead now sent c p e)
    unfolding peered_step
    peered_step-Keeps aead now sent (udp_pkt (some (voice v))) = on_voice-Keeps v _
    peered_step-Keeps aead now sent (udp_pkt (some (ping g))) = on_ping-Keeps now sent g
    peered_step-Keeps aead now sent (udp_pkt none) = (tt, tt)
    peered_step-Keeps aead now sent (voice_rx (received i v)) =
        let o : Option (List ℕ) = encrypt aead c.crypt_key v.payload v.sequence v.stream_time in
        if-Keeps (c.source_id == i) (c, []) (on_forward sent c p v o) (tt, stays)
          (on_forward-Keeps sent v o)
    peered_step-Keeps aead now sent (voice_rx (lagged n)) = (tt, stays)
    peered_step-Keeps aead now sent (voice_rx closed) = (tt, tt)
    peered_step-Keeps aead now sent timer =
        if-Keeps (leb p.ping_deadline now) (record c { phase = stopped }, []) (c, []) (tt, tt)
          (tt, stays)
    peered_step-Keeps aead now sent (ctl (some (init a))) = ((tt, tt), stays)
    peered_step-Keeps aead now sent (ctl (some status)) = ((tt, tt), stays)
    peered_step-Keeps aead now sent (ctl none) = (tt, tt)
    peered_step-Keeps aead now sent (ctl (some stop)) = ((tt, tt), tt)

phase_step-Keeps :
    (aead : Aead) (o : Option SocketAddr) (c : VoiceConnection) (r : Round) (ph : Phase)
    → c.phase ≡ ph
    → Bound o ph
    → Keeps o (phase_step aead c r ph)
unfolding phase_step
phase_step-Keeps aead o c r (waiting d) h b = absurd b
phase_step-Keeps aead o c r (peered p) h b =
    subst (λ o. Keeps o (peered_step aead r.now r.sent c p r.event)) b
      (peered_step-Keeps c p h aead r.now r.sent r.event)
phase_step-Keeps aead o c r stopped h b = (tt, subst (Bound o) (sym h) tt)

-- From a task that is bound, every round sends to its address only.
Bound-run :
    (aead : Aead) (o : Option SocketAddr) (c : VoiceConnection) (rs : List Round)
    → Bound o c.phase
    → Keeps o (run aead c rs)
unfolding run step
Bound-run aead o c [] b = (tt, b)
Bound-run aead o c (r ∷ rs) b =
    let k = phase_step-Keeps aead o c r c.phase refl b in
    let l = Bound-run aead o (step aead c r).0 rs k.1 in (All-append (GoesTo o) _ _ k.0 l.0, l.1)

-- After a round of the waiting phase: still waiting, or bound.
abbrev Entered : ℕ → Option SocketAddr → Option SocketAddr → VoiceConnection × List Output → Type 0
Entered d later o x =
    All (GoesTo o) x.1 × (((x.0.phase ≡ waiting d) × (o ≡ later)) ⊎ Bound o x.0.phase)

module _ (c : VoiceConnection) (d : ℕ) (h : c.phase ≡ waiting d) (later : Option SocketAddr) where
  if-Entered :
      (b : Bool) (x y : VoiceConnection × List Output)
      → Entered d later later x
      → Entered d later later y
      → Entered d later later (if b then x else y)
  if-Entered true x y k l = k
  if-Entered false x y k l = l

  waiting_step-Entered :
      (now : ℕ) (e : Event) → Entered d later (first_init e later) (waiting_step now c d e)
  unfolding waiting_step
  waiting_step-Entered now (ctl (some (init a))) = ((tt, tt), inr refl)
  waiting_step-Entered now (ctl (some stop)) = ((tt, tt), inr tt)
  waiting_step-Entered now (ctl (some status)) = ((tt, tt), inl (h, refl))
  waiting_step-Entered now (ctl none) = (tt, inr tt)
  waiting_step-Entered now timer =
      if-Entered (leb d now) (record c { phase = stopped }, []) (c, []) (tt, inr tt)
        (tt, inl (h, refl))
  waiting_step-Entered now (udp_pkt m) = (tt, inl (h, refl))
  waiting_step-Entered now (voice_rx r) = (tt, inl (h, refl))

waiting_rest :
    (aead : Aead) (c : VoiceConnection) (d : ℕ) (r : Round) (rs : List Round)
    → c.phase ≡ waiting d
    → ((c' : VoiceConnection)
        → c'.phase ≡ waiting d
        → All (GoesTo (peer_addr rs)) (run aead c' rs).1)
    → let x = waiting_step r.now c d r.event in
      All (GoesTo (peer_addr (r ∷ rs))) (x.1 ++ (run aead x.0 rs).1)
unfolding peer_addr
waiting_rest aead c d r rs h ih = All-append _ _ _ k.0 (rest k.1)
  where
    x : VoiceConnection × List Output
    x = waiting_step r.now c d r.event

    o : Option SocketAddr
    o = first_init r.event (peer_addr rs)

    k : Entered d (peer_addr rs) o x
    k = waiting_step-Entered c d h (peer_addr rs) r.now r.event

    rest :
        ((x.0.phase ≡ waiting d) × (o ≡ peer_addr rs)) ⊎ Bound o x.0.phase
        → All (GoesTo o) (run aead x.0 rs).1
    rest (inl (w, e)) = subst (λ o. All (GoesTo o) (run aead x.0 rs).1) (sym e) (ih x.0 w)
    rest (inr b) = (Bound-run aead o x.0 rs b).0

waiting_run :
    (aead : Aead) (c : VoiceConnection) (d : ℕ) (rs : List Round)
    → c.phase ≡ waiting d
    → All (GoesTo (peer_addr rs)) (run aead c rs).1
unfolding run step phase_step peer_addr
waiting_run aead c d [] h = tt
waiting_run aead c d (r ∷ rs) h =
    subst
      (λ ph.
        All (GoesTo (peer_addr (r ∷ rs)))
          ((phase_step aead c r ph).1 ++ (run aead (phase_step aead c r ph).0 rs).1))
      (sym h) (waiting_rest aead c d r rs h (λ c' w. waiting_run aead c' d rs w))

-- Whatever happens to a connection from its start on, every datagram that it sends goes to the
-- address of the first `Init` request that it gets; before one it sends none, and a later one with
-- another address changes nothing.
pub run-GoesTo :
    (aead : Aead) (now client_id source_id : ℕ) (key : List ℕ) (rs : List Round)
    → All (GoesTo (peer_addr rs)) (run aead (start now client_id source_id key) rs).1
unfolding start
run-GoesTo aead now client_id source_id key rs = waiting_run aead _ _ rs refl
