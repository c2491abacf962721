-- ===== src/Connection/KeepAlive.antt =====
-- server/voice/core/src/channel/connection.rs: when a connection gives up on a silent client.
use voices.Common.{ℕ, ◌+◌, ◌≤◌, ◌≡◌, ◌↔◌, Bool, List, arith, subst, sym}
use voices.Crypto.{Aead}
use voices.Connection.{
  VoiceConnection, peered, stopped, Peering, Round, timer, idle_timeout, peered_step, step, run,
}
use voices.Connection.Counters.{step_peered, last_heard, run-Statistics}

timer_iff :
    (aead : Aead) (now : ℕ) (sent : Bool) (c : VoiceConnection) (q : Peering)
    → c.phase ≡ peered q
    → ((peered_step aead now sent c q timer).0.phase ≡ stopped) ↔ (q.ping_deadline ≤ now)
unfolding peered_step
timer_iff aead now sent c q h = ground arith

module _ (aead : Aead) (c : VoiceConnection) (rs : List Round) (p q : Peering) (last : ℕ)
    (h : c.phase ≡ peered p) (d : p.ping_deadline ≡ last + idle_timeout)
    (k : (run aead c rs).0.phase ≡ peered q) where
  -- The timer ends a peered connection at a time exactly when the client's last ping (or, before one,
  -- the time that the deadline was set from) is 15 seconds ago or more.
  pub keep_alive_iff :
      (now : ℕ) (sent : Bool)
      → ((step aead (run aead c rs).0 (record { now = now; sent = sent; event = timer })).0.phase
          ≡ stopped)
        ↔ (last_heard last rs + idle_timeout ≤ now)
  keep_alive_iff now sent =
      subst (λ x. (x.0.phase ≡ stopped) ↔ (last_heard last rs + idle_timeout ≤ now))
        (sym (step_peered aead (run aead c rs).0 _ q k))
        (subst
          (λ t.
            ((peered_step aead now sent (run aead c rs).0 q timer).0.phase ≡ stopped) ↔ (t ≤ now))
          (run-Statistics aead c rs p q last h d k).deadline
          (timer_iff aead now sent (run aead c rs).0 q k))
