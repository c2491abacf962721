-- ===== src/Client/Pings.antt =====
-- client/src/udp.rs: what the pings of `udp_tx` say of the packets that were sent.
use voices.Common.{ℕ, suc, ◌%◌, ◌^◌, ◌<◌, ◌≡◌, List, [], ◌∷◌, arith, ap, subst, sym, ◌∙◌}
use voices.Net.{Payload, voice, ping, ip_disco}
use voices.Crypto.{Aead}
use voices.Client.Sends.{fails, waits, speaks, pings, Runs, done, next, tx_run-Runs}
use voices.Client.Sender.{
  Tx, TxState, sending, failed, TxRound, Speaker, wrapping_add, wrapping_sub, start_tx, tx_run,
}

-- Each ping carries, as a `u64`, the number of voice packets that were sent before the ping before it,
-- or zero if it is the first. `count` packets are sent so far, and `before` were at the last ping.
abbrev pub IsLagging : ℕ → ℕ → List Payload → Type 0
IsLagging count before [] = Unit
IsLagging count before (voice v ∷ out) = IsLagging (suc count) before out
IsLagging count before (ping g ∷ out) = (g.sent ≡ before % 2 ^ 64) × IsLagging count count out
IsLagging count before (ip_disco q ∷ out) = ⊥

-- The counters of the task after `count` packets, `before` of which the last ping followed.
record Tallies (count before : ℕ) (t : Tx) : Type 0 where
  pub small : t.start_seq_num < 2 ^ 64
  pub counted : t.sequence ≡ wrapping_add t.start_seq_num count
  pub stored : t.sent ≡ before % 2 ^ 64

abbrev TalliesOr : ℕ → ℕ → TxState → Type 0
TalliesOr count before (sending t) = Tallies count before t
TalliesOr count before failed = Unit

speak-Tallies :
    (count before : ℕ) (t u : Tx)
    → u ≡ record t {
      sequence = wrapping_add t.sequence 1;
      stream_time = wrapping_add t.stream_time 960;
    }
    → Tallies count before t
    → Tallies (suc count) before u
speak-Tallies count before t u e i =
    subst (Tallies (suc count) before) (sym e)
      (record { small = i.small; counted = omega (arith, i.counted); stored = i.stored })

difference : (s n : ℕ) → s < 2 ^ 64 → wrapping_sub (wrapping_add s n) s ≡ n % 2 ^ 64
difference s n lt = omega (arith, lt)

nothing-IsLagging :
    (c : Speaker) (u : TxState) (out : List Payload) (count before : ℕ)
    → Runs c failed u out
    → IsLagging count before out
nothing-IsLagging c u out count before (done _) = tt

Runs-IsLagging :
    (c : Speaker) (s u : TxState) (out : List Payload) (count before : ℕ)
    → Runs c s u out
    → TalliesOr count before s
    → IsLagging count before out
Runs-IsLagging c s u out n m (done _) i = tt
Runs-IsLagging c s u out n m (next t _ _ o os fails r) i = nothing-IsLagging c u os n m r
Runs-IsLagging c s u out n m (next t _ _ o os waits r) i = Runs-IsLagging c (sending t) u os n m r i
Runs-IsLagging c s u out n m (next t _ _ o os (speaks w v _ _ e) r) i =
    Runs-IsLagging c (sending w) u os (suc n) m r (speak-Tallies n m t w e i)
Runs-IsLagging c s u out n m (next t _ _ o os (pings w g k e) r) i = (
  k ∙ i.stored,
  Runs-IsLagging c (sending w) u os n n r (
      subst (Tallies n n) (sym e) (record {
        small = i.small;
        counted = i.counted;
        stored =
            ap (λ x. wrapping_sub x t.start_seq_num) i.counted
            ∙ difference t.start_seq_num n i.small;
      })),
)

-- The count of sent packets in a ping is not that of the moment: from any start, each ping of the
-- sending task carries the number of voice packets that were sent before the ping before it, modulo
-- 2^64, and the first one carries zero.
pub run-IsLagging :
    (aead : Aead) (c : Speaker) (now seq time : ℕ) (rs : List TxRound)
    → seq < 2 ^ 64
    → IsLagging 0 0 (tx_run aead c (start_tx now seq time) rs).1
run-IsLagging aead c now seq time rs lt =
    let s : TxState = start_tx now seq time in
    Runs-IsLagging c s (tx_run aead c s rs).0 (tx_run aead c s rs).1 0 0 (tx_run-Runs aead c s rs)
      (record { small = lt; counted = omega (arith, lt); stored = omega arith })
