-- ===== src/Client/Nonces.antt =====
-- client/src/udp.rs: the nonces that `udp_tx` uses.
use voices.Common.{
  ℕ, suc, ◌^◌, ◌<◌, ◌≤◌, ◌≡◌, ◌≢◌, List, [], ◌∷◌, length, All, arith, refl, ap, sym, subst, ◌∙◌,
  ◌++◌, both_branches, leb, Bool, true, false, Option, none, some,
}
use voices.Net.{Payload, voice, ping, ip_disco}
use voices.Crypto.{Aead, nonce, encrypt}
use voices.Crypto.Nonce.{nonce-injective}
use voices.Client.Sends.{fails, waits, speaks, pings, Runs, done, next, tx_run-Runs}
use voices.Client.Sender.{
  Tx, TxEvent, mic, slept, on_tx, send_voice, send_ping, tx_step, TxState, sending, failed, TxRound,
  Speaker, wrapping_add, start_tx, tx_run,
}

-- The nonces that the headers of the voice packets in what was sent stand for.
abbrev pub nonces : List Payload → List (List ℕ)
nonces [] = []
nonces (voice v ∷ out) = nonce v.sequence v.stream_time ∷ nonces out
nonces (ping g ∷ out) = nonces out
nonces (ip_disco q ∷ out) = nonces out

-- Each voice packet holds what the cipher makes of some chunk under the key and the nonce in the list.
abbrev pub Encrypted : Aead → List ℕ → List Payload → List (List ℕ) → Type 0
Encrypted aead key [] ns = ns ≡ []
Encrypted aead key (voice v ∷ out) [] = ⊥
Encrypted aead key (voice v ∷ out) (n ∷ ns) =
    ((chunk : List ℕ) × (aead.encrypt_in_place key n chunk ≡ some v.payload))
    × Encrypted aead key out ns
Encrypted aead key (ping g ∷ out) ns = Encrypted aead key out ns
Encrypted aead key (ip_disco q ∷ out) ns = Encrypted aead key out ns

abbrev pub IsDistinct : List (List ℕ) → Type 0
IsDistinct [] = Unit
IsDistinct (n ∷ ns) = All (λ m. n ≢ m) ns × IsDistinct ns

-- The number of the packet is one of the `count` that follow `first`, and its time is a `u64`.
pub data Within (first count : ℕ) : List ℕ → Type 0 where
  within :
      (s t j : ℕ)
      → j < count
      → s ≡ wrapping_add first j
      → t < 2 ^ 64
      → Within first count (nonce s t)

-- The nonces of packets with consecutive numbers.
abbrev pub Counted : ℕ → List (List ℕ) → Type 0
Counted first [] = Unit
Counted first (n ∷ ns) =
    ((t : ℕ) × (t < 2 ^ 64) × (n ≡ nonce first t)) × Counted (wrapping_add first 1) ns

Within-suc :
    (first count : ℕ) (n : List ℕ)
    → Within (wrapping_add first 1) count n
    → Within first (suc count) n
Within-suc first count n (within s t j lt e b) =
    within s t (suc j) (omega (arith, lt)) (omega (arith, e)) b

All-map :
    (P Q : List ℕ → Type 0) (ns : List (List ℕ)) → ((n : List ℕ) → P n → Q n) → All P ns → All Q ns
All-map P Q [] f a = tt
All-map P Q (n ∷ ns) f (p, a) = (f n p, All-map P Q ns f a)

Counted-Within :
    (first : ℕ) (ns : List (List ℕ))
    → first < 2 ^ 64
    → Counted first ns
    → All (Within first (length ns)) ns
Counted-Within first [] lt c = tt
Counted-Within first (n ∷ ns) lt ((t, b, e), c) = (
  subst (Within first (suc (length ns))) (sym e)
      (within first t 0 (omega arith) (omega (arith, lt)) b),
  All-map (Within (wrapping_add first 1) (length ns)) (Within first (suc (length ns))) ns
      (Within-suc first (length ns)) (Counted-Within (wrapping_add first 1) ns (omega arith) c),
)

other_nonce :
    (first count t : ℕ) (n m : List ℕ)
    → first < 2 ^ 64
    → suc count ≤ 2 ^ 64
    → t < 2 ^ 64
    → n ≡ nonce first t
    → Within (wrapping_add first 1) count m
    → n ≢ m
other_nonce first count t n m lt le b e (within s u j few at c) same =
    let (_, h, _) = nonce-injective first t s u lt b (omega (arith, at)) c (sym e ∙ same) in
    absurd (omega (arith, h, at, few, le, lt))

Counted-IsDistinct :
    (first : ℕ) (ns : List (List ℕ))
    → first < 2 ^ 64
    → length ns ≤ 2 ^ 64
    → Counted first ns
    → IsDistinct ns
Counted-IsDistinct first [] lt le c = tt
Counted-IsDistinct first (n ∷ ns) lt le ((t, b, e), c) = (
  All-map (Within (wrapping_add first 1) (length ns)) (λ m. n ≢ m) ns
      (λ m w. other_nonce first (length ns) t n m lt le b e w)
      (Counted-Within (wrapping_add first 1) ns (omega arith) c),
  Counted-IsDistinct (wrapping_add first 1) ns (omega arith) (omega (arith, le)) c,
)

-- The counters are `u64`s.
abbrev pub IsU64 : TxState → Type 0
IsU64 (sending t) = (t.sequence < 2 ^ 64) × (t.stream_time < 2 ^ 64)
IsU64 failed = Unit

abbrev CountedFrom : TxState → List Payload → Type 0
CountedFrom (sending t) out = Counted t.sequence (nonces out)
CountedFrom failed out = nonces out ≡ []

Runs-Counted :
    (c : Speaker) (s u : TxState) (out : List Payload)
    → Runs c s u out
    → IsU64 s
    → CountedFrom s out
Runs-Counted c (sending t) u out (done _) b = tt
Runs-Counted c failed u out (done _) b = refl
Runs-Counted c s u out (next t _ _ o os fails r) b =
    subst (Counted t.sequence) (sym (Runs-Counted c failed u os r tt)) tt
Runs-Counted c s u out (next t _ _ o os waits r) b = Runs-Counted c (sending t) u os r b
Runs-Counted c s u out (next t _ _ o os (speaks w v n m e) r) (b, b') = (
  (t.stream_time, b', cc (n, m)),
  subst (λ k. Counted k (nonces os)) (ap (λ x. x.sequence) e)
      (Runs-Counted c (sending w) u os r
        (omega (arith, ap (λ x. x.sequence) e), omega (arith, ap (λ x. x.stream_time) e))),
)
Runs-Counted c s u out (next t _ _ o os (pings w g n e) r) (b, b') =
    subst (λ k. Counted k (nonces os)) (ap (λ x. x.sequence) e)
      (Runs-Counted c (sending w) u os r
        (omega (arith, ap (λ x. x.sequence) e, b), omega (arith, ap (λ x. x.stream_time) e, b')))

module _ (aead : Aead) (c : Speaker) where
  abbrev IsEncrypted : List Payload → Type 0
  IsEncrypted out = Encrypted aead c.key out (nonces out)

  IsEncrypted-++ : (xs ys : List Payload) → IsEncrypted xs → IsEncrypted ys → IsEncrypted (xs ++ ys)
  IsEncrypted-++ [] ys a b = b
  IsEncrypted-++ (voice v ∷ xs) ys (h, a) b = (h, IsEncrypted-++ xs ys a b)
  IsEncrypted-++ (ping g ∷ xs) ys a b = IsEncrypted-++ xs ys a b
  IsEncrypted-++ (ip_disco q ∷ xs) ys a b = IsEncrypted-++ xs ys a b

  send_voice-IsEncrypted :
      (taken : Bool) (t : Tx) (chunk : List ℕ) (o : Option (List ℕ))
      → encrypt aead c.key chunk t.sequence t.stream_time ≡ o
      → IsEncrypted (send_voice c taken t o).1
  unfolding send_voice encrypt
  send_voice-IsEncrypted taken t chunk none e = refl
  send_voice-IsEncrypted false t chunk (some p) e = refl
  send_voice-IsEncrypted true t chunk (some p) e = ((chunk, e), refl)

  send_ping-IsEncrypted :
      (taken : Bool) (t : Tx) (n : ℕ) (o : Option ℕ) → IsEncrypted (send_ping c taken t n o).1
  unfolding send_ping
  send_ping-IsEncrypted taken t n none = refl
  send_ping-IsEncrypted false t n (some m) = refl
  send_ping-IsEncrypted true t n (some m) = refl

  on_tx-IsEncrypted : (t : Tx) (taken : Bool) (e : TxEvent) → IsEncrypted (on_tx aead c t taken e).1
  unfolding on_tx
  on_tx-IsEncrypted t taken (mic none) = refl
  on_tx-IsEncrypted t taken (mic (some chunk)) =
      both_branches (λ (x : TxState × List Payload). IsEncrypted x.1) c.mute refl
        (send_voice-IsEncrypted taken t chunk (encrypt aead c.key chunk t.sequence t.stream_time)
          refl)
  on_tx-IsEncrypted t taken (slept w) =
      both_branches (λ (x : TxState × List Payload). IsEncrypted x.1) (leb t.deadline w.now)
        (send_ping-IsEncrypted taken t w.received w.millis) refl

  step-IsEncrypted : (s : TxState) (r : TxRound) → IsEncrypted (tx_step aead c s r).1
  unfolding tx_step
  step-IsEncrypted failed r = refl
  step-IsEncrypted (sending t) r = on_tx-IsEncrypted t r.taken r.event

  run-IsEncrypted : (s : TxState) (rs : List TxRound) → IsEncrypted (tx_run aead c s rs).1
  unfolding tx_run
  run-IsEncrypted s [] = refl
  run-IsEncrypted s (r ∷ rs) =
      IsEncrypted-++ (tx_step aead c s r).1 (tx_run aead c (tx_step aead c s r).0 rs).1
        (step-IsEncrypted s r) (run-IsEncrypted (tx_step aead c s r).0 rs)

-- Within one run of the sending task, from any start of its two random `u64`s, each voice packet that is
-- sent holds what the cipher makes of a chunk under the key of the session and the nonce of its header,
-- and no two of them are encrypted with the same nonce, as long as at most 2^64 of them are sent.
pub run-IsDistinct :
    (aead : Aead) (c : Speaker) (now seq time : ℕ) (rs : List TxRound)
    → seq < 2 ^ 64
    → time < 2 ^ 64
    → length (nonces (tx_run aead c (start_tx now seq time) rs).1) ≤ 2 ^ 64
    → Encrypted aead c.key
        (tx_run aead c (start_tx now seq time) rs).1
        (nonces (tx_run aead c (start_tx now seq time) rs).1)
      × IsDistinct (nonces (tx_run aead c (start_tx now seq time) rs).1)
run-IsDistinct aead c now seq time rs b b' le =
    let s : TxState = start_tx now seq time in
    (
      run-IsEncrypted aead c s rs,
      Counted-IsDistinct seq (nonces (tx_run aead c s rs).1) b le (
          Runs-Counted c s (tx_run aead c s rs).0 (tx_run aead c s rs).1 (tx_run-Runs aead c s rs)
            (b, b')),
    )
