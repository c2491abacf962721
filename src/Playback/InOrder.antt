-- ===== src/Playback/InOrder.antt =====
-- client/src/play.rs: the buffer while packets come in order.
use voices.Common.{
  ℕ, suc, ◌^◌, ◌<◌, ◌≤◌, ◌≡◌, List, [], ◌∷◌, ◌++◌, All, arith, refl, ap, sym, subst, ◌∙◌, ltb,
  ltb→lt, Bool-cases, inl, inr,
}
use voices.Playback.{Voice, State, insert_voice, push, succ_u64}

-- Strictly ascending.
abbrev pub IsStrict : List Voice → Type 0
IsStrict [] = Unit
IsStrict (v ∷ q) = All (λ w. v.sequence < w.sequence) q × IsStrict q

-- What holds while the packets come in order: the buffer is in order, between the packet that is
-- expected and `m`, the least number that may come.
pub record InOrder (m : ℕ) (s : State) : Type 0 where
  pub strict : IsStrict s.queue
  pub above : All (λ w. s.next_expected ≤ w.sequence) s.queue
  pub below : All (λ w. w.sequence < m) s.queue
  pub expected : s.next_expected ≤ m
  pub small : m < 2 ^ 64

last-insert :
    (v : Voice) (q : List Voice)
    → All (λ w. w.sequence < v.sequence) q
    → insert_voice v q ≡ q ++ v ∷ []
unfolding insert_voice
last-insert v [] a = refl
last-insert v (w ∷ q) (lt, a) = elim (Bool-cases (ltb v.sequence w.sequence)) [
  | inl b ↦ absurd (omega (arith, lt, ltb→lt v.sequence w.sequence b))
  | inr b ↦ rw (b) (ap (λ x. w ∷ x) (last-insert v q a))
]

below-le :
    (m n : ℕ) (q : List Voice) → m ≤ n → All (λ w. w.sequence < m) q → All (λ w. w.sequence < n) q
below-le m n [] le a = tt
below-le m n (w ∷ q) le (lt, a) = (omega (arith, le, lt), below-le m n q le a)

snoc-All {ℓ} :
    (P : Voice → Type ℓ) (q : List Voice) (v : Voice) → All P q → P v → All P (q ++ v ∷ [])
snoc-All P [] v a p = (p, tt)
snoc-All P (w ∷ q) v (b, a) p = (b, snoc-All P q v a p)

snoc-IsStrict :
    (q : List Voice) (v : Voice)
    → IsStrict q
    → All (λ w. w.sequence < v.sequence) q
    → IsStrict (q ++ v ∷ [])
snoc-IsStrict [] v s a = (tt, tt)
snoc-IsStrict (w ∷ q) v (b, s) (lt, a) =
    (snoc-All (λ x. w.sequence < x.sequence) q v b lt, snoc-IsStrict q v s a)

-- A push of the next packet.
pub push-InOrder :
    (m : ℕ) (v : Voice) (s : State)
    → InOrder m s
    → m ≤ v.sequence
    → suc v.sequence < 2 ^ 64
    → InOrder (suc v.sequence) (push v s) × ((push v s).queue ≡ s.queue ++ v ∷ [])
unfolding push
push-InOrder m v s i le lt =
    let below : All (λ w. w.sequence < v.sequence) s.queue =
      below-le m v.sequence s.queue le i.below in
    let e : insert_voice v s.queue ≡ s.queue ++ v ∷ [] = last-insert v s.queue below in
    let at : s.next_expected ≤ v.sequence = omega (arith, i.expected, le) in
    (
      record {
        strict = subst IsStrict (sym e) (snoc-IsStrict s.queue v i.strict below);
        above =
            subst (All (λ w. s.next_expected ≤ w.sequence)) (sym e)
              (snoc-All (λ w. s.next_expected ≤ w.sequence) s.queue v i.above at);
        below = subst (All (λ w. w.sequence < suc v.sequence)) (sym e) (
            snoc-All (λ w. w.sequence < suc v.sequence) s.queue v
              (below-le v.sequence (suc v.sequence) s.queue (omega arith) below) (omega arith));
        expected = omega (arith, at);
        small = lt;
      },
      e,
    )

succ_small : (n : ℕ) → suc n < 2 ^ 64 → succ_u64 n ≡ suc n
succ_small n lt = omega (arith, lt)

le-All : (n : ℕ) (q : List Voice) → All (λ w. n < w.sequence) q → All (λ w. suc n ≤ w.sequence) q
le-All n [] a = tt
le-All n (w ∷ q) (lt, a) = (omega (arith, lt), le-All n q a)

-- A pop of a packet.
pub takes-InOrder :
    (m : ℕ) (v : Voice) (s t : State)
    → s.queue ≡ v ∷ t.queue
    → t.next_expected ≡ succ_u64 v.sequence
    → InOrder m s
    → InOrder m t
takes-InOrder m v s t e n i =
    let (from, strict) : IsStrict (v ∷ t.queue) = subst IsStrict e i.strict in
    let (lt, below) : All (λ w. w.sequence < m) (v ∷ t.queue) =
      subst (All (λ w. w.sequence < m)) e i.below in
    let at : t.next_expected ≡ suc v.sequence =
      n ∙ succ_small v.sequence (omega (arith, lt, i.small)) in
    record {
      strict = strict;
      above =
          subst (λ k. All (λ w. k ≤ w.sequence) t.queue) (sym at) (le-All v.sequence t.queue from);
      below = below;
      expected = omega (arith, at, lt);
      small = i.small;
    }

-- A packet that is expected finds the buffer empty.
nothing_before :
    (n m : ℕ) (q : List Voice)
    → All (λ w. n ≤ w.sequence) q
    → All (λ w. w.sequence < m) q
    → m ≤ n
    → q ≡ []
nothing_before n m [] a b le = refl
nothing_before n m (w ∷ q) (a, _) (b, _) le = absurd (omega (arith, a, b, le))

pub plays-InOrder :
    (m : ℕ) (v : Voice) (s : State)
    → InOrder m s
    → m ≤ v.sequence
    → suc v.sequence < 2 ^ 64
    → v.sequence ≡ s.next_expected
    → InOrder (suc v.sequence) (record s { next_expected = succ_u64 v.sequence }) × (s.queue ≡ [])
plays-InOrder m v s i le lt at =
    let e : s.queue ≡ [] =
      nothing_before s.next_expected m s.queue i.above i.below (omega (arith, at, le)) in
    let n : succ_u64 v.sequence ≡ suc v.sequence = succ_small v.sequence lt in
    (
      record {
        strict = i.strict;
        above = subst (All (λ w. succ_u64 v.sequence ≤ w.sequence)) (sym e) tt;
        below = subst (All (λ w. w.sequence < suc v.sequence)) (sym e) tt;
        expected = omega (arith, n);
        small = lt;
      },
      e,
    )
