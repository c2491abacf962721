-- ===== src/Crypto/Nonce.antt =====
-- server/voice/crypto/src/lib.rs: which packets share a nonce.
use voices.Common.{ℕ, ◌^◌, ◌*◌, ◌+◌, ◌<◌, ◌≡◌, List, [], ◌∷◌, arith, length, refl, ap}
use voices.Crypto.{nonce}

-- The value of a list of bytes, the first byte the highest.
unfoldable pub from_be_bytes : ℕ → List ℕ → ℕ
from_be_bytes acc [] = acc
from_be_bytes acc (b ∷ bs) = from_be_bytes (acc * 256 + b) bs

unfoldable pub first8 : List ℕ → ℕ
unfolding from_be_bytes
first8 (a ∷ b ∷ c ∷ d ∷ e ∷ f ∷ g ∷ h ∷ rest) = from_be_bytes 0 (a ∷ b ∷ c ∷ d ∷ e ∷ f ∷ g ∷ h ∷ [])
first8 _ = 0

abbrev drop8 : List ℕ → List ℕ
drop8 (a ∷ b ∷ c ∷ d ∷ e ∷ f ∷ g ∷ h ∷ rest) = rest
drop8 _ = []

nonce_sequence : (s t : ℕ) → s < 2 ^ 64 → first8 (nonce s t) ≡ s
unfolding first8 nonce
nonce_sequence s t h = omega arith

nonce_time : (s t : ℕ) → t < 2 ^ 64 → first8 (drop8 (nonce s t)) ≡ t
unfolding first8 nonce
nonce_time s t h = omega arith

length-nonce : (s t : ℕ) → length (nonce s t) ≡ 24
unfolding nonce
length-nonce s t = refl

-- A nonce has 24 bytes, and two packets have the same nonce only if they agree in their 64-bit
-- sequence number and in their 64-bit stream time.
pub nonce-injective :
    (s t s' t' : ℕ)
    → s < 2 ^ 64
    → t < 2 ^ 64
    → s' < 2 ^ 64
    → t' < 2 ^ 64
    → nonce s t ≡ nonce s' t'
    → (length (nonce s t) ≡ 24) × (s ≡ s') × (t ≡ t')
nonce-injective s t s' t' a b c d e = (
  length-nonce s t,
  omega (arith, nonce_sequence s t a, nonce_sequence s' t' c, ap first8 e),
  omega (arith, nonce_time s t b, nonce_time s' t' d, ap (λ n. first8 (drop8 n)) e),
)
