-- ===== src/Crypto/Examples.antt =====
-- The nonces of server/voice/crypto/src/lib.rs on small inputs.
use voices.Common.{◌≡◌, refl, [], ◌∷◌}
use voices.Crypto.{nonce}

nonce_bytes :
    nonce 258 1
    ≡ 0 ∷ 0 ∷ 0 ∷ 0 ∷ 0 ∷ 0 ∷ 1 ∷ 2 ∷ 0 ∷ 0 ∷ 0 ∷ 0 ∷ 0 ∷ 0 ∷ 0 ∷ 1 ∷ 0 ∷ 0 ∷ 0 ∷ 0 ∷ 0 ∷ 0 ∷ 0 ∷ 0
      ∷ []
unfolding nonce
nonce_bytes = refl
