-- ===== src/Crypto.antt =====
-- server/voice/crypto/src/lib.rs: the nonce of a voice packet, and its encryption. The cipher
-- itself, XSalsa20-Poly1305, is a library: it is the parameter `Aead`.
pub mod Nonce
pub mod Tagged
mod Examples
use voices.Common.{ℕ, ◌/◌, ◌%◌, ◌^◌, ◌≡◌, List, [], ◌∷◌, ◌++◌, Option, some}

-- `encrypt_in_place` and `decrypt_in_place` of a key, a nonce and a payload, and what the library
-- documents of them: what was encrypted under a key and a nonce is decrypted under the same.
pub record Aead : Type 0 where
  pub encrypt_in_place : List ℕ → List ℕ → List ℕ → Option (List ℕ)
  pub decrypt_in_place : List ℕ → List ℕ → List ℕ → Option (List ℕ)
  pub decrypt-encrypt :
      (key nonce voice sealed : List ℕ)
      → encrypt_in_place key nonce voice ≡ some sealed
      → decrypt_in_place key nonce sealed ≡ some voice

-- `u64::to_be_bytes`
unfoldable pub to_be_bytes : ℕ → List ℕ
to_be_bytes x =
    (x / 2 ^ 56 % 256)
    ∷ (x / 2 ^ 48 % 256)
    ∷ (x / 2 ^ 40 % 256)
    ∷ (x / 2 ^ 32 % 256)
    ∷ (x / 2 ^ 24 % 256)
    ∷ (x / 2 ^ 16 % 256)
    ∷ (x / 2 ^ 8 % 256)
    ∷ (x % 256)
    ∷ []

abbrev pub zeros : List ℕ
zeros = 0 ∷ 0 ∷ 0 ∷ 0 ∷ 0 ∷ 0 ∷ 0 ∷ 0 ∷ []

-- The 24 bytes: the sequence number, the stream time, and the eight bytes left at zero.
unfoldable pub nonce : ℕ → ℕ → List ℕ
unfolding to_be_bytes
nonce sequence stream_time = to_be_bytes sequence ++ (to_be_bytes stream_time ++ zeros)

module _ (aead : Aead) where
  unfoldable pub encrypt : List ℕ → List ℕ → ℕ → ℕ → Option (List ℕ)
  encrypt key voice sequence stream_time =
      aead.encrypt_in_place key (nonce sequence stream_time) voice

  unfoldable pub decrypt : List ℕ → List ℕ → ℕ → ℕ → Option (List ℕ)
  decrypt key voice sequence stream_time =
      aead.decrypt_in_place key (nonce sequence stream_time) voice

  pub decrypt_encrypted :
      (key voice sealed : List ℕ) (sequence stream_time : ℕ)
      → encrypt key voice sequence stream_time ≡ some sealed
      → decrypt key sealed sequence stream_time ≡ some voice
  unfolding encrypt decrypt
  decrypt_encrypted key voice sealed sequence stream_time h =
      aead.decrypt-encrypt key (nonce sequence stream_time) voice sealed h
