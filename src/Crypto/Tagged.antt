-- ===== src/Crypto/Tagged.antt =====
-- A concrete cipher for the examples: it puts a tag in front of the payload, the sum of the bytes of
-- the key and of the nonce, and refuses a payload with another tag.
use voices.Common.{ℕ, ◌+◌, ◌≡◌, List, [], ◌∷◌, Option, none, some, arith, ◌==◌, if◌then◌else◌}
use voices.Crypto.{Aead}

abbrev sum : List ℕ → ℕ
sum [] = 0
sum (x ∷ xs) = x + sum xs

abbrev seal : List ℕ → List ℕ → List ℕ → Option (List ℕ)
seal key nonce voice = some ((sum key + sum nonce) ∷ voice)

abbrev unseal : List ℕ → List ℕ → List ℕ → Option (List ℕ)
unseal key nonce [] = none
unseal key nonce (tag ∷ voice) = if tag == sum key + sum nonce then some voice else none

pub unseal-seal :
    (key nonce voice sealed : List ℕ)
    → seal key nonce voice ≡ some sealed
    → unseal key nonce sealed ≡ some voice
unseal-seal key nonce voice [] h = ground arith
unseal-seal key nonce voice (t ∷ sealed) h = ground arith

abbrev pub tagged : Aead
tagged = record {
  encrypt_in_place = seal;
  decrypt_in_place = unseal;
  decrypt-encrypt = unseal-seal;
}
