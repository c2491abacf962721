-- ===== src/Connection/Relay.antt =====
-- The way of a voice packet from one member of a channel to another: client/src/udp.rs encrypts it,
-- the sender's connection decrypts it and puts it on the broadcast, the receiver's connection
-- encrypts it with the receiver's key, and the receiver decrypts it.
use voices.Common.{ℕ, ◌≡◌, ◌≢◌, List, [], ◌∷◌, some, arith, true}
use voices.Net.{Voice, ServerMessage}
use voices.Crypto.{Aead, encrypt, decrypt, decrypt_encrypted}
use voices.Connection.{
  VoiceConnection, Peering, udp_pkt, voice, voice_rx, received, send_to, voice_tx, peered_step,
}

module _ (aead : Aead) (a b : VoiceConnection) (p q : Peering) (now : ℕ) where
  -- If a client's packet is the encryption of `plain` under the key of its connection, then that
  -- connection puts `plain` on the broadcast, with the packet's sequence number and times; and a
  -- connection with another source id, whose encryption succeeds, sends to its own peer one packet
  -- that its client decrypts to `plain`. The sender's connection sends nothing back.
  pub relay :
      (v : Voice) (plain sealed : List ℕ)
      → b.source_id ≢ a.source_id
      → encrypt aead a.crypt_key plain v.sequence v.stream_time ≡ some v.payload
      → encrypt aead b.crypt_key plain v.sequence v.stream_time ≡ some sealed
      → ((peered_step aead now true a p (udp_pkt (some (voice v)))).1
          ≡ voice_tx a.source_id (record v { payload = plain }) ∷ [])
        × ((peered_step aead now true b q
              (voice_rx (received a.source_id (record v { payload = plain })))).1
            ≡ send_to (ServerMessage.voice (record v { payload = sealed })) q.addr ∷ [])
        × ((peered_step aead now true a p
              (voice_rx (received a.source_id (record v { payload = plain })))).1
            ≡ [])
        × (decrypt aead b.crypt_key sealed v.sequence v.stream_time ≡ some plain)
  unfolding peered_step
  relay v plain sealed other ea eb = (
    ground (arith, decrypt_encrypted aead a.crypt_key plain v.payload v.sequence v.stream_time ea),
    ground arith,
    ground arith,
    decrypt_encrypted aead b.crypt_key plain sealed v.sequence v.stream_time eb,
  )
