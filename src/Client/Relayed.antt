-- ===== src/Client/Relayed.antt =====
-- The whole way of a chunk of one member's microphone to another member's player: client/src/udp.rs at
-- both ends, and the two connections of the voice server between them.
use voices.Common.{
  ℕ, ◌+◌, arith, ◌%◌, ◌^◌, ◌≡◌, ◌≢◌, Bool, true, false, none, some, List, [], ◌∷◌, refl, sym, ap,
  ◌∙◌,
}
use voices.Net.{Voice, Payload, ServerMessage}
use voices.Crypto.{Aead, encrypt, decrypt}
use voices.Connection.{
  VoiceConnection, Peering, udp_pkt, voice_rx, received, send_to, voice_tx, peered_step,
  InternalMsg,
}
use voices.Connection.Relay.{relay}
use voices.Client.Sender.{Tx, sending, TxRound, mic, Speaker, tx_step, on_tx, send_voice}
use voices.Client.Receiver.{
  Rx, RxRound, sock_msg, msg, queued, to_stream, receiving, start_rx, rx_step, rx_run, send_found,
}
use voices.Client.Routes.{stream_of, run-routes}

-- The packet for a chunk that is due, with a payload.
abbrev pub packet : Tx → Speaker → List ℕ → Voice
packet t c payload = record {
  sequence = t.sequence;
  stream_time = t.stream_time;
  source_id = c.source_id;
  payload = payload;
}

abbrev pub chunk_round : List ℕ → TxRound
chunk_round plain = record { event = mic (some plain); taken = true }

abbrev pub packet_round : Voice → RxRound
packet_round v = record {
  event = sock_msg (msg (some (ServerMessage.voice v)));
  answer = queued;
  clock = true;
}

spoken :
    (aead : Aead) (c : Speaker) (t : Tx) (plain sealed : List ℕ)
    → c.mute ≡ false
    → encrypt aead c.key plain t.sequence t.stream_time ≡ some sealed
    → (tx_step aead c (sending t) (chunk_round plain)).1 ≡ Payload.voice (packet t c sealed) ∷ []
unfolding tx_step on_tx send_voice
spoken aead c t plain sealed m e = ground arith

module _ (aead : Aead) (a b : VoiceConnection) (p q : Peering) (now : ℕ) where
  -- A chunk that a member who is not muted speaks, under the key of its connection `a`, is sent as one
  -- packet; `a` puts it on the broadcast; a connection `b` with another source id sends it to its own
  -- client under that client's key; and if that client's voice events so far give the speaker a stream,
  -- which takes the packet, its player gets the chunk as it was spoken. Each encryption is assumed to
  -- succeed, and each datagram to arrive.
  pub heard_as_spoken :
      (c : Speaker) (t : Tx) (plain up down : List ℕ) (deaf : Bool) (s : Rx) (rs : List RxRound)
      (stream : ℕ)
      → c.mute ≡ false
      → c.key ≡ a.crypt_key
      → b.source_id ≢ a.source_id
      → encrypt aead c.key plain t.sequence t.stream_time ≡ some up
      → encrypt aead b.crypt_key plain t.sequence t.stream_time ≡ some down
      → (rx_run aead b.crypt_key deaf (start_rx deaf).0 rs).0 ≡ receiving s
      → stream_of c.source_id 0 none rs ≡ some stream
      → ((tx_step aead c (sending t) (chunk_round plain)).1 ≡ Payload.voice (packet t c up) ∷ [])
        × ((peered_step aead now true a p (udp_pkt (some (InternalMsg.voice (packet t c up))))).1
            ≡ voice_tx a.source_id (packet t c plain) ∷ [])
        × ((peered_step aead now true b q (voice_rx (received a.source_id (packet t c plain)))).1
            ≡ send_to (ServerMessage.voice (packet t c down)) q.addr ∷ [])
        × ((rx_step aead b.crypt_key deaf (receiving s) (packet_round (packet t c down))).1
            ≡ to_stream stream (packet t c plain) ∷ [])
  heard_as_spoken c t plain up down deaf s rs stream m k ne eu ed h e =
      let (x, y, _, z) : ((peered_step aead now true a p
              (udp_pkt (some (InternalMsg.voice (packet t c up))))).1
            ≡ voice_tx a.source_id (packet t c plain) ∷ [])
          × ((peered_step aead now true b q (voice_rx (received a.source_id (packet t c plain)))).1
              ≡ send_to (ServerMessage.voice (packet t c down)) q.addr ∷ [])
          × ((peered_step aead now true a p (voice_rx (received a.source_id (packet t c plain)))).1
              ≡ [])
          × (decrypt aead b.crypt_key down t.sequence t.stream_time ≡ some plain) =
        relay aead a b p q now (packet t c up) plain down ne
          (ap (λ x. encrypt aead x plain t.sequence t.stream_time) (sym k) ∙ eu) ed in
      (
        spoken aead c t plain up m eu,
        x,
        y,
        ap (λ x. x.1)
              (run-routes aead b.crypt_key deaf s rs (packet_round (packet t c down))
                (packet t c down) plain h refl z)
            ∙ ap
                (λ o.
                  (send_found queued (record s { received = (s.received + 1) % 2 ^ 64 }) c.source_id
                    (packet t c plain) o).1)
                e,
      )
