-- ===== src/VoiceServer/Ops.antt =====
-- server/voice/core/src/lib.rs: the steps of a voice server with its forwarders.
use voices.Common.{ℕ, ◌≢◌, Bool, Option, none, some, List, [], ◌∷◌, lookup, insert}
use voices.Crypto.{Aead}
use voices.Forwarder.{ChannelCtl}
use voices.Forwarder.Loop.{Room, Act}
use voices.Forwarder.Loop
use voices.VoiceServer.{VoiceServer, Channel, assign_channel, cleanup}
use voices.VoiceServer.Requests.{ask}

-- What can happen to the server: an assignment, a request to any channel, a step of a forwarder, and
-- the cleanup of a channel.
pub data Op : Type 0 where
  assign : ℕ → Bool → ℕ → Op
  request : ℕ → ChannelCtl → Channel → Op
  room_act : ℕ → ℕ → Act → Op
  clean : ℕ → Op

abbrev pub acted : Aead → ℕ → ℕ → Act → VoiceServer → Option Room → VoiceServer
acted aead now handle a s none = s
acted aead now handle a s (some m) = record s {
  rooms = insert handle (Loop.step aead m (now, a)) s.rooms;
}

unfoldable pub op_step : Aead → VoiceServer → Op → VoiceServer
unfolding assign_channel ask cleanup
op_step aead s (assign now bound id) = (assign_channel now bound id s).1
op_step aead s (request now c ch) = (ask aead now c ch s).1
op_step aead s (room_act now handle a) = acted aead now handle a s (lookup handle s.rooms)
op_step aead s (clean id) = cleanup id s

unfoldable pub op_run : Aead → VoiceServer → List Op → VoiceServer
op_run aead s [] = s
op_run aead s (o ∷ os) = op_run aead (op_step aead s o) os

-- The cleanup task gets no message about `id`.
abbrev pub Unannounced : ℕ → List Op → Type 0
Unannounced id [] = Unit
Unannounced id (clean j ∷ os) = (j ≢ id) × Unannounced id os
Unannounced id (_ ∷ os) = Unannounced id os
