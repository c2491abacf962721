-- ===== src/Standalone.antt =====
-- The standalone server, where one process holds the channels, a voice server and the gateway: what a
-- session gets from them when its client joins a channel. server/gateway/src/server/session.rs asks
-- for the channel's room, server/gateway/src/channel_registry/integrated.rs for its voice host, and
-- server/gateway/src/voice_instance/integrated.rs is that host.
pub mod Dead
mod Examples
use voices.Common.{ℕ, Bool, true, false, Option, none, some, String, if◌then◌else◌}
use voices.Crypto.{Aead}
use voices.Forwarder.{Random}
use voices.VoiceServer.{VoiceServer}
use voices.VoiceServer.Requests.{Result, ok, err, ConnectionData}
use voices.Registry.{Tables}
use voices.Grpc.{map_err, map_ok}
use voices.Hosts.{
  HostError, missing, other, Response, opened, Request, open_connection, integrated_host,
}
use voices.Hosts.Choice.{Failed, local_voice_host_for}
use voices.Session.{ServerSession, Room, End, failed}
use voices.Session.Join.{Answers, VoiceHostError, not_found, request_of}
use voices.Session.Join

-- The errors of a voice host, as a session distinguishes them.
abbrev pub kind_of : HostError → VoiceHostError
kind_of (missing name) = not_found
kind_of other = VoiceHostError.other

abbrev pub data_of : Result Response HostError → Result ConnectionData VoiceHostError
data_of (ok (opened d)) = ok d
data_of (ok _) = err VoiceHostError.other
data_of (err e) = err (kind_of e)

-- `get_or_init`, when the room is not in the table of channels, and `reassign_voice`.
abbrev pub found_as : Result (Option Room) Failed → Result (Option Room) End
found_as (ok o) = ok o
found_as (err e) = err failed

abbrev pub reassigned_as : Result (Option Room) Failed → Result Room End
reassigned_as (ok (some room)) = ok room
reassigned_as (ok none) = err failed
reassigned_as (err e) = err failed

module _ (aead : Aead) (now : ℕ) (bound : Bool) (rand : Random) (t : Tables) where
  -- The four answers in the order in which a join asks for them, where it asks; `known` says whether the
  -- room is in the table of channels, and the other answers are those of `a`.
  unfoldable pub ask_hosts : Bool → Room → ServerSession → ℕ → VoiceServer → Answers → Answers
  ask_hosts known room s id v a =
      let (host, v1) = local_voice_host_for now bound id false room t v in
      let v' = if known then v else v1 in
      let (answer, v2) = integrated_host aead now rand (open_connection (request_of s id)) v' in
      let (again, v3) = local_voice_host_for now bound id true room t v2 in
      let (last, v4) = integrated_host aead now rand (open_connection (request_of s id)) v3 in
      record a {
        found = if known then ok (some room) else found_as host;
        opened = data_of answer;
        reassigned = reassigned_as again;
        reopened = data_of last;
      }
