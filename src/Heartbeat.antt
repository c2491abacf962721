-- ===== src/Heartbeat.antt =====
-- server/voice/grpc/src/server.rs and src/registry/mod.rs: the registration of a voice server with the
-- channels service, and its part of the service, server/channels/grpc/src/service.rs. How ids are
-- printed and parsed is the parameter `Codec`, and what the parser makes of an address is
-- `url_from_str`. A call may fail on its way there or on its way back.
pub mod Rows
pub mod Active
pub mod Steady
mod Examples
use voices.Common.{ℕ, ◌+◌, Bool, true, false, Option, none, some, List, [], ◌∷◌, String}
use voices.VoiceServer.Requests.{Result, ok, err}
use voices.Registry.{Tables, register_voice_server, unassign}
use voices.Registry.Linked.{Op}
use voices.Registry.Linked
use voices.Grpc.{Codec, Text, text, Status, bad, ◌>>=◌}

pub record RegisterVoiceServerRequest : Type 0 where
  pub id : Text
  pub addr : Text

pub record UnassignChannelRequest : Type 0 where
  pub channel_id : Text
  pub server_id : Text

pub data Call : Type 0 where
  answered unanswered unreached : Call

abbrev pub took_place : Call → Bool
took_place answered = true
took_place unanswered = true
took_place unreached = false

-- `Server::HEARTBEAT_INTERVAL`
abbrev pub heartbeat_interval : ℕ
heartbeat_interval = 30000

abbrev pub done : {A : Type 0} → Result A Status → Bool
done (ok a) = true
done (err e) = false

-- What the caller sees of a call, and the tables after it.
abbrev pub called : {A : Type 0} → Call → Result A Status × Tables → Tables → Bool × Tables
called answered (r, t') t = (done r, t')
called unanswered (r, t') t = (false, t')
called unreached r t = (false, t)

module _ (codec : Codec) (url_from_str : Text → Option String) where
  abbrev register_parsed :
      ℕ → Result ℕ Status → Result String Status → Tables → Result ℕ Status × Tables
  register_parsed now (ok id) (ok url) t =
      let (valid_until, t') = register_voice_server now id url t in (ok valid_until, t')
  register_parsed now (ok id) (err e) t = (err e, t)
  register_parsed now (err e) url t = (err e, t)

  -- `register_voice_server` of the service
  unfoldable pub serve_register : ℕ → RegisterVoiceServerRequest → Tables → Result ℕ Status × Tables
  serve_register now req t =
      register_parsed now (bad (text "bad voice_server_id") (codec.uuid_from_str req.id))
        (bad (text "bad addr") (url_from_str req.addr)) t

  abbrev unassign_parsed :
      ℕ → Result ℕ Status → Result ℕ Status → Tables → Result (Unit {0}) Status × Tables
  unassign_parsed now (ok cid) (ok sid) t = (ok tt, unassign now cid sid t)
  unassign_parsed now (ok cid) (err e) t = (err e, t)
  unassign_parsed now (err e) sid t = (err e, t)

  -- `unassign_channel` of the service
  unfoldable pub serve_unassign :
      ℕ → UnassignChannelRequest → Tables → Result (Unit {0}) Status × Tables
  serve_unassign now req t =
      unassign_parsed now (bad (text "bad channel_id") (codec.uuid_from_str req.channel_id))
        (bad (text "bad server_id") (codec.uuid_from_str req.server_id)) t

  module _ (server_id : ℕ) where
    -- `RemoteRegistry::register`
    unfoldable pub register : ℕ → Text → Call → Tables → Bool × Tables
    unfolding serve_register
    register now addr call t =
        called call
          (serve_register now (record { id = codec.uuid_to_string server_id; addr = addr }) t) t

    -- `RemoteRegistry::unassign_channel`
    unfoldable pub unassign_channel : ℕ → ℕ → Call → Tables → Bool × Tables
    unfolding serve_unassign
    unassign_channel now channel_id call t =
        called call
          (serve_unassign now
            (record {
              channel_id = codec.uuid_to_string channel_id;
              server_id = codec.uuid_to_string server_id;
            })
            t)
          t

    -- `notify`, which logs a failure.
    unfoldable pub notify : ℕ → ℕ → Call → Tables → Tables
    unfolding unassign_channel
    notify now channel_id call t = (unassign_channel now channel_id call t).1

    -- A tick of the loop of `heartbeat`, which logs a failure. The call before the loop is the same, but
    -- its failure ends the server.
    unfoldable pub tick : ℕ → Text → Call → Tables → Tables
    unfolding register
    tick now addr call t = (register now addr call t).1

-- What happens to the tables while the voice server runs.
pub data Event : Type 0 where
  beat : Call → Event
  -- a channel of the voice server ends
  ended : ℕ → Call → Event
  other : Op → Event

module _ (codec : Codec) (url_from_str : Text → Option String) (server_id : ℕ) (addr : Text) where
  unfoldable pub step : Tables → ℕ × Event → Tables
  unfolding tick notify
  step t (now, beat call) = tick codec url_from_str server_id now addr call t
  step t (now, ended cid call) = notify codec url_from_str server_id now cid call t
  step t (now, other op) = Linked.step t (now, op)

  unfoldable pub run : Tables → List (ℕ × Event) → Tables
  run t [] = t
  run t (e ∷ es) = run (step t e) es
