-- ===== src/Hosts/Choice.antt =====
-- server/gateway/src/channel_registry: `get_voice_host_for`, which finds the voice host of a channel
-- and makes sure that it has the channel.
use voices.Common.{ℕ, Bool, true, false, Option, none, some, List, [], ◌∷◌, String, if◌then◌else◌}
use voices.VoiceServer.{VoiceServer, Channel, assign_channel}
use voices.VoiceServer.Requests.{Result, ok, err}
use voices.Registry.{Tables}
use voices.Registry.Query.{get_channel}
use voices.Registry.Query
use voices.Grpc.{Code, not_found, invalid_argument, unavailable, internal}
use voices.Hosts.{HostError, missing, other}

-- Why no host is given.
pub data Failed : Type 0 where
  request_failed : Failed
  bad_uri : Failed

abbrev pub assigned_locally :
    {A : Type 0} → A → Option Channel × VoiceServer → Result (Option A) Failed × VoiceServer
assigned_locally host (some c, s) = (ok (some host), s)
assigned_locally host (none, s) = (err request_failed, s)

abbrev pub if_exists :
    {A : Type 0}
    → ℕ
    → Bool
    → ℕ
    → A
    → VoiceServer
    → Option Query.Channel
    → Result (Option A) Failed × VoiceServer
if_exists now bound id host s none = (ok none, s)
if_exists now bound id host s (some c) = assigned_locally host (assign_channel now bound id s)

-- integrated.rs: whether the channel is to be reassigned makes no difference.
unfoldable pub local_voice_host_for :
    {A : Type 0}
    → ℕ
    → Bool
    → ℕ
    → Bool
    → A
    → Tables
    → VoiceServer
    → Result (Option A) Failed × VoiceServer
unfolding assign_channel get_channel
local_voice_host_for now bound id reassign host t s =
    if_exists now bound id host s (get_channel now id t)

-- distributed.rs: what the channels service and the voice hosts answer. A host that is asked is one
-- whose address was parsed.
pub record Replies : Type 0 where
  pub channel : Result (Option String) Code
  pub parses : String → Bool
  pub status : String → Result (Unit {0}) HostError
  pub takes : String → Bool
  pub assignment : Option String

pub data Call : Type 0 where
  ask_channel : ℕ → Call
  ask_status : String → ℕ → Call
  ask_assignment : ℕ → Bool → Call
  assign_at : String → ℕ → Call

abbrev pub Choice : Type 0
Choice = List Call × Result (Option String) Failed

abbrev pub then_call : Call → Choice → Choice
then_call c (cs, r) = (c ∷ cs, r)

module _ (r : Replies) (id : ℕ) where
  abbrev pub assign_on : String → Choice
  assign_on host =
      (assign_at host id ∷ [], if r.takes host then ok (some host) else err request_failed)

  abbrev pub on_status : String → Result (Unit {0}) HostError → Choice
  on_status host (ok u) = ([], ok (some host))
  on_status host (err (missing name)) = assign_on host
  on_status host (err other) = ([], err request_failed)

  abbrev pub on_assignment : Option String → Choice
  on_assignment none = ([], err request_failed)
  on_assignment (some host) = if r.parses host then assign_on host else ([], err bad_uri)

  abbrev pub request_assignment : Bool → Choice
  request_assignment reassign = then_call (ask_assignment id reassign) (on_assignment r.assignment)

  abbrev pub on_channel : Bool → Result (Option String) Code → Choice
  on_channel reassign (err not_found) = ([], ok none)
  on_channel reassign (err invalid_argument) = ([], err request_failed)
  on_channel reassign (err unavailable) = ([], err request_failed)
  on_channel reassign (err internal) = ([], err request_failed)
  on_channel false (ok (some host)) =
      if r.parses host
      then then_call (ask_status host id) (on_status host (r.status host))
      else ([], err bad_uri)
  on_channel true (ok (some host)) = request_assignment true
  on_channel reassign (ok none) = request_assignment reassign

  unfoldable pub voice_host_for : Bool → Choice
  voice_host_for reassign = then_call (ask_channel id) (on_channel reassign r.channel)
