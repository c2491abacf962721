-- ===== src/Hosts/Examples.antt =====
-- Tests of server/gateway/src/voice_instance.
use voices.Common.{true, false, ◌≡◌, arith, some, none, [], ◌∷◌, lookup}
use voices.Net.{v4}
use voices.Crypto.Tagged.{tagged}
use voices.Ports
use voices.Forwarder
use voices.Forwarder.{Random}
use voices.Forwarder.Control.{control_msg, on_open}
use voices.Forwarder.Loop.{fresh}
use voices.VoiceServer.{VoiceServer, get_channel, healthy}
use voices.VoiceServer.Requests.{ask, open_connection_at}
use voices.Grpc.Numbers.{numbers}
use voices.Hosts.{Request, open_connection, integrated_host, remote_host}
use voices.Hosts.Choice.{Replies, voice_host_for}
use voices.Hosts.Chosen.{Chosen, voice_host_for-Chosen}
use voices.Hosts.{missing}
use voices.VoiceServer.Requests.{ok, err}
use voices.Hosts.Same.{over_grpc, HasPorts, remote-integrated}

abbrev drawn : Random
drawn = record { source_id = 7; crypt_key = 3 ∷ [] }

abbrev one_channel : VoiceServer
one_channel = record {
  host_addr = v4 0x7f000001;
  ports = Ports.new 0 33333 2;
  channels = (4, record { channel_ctl = 0; port = record { port = 33333; taken = 0 } }) ∷ [];
  rooms = (0, fresh 0) ∷ [];
  next_ctl = 1;
}

abbrev opening : Request
opening = open_connection (record { user_name = "bob"; channel_id = 4; client_id = 2 })

opening-HasPorts : HasPorts (integrated_host tagged 9 drawn opening one_channel).0
unfolding integrated_host open_connection_at ask get_channel healthy lookup control_msg on_open
    Forwarder.new
opening-HasPorts = omega arith

remote-integrated_example :
    remote_host numbers tagged 9 drawn opening one_channel
    ≡ over_grpc (integrated_host tagged 9 drawn opening one_channel)
remote-integrated_example =
    remote-integrated numbers tagged 9 drawn opening one_channel tt opening-HasPorts

-- A host that lost the channel takes it again.
abbrev lost : Replies
lost = record {
  channel = ok (some "http://voice");
  parses = λ host. true;
  status = λ host. err (missing (7 ∷ []));
  takes = λ host. true;
  assignment = none;
}

voice_host_for-Chosen_example : Chosen lost 4 false (voice_host_for lost 4 false)
voice_host_for-Chosen_example = voice_host_for-Chosen lost 4 false
