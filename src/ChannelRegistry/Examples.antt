-- ===== src/ChannelRegistry/Examples.antt =====
-- Tests of server/gateway/src/channel_registry.
use voices.Common.{◌≡◌, arith, none, some, [], ◌∷◌}
use voices.Registry.{Tables}
use voices.Grpc.Numbers.{numbers}
use voices.ChannelRegistry.{get_servers, local_registry}
use voices.ChannelRegistry.Remote.{remote_registry}
use voices.ChannelRegistry.Same.{remote-local}

abbrev two_servers : Tables
two_servers = record {
  servers = (1, "home") ∷ (2, "work") ∷ [];
  channels = (4, record { server_id = 1; assigned_to = none; name = "room"; updated_at = 5 }) ∷ [];
  voice_servers = [];
}

remote-local_example :
    remote_registry numbers 9 5 (get_servers none (some 1)) two_servers
    ≡ local_registry 9 5 (get_servers none (some 1)) two_servers
remote-local_example =
    remote-local numbers 9 5 (get_servers none (some 1)) two_servers (omega arith)
