-- ===== src/Net/Examples.antt =====
-- Addresses as server/voice/core/src/channel/mod.rs compares them, on small inputs.
use voices.Common.{◌≡◌, refl, true}
use voices.Net.{SocketAddr, v4, v6, same_addr}

-- 127.0.0.1 and ::ffff:127.0.0.1
abbrev pub home4 : SocketAddr
home4 = record { ip = v4 0x7f000001; port = 4000 }

abbrev pub home6 : SocketAddr
home6 = record { ip = v6 0xffff7f000001; port = 4000 }

home-same : same_addr home4 home6 ≡ true
unfolding same_addr
home-same = refl
