-- ===== src/Net/SameAddr.antt =====
-- server/voice/core/src/channel/mod.rs: `same_addr` against the addresses in IPv6 form.
use voices.Common.{ℕ, ◌≡◌, ◌↔◌, true, arith, ◌∙◌}
use voices.Net.{IpAddr, v4, v6, SocketAddr, to_ipv6_mapped, same_ip, same_addr}

-- The IPv6 address that stands for an address on a dual-stack socket.
abbrev pub canonical : IpAddr → ℕ
canonical (v4 a) = to_ipv6_mapped a
canonical (v6 a) = a

same_ip_iff : (l r : IpAddr) → (same_ip l r ≡ true) ↔ (canonical l ≡ canonical r)
unfolding same_ip
same_ip_iff (v4 l) (v4 r) = ground arith
same_ip_iff (v4 l) (v6 r) = ground arith
same_ip_iff (v6 l) (v4 r) = ground arith
same_ip_iff (v6 l) (v6 r) = ground arith

-- Two socket addresses are taken for the same exactly when their ports are equal and so are the IPv6
-- forms of their addresses.
pub same_addr_iff :
    (l r : SocketAddr)
    → (same_addr l r ≡ true) ↔ ((l.port ≡ r.port) × (canonical l.ip ≡ canonical r.ip))
unfolding same_addr same_ip
same_addr_iff l r = (
  λ h. (ground arith, (same_ip_iff l.ip r.ip).0 (ground arith)),
  λ h. ground (arith, (same_ip_iff l.ip r.ip).1 h.1),
)

pub same_addr_refl : (a : SocketAddr) → same_addr a a ≡ true
same_addr_refl a = (same_addr_iff a a).1 (ground arith)

pub same_addr_trans :
    (a b c : SocketAddr) → same_addr a b ≡ true → same_addr b c ≡ true → same_addr a c ≡ true
same_addr_trans a b c p q =
    let h = (same_addr_iff a b).0 p in
    let k = (same_addr_iff b c).0 q in (same_addr_iff a c).1 (h.0 ∙ k.0, h.1 ∙ k.1)
