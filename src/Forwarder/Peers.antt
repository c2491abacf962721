-- ===== src/Forwarder/Peers.antt =====
-- server/voice/core/src/channel/mod.rs: the answer to `Peers`.
use voices.Common.{◌∙◌, ap, ℕ, some, [], ◌∷◌, ◌≡◌, ◌<◌, arith, insert, keys, values}
use voices.Crypto.{Aead}
use voices.Connection.{is_peered}
use voices.Forwarder.{Conn, Forwarder, replied, present, peers}
use voices.Forwarder.Tasks.{ctl_status}
use voices.Forwarder.Control.{zip_peers, control_msg}

insert_front {ℓ} :
    {V : Type ℓ} (k j : ℕ) (v w : V) → k < j → insert k v (insert j w []) ≡ (k, v) ∷ (j, w) ∷ []
unfolding insert
insert_front k j v w h = ground arith

zip_two :
    (aead : Aead) (now : ℕ) (f : Forwarder) (a b : ℕ) (x y : Conn)
    → ctl_status aead now f x.ctl ≡ some is_peered
    → ctl_status aead now f y.ctl ≡ some is_peered
    → zip_peers aead now f (a ∷ b ∷ []) (x ∷ y ∷ [])
      ≡ record { id = a; source_id = x.ctl.source_id; name = x.ctl.user_name }
        ∷ record { id = b; source_id = y.ctl.source_id; name = y.ctl.user_name }
        ∷ []
unfolding zip_peers
zip_two aead now f a b x y px py = ground arith

-- A channel has two members, both peered: client `a` has the source id `t` of connection `y`, and
-- client `b` the source id `s` of connection `x`. If `a` is the smaller client id and `s` the smaller
-- source id, then the answer to `Peers` gives `a` the source id and name of `b`'s connection, and `b`
-- those of `a`'s.
pub peers_crossed :
    (aead : Aead) (now : ℕ) (f : Forwarder) (a b s t : ℕ) (x y : Conn)
    → a < b
    → s < t
    → f.client_id_to_src_id ≡ insert a t (insert b s [])
    → f.connections ≡ insert s x (insert t y [])
    → x.ctl.source_id ≡ s
    → y.ctl.source_id ≡ t
    → ctl_status aead now f x.ctl ≡ some is_peered
    → ctl_status aead now f y.ctl ≡ some is_peered
    → (control_msg aead now peers f).0
      ≡ replied (
          present (
            record { id = a; source_id = s; name = x.ctl.user_name }
            ∷ record { id = b; source_id = t; name = y.ctl.user_name }
            ∷ []))
unfolding control_msg
peers_crossed aead now f a b s t x y ab st ids conns ex ey px py = ground (
  arith,
  zip_two aead now f a b x y px py,
  ap keys (ids ∙ insert_front a b t s ab),
  ap values (conns ∙ insert_front s t x y st),
)
