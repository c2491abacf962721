-- ===== src/Session/Counts.antt =====
-- server/gateway/src/server/session.rs: the effects of a session, counted.
use voices.Common.{ℕ, suc, ◌+◌, ◌≡◌, List, [], ◌∷◌, ◌++◌, arith}
use voices.Session.{
  ServerEvent, Out, sent, unsent, open_connection, join_room, leave_room, establish_session,
  leave_host, ready,
}

-- Each join of a room counts 1 against its leave, and each `Ready` against the leave of its host.
unfoldable pub rooms_joined : List Out → ℕ
rooms_joined [] = 0
rooms_joined (join_room room info ∷ os) = suc (rooms_joined os)
rooms_joined (_ ∷ os) = rooms_joined os

unfoldable pub rooms_left : List Out → ℕ
rooms_left [] = 0
rooms_left (leave_room room c ∷ os) = suc (rooms_left os)
rooms_left (_ ∷ os) = rooms_left os

unfoldable pub readies : List Out → ℕ
readies [] = 0
readies (sent (ready r) ∷ os) = suc (readies os)
readies (_ ∷ os) = readies os

unfoldable pub hosts_left : List Out → ℕ
hosts_left [] = 0
hosts_left (leave_host h c d ∷ os) = suc (hosts_left os)
hosts_left (_ ∷ os) = hosts_left os

pub rooms_joined-++ :
    (os us : List Out) → rooms_joined (os ++ us) ≡ rooms_joined os + rooms_joined us
unfolding rooms_joined
rooms_joined-++ [] us = ground arith
rooms_joined-++ (join_room room info ∷ os) us = ground (arith, rooms_joined-++ os us)
rooms_joined-++ (sent e ∷ os) us = rooms_joined-++ os us
rooms_joined-++ (unsent e ∷ os) us = rooms_joined-++ os us
rooms_joined-++ (open_connection h r ∷ os) us = rooms_joined-++ os us
rooms_joined-++ (leave_room r c ∷ os) us = rooms_joined-++ os us
rooms_joined-++ (establish_session h r ∷ os) us = rooms_joined-++ os us
rooms_joined-++ (leave_host h c d ∷ os) us = rooms_joined-++ os us

pub rooms_left-++ : (os us : List Out) → rooms_left (os ++ us) ≡ rooms_left os + rooms_left us
unfolding rooms_left
rooms_left-++ [] us = ground arith
rooms_left-++ (leave_room r c ∷ os) us = ground (arith, rooms_left-++ os us)
rooms_left-++ (sent e ∷ os) us = rooms_left-++ os us
rooms_left-++ (unsent e ∷ os) us = rooms_left-++ os us
rooms_left-++ (open_connection h r ∷ os) us = rooms_left-++ os us
rooms_left-++ (join_room room info ∷ os) us = rooms_left-++ os us
rooms_left-++ (establish_session h r ∷ os) us = rooms_left-++ os us
rooms_left-++ (leave_host h c d ∷ os) us = rooms_left-++ os us

pub hosts_left-++ : (os us : List Out) → hosts_left (os ++ us) ≡ hosts_left os + hosts_left us
unfolding hosts_left
hosts_left-++ [] us = ground arith
hosts_left-++ (leave_host h c d ∷ os) us = ground (arith, hosts_left-++ os us)
hosts_left-++ (sent e ∷ os) us = hosts_left-++ os us
hosts_left-++ (unsent e ∷ os) us = hosts_left-++ os us
hosts_left-++ (open_connection h r ∷ os) us = hosts_left-++ os us
hosts_left-++ (join_room room info ∷ os) us = hosts_left-++ os us
hosts_left-++ (establish_session h r ∷ os) us = hosts_left-++ os us
hosts_left-++ (leave_room r c ∷ os) us = hosts_left-++ os us

pub readies-++ : (os us : List Out) → readies (os ++ us) ≡ readies os + readies us
unfolding readies
readies-++ [] us = ground arith
readies-++ (sent (ready r) ∷ os) us = ground (arith, readies-++ os us)
readies-++ (sent (ServerEvent.init i) ∷ os) us = readies-++ os us
readies-++ (sent (ServerEvent.keepalive t) ∷ os) us = readies-++ os us
readies-++ (sent (ServerEvent.udp_announce a i) ∷ os) us = readies-++ os us
readies-++ (sent ServerEvent.disconnected ∷ os) us = readies-++ os us
readies-++ (sent (ServerEvent.joined p) ∷ os) us = readies-++ os us
readies-++ (sent (ServerEvent.left p) ∷ os) us = readies-++ os us
readies-++ (sent (ServerEvent.join_error i) ∷ os) us = readies-++ os us
readies-++ (unsent e ∷ os) us = readies-++ os us
readies-++ (open_connection h r ∷ os) us = readies-++ os us
readies-++ (join_room room info ∷ os) us = readies-++ os us
readies-++ (establish_session h r ∷ os) us = readies-++ os us
readies-++ (leave_room r c ∷ os) us = readies-++ os us
readies-++ (leave_host h c d ∷ os) us = readies-++ os us
