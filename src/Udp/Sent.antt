-- ===== src/Udp/Sent.antt =====
-- server/udp-proto/src/lib.rs: a message that is sent is received as it was.
use voices.Common.{ℕ, ◌≡◌, ◌≤◌, none, List, [], ◌∷◌, length, leb, ap, refl, arith, true}
use voices.Udp.{Proto, ok, take, overwrite, send, recv}

-- The start of a buffer that was written over is what was written.
take-overwrite :
    (xs buf : List ℕ) → length xs ≤ length buf → take (length xs) (overwrite xs buf) ≡ xs
unfolding take overwrite
take-overwrite [] buf h = refl
take-overwrite (x ∷ xs) [] h = absurd (omega arith)
take-overwrite (x ∷ xs) (b ∷ buf) h = ap (λ ys. x ∷ ys) (take-overwrite xs buf (omega arith))

-- A message whose encoding fits into the buffers of both ends is sent, if the socket does not fail, and
-- the other end decodes the datagram to the message, whatever the buffers held before.
pub recv-send :
    (proto : Proto) (m : proto.Message) (from to : List ℕ)
    → length (proto.encode m) ≤ length from
    → length (proto.encode m) ≤ length to
    → (recv proto (send proto none m from).0 to).0 ≡ ok m
unfolding send recv
recv-send proto m from to h k =
    let a : leb (length (proto.encode m)) (length from) ≡ true = ground arith in
    let b : leb (length (proto.encode m)) (length to) ≡ true = ground arith in
    rw (a) (
      rw (take-overwrite (proto.encode m) from h)
        (rw (b) (rw (take-overwrite (proto.encode m) to k) (rw (proto.decode-encode m) refl))))
