-- ===== src/Udp/Examples.antt =====
-- Messages that are their own bytes.
use voices.Common.{ℕ, ◌≡◌, some, none, refl, List, [], ◌∷◌, arith}
use voices.Udp.{Proto, ok, send, recv}
use voices.Udp.Sent.{recv-send}

abbrev plain : Proto
plain = record {
  Message = List ℕ;
  encode = λ m. m;
  decode = λ bytes. some bytes;
  decode-encode = λ m. refl;
}

recv-send_example :
    (recv plain (send plain none (1 ∷ 2 ∷ []) (9 ∷ 9 ∷ 9 ∷ [])).0 (8 ∷ 8 ∷ [])).0 ≡ ok (1 ∷ 2 ∷ [])
recv-send_example =
    recv-send plain (1 ∷ 2 ∷ []) (9 ∷ 9 ∷ 9 ∷ []) (8 ∷ 8 ∷ []) (omega arith) (omega arith)
