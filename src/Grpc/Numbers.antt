-- ===== src/Grpc/Numbers.antt =====
-- A concrete `Codec` for the examples.
use voices.Common.{ℕ, zero, suc, ◌≡◌, refl, Option, some, none, [], ◌∷◌}
use voices.Net.{IpAddr, v4, v6}
use voices.Grpc.{Codec, Text}

abbrev pub print_ip : IpAddr → Text
print_ip (v4 a) = 0 ∷ a ∷ []
print_ip (v6 a) = 1 ∷ a ∷ []

abbrev pub parse_uuid : Text → Option ℕ
parse_uuid (u ∷ []) = some u
parse_uuid _ = none

abbrev pub parse_ip : Text → Option IpAddr
parse_ip (zero ∷ a ∷ []) = some (v4 a)
parse_ip (suc _ ∷ a ∷ []) = some (v6 a)
parse_ip _ = none

pub parse-print_ip : (ip : IpAddr) → parse_ip (print_ip ip) ≡ some ip
parse-print_ip (v4 a) = refl
parse-print_ip (v6 a) = refl

-- Ids and addresses printed as numbers.
abbrev pub numbers : Codec
numbers = record {
  uuid_to_string = λ u. u ∷ [];
  uuid_from_str = parse_uuid;
  ip_to_string = print_ip;
  ip_from_str = parse_ip;
  uuid-round = λ u. refl;
  ip-round = parse-print_ip;
}
