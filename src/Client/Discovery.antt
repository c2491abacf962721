-- ===== src/Client/Discovery.antt =====
-- client/src/main.rs: the loop of the IP discovery ends.
use voices.Common.{false, true, ℕ, zero, suc, ◌+◌, ◌<◌, ◌≡◌, List, [], ◌∷◌, refl, ap, arith, ◌==◌}
use voices.Net.{SocketAddr}
use voices.Session.{ServerEvent}
use voices.Client.Setup.{Setup}
use voices.Client.Program.{discovery, Done, Result, Act, discover, no_address, act, give, ◌>>◌}

-- The outcomes of `left` attempts from `attempt` on.
abbrev pub outcomes : ℕ → ℕ → (ℕ → Setup SocketAddr) → List (Setup SocketAddr)
outcomes zero attempt answers = []
outcomes (suc left) attempt answers = answers attempt ∷ outcomes left (attempt + 1) answers

abbrev pub first_found : List (Setup SocketAddr) → Result SocketAddr
first_found [] = Result.err no_address
first_found (Setup.ok addr ∷ later) = Result.ok addr
first_found (Setup.err e ∷ later) = first_found later

-- One request for each attempt up to the first that succeeds.
abbrev pub requests : ℕ → List (Setup SocketAddr) → List Act
requests source_id [] = []
requests source_id (Setup.ok addr ∷ later) = discover source_id ∷ []
requests source_id (Setup.err e ∷ later) = discover source_id ∷ requests source_id later

module _ (source_id : ℕ) (answers : ℕ → Setup SocketAddr) (inc : List ServerEvent) where
  abbrev Found : List (Setup SocketAddr) → Done SocketAddr
  Found later = record { result = first_found later; acts = requests source_id later; inc = inc }

  abbrev retry : ℕ → ℕ → Setup SocketAddr → Done SocketAddr
  retry fuel attempt found =
      (act (discover source_id) >> λ later. elim found [
        | Setup.ok addr ↦ give addr later
        | Setup.err e ↦ discovery fuel (attempt + 1) source_id answers later
      ])
        inc

  retry-Found :
      (fuel attempt left : ℕ) (found : Setup SocketAddr)
      → discovery fuel (attempt + 1) source_id answers inc
        ≡ Found (outcomes left (attempt + 1) answers)
      → retry fuel attempt found ≡ Found (found ∷ outcomes left (attempt + 1) answers)
  retry-Found fuel attempt left (Setup.ok addr) ih = refl
  retry-Found fuel attempt left (Setup.err e) ih =
      ap (λ (r : Done SocketAddr). record r { acts = discover source_id ∷ r.acts }) ih

  discovery-Found :
      (fuel attempt left : ℕ)
      → attempt + left ≡ 5
      → left < fuel
      → discovery fuel attempt source_id answers inc ≡ Found (outcomes left attempt answers)
  unfolding discovery
  discovery-Found zero attempt left e h = absurd (omega arith)
  discovery-Found (suc fuel) attempt zero e h =
      let five : (attempt == 5) ≡ true = ground arith in rw (five) refl
  discovery-Found (suc fuel) attempt (suc left) e h =
      let more : (attempt == 5) ≡ false = ground arith in
      rw (more) (
        retry-Found fuel attempt left (answers attempt)
          (discovery-Found fuel (attempt + 1) left (omega arith) (omega arith)))

-- The loop ends: six rounds are enough, and more change nothing. It makes one request for each attempt
-- up to the first that succeeds, whose address it gives, and fails after five that do not.
pub discovery_ends :
    (source_id fuel : ℕ) (answers : ℕ → Setup SocketAddr) (inc : List ServerEvent)
    → 5 < fuel
    → discovery fuel 0 source_id answers inc ≡ record {
      result = first_found (outcomes 5 0 answers);
      acts = requests source_id (outcomes 5 0 answers);
      inc = inc;
    }
discovery_ends source_id fuel answers inc h =
    discovery-Found source_id answers inc fuel 0 5 (omega arith) h
