-- ===== src/Client/Surprise.antt =====
-- client/src/main.rs: the stages of the program of a client after which no message can surprise it.
use voices.Common.{
  Bool-cases, ◌&&◌, ℕ, ◌≡◌, Bool, true, false, Option, List, [], ◌∷◌, refl, ◌==◌, if◌then◌else◌,
  inl, inr, both_branches,
}
use voices.Net.{SocketAddr}
use voices.Session.{ClientEvent, ServerEvent, Present}
use voices.Control.Stream
use voices.Control.Stream.{ControlStreamError, ServerAnnounce}
use voices.Client.Setup.{Setup}
use voices.Client.Discovery.{first_found}
use voices.Client.Program.{
  ProgramError, Result, Answers, Act, Done, M, act, after, ◌>>=◌, ◌>>◌, check, sends, awaits,
  announce_present, stops, leaves, count_down, is_now, main_loop, control,
}

-- The program ends with a message that it does not expect.
abbrev pub IsSurprise : ProgramError → Type 0
IsSurprise (control (ControlStreamError.unexpected_message expected got)) = Unit
IsSurprise (control ControlStreamError.dead_receiver) = ⊥
IsSurprise (control ControlStreamError.end) = ⊥
IsSurprise (control ControlStreamError.shutdown_error) = ⊥
IsSurprise _ = ⊥

abbrev pub IsSurprised : {A : Type 0} → Result A → Type 0
IsSurprised (Result.ok a) = ⊥
IsSurprised (Result.err e) = IsSurprise e

-- What follows from a surprise at the end of one of two stages follows from one at the end of both.
module _ (Q : Type 0) where
  abbrev pub Safe : {A : Type 0} → Done A → Type 0
  Safe r = IsSurprised r.result → Q

  pub after-Safe :
      {A B : Type 0} (f : A → M B) (r : Result A) (acts : List Act) (inc : List ServerEvent)
      → (IsSurprised r → Q)
      → ((a : A) → r ≡ Result.ok a → Safe (f a inc))
      → Safe (after f r acts inc)
  after-Safe f (Result.ok a) acts inc h k = k a refl
  after-Safe f (Result.err e) acts inc h k = h

  pub bind-Safe :
      {A B : Type 0} (m : M A) (f : A → M B) (inc : List ServerEvent)
      → Safe (m inc)
      → ((a : A) → (m inc).result ≡ Result.ok a → Safe (f a (m inc).inc))
      → Safe ((m >>= f) inc)
  bind-Safe m f inc h k = after-Safe f (m inc).result (m inc).acts (m inc).inc h k

  pub check-Safe :
      (b : Bool) (e : ProgramError) (inc : List ServerEvent)
      → (IsSurprise e → Q)
      → Safe (check b e inc)
  check-Safe true e inc h = λ u. absurd u
  check-Safe false e inc h = h

  pub checked-Safe :
      {A : Type 0} (b : Bool) (e : ProgramError) (f : M A) (inc : List ServerEvent)
      → (IsSurprise e → Q)
      → Safe (f inc)
      → Safe ((check b e >> f) inc)
  checked-Safe true e f inc h k = k
  checked-Safe false e f inc h k = h

  pub sent-Safe :
      {A : Type 0} (taken : Bool) (e : ClientEvent) (f : M A) (inc : List ServerEvent)
      → Safe (f inc)
      → Safe ((sends (Stream.send taken e) >> f) inc)
  unfolding Stream.send
  sent-Safe true e f inc k = k
  sent-Safe false e f inc k = λ u. absurd u

  pub stops-Safe : (a : Answers) (inc : List ServerEvent) → Safe (stops a inc)
  unfolding Stream.stop
  stops-Safe a inc = stopped_by a.stop_taken a.stop_answered
    where
      stopped_by :
          (b c : Bool)
          → Safe (
              (act Act.stopped
                  >> awaits (λ later. (
                    if b && c
                        then Stream.Result.ok tt
                        else Stream.Result.err ControlStreamError.shutdown_error,
                    later,
                  )))
                inc)
      stopped_by true true = λ u. absurd u
      stopped_by true false = λ u. absurd u
      stopped_by false c = λ u. absurd u

  pub leaves-Safe : (a : Answers) (inc : List ServerEvent) → Safe (leaves a inc)
  unfolding Stream.leave
  leaves-Safe a inc = sent-Safe a.leave_sent ClientEvent.leave (stops a) inc (stops-Safe a inc)

  pub looped-Safe :
      (a : Answers) (ctrl_c : Option ℕ) (inc : List ServerEvent) (r : Done (Unit {0}))
      → Safe r
      → Safe (if is_now ctrl_c then leaves a inc else r)
  looped-Safe a ctrl_c inc r h =
      both_branches (λ (d : Done (Unit {0})). Safe d) (is_now ctrl_c) (leaves-Safe a inc) h

  pub main_loop-Safe :
      (a : Answers) (ctrl_c : Option ℕ) (inc : List ServerEvent) → Safe (main_loop a ctrl_c inc)
  unfolding main_loop
  main_loop-Safe a ctrl_c [] = looped-Safe a ctrl_c [] _ (λ u. absurd u)
  main_loop-Safe a ctrl_c (ServerEvent.keepalive t ∷ inc) =
      looped-Safe a ctrl_c _ _ (main_loop-Safe a (count_down ctrl_c) inc)
  main_loop-Safe a ctrl_c (ServerEvent.init id ∷ inc) =
      looped-Safe a ctrl_c _ _ (main_loop-Safe a (count_down ctrl_c) inc)
  main_loop-Safe a ctrl_c (ServerEvent.ready r ∷ inc) =
      looped-Safe a ctrl_c _ _ (main_loop-Safe a (count_down ctrl_c) inc)
  main_loop-Safe a ctrl_c (ServerEvent.udp_announce addr src ∷ inc) =
      looped-Safe a ctrl_c _ _ (main_loop-Safe a (count_down ctrl_c) inc)
  main_loop-Safe a ctrl_c (ServerEvent.join_error id ∷ inc) =
      looped-Safe a ctrl_c _ _ (stops-Safe a inc)
  main_loop-Safe a ctrl_c (ServerEvent.joined p ∷ inc) =
      looped-Safe a ctrl_c _ _ (main_loop-Safe a (count_down ctrl_c) inc)
  main_loop-Safe a ctrl_c (ServerEvent.left p ∷ inc) =
      looped-Safe a ctrl_c _ _ (main_loop-Safe a (count_down ctrl_c) inc)
  main_loop-Safe a ctrl_c (ServerEvent.disconnected ∷ inc) =
      looped-Safe a ctrl_c _ _ (λ u. absurd u)

  pub announced-Safe :
      (r : Done (Unit {0})) (f : M (Unit {0}))
      → r.result ≡ Result.ok tt
      → Safe (f r.inc)
      → Safe (after (λ _. f) r.result r.acts r.inc)
  announced-Safe r f e h = rw (e) h

pub announce_present-result :
    (src_id : ℕ) (present : List Present) (inc : List ServerEvent)
    → ((announce_present src_id present inc).result ≡ Result.ok tt)
      × ((announce_present src_id present inc).inc ≡ inc)
unfolding announce_present
announce_present-result src_id [] inc = (refl, refl)
announce_present-result src_id (user ∷ rest) inc = elim (Bool-cases (user.source_id == src_id)) [
  | inl e ↦ rw (e) (announce_present-result src_id rest inc)
  | inr e ↦ rw (e) (announce_present-result src_id rest inc)
]

pub first_found-not-IsSurprised :
    (later : List (Setup SocketAddr)) → ¬ IsSurprised (first_found later)
first_found-not-IsSurprised [] u = u
first_found-not-IsSurprised (Setup.ok addr ∷ later) u = u
first_found-not-IsSurprised (Setup.err e ∷ later) u = first_found-not-IsSurprised later u
