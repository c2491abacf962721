-- ===== src/Hosts/Chosen.antt =====
-- server/gateway/src/channel_registry/distributed.rs: which host `get_voice_host_for` gives, and what it
-- asks before.
use voices.Common.{
  ◌≢◌, ℕ, ◌≡◌, ◌⊎◌, inl, inr, refl, Bool, true, false, Option, none, some, [], ◌∷◌, String,
  each_branch,
}
use voices.VoiceServer.Requests.{Result, ok, err}
use voices.Grpc.{Code, not_found, invalid_argument, unavailable, internal, Text}
use voices.Hosts.{HostError, missing, other}
use voices.Hosts.Choice.{
  Replies, ask_channel, ask_status, ask_assignment, assign_at, Choice, then_call, on_status,
  on_assignment, on_channel, voice_host_for, request_failed, bad_uri,
}

-- A new assignment is asked for: the channel is to be reassigned, or has no host.
abbrev pub Wanted : Replies → Bool → Type 0
Wanted r reassign =
    (reassign ≡ true × (host : Option String) × (r.channel ≡ ok host)) ⊎ (r.channel ≡ ok none)

-- Each outcome with the calls that were made and the answers that led to it. No host where the channels
-- service knows no such channel. The host that the channel has, where it answers for it, or lost it and
-- takes it again; and otherwise the host of a new assignment, which takes the channel. An error just
-- where a service answers with one or an address cannot be parsed.
pub data Chosen (r : Replies) (id : ℕ) (reassign : Bool) : Choice → Type 0 where
  absent : r.channel ≡ err not_found → Chosen r id reassign (ask_channel id ∷ [], ok none)
  kept :
      (host : String) (u : Unit {0})
      → reassign ≡ false
      → r.channel ≡ ok (some host)
      → r.parses host ≡ true
      → r.status host ≡ ok u
      → Chosen r id reassign (ask_channel id ∷ ask_status host id ∷ [], ok (some host))
  returned :
      (host : String) (name : Text)
      → reassign ≡ false
      → r.channel ≡ ok (some host)
      → r.parses host ≡ true
      → r.status host ≡ err (missing name)
      → r.takes host ≡ true
      → Chosen r id reassign
          (ask_channel id ∷ ask_status host id ∷ assign_at host id ∷ [], ok (some host))
  moved :
      (host : String)
      → Wanted r reassign
      → r.assignment ≡ some host
      → r.parses host ≡ true
      → r.takes host ≡ true
      → Chosen r id reassign
          (ask_channel id ∷ ask_assignment id reassign ∷ assign_at host id ∷ [], ok (some host))
  -- the channels service fails to look the channel up
  unanswered :
      (e : Code)
      → e ≢ not_found
      → r.channel ≡ err e
      → Chosen r id reassign (ask_channel id ∷ [], err request_failed)
  misaddressed :
      (host : String)
      → reassign ≡ false
      → r.channel ≡ ok (some host)
      → r.parses host ≡ false
      → Chosen r id reassign (ask_channel id ∷ [], err bad_uri)
  -- the host fails to answer for the channel, which is not that it does not have it
  broken :
      (host : String)
      → reassign ≡ false
      → r.channel ≡ ok (some host)
      → r.parses host ≡ true
      → r.status host ≡ err other
      → Chosen r id reassign (ask_channel id ∷ ask_status host id ∷ [], err request_failed)
  not_returned :
      (host : String) (name : Text)
      → reassign ≡ false
      → r.channel ≡ ok (some host)
      → r.parses host ≡ true
      → r.status host ≡ err (missing name)
      → r.takes host ≡ false
      → Chosen r id reassign
          (ask_channel id ∷ ask_status host id ∷ assign_at host id ∷ [], err request_failed)
  unassigned :
      Wanted r reassign
      → r.assignment ≡ none
      → Chosen r id reassign (ask_channel id ∷ ask_assignment id reassign ∷ [], err request_failed)
  assigned_astray :
      (host : String)
      → Wanted r reassign
      → r.assignment ≡ some host
      → r.parses host ≡ false
      → Chosen r id reassign (ask_channel id ∷ ask_assignment id reassign ∷ [], err bad_uri)
  not_taken :
      (host : String)
      → Wanted r reassign
      → r.assignment ≡ some host
      → r.parses host ≡ true
      → r.takes host ≡ false
      → Chosen r id reassign
          (ask_channel id ∷ ask_assignment id reassign ∷ assign_at host id ∷ [], err request_failed)

module _ (r : Replies) (id : ℕ) where
  status-Chosen :
      (host : String) (st : Result (Unit {0}) HostError)
      → r.channel ≡ ok (some host)
      → r.parses host ≡ true
      → r.status host ≡ st
      → Chosen r id false
          (then_call (ask_channel id) (then_call (ask_status host id) (on_status r id host st)))
  status-Chosen host (ok u) c p e = kept host u refl c p e
  status-Chosen host (err (missing name)) c p e =
      each_branch
        (λ x. Chosen r id false (ask_channel id ∷ ask_status host id ∷ assign_at host id ∷ [], x))
        (r.takes host) (λ t. returned host name refl c p e t)
        (λ f. not_returned host name refl c p e f)
  status-Chosen host (err other) c p e = broken host refl c p e

  assignment-Chosen :
      (reassign : Bool) (a : Option String)
      → Wanted r reassign
      → r.assignment ≡ a
      → Chosen r id reassign (
          then_call
            (ask_channel id)
            (then_call (ask_assignment id reassign) (on_assignment r id a)))
  assignment-Chosen reassign none w e = unassigned w e
  assignment-Chosen reassign (some host) w e =
      each_branch
        (λ x.
          Chosen r id reassign
            (then_call (ask_channel id) (then_call (ask_assignment id reassign) x)))
        (r.parses host)
        (λ p.
          each_branch
            (λ x.
              Chosen r id reassign
                (ask_channel id ∷ ask_assignment id reassign ∷ assign_at host id ∷ [], x))
            (r.takes host) (λ t. moved host w e p t) (λ f. not_taken host w e p f))
        (λ f. assigned_astray host w e f)

  channel-Chosen :
      (reassign : Bool) (c : Result (Option String) Code)
      → r.channel ≡ c
      → Chosen r id reassign (then_call (ask_channel id) (on_channel r id reassign c))
  channel-Chosen reassign (err not_found) e = absent e
  channel-Chosen reassign (err invalid_argument) e = unanswered invalid_argument (λ x. cc x) e
  channel-Chosen reassign (err unavailable) e = unanswered unavailable (λ x. cc x) e
  channel-Chosen reassign (err internal) e = unanswered internal (λ x. cc x) e
  channel-Chosen false (ok (some host)) e =
      each_branch (λ x. Chosen r id false (then_call (ask_channel id) x)) (r.parses host)
        (λ p. status-Chosen host (r.status host) e p refl) (λ f. misaddressed host refl e f)
  channel-Chosen true (ok (some host)) e =
      assignment-Chosen true r.assignment (inl (refl, some host, e)) refl
  channel-Chosen false (ok none) e = assignment-Chosen false r.assignment (inr e) refl
  channel-Chosen true (ok none) e = assignment-Chosen true r.assignment (inr e) refl

  -- What the lookup of a voice host asks and gives, for any answers. It gives no host just where the
  -- channels service does not know the channel. Otherwise, where the channel has a host and is not to be
  -- reassigned, that host is asked for the channel: it is given if it has it; if it does not have it, it
  -- is told to take the channel and given if it does; and any other answer is an error. Where the
  -- channel has no host or is to be reassigned, a new assignment is asked for, and its host is told to
  -- take the channel and given if it does. Every error comes from a service that answers with one, or
  -- from an address that cannot be parsed.
  pub voice_host_for-Chosen :
      (reassign : Bool) → Chosen r id reassign (voice_host_for r id reassign)
  unfolding voice_host_for
  voice_host_for-Chosen reassign = channel-Chosen reassign r.channel refl
