-- ===== src/Presence/Rooms.antt =====
-- server/gateway/src/server/channels/mod.rs: the table of channels with their voice hosts. A call of
-- `get_or_init` that does not find its channel asks for a voice host and makes a state before it comes
-- back to the table, so that other calls may come between.
use voices.Common.{
  both_branches, subst, Bool, true, false, ==_iff, ℕ, suc, ◌≡◌, ◌≢◌, Option, none, some, List, [],
  ◌∷◌, Map, lookup, insert, remove, All, refl, ap, sym, ◌∙◌, arith, remove_other, insert_other,
  insert_same, ◌==◌, if◌then◌else◌,
}
use native.Nat.{ℕᴺ_discrete}

-- `Channel`: its state and its voice host, by the names of the shared objects.
pub record Channel : Type 0 where
  pub state : ℕ
  pub voice : ℕ

-- `ChannelMap`, with the count of the states made.
pub record Table : Type 0 where
  pub channels : Map Channel
  pub states : ℕ

-- What a call gives: a channel, no channel, or an error.
pub data Got : Type 0 where
  got : Channel → Got
  no_channel failed : Got

-- What `get_voice_host_for` answers, with whether `ChannelInit::init` would succeed.
pub data Host : Type 0 where
  host : ℕ → Bool → Host
  no_host host_failed : Host

-- `Channels::get`
abbrev pub get : ℕ → Table → Option Channel
get id t = lookup id t.channels

abbrev pub new_state : ℕ → ℕ → Table → Channel × Table
new_state id voice t =
    let c : Channel = record { state = t.states; voice = voice } in
    (c, record { channels = insert id c t.channels; states = suc t.states })

abbrev pub or_insert : ℕ → ℕ → Option Channel → Table → Got × Table
or_insert id voice (some c) t = (got c, record t { states = suc t.states })
or_insert id voice none t = let (c, t') = new_state id voice t in (got c, t')

-- The second part of `get_or_init`, where the channel was not found.
unfoldable pub init_channel : ℕ → Host → Table → Got × Table
init_channel id (host voice true) t = or_insert id voice (lookup id t.channels) t
init_channel id (host voice false) t = (failed, t)
init_channel id no_host t = (no_channel, t)
init_channel id host_failed t = (failed, t)

abbrev pub get_found : ℕ → Option Channel → Option Got
get_found id none = none
get_found id (some c) = some (got c)

-- The first part of `get_or_init`; none if it goes on to the second.
unfoldable pub find_channel : ℕ → Table → Option Got
find_channel id t = get_found id (get id t)

abbrev pub set_voice : ℕ → ℕ → Bool → Option Channel → Table → Got × Table
set_voice id voice inited (some c) t =
    let c' : Channel = record c { voice = voice } in
    (got c', record t { channels = insert id c' t.channels })
set_voice id voice true none t = let (c, t') = new_state id voice t in (got c, t')
set_voice id voice false none t = (failed, t)

-- `reassign_voice`; no voice host is an error. Only a new channel needs a state.
unfoldable pub reassign_voice : ℕ → Host → Table → Got × Table
reassign_voice id (host voice inited) t = set_voice id voice inited (lookup id t.channels) t
reassign_voice id no_host t = (failed, t)
reassign_voice id host_failed t = (failed, t)

-- `Channels::close` and `ChannelMap::close`
unfoldable pub close : ℕ → Table → Table
close id t = record t { channels = remove id t.channels }

-- A step of some session, or a room that closes.
pub data Op : Type 0 where
  init_it : ℕ → Host → Op
  reassign_it : ℕ → Host → Op
  close_it : ℕ → Op

unfoldable pub step : Table → Op → Got × Table
unfolding init_channel reassign_voice close
step t (init_it id h) = init_channel id h t
step t (reassign_it id h) = reassign_voice id h t
step t (close_it id) = (no_channel, close id t)

unfoldable pub run : Table → List Op → Table
run t [] = t
run t (o ∷ os) = run (step t o).1 os

abbrev pub IsOpen : ℕ → Op → Type 0
IsOpen id (close_it other) = other ≢ id
IsOpen id (init_it other h) = Unit
IsOpen id (reassign_it other h) = Unit

-- The voice host of a channel after a step.
abbrev pub host_or : ℕ → Host → ℕ
host_or old (host voice inited) = voice
host_or old no_host = old
host_or old host_failed = old

abbrev pub voice_after : ℕ → ℕ → Op → ℕ
voice_after id old (init_it other h) = old
voice_after id old (reassign_it other h) = if other == id then host_or old h else old
voice_after id old (close_it other) = old

unfoldable pub last_voice : ℕ → ℕ → List Op → ℕ
last_voice id old [] = old
last_voice id old (o ∷ os) = last_voice id (voice_after id old o) os

same_channel : {c d : Channel} → some c ≡ some d → c ≡ d
same_channel e = cc e

module _ (id state : ℕ) where
  abbrev Has : ℕ → Table → Type 0
  Has voice t = lookup id t.channels ≡ some (record { state = state; voice = voice })

  insert-Has :
      (other voice : ℕ) (c : Channel) (n : ℕ) (t : Table)
      → other ≢ id
      → Has voice t
      → Has voice (record { channels = insert other c t.channels; states = n })
  insert-Has other voice c n t ne h = insert_other other id t.channels c ne ∙ h

  or_insert-Has :
      (voice other v : ℕ) (t : Table)
      → Has voice t
      → (o : Option Channel) → lookup other t.channels ≡ o
      → Has voice (or_insert other v o t).1
  or_insert-Has voice other v t h (some c) e = h
  or_insert-Has voice other v t h none e =
      insert-Has other voice (record { state = t.states; voice = v }) (suc t.states) t
        (λ same. cc (subst (λ k. lookup k t.channels ≡ none) same e, h)) h

  set_voice-Has :
      (voice other v : ℕ) (inited : Bool) (t : Table)
      → Has voice t
      → (o : Option Channel) → lookup other t.channels ≡ o
      → Has (if other == id then v else voice) (set_voice other v inited o t).1
  set_voice-Has voice other v inited t h (some c) e = elim (ℕᴺ_discrete other id) [
    | yes same ↦
        let b : (other == id) ≡ true = (==_iff other id).1 same in
        let f : c ≡ record { state = state; voice = voice } =
          same_channel (sym (subst (λ k. lookup k t.channels ≡ some c) same e) ∙ h) in
        rw (b) (
          insert_same other id t.channels (record c { voice = v }) same
          ∙ ap (λ x. some (record { state = x.state; voice = v })) f)
    | no ne ↦
        let b : (other == id) ≡ false = ground arith in
        rw (b) (insert-Has other voice (record c { voice = v }) t.states t ne h)
  ]
  set_voice-Has voice other v true t h none e =
      let ne : other ≢ id = λ same. cc (subst (λ k. lookup k t.channels ≡ none) same e, h) in
      let b : (other == id) ≡ false = ground arith in
      rw (b) (insert-Has other voice (record { state = t.states; voice = v }) (suc t.states) t ne h)
  set_voice-Has voice other v false t h none e =
      let ne : other ≢ id = λ same. cc (subst (λ k. lookup k t.channels ≡ none) same e, h) in
      let b : (other == id) ≡ false = ground arith in rw (b) h

  step-Has :
      (voice : ℕ) (t : Table) (o : Op)
      → IsOpen id o
      → Has voice t
      → Has (voice_after id voice o) (step t o).1
  unfolding step init_channel reassign_voice close
  step-Has voice t (init_it other (host v true)) f h =
      or_insert-Has voice other v t h (lookup other t.channels) refl
  step-Has voice t (init_it other (host v false)) f h = h
  step-Has voice t (init_it other no_host) f h = h
  step-Has voice t (init_it other host_failed) f h = h
  step-Has voice t (reassign_it other (host v inited)) f h =
      set_voice-Has voice other v inited t h (lookup other t.channels) refl
  step-Has voice t (reassign_it other no_host) f h = both_branches (λ x. Has x t) (other == id) h h
  step-Has voice t (reassign_it other host_failed) f h =
      both_branches (λ x. Has x t) (other == id) h h
  step-Has voice t (close_it other) f h = remove_other other id t.channels f ∙ h

run-keeps :
    (id state voice : ℕ) (t : Table) (os : List Op)
    → lookup id t.channels ≡ some (record { state = state; voice = voice })
    → All (IsOpen id) os
    → lookup id (run t os).channels
      ≡ some (record { state = state; voice = last_voice id voice os })
unfolding run last_voice
run-keeps id state voice t [] h a = h
run-keeps id state voice t (o ∷ os) h (f, a) =
    run-keeps id state (voice_after id voice o) (step t o).1 os (step-Has id state voice t o f h) a

-- As long as a channel is not closed, whatever other sessions do to it or to other channels, also where
-- they began to open it before it was in the table: a session that looks it up or opens it gets the
-- channel with the state that it had and the voice host of its last reassignment that found one, or
-- else the one that it had; and one that has it reassigned to a host gets that state with that host.
pub run-gives :
    (id state voice v : ℕ) (inited : Bool) (t : Table) (os : List Op)
    → lookup id t.channels ≡ some (record { state = state; voice = voice })
    → All (IsOpen id) os
    → (find_channel id (run t os)
        ≡ some (got (record { state = state; voice = last_voice id voice os })))
      × ((init_channel id (host v true) (run t os)).0
          ≡ got (record { state = state; voice = last_voice id voice os }))
      × ((reassign_voice id (host v inited) (run t os)).0
          ≡ got (record { state = state; voice = v }))
unfolding find_channel init_channel reassign_voice
run-gives id state voice v inited t os h a =
    let e = run-keeps id state voice t os h a in
    (
      ap (get_found id) e,
      ap (λ o. (or_insert id v o (run t os)).0) e,
      ap (λ o. (set_voice id v inited o (run t os)).0) e,
    )
