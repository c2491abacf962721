-- ===== src/Client/Program.antt =====
-- client/src/main.rs: `async_main_`, the program of a client in one channel. What the gateway sends is
-- a list, after which the connection is gone; what else answers is an input. The text of a key stands
-- for the key, so `decode` is what the decoder makes of that text.
use voices.Common.{
  ℕ, zero, suc, ◌+◌, Bool, true, false, Option, none, some, List, [], ◌∷◌, ◌++◌, String, ◌==◌,
  if◌then◌else◌,
}
use voices.Net.{SocketAddr}
use voices.Session.{ClientEvent, ServerEvent, Ready, Present}
use voices.Control.Stream
use voices.Control.Stream.{ControlStreamError, ServerAnnounce, send}
use voices.Client.Setup.{Setup, SetupError, setup_new}
use voices.Client.Receiver.{VoiceEvent, already_present, joined, left}

pub data ProgramError : Type 0 where
  connect_failed no_address bad_base64 bad_key no_microphone voice_disconnected : ProgramError
  -- the loop below is given too few rounds
  out_of_fuel : ProgramError
  control : ControlStreamError → ProgramError
  setup : SetupError → ProgramError

pub data Result (A : Type 0) : Type 0 where
  ok : A → Result A
  err : ProgramError → Result A

pub record Config : Type 0 where
  pub user_id : ℕ
  pub name : String
  pub deaf : Bool
  pub mute : Bool

pub record Answers : Type 0 where
  pub connected : Bool
  pub init_sent : Bool
  pub join_sent : Bool
  pub bound : Bool
  pub udp_connected : Bool
  pub discovered : ℕ → Setup SocketAddr
  pub announce_sent : Bool
  pub recording : Bool
  -- after how many messages of the last loop the user stops the program
  pub ctrl_c : Option ℕ
  pub leave_sent : Bool
  pub stop_taken : Bool
  pub stop_answered : Bool

-- What the program does, in order.
pub data Act : Type 0 where
  sent : ClientEvent → Act
  udp_setup : SocketAddr → Act
  discover : ℕ → Act
  udp_run : ℕ → List ℕ → Bool → Bool → Act
  told : VoiceEvent → Act
  stopped : Act

-- What is still to come, what was done, and the outcome.
pub record Done (A : Type 0) : Type 0 where
  pub result : Result A
  pub acts : List Act
  pub inc : List ServerEvent

abbrev pub M : Type 0 → Type 0
M A = List ServerEvent → Done A

abbrev pub give : {A : Type 0} → A → M A
give a inc = record { result = ok a; acts = []; inc = inc }

abbrev pub fail : {A : Type 0} → ProgramError → M A
fail e inc = record { result = err e; acts = []; inc = inc }

abbrev pub act : Act → M (Unit {0})
act a inc = record { result = ok tt; acts = a ∷ []; inc = inc }

abbrev pub after : {A B : Type 0} → (A → M B) → Result A → List Act → List ServerEvent → Done B
after f (ok a) acts inc = let r = f a inc in record r { acts = acts ++ r.acts }
after f (err e) acts inc = record { result = err e; acts = acts; inc = inc }

infixl 5 ◌>>=◌ ◌>>◌
abbrev pub ◌>>=◌ : {A B : Type 0} → M A → (A → M B) → M B
◌>>=◌ m f inc = let r = m inc in after f r.result r.acts r.inc

abbrev pub ◌>>◌ : {B : Type 0} → M (Unit {0}) → M B → M B
m >> k = m >>= λ _. k

abbrev pub check : Bool → ProgramError → M (Unit {0})
check true e = give tt
check false e = fail e

abbrev pub sends : Stream.Result ClientEvent → M (Unit {0})
sends (Stream.Result.ok e) = act (sent e)
sends (Stream.Result.err x) = fail (control x)

abbrev awaited : {A : Type 0} → Stream.Result A → List ServerEvent → Done A
awaited (Stream.Result.ok a) inc = give a inc
awaited (Stream.Result.err x) inc = fail (control x) inc

abbrev pub awaits : {A : Type 0} → (List ServerEvent → Stream.Result A × List ServerEvent) → M A
awaits f inc = let r = f inc in awaited r.0 r.1

abbrev pub sets_up : {A : Type 0} → Setup A → M A
sets_up (Setup.ok a) = give a
sets_up (Setup.err e) = fail (setup e)

-- The loop of the IP discovery; an attempt that fails is made again, five in all.
unfoldable pub discovery : ℕ → ℕ → ℕ → (ℕ → Setup SocketAddr) → M SocketAddr
discovery zero attempt source_id answers = fail out_of_fuel
discovery (suc fuel) attempt source_id answers =
    let again = discovery fuel (attempt + 1) source_id answers in
    let try_once : M SocketAddr =
      λ inc. elim (answers attempt) [ Setup.ok addr ↦ give addr inc | Setup.err e ↦ again inc ] in
    if attempt == 5 then fail no_address else (act (discover source_id) >> try_once)

-- The users of `ready.present` but the client itself.
unfoldable pub announce_present : ℕ → List Present → M (Unit {0})
announce_present src_id [] = give tt
announce_present src_id (user ∷ rest) =
    let later = announce_present src_id rest in
    if user.source_id == src_id
    then later
    else (act (told (already_present user.source_id)) >> later)

-- `ControlStream::stop`
abbrev pub stops : Answers → M (Unit {0})
stops a = act stopped >> awaits (λ inc. (Stream.stop a.stop_taken a.stop_answered, inc))

abbrev pub leaves : Answers → M (Unit {0})
leaves a = sends (Stream.leave a.leave_sent) >> stops a

abbrev pub count_down : Option ℕ → Option ℕ
count_down (some (suc n)) = some n
count_down n = n

abbrev pub is_now : Option ℕ → Bool
is_now (some zero) = true
is_now n = false

-- The last loop of `async_main_`, on what is still to come.
unfoldable pub main_loop : Answers → Option ℕ → List ServerEvent → Done (Unit {0})
main_loop a ctrl_c [] =
    if is_now ctrl_c then leaves a [] else fail (control ControlStreamError.end) []
main_loop a ctrl_c (evt ∷ inc) =
    let next = main_loop a (count_down ctrl_c) inc in
    let told_first = λ (e : VoiceEvent). record next { acts = told e ∷ next.acts } in
    let handled : Done (Unit {0}) = elim evt [
      | ServerEvent.keepalive t ↦ next
      | ServerEvent.init id ↦ next
      | ServerEvent.ready r ↦ next
      | ServerEvent.udp_announce addr src ↦ next
      | ServerEvent.join_error id ↦ stops a inc
      | ServerEvent.joined p ↦ told_first (joined p.source_id)
      | ServerEvent.left p ↦ told_first (left p.source_id)
      | ServerEvent.disconnected ↦ fail voice_disconnected inc
    ] in
    if is_now ctrl_c then leaves a (evt ∷ inc) else handled

abbrev pub decoded_key : (List ℕ → Bool) → Option (List ℕ) → M (List ℕ)
decoded_key is_key none = fail bad_base64
decoded_key is_key (some key) = (check (is_key key) bad_key >> give key)

module _ (decode : List ℕ → Option (List ℕ)) (is_key : List ℕ → Bool) where
  -- `async_main_` after `await_ready`.
  unfoldable pub in_voice : Config → Answers → Ready → M (Unit {0})
  in_voice c a ready = do
    key ← decoded_key is_key (decode ready.crypt_key)
    check a.recording no_microphone
    act (udp_run ready.src_id key c.deaf c.mute)
    announce_present ready.src_id ready.present
    main_loop a a.ctrl_c

  -- `async_main_` after `await_voice_udp`.
  unfoldable pub open_udp : Config → Answers → ServerAnnounce → M (Unit {0})
  open_udp c a remote = do
    act (udp_setup remote.addr)
    sets_up (setup_new a.bound a.udp_connected)
    slf_addr ← discovery 6 0 remote.source_id a.discovered
    sends (Stream.announce_udp a.announce_sent slf_addr)
    ready ← awaits Stream.await_ready
    in_voice c a ready

  unfoldable pub async_main : Config → Answers → ℕ → M (Unit {0})
  async_main c a channel_id = do
    check a.connected connect_failed
    sends (Stream.init a.init_sent c.user_id c.name)
    initialized ← awaits Stream.await_initialized
    sends (Stream.join a.join_sent channel_id)
    remote ← awaits Stream.await_voice_udp
    open_udp c a remote
