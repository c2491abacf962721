-- ===== src/Heartbeat/Active.antt =====
-- server/voice/grpc/src/server.rs and server/channels/core/src: how long a voice server stays active.
use voices.Common.{
  ℕ, ◌+◌, ◌≤◌, ◌<◌, ◌≡◌, ◌≢◌, ◌⊎◌, ◌↔◌, Bool, true, false, Option, none, some, List, [], ◌∷◌, Map,
  lookup, insert, All, refl, if◌then◌else◌, Bool-cases, inl, inr, arith, String, ◌∙◌, ltb→lt,
  lt→ltb, insert_same, insert_other,
}
use voices.Registry.{
  VoiceServerDb, Tables, retain, is_stale, is_active, staleness, seen, register_voice_server,
  create_or_update, cleanup_stale,
}
use voices.Registry.Linked
use voices.Registry.Linked.{Op}
use voices.Grpc.{Codec, Text}
use voices.Heartbeat.{
  Call, answered, unanswered, unreached, took_place, serve_register, serve_unassign, register,
  unassign_channel, notify, tick, Event, beat, ended, other, step, run,
}
use voices.Heartbeat.Rows.{
  AreOld, AreOld-later, retain-AreOld, insert-AreOld, lookup-AreOld, lookup-retain,
  assign-voice_servers, unassign-voice_servers,
}

-- Whether the channels service takes a voice server for active.
abbrev pub active_row : ℕ → Option VoiceServerDb → Bool
active_row now none = false
active_row now (some v) = is_active now v

unfoldable pub active_at : ℕ → ℕ → Tables → Bool
unfolding is_active
active_at now id t = active_row now (lookup id t.voice_servers)

-- The times of the events ascend up to `end`.
abbrev pub IsOrdered : ℕ → List (ℕ × Event) → ℕ → Type 0
IsOrdered now [] end = now ≤ end
IsOrdered now ((later, e) ∷ es) end = (now ≤ later) × IsOrdered later es end

-- No other voice server has the id.
abbrev pub IsForeign : ℕ → Event → Type 0
IsForeign id (other (Op.register sid url)) = sid ≢ id
IsForeign id (other (Op.clean)) = Unit
IsForeign id (other (Op.assign cid reassign)) = Unit
IsForeign id (other (Op.release cid sid)) = Unit
IsForeign id (beat call) = Unit
IsForeign id (ended cid call) = Unit

abbrev pub AreForeign : ℕ → List (ℕ × Event) → Type 0
AreForeign id = All (λ e. IsForeign id e.1)

-- The time of the last registration that took place.
abbrev pub beat_at : ℕ → ℕ → Event → ℕ
beat_at last now (beat call) = if took_place call then now else last
beat_at last now (ended cid call) = last
beat_at last now (other op) = last

unfoldable pub last_beat : ℕ → List (ℕ × Event) → ℕ
last_beat last [] = last
last_beat last ((now, e) ∷ es) = last_beat (beat_at last now e) es

-- The row was written at `last`; it may be gone only once it was stale.
pub record Kept (id last now : ℕ) (m : Map VoiceServerDb) : Type 0 where
  pub old : AreOld id last m
  pub row :
      (last + staleness < now)
      ⊎ ((v : VoiceServerDb) × (lookup id m ≡ some v) × (v.last_seen ≡ last))

module _ (id last : ℕ) where
  Kept-later :
      (now later : ℕ) (m : Map VoiceServerDb)
      → now ≤ later
      → Kept id last now m
      → Kept id last later m
  Kept-later now later m h k = record {
    old = k.old;
    row = elim (k.row) [ inl gone ↦ inl (omega arith) | inr there ↦ inr there ];
  }

  Kept-register :
      (now sid : ℕ) (v : VoiceServerDb) (m : Map VoiceServerDb)
      → sid ≢ id
      → Kept id last now m
      → Kept id last now (insert sid v m)
  Kept-register now sid v m ne k = record {
    old = insert-AreOld id last sid v m (λ e. absurd (ne e)) k.old;
    row = elim (k.row) [
      | inl gone ↦ inl gone
      | inr (w, f, g) ↦ inr (w, insert_other sid id m v ne ∙ f, g)
    ];
  }

  Kept-retain :
      (now : ℕ) (m : Map VoiceServerDb) → Kept id last now m → Kept id last now (retain now m)
  unfolding is_stale
  Kept-retain now m k = record {
    old = retain-AreOld id last now m k.old;
    row = elim (k.row) [
      | inl gone ↦ inl gone
      | inr (w, f, g) ↦ elim (Bool-cases (is_stale now w)) [
        | inl s ↦ inl (omega (arith, ltb→lt (w.last_seen + staleness) now s))
        | inr s ↦ inr (w, lookup-retain id now w m f s, g)
      ]
    ];
  }

Kept-beat :
    (id last now : ℕ) (url : String) (m : Map VoiceServerDb)
    → last ≤ now
    → AreOld id last m
    → Kept id now now (insert id (seen now url (lookup id m)) m)
Kept-beat id last now url m h k = record {
  old =
      insert-AreOld id now id (seen now url (lookup id m)) m
        (λ e. omega (arith, seen_at (lookup id m))) (AreOld-later id last now m h k);
  row = inr (
    seen now url (lookup id m),
    insert_same id id m (seen now url (lookup id m)) refl,
    seen_at (lookup id m),
  );
}
  where
    seen_at : (o : Option VoiceServerDb) → (seen now url o).last_seen ≡ now
    seen_at none = refl
    seen_at (some v) = refl

module _ (codec : Codec) (url_from_str : Text → Option String) (id : ℕ) (addr : Text) (url : String)
    (valid : url_from_str addr ≡ some url) where
  tick-tables :
      (now : ℕ) (call : Call) (t : Tables)
      → (tick codec url_from_str id now addr call t).voice_servers ≡ (
          if took_place call
          then insert id (seen now url (lookup id t.voice_servers)) t.voice_servers
          else t.voice_servers)
  unfolding tick register serve_register register_voice_server create_or_update
  tick-tables now answered t =
      rw (codec.uuid-round id, tick, register, serve_register) (rw (valid) refl)
  tick-tables now unanswered t =
      rw (codec.uuid-round id, tick, register, serve_register) (rw (valid) refl)
  tick-tables now unreached t = refl

  notify-tables :
      (now cid : ℕ) (call : Call) (t : Tables)
      → (notify codec url_from_str id now cid call t).voice_servers ≡ t.voice_servers
  unfolding notify unassign_channel serve_unassign
  notify-tables now cid answered t =
      rw (codec.uuid-round cid, notify, unassign_channel, serve_unassign)
        (rw (codec.uuid-round id) (unassign-voice_servers now cid id t))
  notify-tables now cid unanswered t =
      rw (codec.uuid-round cid, notify, unassign_channel, serve_unassign)
        (rw (codec.uuid-round id) (unassign-voice_servers now cid id t))
  notify-tables now cid unreached t = refl

  abbrev KeptIn : ℕ → ℕ → Tables → Type 0
  KeptIn last now t = Kept id last now t.voice_servers

  beat-KeptIn :
      (last now : ℕ) (call : Call) (t : Tables)
      → last ≤ now
      → KeptIn last now t
      → KeptIn (beat_at last now (beat call)) now (tick codec url_from_str id now addr call t)
  beat-KeptIn last now answered t h k =
      rw (tick-tables now answered t) (Kept-beat id last now url t.voice_servers h k.old)
  beat-KeptIn last now unanswered t h k =
      rw (tick-tables now unanswered t) (Kept-beat id last now url t.voice_servers h k.old)
  beat-KeptIn last now unreached t h k = rw (tick-tables now unreached t) k

  other-KeptIn :
      (last now : ℕ) (op : Op) (t : Tables)
      → IsForeign id (other op)
      → KeptIn last now t
      → KeptIn last now (Linked.step t (now, op))
  unfolding Linked.step register_voice_server create_or_update cleanup_stale
  other-KeptIn last now (Op.register sid host) t f k =
      Kept-register id last now sid (seen now host (lookup sid t.voice_servers)) t.voice_servers f k
  other-KeptIn last now Op.clean t f k = Kept-retain id last now t.voice_servers k
  other-KeptIn last now (Op.assign cid reassign) t f k =
      rw (assign-voice_servers now cid reassign t) k
  other-KeptIn last now (Op.release cid sid) t f k = rw (unassign-voice_servers now cid sid t) k

  step-KeptIn :
      (last now : ℕ) (e : Event) (t : Tables)
      → last ≤ now
      → IsForeign id e
      → KeptIn last now t
      → (beat_at last now e ≤ now)
        × KeptIn (beat_at last now e) now (step codec url_from_str id addr t (now, e))
  unfolding step
  step-KeptIn last now (beat call) t h f k = (beat_le call, beat-KeptIn last now call t h k)
    where
      beat_le : (c : Call) → beat_at last now (beat c) ≤ now
      beat_le answered = omega arith
      beat_le unanswered = omega arith
      beat_le unreached = h
  step-KeptIn last now (ended cid call) t h f k = (h, rw (notify-tables now cid call t) k)
  step-KeptIn last now (other op) t h f k = (h, other-KeptIn last now op t f k)

  run-KeptIn :
      (last now end : ℕ) (es : List (ℕ × Event)) (t : Tables)
      → last ≤ now
      → IsOrdered now es end
      → AreForeign id es
      → KeptIn last now t
      → KeptIn (last_beat last es) end (run codec url_from_str id addr t es)
  unfolding run last_beat
  run-KeptIn last now end [] t h o f k = Kept-later id last now end t.voice_servers o k
  run-KeptIn last now end ((later, e) ∷ es) t h (o, os) (f, fs) k =
      let (le, k') =
        step-KeptIn last later e t (omega arith) f
          (Kept-later id last now later t.voice_servers o k) in
      run-KeptIn (beat_at last later e) later end es (step codec url_from_str id addr t (later, e))
        le os fs k'

Kept-active :
    (id last now : ℕ) (t : Tables)
    → Kept id last now t.voice_servers
    → (active_at now id t ≡ true) ↔ (now < last + staleness)
unfolding active_at is_active
Kept-active id last now t k = (to (lookup id t.voice_servers) refl, from)
  where
    to :
        (o : Option VoiceServerDb)
        → lookup id t.voice_servers ≡ o
        → active_row now o ≡ true
        → now < last + staleness
    to none e a = absurd (cc a)
    to (some v) e a = omega (
      arith,
      lookup-AreOld id last v t.voice_servers k.old e,
      ltb→lt now (v.last_seen + staleness) a,
    )

    from : now < last + staleness → active_row now (lookup id t.voice_servers) ≡ true
    from h = elim (k.row) [
      | inl gone ↦ absurd (omega arith)
      | inr (v, e, f) ↦ rw (e) (lt→ltb now (v.last_seen + staleness) (omega arith))
    ]

-- A voice server that has registered at `start` is active at a later time exactly if its last
-- registration that took place is less than 35 seconds ago: whatever other voice servers register,
-- whatever is assigned, released and cleaned up in between, and whatever channels end, as long as no
-- other voice server has its id, no row under its id is newer than `start`, its address is one that
-- the service can parse, and the clock of the
-- channels service does not go back.
pub active_iff :
    (codec : Codec) (url_from_str : Text → Option String) (id : ℕ) (addr : Text) (url : String)
    (start end : ℕ) (es : List (ℕ × Event)) (t : Tables)
    → url_from_str addr ≡ some url
    → AreOld id start t.voice_servers
    → IsOrdered start es end
    → AreForeign id es
    → (active_at end id (run codec url_from_str id addr t ((start, beat answered) ∷ es)) ≡ true)
      ↔ (end < last_beat start es + staleness)
unfolding run step
active_iff codec url_from_str id addr url start end es t valid old ordered foreign =
    let t' : Tables = tick codec url_from_str id start addr answered t in
    Kept-active id (last_beat start es) end (run codec url_from_str id addr t' es) (
      run-KeptIn codec url_from_str id addr url valid start start end es t' (omega arith) ordered
        foreign
        (rw (tick-tables codec url_from_str id addr url valid start answered t)
          (Kept-beat id start start url t.voice_servers (omega arith) old)))
