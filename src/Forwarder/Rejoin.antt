-- ===== src/Forwarder/Rejoin.antt =====
-- server/voice/core/src/channel/mod.rs: a client that joins a channel again before its first
-- connection has ended.
use voices.Common.{
  suc, ◌∙◌, sym, Map, refl, ap, ℕ, String, none, some, ◌≡◌, ◌≢◌, arith, lookup, insert, remove,
  lookup-insert, lookup-remove,
}
use voices.Forwarder.{Conn, VoiceTask, Forwarder, Random}
use voices.Forwarder.Control.{on_open}
use voices.Forwarder.Loop.{forget, on_task_done}

lookup-remove_self {ℓ} : {V : Type ℓ} (k : ℕ) (m : Map V) → lookup k (remove k m) ≡ none
lookup-remove_self k m = ground (arith, lookup-remove k k m)

module _ (t : VoiceTask) (f : Forwarder) where
  -- What is left when the task of a client ends: the client has no source id, that of this task, or
  -- another one.
  done_unmapped :
      lookup t.client_id f.client_id_to_src_id ≡ none
      → ((on_task_done t f).client_id_to_src_id ≡ f.client_id_to_src_id)
        × ((on_task_done t f).connections ≡ f.connections)
  unfolding on_task_done
  done_unmapped e = rw (e, forget) (refl, refl)

  done_own :
      lookup t.client_id f.client_id_to_src_id ≡ some t.src_id
      → ((on_task_done t f).client_id_to_src_id ≡ remove t.client_id f.client_id_to_src_id)
        × ((on_task_done t f).connections ≡ remove t.src_id f.connections)
  unfolding on_task_done
  done_own e = rw (e, forget) (ground arith, ground arith)

  done_other :
      (src : ℕ)
      → lookup t.client_id f.client_id_to_src_id ≡ some src
      → src ≢ t.src_id
      → ((on_task_done t f).client_id_to_src_id ≡ f.client_id_to_src_id)
        × ((on_task_done t f).connections ≡ remove t.src_id f.connections)
  unfolding on_task_done
  done_other src e n = rw (e, forget) (ground arith, ground arith)

abbrev pub joined_twice : Forwarder → ℕ → ℕ → ℕ → String → Random → Random → Forwarder
joined_twice f now later client_id name first second =
    (on_open later client_id name second (on_open now client_id name first f).1).1

abbrev pub task_of : ℕ → Random → ℕ → VoiceTask
task_of client_id r handle = record { src_id = r.source_id; client_id = client_id; handle = handle }

module _ (f : Forwarder) (now later client_id : ℕ) (name : String) (first second : Random)
    (differ : first.source_id ≢ second.source_id) where
  abbrev twice : Forwarder
  twice = joined_twice f now later client_id name first second

  abbrev conn_of : Random → ℕ → Conn
  conn_of r handle = record {
    ctl = record { source_id = r.source_id; user_name = name; tx = handle };
    addr = none;
  }

  mapped : lookup client_id twice.client_id_to_src_id ≡ some second.source_id
  unfolding on_open
  mapped = ground (
    arith,
    lookup-insert client_id client_id second.source_id
        (insert client_id first.source_id f.client_id_to_src_id),
  )

  first_present : lookup first.source_id twice.connections ≢ none
  unfolding on_open
  first_present = ground (
    arith,
    lookup-insert second.source_id first.source_id (conn_of second (suc f.next_handle))
        (insert first.source_id (conn_of first f.next_handle) f.connections),
    lookup-insert first.source_id first.source_id (conn_of first f.next_handle) f.connections,
  )

  module _ (h k : ℕ) where
    in_order : Forwarder
    in_order =
        on_task_done (task_of client_id second k) (on_task_done (task_of client_id first h) twice)

    crossed : Forwarder
    crossed =
        on_task_done (task_of client_id first h) (on_task_done (task_of client_id second k) twice)

    in_order_gone :
        (lookup client_id in_order.client_id_to_src_id ≡ none)
        × (lookup first.source_id in_order.connections ≡ none)
        × (lookup second.source_id in_order.connections ≡ none)
    unfolding in_order
    in_order_gone =
        let f1 = on_task_done (task_of client_id first h) twice in
        let a =
          done_other (task_of client_id first h) twice second.source_id mapped
            (λ e. differ (sym e)) in
        let b = done_own (task_of client_id second k) f1 (ap (lookup client_id) a.0 ∙ mapped) in
        (
          ap (lookup client_id) b.0 ∙ lookup-remove_self client_id f1.client_id_to_src_id,
          ap (lookup first.source_id) b.1
              ∙ ground (
                arith,
                lookup-remove second.source_id first.source_id f1.connections,
                ap (lookup first.source_id) a.1,
                lookup-remove_self first.source_id twice.connections,
              ),
          ap (lookup second.source_id) b.1 ∙ lookup-remove_self second.source_id f1.connections,
        )

    crossed_left :
        (lookup client_id crossed.client_id_to_src_id ≡ none)
        × (lookup first.source_id crossed.connections ≢ none)
    unfolding crossed
    crossed_left =
        let f1 = on_task_done (task_of client_id second k) twice in
        let a = done_own (task_of client_id second k) twice mapped in
        let gone =
          ap (lookup client_id) a.0 ∙ lookup-remove_self client_id twice.client_id_to_src_id in
        let b = done_unmapped (task_of client_id first h) f1 gone in
        (
          ap (lookup client_id) b.0 ∙ gone,
          λ e. first_present (
              ground (
                arith,
                ap (lookup first.source_id) b.1,
                ap (lookup first.source_id) a.1,
                lookup-remove second.source_id first.source_id twice.connections,
              )),
        )

  -- When the first connection ends before the second, no trace of the client is left, neither its
  -- source id nor a connection under one of its two source ids. When the second ends first, the
  -- connection of the first one stays in the map, though its task has ended and no client has it.
  pub rejoin :
      (h k : ℕ)
      → let in_order = on_task_done (task_of client_id second k) (
          on_task_done
            (task_of client_id first h)
            (joined_twice f now later client_id name first second)) in
        let crossed = on_task_done (task_of client_id first h) (
          on_task_done
            (task_of client_id second k)
            (joined_twice f now later client_id name first second)) in
        (lookup client_id in_order.client_id_to_src_id ≡ none)
        × (lookup first.source_id in_order.connections ≡ none)
        × (lookup second.source_id in_order.connections ≡ none)
        × (lookup client_id crossed.client_id_to_src_id ≡ none)
        × (lookup first.source_id crossed.connections ≢ none)
  unfolding in_order crossed
  rejoin h k = let a = in_order_gone h k in let b = crossed_left h k in (a.0, a.1, a.2, b.0, b.1)
