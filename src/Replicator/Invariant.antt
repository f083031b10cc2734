-- ===== src/Replicator/Invariant.antt =====
-- producer_azs/postgresql_replicator.cpp: what holds of the state at every packet.
use kafka_replication.Base.{
  ℕ, ◌≤◌, ◌≡◌, refl, sym, ap, ◌∙◌, subst, inl, inr, Bool, List, [], ◌∷◌, arith, ltb, ◌==◌,
  if◌then◌else◌, Bool-cases, Bytes, length, drop, All, Outcome, ok, throw, fault, ◌>>=◌, >>=-eq-ok,
}
use kafka_replication.Base.Word.{IsByte}
use kafka_replication.Message.Parse.{Host}
use kafka_replication.Parser.{parse_message}
use kafka_replication.Parser.Messages.{parse_message-cached}
use kafka_replication.Json.{JsonLib}
use kafka_replication.Replicator.{PostgresqlReplicator, Answers, send_standby_status_update}
use kafka_replication.Replicator.Handlers.{handle_message}
use kafka_replication.Replicator.Packets.{
  received_at, apply_lsn, catch_packet, wal_message, packet_switch, parse_packet, CopyData,
  copy_done, copy_error, copy_nothing, copy_row, process_replication_message, read_step, read_loop,
}
use kafka_replication.Replicator.Frame.{SameStream, Keeps, handle_message-Keeps}
use kafka_replication.Replicator.Acknowledge.{packet_lsn}
use kafka_replication.Replicator.Refinement.{receive_lsn_lem, row}
use kafka_replication.Replicator.Words.{
  IsReplicator, send_standby_status_update-IsReplicator, apply_lsn-IsReplicator,
  SameStream-IsReplicator, received-IsReplicator,
}

module _ (host : Host) (json : JsonLib) where
  wal_message-IsReplicator :
      (answers : Answers) (raw : Bytes) (s t : PostgresqlReplicator)
      → All IsByte raw
      → 25 ≤ length raw
      → IsReplicator s
      → wal_message host json answers raw s ≡ ok t
      → IsReplicator t
  unfolding wal_message
  wal_message-IsReplicator answers raw s t bytes size h e =
      let u : PostgresqlReplicator = record s {
        stats = received_at (packet_lsn raw).0 (packet_lsn raw).1 s.stats;
      } in
      let e₁ = rw (receive_lsn_lem raw s size) at e in
      let ((m, relations), parsed, e₂) =
        >>=-eq-ok (parse_message host u.relations (drop 25 raw)) _ e₁ in
      let (_, _, stored, _) =
        parse_message-cached host s.relations relations (drop 25 raw) m parsed in
      let w : PostgresqlReplicator = record u { relations = relations } in
      let (v, e₃, e₄) = >>=-eq-ok (handle_message json m answers w) _ e₂ in
      let same : SameStream w v = subst (Keeps w) e₃ (handle_message-Keeps json m answers w) in
      let before : IsReplicator w =
        subst (λ cache. IsReplicator (record u { relations = cache })) (sym stored)
          (received-IsReplicator raw s m bytes h) in
      let done : apply_lsn answers v ≡ t = cc (e₄) in
      subst IsReplicator done
        (apply_lsn-IsReplicator answers v (SameStream-IsReplicator w v same before))

  packet_switch-IsReplicator :
      (answers : Answers) (b : ℕ) (raw : Bytes) (s t : PostgresqlReplicator)
      → All IsByte raw
      → IsReplicator s
      → packet_switch host json answers b raw s ≡ ok t
      → IsReplicator t
  unfolding packet_switch
  packet_switch-IsReplicator answers b raw s t bytes h e = elim (Bool-cases (b == b'w')) [
    | inl wal ↦ elim (Bool-cases (ltb (length raw) 25)) [
      | inl short ↦ cc (rw (wal, short) at e)
      | inr long ↦
          wal_message-IsReplicator answers raw s t bytes (ground arith) h (rw (wal, long) at e)
    ]
    | inr other ↦ elim (Bool-cases (b == b'k')) [
      | inl keepalive ↦
          let done : send_standby_status_update answers s ≡ t = cc (rw (other, keepalive) at e) in
          subst IsReplicator done (send_standby_status_update-IsReplicator answers s h)
      | inr neither ↦ let done : s ≡ t = cc (rw (other, neither) at e) in subst IsReplicator done h
    ]
  ]

  catch_packet-IsReplicator :
      (s t : PostgresqlReplicator) (r : Outcome PostgresqlReplicator)
      → IsReplicator s
      → ((v : PostgresqlReplicator) → r ≡ ok v → IsReplicator v)
      → catch_packet s r ≡ ok t
      → IsReplicator t
  unfolding catch_packet
  catch_packet-IsReplicator s t (ok v) h k e =
      let done : v ≡ t = cc in subst IsReplicator done (k v refl)
  catch_packet-IsReplicator s t (throw x) h k e = let done : s ≡ t = cc in subst IsReplicator done h
  catch_packet-IsReplicator s t fault h k e = cc

  read_step-IsReplicator :
      (copied : CopyData) (answers : Answers) (s t : PostgresqlReplicator)
      → All IsByte (row copied)
      → IsReplicator s
      → read_step host json copied answers s ≡ ok t
      → IsReplicator t
  unfolding read_step process_replication_message parse_packet
  read_step-IsReplicator copy_done answers s t bytes h e =
      let done : send_standby_status_update answers s ≡ t = cc in
      subst IsReplicator done (send_standby_status_update-IsReplicator answers s h)
  read_step-IsReplicator copy_error answers s t bytes h e = cc
  read_step-IsReplicator copy_nothing answers s t bytes h e =
      let done : s ≡ t = cc in subst IsReplicator done h
  read_step-IsReplicator (copy_row b bs) answers s t bytes h e =
      catch_packet-IsReplicator s t _ h
        (λ v. packet_switch-IsReplicator answers b (b ∷ bs) s v bytes h) e

  -- Whatever bytes the server sends, as long as the loop goes on: the received, applied and flush
  -- positions are pairs of 32-bit words, the cache has one entry for each id and the relation with
  -- this id in it, and each reply so far is a status update on words of 32 bits.
  pub read_loop-IsReplicator :
      (copied : List (CopyData × Answers)) (s t : PostgresqlReplicator)
      → All (λ (c : CopyData × Answers). All IsByte (row c.0)) copied
      → IsReplicator s
      → read_loop host json copied s ≡ ok t
      → IsReplicator t
  unfolding read_loop
  read_loop-IsReplicator [] s t bytes h e = let done : s ≡ t = cc in subst IsReplicator done h
  read_loop-IsReplicator ((c, answers) ∷ rest) s t (b, bytes) h e =
      let go = λ (b : Bool).
        if b then (read_step host json c answers s >>= read_loop host json rest) else ok s in
      elim (Bool-cases s.replicating) [
        | inl runs ↦
            let (u, e₁, e₂) =
              >>=-eq-ok (read_step host json c answers s) _ (sym (ap go runs) ∙ e) in
            read_loop-IsReplicator rest u t bytes (read_step-IsReplicator c answers s u b h e₁) e₂
        | inr stopped ↦ let done : s ≡ t = cc (sym (ap go stopped) ∙ e) in subst IsReplicator done h
      ]
