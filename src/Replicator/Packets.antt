-- ===== src/Replicator/Packets.antt =====
-- producer_azs/postgresql_replicator.cpp: parsePacket, processReplicationMessage and the read loop.
use kafka_replication.Base.{
  ℕ, ◌&&◌, List, [], ◌∷◌, ltb, ◌==◌, if◌then◌else◌, Bytes, length, drop, wal_too_short,
  not_replicating, read_failed, Outcome, ok, throw, fault, ◌>>=◌,
}
use kafka_replication.Wire.{memcpy, from_be}
use kafka_replication.Message.Parse.{Host}
use kafka_replication.Json.{JsonLib}
use kafka_replication.Parser.{parse_message}
use kafka_replication.Replicator.{PostgresqlReplicator, Answers, Stats, send_standby_status_update}
use kafka_replication.Replicator.Handlers.{handle_message}

abbrev pub received_at : ℕ → ℕ → Stats → Stats
received_at high low s = record s { received_lsn_high = high; received_lsn_low = low }

abbrev pub applied_at_received : Stats → Stats
applied_at_received s = record s {
  applied_lsn_high = s.received_lsn_high;
  applied_lsn_low = s.received_lsn_low;
}

-- The first block of the case 'w': the two words at byte 9.
unfoldable pub receive_lsn : Bytes → PostgresqlReplicator → Outcome PostgresqlReplicator
receive_lsn raw state = do
  high ← memcpy raw 9 4
  low ← memcpy raw 13 4
  ok (record state { stats = received_at (from_be high) (from_be low) state.stats })

-- The last block, and the status update.
unfoldable pub apply_lsn : Answers → PostgresqlReplicator → PostgresqlReplicator
apply_lsn answers state =
    send_standby_status_update answers (record state { stats = applied_at_received state.stats })

-- The handler drops the exception. `state` is the state at the throw: only the length check
-- throws, before anything is changed.
unfoldable pub catch_packet :
    PostgresqlReplicator → Outcome PostgresqlReplicator → Outcome PostgresqlReplicator
catch_packet state (ok result) = ok result
catch_packet state (throw e) = ok state
catch_packet state fault = fault

module _ (host : Host) (json : JsonLib) where
  -- The case 'w' behind its length check.
  unfoldable pub wal_message : Answers → Bytes → PostgresqlReplicator → Outcome PostgresqlReplicator
  wal_message answers raw state = do
    received ← receive_lsn raw state
    (message, relations) ← parse_message host received.relations (drop 25 raw)
    handled ← handle_message json message answers (record received { relations = relations })
    ok (apply_lsn answers handled)

  unfoldable pub packet_switch :
      Answers → ℕ → Bytes → PostgresqlReplicator → Outcome PostgresqlReplicator
  packet_switch answers msg_type raw state =
      if msg_type == b'w'
      then (if ltb (length raw) 25 then throw wal_too_short else wal_message answers raw state)
      else if msg_type == b'k'
      then ok (send_standby_status_update answers state)
      else ok state

  unfoldable pub parse_packet :
      Answers → Bytes → PostgresqlReplicator → Outcome PostgresqlReplicator
  parse_packet answers [] state = ok state
  parse_packet answers (t ∷ raw) state =
      catch_packet state (packet_switch answers t (t ∷ raw) state)

  -- `buff` holds `bytes_read` bytes.
  unfoldable pub process_replication_message :
      Answers → Bytes → PostgresqlReplicator → Outcome PostgresqlReplicator
  process_replication_message = parse_packet

-- What PQgetCopyData returns: -1, -2, a row of at least one byte, or 0.
pub data CopyData : Type 0 where
  copy_done copy_error copy_nothing : CopyData
  copy_row : ℕ → Bytes → CopyData

module _ (host : Host) (json : JsonLib) where
  -- The handler round a row has nothing to catch: parsePacket lets no exception out.
  unfoldable pub read_step :
      CopyData → Answers → PostgresqlReplicator → Outcome PostgresqlReplicator
  read_step copy_done answers state = ok (send_standby_status_update answers state)
  read_step copy_error answers state = throw read_failed
  read_step copy_nothing answers state = ok state
  read_step (copy_row b bs) answers state =
      process_replication_message host json answers (b ∷ bs) state

  -- The loop over what the connection yields; at the end of the list it still waits.
  unfoldable pub read_loop :
      List (CopyData × Answers) → PostgresqlReplicator → Outcome PostgresqlReplicator
  read_loop [] state = ok state
  read_loop ((copied, answers) ∷ rest) state =
      let next = read_step copied answers state >>= read_loop rest in
      if state.replicating then next else ok state

  unfoldable pub start_read_replication_messages :
      List (CopyData × Answers) → PostgresqlReplicator → Outcome PostgresqlReplicator
  start_read_replication_messages copied state =
      if state.replicating && state.repl_conn then read_loop copied state else throw not_replicating
