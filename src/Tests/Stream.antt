-- ===== src/Tests/Stream.antt =====
-- A replicator in a stream: a WAL packet with an INSERT, and a keepalive.
use kafka_replication.Base.{
  ◌≡◌, refl, List, [], ◌∷◌, ◌++◌, map, arith, Bytes, length, replicate, ok, codes, get_elem?, some,
}
use kafka_replication.Wire.{read_uint64}
use kafka_replication.Tuple.Encoding.{shown, encode_fields}
use kafka_replication.Message.Parse.Encoding.{encode_row}
use kafka_replication.Message.Cache.{get_cached_relation}
use kafka_replication.Replicator.{
  PostgresqlReplicator, Answers, status_update, send_standby_status_update,
}
use kafka_replication.Replicator.Packets.{
  CopyData, copy_row, read_loop, read_step, process_replication_message, parse_packet,
  packet_switch, catch_packet, apply_lsn,
}
use kafka_replication.Replicator.Acknowledge.{lsn, status_update_layout, IsAt}
use kafka_replication.Replicator.Refinement.{acknowledge, read_loop-acknowledge}
use kafka_replication.Replicator.Delivery.{wal_packet, after_insert, insert_delivered}
use kafka_replication.Replicator.Changes.{after_change, update_delivered}
use kafka_replication.Tests.Doubles.{
  big_host, node_json, answers, producer, replicator, stats, users,
}
use kafka_replication.Tests.Parsing.{fields, fields-IsTuple}

status_update_layout_example :
    let reply = status_update 5 stats in
    (length reply ≡ 34)
    × (get_elem? reply 0 ≡ some b'r')
    × (read_uint64 reply 1 ≡ ok (lsn 0 16, 9))
    × (read_uint64 reply 9 ≡ ok (lsn 0 16, 17))
    × (read_uint64 reply 17 ≡ ok (lsn 0 16, 25))
    × (read_uint64 reply 25 ≡ ok (5, 33))
    × (get_elem? reply 33 ≡ some 0)
status_update_layout_example =
    status_update_layout 5 stats
      (record {
        restart_high = omega arith;
        restart_low = omega arith;
        applied_high = omega arith;
        applied_low = omega arith;
      })
      (omega arith)

abbrev insert_packet : Bytes
insert_packet = wal_packet (replicate 24 0) (b'I' ∷ encode_row 7 b'N' fields)

abbrev copied : List (CopyData × Answers)
copied =
    (copy_row b'w' (replicate 24 0 ++ (b'I' ∷ encode_row 7 b'N' fields)), answers)
    ∷ (copy_row b'k' (0 ∷ []), answers)
    ∷ []

abbrev behind : PostgresqlReplicator
behind =
    send_standby_status_update answers
      (after_insert node_json answers insert_packet users (map shown fields) producer replicator)

loop_runs : read_loop big_host node_json copied replicator ≡ ok behind
unfolding encode_fields get_cached_relation read_loop read_step process_replication_message
loop_runs =
    rw
      (insert_delivered big_host node_json answers (replicate 24 0) 7 fields users producer
        replicator refl refl refl (omega arith) fields-IsTuple (omega arith) (omega arith))
      (unfold parse_packet packet_switch catch_packet apply_lsn send_standby_status_update in refl)

pub replicator-IsAt : IsAt 0 (0, 16) replicator
replicator-IsAt = record {
  received_high = refl;
  received_low = refl;
  applied_high = refl;
  applied_low = refl;
  same_flag = refl;
  connected = refl;
  running = refl;
}

read_loop-acknowledge_example : behind.replies ≡ acknowledge 0 copied (0, 16)
read_loop-acknowledge_example =
    read_loop-acknowledge big_host node_json 0 copied (0, 16) replicator behind replicator-IsAt
      loop_runs

abbrev update_packet : Bytes
update_packet = wal_packet (replicate 24 0) (b'U' ∷ encode_row 7 b'N' fields)

update_delivered_example :
    parse_packet big_host node_json answers update_packet replicator
    ≡ ok (
        after_change node_json answers update_packet
          (codes "UPDATE")
          (codes "after")
          users
          (map shown fields)
          producer
          replicator)
unfolding encode_fields get_cached_relation
update_delivered_example =
    update_delivered big_host node_json answers (replicate 24 0) 7 b'N' fields users producer
      replicator refl refl refl (omega arith) fields-IsTuple (omega arith) (omega arith)
      (omega arith)
