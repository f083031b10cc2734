-- ===== src/Replicator/Changes.antt =====
-- From a WAL packet to a Kafka message, for the rows that are updated or deleted.
use kafka_replication.Base.{
  ℕ, ◌*◌, ◌^◌, ◌≤◌, ◌<◌, ◌≡◌, ◌∙◌, some, List, [], ◌∷◌, map, arith, Bytes, codes, length,
  length-map, ok,
}
use kafka_replication.Base.Word.{IsU32}
use kafka_replication.Wire.{byte_at}
use kafka_replication.Tuple.Encoding.{Field, shown, IsTuple}
use kafka_replication.Message.{RelationMessage, get_relation_namespace}
use kafka_replication.Message.Cache.{get_cached_relation}
use kafka_replication.Message.Parse.{Host}
use kafka_replication.Message.Parse.Encoding.{encode_row}
use kafka_replication.Message.Parse.Rows.{parse_update-encode_row, parse_delete-encode_row}
use kafka_replication.Json.{JsonLib}
use kafka_replication.Json.Rows.{fill_row, extract_key}
use kafka_replication.Json.Members.{row_object, fill_row_fits}
use kafka_replication.Json.Objects.{assign_all}
use kafka_replication.Parser.{parse_message, parse_switch, catch_parse}
use kafka_replication.Producer.{LibrdKafkaProducer, send_message}
use kafka_replication.Replicator.{PostgresqlReplicator, Answers}
use kafka_replication.Replicator.Handlers.{
  handle_message, handle_update, update_row, update_json, with_before, header, handle_delete,
  delete_row, delete_json, send_row, send_json,
}
use kafka_replication.Replicator.Packets.{parse_packet, catch_packet, apply_lsn}
use kafka_replication.Replicator.Delivery.{
  wal_packet, IsPrefixOf24, received_state, parse_packet-wal_packet,
}

-- The members that the messages of a row share, and the two that only some have.
abbrev pub change_members :
    (json : JsonLib) → Bytes → Bytes → RelationMessage → json.Value → ℕ → List (Bytes × json.Value)
change_members json op rows r row now =
    (codes "op", json.of_string op)
    ∷ (codes "table", json.of_string r.relation_name)
    ∷ (codes "schema", json.of_string r.relation_name)
    ∷ (codes "timestamp", json.of_int64 now)
    ∷ (rows, row)
    ∷ (codes "primary", json.of_string (extract_key json row r.columns).0)
    ∷ []

-- The state behind a change that is delivered, with the row under the name `rows`.
abbrev pub after_change :
    JsonLib
    → Answers
    → Bytes
    → Bytes
    → Bytes
    → RelationMessage
    → List Bytes
    → LibrdKafkaProducer
    → PostgresqlReplicator
    → PostgresqlReplicator
after_change json answers raw op rows r values p s =
    let row = row_object json r.columns values json.null_value in
    let message =
      assign_all json json.null_value (change_members json op rows r row answers.milliseconds) in
    apply_lsn answers (record (received_state raw s) {
      kafka_producer =
          some
            (send_message (extract_key json row r.columns).1 (json.write message) answers.produce
              p).0;
    })

module _ (host : Host) (json : JsonLib) (answers : Answers) (prefix : Bytes) (id mark : ℕ)
    (fs : List Field) (r : RelationMessage) (p : LibrdKafkaProducer) (s : PostgresqlReplicator)
    (k : IsPrefixOf24 prefix) (cached : get_cached_relation id s.relations ≡ some r)
    (producer : s.kafka_producer ≡ some p) (hid : IsU32 id) (tuple : IsTuple fs)
    (size : length fs ≤ length r.columns) (fits : length (encode_row id mark fs) < 2 ^ 64) where
  filled :
      fill_row json r.columns (map shown fs) json.null_value
      ≡ ok (row_object json r.columns (map shown fs) json.null_value)
  filled =
      fill_row_fits json r.columns (map shown fs) json.null_value
        (omega (arith, length-map shown fs, size))

  -- Where a producer is set, a WAL packet with an UPDATE that carries no old tuple, for a cached
  -- relation with enough columns, is turned into one send of the new row under `after`, in a
  -- message with no other row; below 79 * 256 values.
  pub update_delivered :
      length fs < 79 * 2 ^ 8
      → let raw = wal_packet prefix (b'U' ∷ encode_row id mark fs) in
        parse_packet host json answers raw s
        ≡ ok (after_change json answers raw (codes "UPDATE") (codes "after") r (map shown fs) p s)
  unfolding parse_message byte_at parse_switch catch_parse catch_packet handle_message handle_update
      update_row with_before update_json header get_relation_namespace send_row send_json
  update_delivered few =
      parse_packet-wal_packet host json answers prefix (b'U' ∷ encode_row id mark fs) s k
      ∙ rw (
        parse_update-encode_row s.relations id mark fs hid tuple few fits,
        cached,
        producer,
        filled,
      )

  -- Where a producer is set, a WAL packet with a DELETE for a cached relation with enough columns
  -- is turned into one send of the old row under `before`.
  pub delete_delivered :
      let raw = wal_packet prefix (b'D' ∷ encode_row id mark fs) in
      parse_packet host json answers raw s
      ≡ ok (after_change json answers raw (codes "DELETE") (codes "before") r (map shown fs) p s)
  unfolding parse_message byte_at parse_switch catch_parse catch_packet handle_message handle_delete
      delete_row delete_json header get_relation_namespace send_row send_json
  delete_delivered =
      parse_packet-wal_packet host json answers prefix (b'D' ∷ encode_row id mark fs) s k
      ∙ rw (parse_delete-encode_row s.relations id mark fs hid tuple fits, cached, producer, filled)
