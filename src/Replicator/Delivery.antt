-- ===== src/Replicator/Delivery.antt =====
-- From a WAL packet to a Kafka message, and the packets that the process does not survive.
use kafka_replication.Base.{
  ℕ, ◌^◌, ◌≤◌, ◌<◌, ◌≡◌, ap, ◌∙◌, subst, ◌≢◌, ◌⊎◌, inl, inr, none, some, List, [], ◌∷◌, ◌++◌, map,
  arith, le→ltb, ==_ne, Bytes, codes, length, drop, All, length-append, drop-append, length-map,
  Error, ok, throw, fault, ◌>>=◌,
}
use kafka_replication.Base.Word.{IsU32}
use kafka_replication.Wire.{byte_at}
use kafka_replication.Tuple.Encoding.{Field, shown, IsTuple}
use kafka_replication.Message.{RelationMessage}
use kafka_replication.Message.Cache.{RelationCache, get_cached_relation}
use kafka_replication.Message.Parse.{Host}
use kafka_replication.Message.Parse.Encoding.{encode_row}
use kafka_replication.Message.Parse.Rows.{parse_insert-encode_row}
use kafka_replication.Json.{JsonLib}
use kafka_replication.Json.Rows.{fill_row, extract_key}
use kafka_replication.Json.Members.{row_object, fill_row_fits}
use kafka_replication.Parser.Messages.{parse_message_exceptions}
use kafka_replication.Parser.{parse_message, parse_switch, catch_parse}
use kafka_replication.Producer.{LibrdKafkaProducer, send_message}
use kafka_replication.Replicator.{PostgresqlReplicator, Answers}
use kafka_replication.Replicator.Handlers.{
  insert_json, send_row, send_json, insert_row, handle_insert, handle_message,
}
use kafka_replication.Replicator.Packets.{
  apply_lsn, wal_message, packet_switch, catch_packet, parse_packet, received_at,
}
use kafka_replication.Replicator.Acknowledge.{packet_lsn}
use kafka_replication.Replicator.Refinement.{receive_lsn_lem}

-- A WAL packet: its type, the two positions and the time, and the message.
abbrev pub wal_packet : Bytes → Bytes → Bytes
wal_packet prefix message = b'w' ∷ (prefix ++ message)

abbrev pub IsPrefixOf24 : Bytes → Type 0
IsPrefixOf24 prefix = length prefix ≡ 24

-- The state in which the message is handled.
abbrev pub received_state : Bytes → PostgresqlReplicator → PostgresqlReplicator
received_state raw s = record s {
  stats = received_at (packet_lsn raw).0 (packet_lsn raw).1 s.stats;
}

unknown_is_null :
    (host : Host) (relations : RelationCache) (t : ℕ) (rest : Bytes)
    → All (λ c. t ≢ c) (codes "BCRIUDT")
    → parse_message host relations (t ∷ rest) ≡ ok (none, relations)
unfolding parse_message byte_at parse_switch catch_parse
unknown_is_null host relations t rest (b, (c, (r, (i, (u, (d, (v, _))))))) = rw (
  ==_ne t b'B' b,
  ==_ne t b'C' c,
  ==_ne t b'R' r,
  ==_ne t b'I' i,
  ==_ne t b'U' u,
  ==_ne t b'D' d,
  ==_ne t b'T' v,
)

module _ (host : Host) (json : JsonLib) (answers : Answers) (prefix message : Bytes)
    (s : PostgresqlReplicator) (k : IsPrefixOf24 prefix) where
  drop_prefix : drop 25 (wal_packet prefix message) ≡ message
  drop_prefix =
      subst (λ (n : ℕ). drop n (prefix ++ message) ≡ message) k (drop-append prefix message)

  -- A packet is handled as its message is.
  pub parse_packet-wal_packet :
      parse_packet host json answers (wal_packet prefix message) s
      ≡ catch_packet s (
          parse_message host s.relations message >>= λ (m, relations).
          handle_message json m answers
            (record (received_state (wal_packet prefix message) s) { relations = relations })
          >>= λ v. ok (apply_lsn answers v))
  unfolding parse_packet packet_switch wal_message
  parse_packet-wal_packet =
      let raw = wal_packet prefix message in
      let size = length-append prefix message in
      rw (
        le→ltb (length raw) 25 (omega (arith, size)),
        receive_lsn_lem raw s (omega (arith, size)),
        drop_prefix,
      )

  -- The null pointer that parseMessage returns is read through.
  null_message_crash :
      (relations : RelationCache)
      → parse_message host s.relations message ≡ ok (none, relations)
      → parse_packet host json answers (wal_packet prefix message) s ≡ fault
  unfolding handle_message catch_packet
  null_message_crash relations e = parse_packet-wal_packet ∙ rw e

  -- A WAL packet of the least length that the check lets through holds no message, and one whose
  -- message makes a parse method throw, for instance a message that is cut short, leaves the null
  -- pointer: either way the process runs into undefined behaviour, for all that exceptions are
  -- caught at both levels.
  pub broken_message_crash :
      (t : ℕ) (rest : Bytes) (x : Error)
      → (message ≡ []) ⊎ ((message ≡ t ∷ rest) × (parse_switch host s.relations t rest ≡ throw x))
      → parse_packet host json answers (wal_packet prefix message) s ≡ fault
  unfolding catch_packet parse_message byte_at catch_parse
  broken_message_crash t rest x (inl e) =
      let none_there : parse_message host s.relations message ≡ fault =
        ap (parse_message host s.relations) e in
      parse_packet-wal_packet ∙ rw none_there
  broken_message_crash t rest x (inr (e, e')) = null_message_crash s.relations (
      ap (parse_message host s.relations) e
      ∙ (parse_message_exceptions host s.relations t rest x).1 e')

  -- A WAL packet with a message of a type that parseMessage does not know, such as the Type,
  -- Origin and Message of the protocol, leaves the null pointer as well, and the process runs into
  -- undefined behaviour.
  pub unknown_message_crash :
      (t : ℕ) (rest : Bytes)
      → message ≡ t ∷ rest
      → All (λ c. t ≢ c) (codes "BCRIUDT")
      → parse_packet host json answers (wal_packet prefix message) s ≡ fault
  unknown_message_crash t rest e ne =
      null_message_crash s.relations
        (ap (parse_message host s.relations) e ∙ unknown_is_null host s.relations t rest ne)

-- The state behind an INSERT that is delivered: the producer has sent the row's JSON text under the
-- row's key, and the position of the packet is applied and acknowledged.
abbrev pub after_insert :
    JsonLib
    → Answers
    → Bytes
    → RelationMessage
    → List Bytes
    → LibrdKafkaProducer
    → PostgresqlReplicator
    → PostgresqlReplicator
after_insert json answers raw r values p s =
    let row = row_object json r.columns values json.null_value in
    let text = json.write (insert_json json r row answers.milliseconds) in
    let key = (extract_key json row r.columns).1 in
    apply_lsn answers (record (received_state raw s) {
      kafka_producer = some (send_message key text answers.produce p).0;
    })

-- Where a producer is set, a WAL packet with the INSERT that the server wrote for a cached
-- relation, with no more values than the relation has columns, is turned into one send of the row
-- with the values that the server wrote; the position is applied and acknowledged whatever Kafka
-- answers.
pub insert_delivered :
    (host : Host) (json : JsonLib) (answers : Answers) (prefix : Bytes) (id : ℕ) (fs : List Field)
    (r : RelationMessage) (p : LibrdKafkaProducer) (s : PostgresqlReplicator)
    → IsPrefixOf24 prefix
    → get_cached_relation id s.relations ≡ some r
    → s.kafka_producer ≡ some p
    → IsU32 id
    → IsTuple fs
    → length fs ≤ length r.columns
    → length (encode_row id b'N' fs) < 2 ^ 64
    → let raw = wal_packet prefix (b'I' ∷ encode_row id b'N' fs) in
      parse_packet host json answers raw s ≡ ok (after_insert json answers raw r (map shown fs) p s)
unfolding parse_message byte_at parse_switch catch_parse catch_packet handle_message handle_insert
    insert_row send_row send_json
insert_delivered host json answers prefix id fs r p s k cached producer hid tuple size fits =
    let row = b'I' ∷ encode_row id b'N' fs in
    let filled : fill_row json r.columns (map shown fs) json.null_value
        ≡ ok (row_object json r.columns (map shown fs) json.null_value) =
      fill_row_fits json r.columns (map shown fs) json.null_value
        (omega (arith, length-map shown fs)) in
    parse_packet-wal_packet host json answers prefix row s k
    ∙ rw (parse_insert-encode_row s.relations id b'N' fs hid tuple fits, cached, producer, filled)
