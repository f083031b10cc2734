-- ===== src/Pipeline.antt =====
-- The producer, Kafka and the consumer in a row: from a packet of the replication stream to the SQL
-- of the other database. Kafka hands on each message with its key.
pub mod Rows
pub mod Events
pub mod Sent
pub mod Written
pub mod Stream
pub mod Changes
pub mod Updates
use kafka_replication.Base.{
  ℕ, ◌+◌, ◌^◌, ◌<◌, ◌≡◌, refl, subst, inl, true, some, List, [], ◌∷◌, ◌++◌, map, arith, Bytes,
  length, All, ok, fault,
}
use mathlib.Core.List.{Permᴰ}
use kafka_replication.Base.Word.{IsU32}
use kafka_replication.Tuple.Encoding.{Field, shown, IsTuple}
use kafka_replication.Message.{RelationMessage}
use kafka_replication.Message.Cache.{get_cached_relation}
use kafka_replication.Message.Parse.{Host}
use kafka_replication.Message.Parse.Encoding.{encode_row}
use kafka_replication.Json.{JsonLib, JsonLaws, string_type}
use kafka_replication.Json.Rows.{extract_key}
use kafka_replication.Json.Members.{Distinct, cells, row_object, row_object-cells}
use kafka_replication.Producer.{
  LibrdKafkaProducer, KafkaMessage, no_error, message_key, send_message,
}
use kafka_replication.Replicator.{PostgresqlReplicator, Answers, send_standby_status_update}
use kafka_replication.Replicator.Handlers.{insert_json}
use kafka_replication.Replicator.Packets.{parse_packet, apply_lsn}
use kafka_replication.Replicator.Delivery.{wal_packet, IsPrefixOf24, after_insert, insert_delivered}
use kafka_replication.Consumer.{
  JsonReader, ReaderLaws, ConsumerMessage, Consumed, message, LibRdkafkaConsumer, count_received,
  start_consuming,
}
use kafka_replication.Consumer.Callback.{replication_callbacks}
use kafka_replication.Consumer.Changes.{consume_insert}
use kafka_replication.Writer.{JsonPrinter, Server, DatabaseWriter}
use kafka_replication.Writer.Rows.{handler_incoming_data}
use kafka_replication.Writer.Statements.{IsTextMember, names}
use kafka_replication.Writer.Inserted.{handler_insert_undefined}

-- What is sent about an inserted row.
abbrev pub insert_message :
    (json : JsonLib) → Bytes → RelationMessage → json.Value → ℕ → KafkaMessage
insert_message json topic r row now = record {
  topic = topic;
  key = message_key (extract_key json row r.columns).1;
  value = json.write (insert_json json r row now);
}

-- A message as the consumer meets it.
abbrev pub arrives : KafkaMessage → Consumed
arrives m = message m.value m.key

pub All-Permᴰ {ℓ κ} :
    {A : Type ℓ} (P : A → Type κ) {xs ys : List A} → Permᴰ xs ys → All P xs → All P ys
All-Permᴰ P Permᴰ.nil h = h
All-Permᴰ P (Permᴰ.cons e perm) (h, hs) = (subst P e h, All-Permᴰ P perm hs)
All-Permᴰ P (Permᴰ.swap e e') (h, (h', hs)) = (subst P e' h', (subst P e h, hs))
All-Permᴰ P (Permᴰ.trans perm perm') h = All-Permᴰ P perm' (All-Permᴰ P perm h)

module _ (json : JsonLib) (reader : JsonReader json) (printer : JsonPrinter json)
    (server : Server) where
  open json use {Value, get, of_string, type}

  pub texts_lem :
      (laws : ReaderLaws json reader) (row : Value) (ms : List (Bytes × Bytes))
      → ((s : Bytes) → type (of_string s) ≡ string_type)
      → All (λ m. get row m.0 ≡ of_string m.1) ms
      → All (IsTextMember json reader printer server row) ms
  texts_lem laws row [] strings h = tt
  texts_lem laws row (m ∷ ms) strings (h, hs) = (
    record { string = rw h (strings m.1); text = rw h (laws.as_string-of_string m.1) },
    texts_lem laws row ms strings hs,
  )

pub apply_lsn-kafka_producer :
    (answers : Answers) (s : PostgresqlReplicator)
    → (apply_lsn answers s).kafka_producer ≡ s.kafka_producer
unfolding apply_lsn send_standby_status_update
apply_lsn-kafka_producer answers s = ground arith

-- What is assumed of the collaborators for one message about an inserted row: JsonCpp reads back
-- the text that it has written, a text is a string, and the members of the row are listed in some
-- order.
pub record IsCarried (json : JsonLib) (reader : JsonReader json) (printer : JsonPrinter json)
    (msg row : json.Value) (members listed : List (Bytes × Bytes)) : Type 0 where
  pub read_back : reader.parse (json.write msg) ≡ some msg
  pub strings : (s : Bytes) → json.type (json.of_string s) ≡ string_type
  pub listed_all : Permᴰ members listed
  pub listed_names : printer.member_names row ≡ ok (names listed)

module _ (host : Host) (json : JsonLib) (laws : JsonLaws json) (reader : JsonReader json)
    (reads : ReaderLaws json reader) (printer : JsonPrinter json) (server : Server) where
  open json use {Value, null_value, write, get, of_string}

  -- From end to end for an INSERT: where a producer is up and Kafka takes the message, the packet with
  -- the INSERT that the server wrote for a cached relation, with a value for every column, appends
  -- one message to what has been produced; a consumer that receives this message builds one element
  -- of the queue; and the writer runs into undefined behaviour on that element, whatever the values
  -- and whatever the database answers, where JsonCpp reads back what it wrote and lists the members
  -- of the row in some order, one at least.
  pub insert_undefined :
      (answers : Answers) (prefix : Bytes) (id : ℕ) (fs : List Field) (r : RelationMessage)
      (p : LibrdKafkaProducer) (s : PostgresqlReplicator) (c : LibRdkafkaConsumer)
      (m : Bytes × Bytes) (listed : List (Bytes × Bytes)) (w : DatabaseWriter)
      → IsPrefixOf24 prefix
      → get_cached_relation id s.relations ≡ some r
      → s.kafka_producer ≡ some p
      → p.created ≡ true
      → answers.produce ≡ no_error
      → IsU32 id
      → IsTuple fs
      → length fs ≡ length r.columns
      → Distinct r.columns
      → length (encode_row id b'N' fs) < 2 ^ 64
      → let row = row_object json r.columns (map shown fs) null_value in
        let msg = insert_json json r row answers.milliseconds in
        let sent = insert_message json p.topic_name r row answers.milliseconds in
        IsCarried json reader printer msg row (cells r.columns (map shown fs)) (m ∷ listed)
        → (t : PostgresqlReplicator) × (q : LibrdKafkaProducer) × (e : ConsumerMessage Value)
          × (parse_packet host json answers (wal_packet prefix (b'I' ∷ encode_row id b'N' fs)) s
              ≡ ok t)
          × (t.kafka_producer ≡ some q)
          × (q.produced ≡ p.produced ++ sent ∷ [])
          × (start_consuming json reader (replication_callbacks json reader) (arrives sent) c []
              ≡ ok (record c { stats = count_received (write msg) c.stats }, e ∷ []))
          × (handler_incoming_data json reader printer server e w ≡ fault)
  unfolding send_message
  insert_undefined answers prefix id fs r p s c m listed w k cached producer made taken hid tuple
        size distinct fits carried =
      let row = row_object json r.columns (map shown fs) null_value in
      let packet = wal_packet prefix (b'I' ∷ encode_row id b'N' fs) in
      let msg = insert_json json r row answers.milliseconds in
      let (text, _) = texts_lem json reader printer server reads row (m ∷ listed) carried.strings (
        All-Permᴰ (λ n. get row n.0 ≡ of_string n.1) carried.listed_all
          (row_object-cells json laws r.columns (map shown fs) null_value distinct
            (inl laws.type-null_value))) in
      (
        after_insert json answers packet r (map shown fs) p s,
        (send_message (extract_key json row r.columns).1 (write msg) answers.produce p).0,
        _,
        insert_delivered host json answers prefix id fs r p s k cached producer hid tuple
            (omega (arith, size)) fits,
        apply_lsn-kafka_producer answers _,
        rw (made, taken),
        consume_insert json laws reader reads r row answers.milliseconds (write msg) _ c []
            carried.read_back,
        handler_insert_undefined json reader printer server _ m (names listed) w refl
            carried.listed_names text,
      )
