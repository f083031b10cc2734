-- ===== src/Pipeline/Updates.antt =====
-- The rows that are updated with no old tuple, as the server sends them for a table with the default
-- replica identity whose key has not changed.
use kafka_replication.Base.{
  ℕ, ◌*◌, ◌^◌, ◌<◌, ◌≡◌, refl, ap, ◌∙◌, inl, true, some, List, [], ◌∷◌, ◌++◌, map, arith, Bytes,
  codes, length, bytes_eq, ok, fault,
}
use kafka_replication.Base.Word.{IsU32}
use kafka_replication.Tuple.Encoding.{Field, shown, IsTuple}
use kafka_replication.Message.{RelationMessage}
use kafka_replication.Message.Cache.{get_cached_relation}
use kafka_replication.Message.Parse.{Host}
use kafka_replication.Message.Parse.Encoding.{encode_row}
use kafka_replication.Json.{JsonLib, JsonLaws}
use kafka_replication.Json.Rows.{extract_key}
use kafka_replication.Json.Objects.{assign_all}
use kafka_replication.Json.Members.{cells, row_object, row_object-cells}
use kafka_replication.Producer.{LibrdKafkaProducer, no_error, send_message}
use kafka_replication.Replicator.{PostgresqlReplicator, Answers}
use kafka_replication.Replicator.Packets.{parse_packet}
use kafka_replication.Replicator.Delivery.{wal_packet, IsPrefixOf24}
use kafka_replication.Replicator.Changes.{change_members, after_change, update_delivered}
use kafka_replication.Consumer.{
  JsonReader, ReaderLaws, ConsumerMessage, LibRdkafkaConsumer, count_received, start_consuming,
}
use kafka_replication.Consumer.Callback.{replication_callbacks}
use kafka_replication.Consumer.Changes.{consume_update}
use kafka_replication.Writer.{JsonPrinter, Server, DatabaseWriter}
use kafka_replication.Writer.Rows.{handler_incoming_data}
use kafka_replication.Writer.Statements.{IsTextMember, names, update_row_undefined}
use kafka_replication.Pipeline.{arrives, apply_lsn-kafka_producer, All-Permᴰ, IsCarried, texts_lem}
use kafka_replication.Pipeline.Changes.{IsKeyed, change_message, key_text_lem}

-- What JsonCpp says of the null value: no member, no text, no names.
pub record NullLaws (json : JsonLib) (reader : JsonReader json) (printer : JsonPrinter json)
    : Type 0 where
  pub get-null_value : (k : Bytes) → json.get json.null_value k ≡ json.null_value
  pub as_string-null_value : reader.as_string json.null_value ≡ ok []
  pub member_names-null_value : printer.member_names json.null_value ≡ ok []

module _ (json : JsonLib) (laws : JsonLaws json) (reader : JsonReader json)
    (reads : ReaderLaws json reader) (printer : JsonPrinter json)
    (nulls : NullLaws json reader printer) (server : Server) where
  open json use {Value, null_value, get}

  -- A null row before gives the empty text for the key; then the first text is undefined.
  handler_update :
      (m : ConsumerMessage Value) (b : ℕ) (bs : Bytes) (n : Bytes × Bytes)
      (listed : List (Bytes × Bytes)) (w : DatabaseWriter)
      → m.op ≡ codes "UPDATE"
      → m.primary_key ≡ b ∷ bs
      → m.before ≡ null_value
      → printer.member_names m.after ≡ ok (names (n ∷ listed))
      → IsTextMember json reader printer server m.after n
      → handler_incoming_data json reader printer server m w ≡ fault
  unfolding handler_incoming_data bytes_eq
  handler_update m b bs n listed w op primary before e text =
      let member : reader.member null_value (b ∷ bs) ≡ ok null_value =
        reads.member_lem null_value (b ∷ bs) (inl laws.type-null_value)
        ∙ ap ok (nulls.get-null_value (b ∷ bs)) in
      rw (op, primary, before)
        (update_row_undefined json reader printer server m.table null_value m.after b bs []
          null_value [] n (names listed) w nulls.member_names-null_value member
          nulls.as_string-null_value e text)

module _ (host : Host) (json : JsonLib) (laws : JsonLaws json) (reader : JsonReader json)
    (reads : ReaderLaws json reader) (printer : JsonPrinter json)
    (nulls : NullLaws json reader printer) (server : Server) where
  open json use {Value, null_value, write, get, of_string}

  -- From end to end for an UPDATE with no old tuple, below 79 * 256 values: where a producer is up and
  -- Kafka takes the message, the packet that the server wrote for a cached relation with a key, with a
  -- value for every column, appends one message to what has been produced; a consumer that receives
  -- it builds one element of the queue; and the writer runs into undefined behaviour on that element,
  -- where JsonCpp reads back what it wrote and lists the members of the row in some order, one at
  -- least.
  pub update_undefined :
      (answers : Answers) (prefix : Bytes) (id mark : ℕ) (fs : List Field) (r : RelationMessage)
      (b : ℕ) (bs text : Bytes) (n : Bytes × Bytes) (listed : List (Bytes × Bytes))
      (p : LibrdKafkaProducer) (s : PostgresqlReplicator) (c : LibRdkafkaConsumer)
      (w : DatabaseWriter)
      → IsPrefixOf24 prefix
      → get_cached_relation id s.relations ≡ some r
      → s.kafka_producer ≡ some p
      → p.created ≡ true
      → answers.produce ≡ no_error
      → IsU32 id
      → IsTuple fs
      → length fs < 79 * 2 ^ 8
      → length (encode_row id mark fs) < 2 ^ 64
      → IsKeyed r fs b bs text
      → let row = row_object json r.columns (map shown fs) null_value in
        let sent =
          change_message json p.topic_name
            (codes "UPDATE")
            (codes "after")
            r
            row
            answers.milliseconds in
        IsCarried json reader printer
          (assign_all json null_value
            (change_members json (codes "UPDATE") (codes "after") r row answers.milliseconds))
          row
          (cells r.columns (map shown fs))
          (n ∷ listed)
        → (t : PostgresqlReplicator) × (q : LibrdKafkaProducer) × (m : ConsumerMessage Value)
          × (parse_packet host json answers (wal_packet prefix (b'U' ∷ encode_row id mark fs)) s
              ≡ ok t)
          × (t.kafka_producer ≡ some q)
          × (q.produced ≡ p.produced ++ sent ∷ [])
          × (start_consuming json reader (replication_callbacks json reader) (arrives sent) c []
              ≡ ok (record c { stats = count_received sent.value c.stats }, m ∷ []))
          × (handler_incoming_data json reader printer server m w ≡ fault)
  unfolding send_message
  update_undefined answers prefix id mark fs r b bs text n listed p s c w k cached producer made
        taken hid tuple few fits keyed carried =
      let row = row_object json r.columns (map shown fs) null_value in
      let packet = wal_packet prefix (b'U' ∷ encode_row id mark fs) in
      let sent =
        change_message json p.topic_name (codes "UPDATE") (codes "after") r row
          answers.milliseconds in
      let (_, _, key) = key_text_lem json laws reader reads r fs b bs text keyed in
      let (text_member, _) =
        texts_lem json reader printer server reads row (n ∷ listed) carried.strings (
          All-Permᴰ (λ m. get row m.0 ≡ of_string m.1) carried.listed_all
            (row_object-cells json laws r.columns (map shown fs) null_value keyed.distinct
              (inl laws.type-null_value))) in
      (
        after_change json answers packet (codes "UPDATE") (codes "after") r (map shown fs) p s,
        (send_message (extract_key json row r.columns).1 sent.value answers.produce p).0,
        _,
        update_delivered host json answers prefix id mark fs r p s k cached producer hid tuple
            (omega (arith, keyed.size)) fits few,
        apply_lsn-kafka_producer answers _,
        rw (made, taken),
        consume_update json laws reader reads r row answers.milliseconds sent.value _ c []
            carried.read_back,
        handler_update json laws reader reads printer nulls server _ b bs n listed w refl key
            (nulls.get-null_value (codes "before")) carried.listed_names text_member,
      )
