-- ===== src/Pipeline/Changes.antt =====
-- The rows that are updated or deleted, from the packet to the statement.
use kafka_replication.Base.{
  ℕ, ◌^◌, ◌<◌, ◌≡◌, refl, ap, ◌∙◌, subst, inl, true, some, List, [], ◌∷◌, ◌++◌, map, arith, Bytes,
  codes, length, get_elem?, length-map, bytes_eq, ok,
}
use kafka_replication.Base.Word.{IsU32}
use kafka_replication.Tuple.Encoding.{Field, shown, IsTuple}
use kafka_replication.Message.{Column, RelationMessage}
use kafka_replication.Message.Cache.{get_cached_relation}
use kafka_replication.Message.Parse.{Host}
use kafka_replication.Message.Parse.Encoding.{encode_row}
use kafka_replication.Json.{JsonLib, JsonLaws, TakesMembers}
use kafka_replication.Json.Rows.{extract_key}
use kafka_replication.Json.Objects.{assign_all}
use kafka_replication.Json.Members.{
  Distinct, first_flagged, first_name, chosen_column, name_and_text, row_object, get-row_object,
  extract_key_lem, set-TakesMembers, name_and_text,
}
use kafka_replication.Producer.{
  LibrdKafkaProducer, KafkaMessage, no_error, message_key, send_message,
}
use kafka_replication.Replicator.{PostgresqlReplicator, Answers}
use kafka_replication.Replicator.Packets.{parse_packet}
use kafka_replication.Replicator.Delivery.{wal_packet, IsPrefixOf24}
use kafka_replication.Replicator.Changes.{change_members, after_change, delete_delivered}
use kafka_replication.Consumer.{
  JsonReader, ReaderLaws, ConsumerMessage, LibRdkafkaConsumer, count_received, start_consuming,
}
use kafka_replication.Consumer.Callback.{replication_callbacks}
use kafka_replication.Consumer.Changes.{consume_delete}
use kafka_replication.Writer.{JsonPrinter, Server, DatabaseWriter, exec, quoted_text}
use kafka_replication.Writer.Rows.{
  where_key, key_column, key_value, delete_row, handler_incoming_data,
}
use kafka_replication.Pipeline.{arrives, apply_lsn-kafka_producer}

module _ (json : JsonLib) (laws : JsonLaws json) where
  open json use {Value, null_value, type, set, of_string}

  row_object-TakesMembers :
      (cols : List Column) (xs : List Bytes) (row : Value)
      → TakesMembers (type row)
      → TakesMembers (type (row_object json cols xs row))
  unfolding row_object
  row_object-TakesMembers cols [] row h = h
  row_object-TakesMembers [] (x ∷ xs) row h = h
  row_object-TakesMembers (c ∷ cols) (x ∷ xs) row h =
      row_object-TakesMembers cols xs _ (set-TakesMembers json laws row c.name (of_string x) h)

  -- The key's name is that of the first column that is marked as part of the key.
  key_name :
      (cols : List Column) (xs : List Bytes) (name : Bytes)
      → length xs ≡ length cols
      → first_flagged cols ≡ some name
      → (extract_key json (row_object json cols xs null_value) cols).0 ≡ name
  key_name cols xs name size flagged =
      ap (λ (k : Bytes × Bytes). k.0) (extract_key_lem json laws cols xs size)
      ∙ ap
          (λ marked.
            (name_and_text json laws (row_object json cols xs null_value)
              (chosen_column json laws marked (first_name cols))).0)
          flagged

module _ (json : JsonLib) (reader : JsonReader json) (printer : JsonPrinter json)
    (server : Server) where
  open json use {Value}

  -- A message about a deleted row whose key is a text runs one statement, with the text as it is.
  pub handler_delete :
      (m : ConsumerMessage Value) (b : ℕ) (bs text : Bytes) (keys : List Bytes) (v : Value)
      (w : DatabaseWriter)
      → m.op ≡ codes "DELETE"
      → m.primary_key ≡ b ∷ bs
      → printer.member_names m.before ≡ ok keys
      → reader.member m.before (b ∷ bs) ≡ ok v
      → reader.as_string v ≡ ok text
      → handler_incoming_data json reader printer server m w
        ≡ ok (
            exec server
              (codes "DELETE FROM "
                ++ m.table
                ++ where_key json reader printer server (b ∷ bs) (quoted_text text))
              w)
  unfolding handler_incoming_data delete_row key_column key_value bytes_eq
  handler_delete m b bs text keys v w op primary e e₁ e₂ = rw (op, primary, e, e₁, e₂)

-- The relation has a key: the first column that is marked as part of it, which has a name, and the
-- value that the server wrote for it.
pub record IsKeyed (r : RelationMessage) (fs : List Field) (b : ℕ) (bs text : Bytes) : Type 0 where
  pub place : ℕ
  pub column : Column
  pub there : get_elem? r.columns place ≡ some column
  pub named : column.name ≡ b ∷ bs
  pub value : get_elem? (map shown fs) place ≡ some text
  pub flagged : first_flagged r.columns ≡ some (b ∷ bs)
  pub distinct : Distinct r.columns
  pub size : length fs ≡ length r.columns

-- What is sent about a changed row.
abbrev pub change_message :
    (json : JsonLib) → Bytes → Bytes → Bytes → RelationMessage → json.Value → ℕ → KafkaMessage
change_message json topic op rows r row now = record {
  topic = topic;
  key = message_key (extract_key json row r.columns).1;
  value = json.write (assign_all json json.null_value (change_members json op rows r row now));
}

module _ (json : JsonLib) (laws : JsonLaws json) (reader : JsonReader json)
    (reads : ReaderLaws json reader) where
  open json use {null_value, get, of_string}

  -- The key's value is read back from the row.
  pub key_text_lem :
      (r : RelationMessage) (fs : List Field) (b : ℕ) (bs text : Bytes)
      → IsKeyed r fs b bs text
      → let row = row_object json r.columns (map shown fs) null_value in
        (reader.member row (b ∷ bs) ≡ ok (of_string text))
        × (reader.as_string (of_string text) ≡ ok text)
        × ((extract_key json row r.columns).0 ≡ b ∷ bs)
  key_text_lem r fs b bs text k =
      let row = row_object json r.columns (map shown fs) null_value in
      let size : length (map shown fs) ≡ length r.columns =
        omega (arith, length-map shown fs, k.size) in
      let stored : get row k.column.name ≡ of_string text =
        get-row_object json laws r.columns (map shown fs) null_value k.place k.column text
          k.distinct (inl laws.type-null_value) k.there k.value in
      (
        reads.member_lem row (b ∷ bs) (
              row_object-TakesMembers json laws r.columns (map shown fs) null_value
                (inl laws.type-null_value))
            ∙ ap ok (subst (λ name. get row name ≡ of_string text) k.named stored),
        reads.as_string-of_string text,
        key_name json laws r.columns (map shown fs) (b ∷ bs) size k.flagged,
      )

module _ (host : Host) (json : JsonLib) (laws : JsonLaws json) (reader : JsonReader json)
    (reads : ReaderLaws json reader) (printer : JsonPrinter json) (server : Server) where
  open json use {Value, null_value, write, get, of_string}

  -- From end to end for a DELETE: where a producer is up and Kafka takes the message, the packet
  -- that the server wrote for a relation with a key, with a value for every column, appends one
  -- message to what has been produced; a consumer that receives it builds one element of the queue;
  -- and the writer turns that element into one DELETE of the rows whose key has the value that the
  -- server wrote, put between quotes as it is, not escaped.
  pub delete_replicated :
      (answers : Answers) (prefix : Bytes) (id mark : ℕ) (fs : List Field) (r : RelationMessage)
      (b : ℕ) (bs text : Bytes) (keys : List Bytes) (p : LibrdKafkaProducer)
      (s : PostgresqlReplicator) (c : LibRdkafkaConsumer) (w : DatabaseWriter)
      → IsPrefixOf24 prefix
      → get_cached_relation id s.relations ≡ some r
      → s.kafka_producer ≡ some p
      → p.created ≡ true
      → answers.produce ≡ no_error
      → IsU32 id
      → IsTuple fs
      → length (encode_row id mark fs) < 2 ^ 64
      → IsKeyed r fs b bs text
      → let row = row_object json r.columns (map shown fs) null_value in
        let sent =
          change_message json p.topic_name
            (codes "DELETE")
            (codes "before")
            r
            row
            answers.milliseconds in
        let statement =
          codes "DELETE FROM "
          ++ r.relation_name
          ++ where_key json reader printer server (b ∷ bs) (quoted_text text) in
        reader.parse sent.value
          ≡ some (
              assign_all json null_value
                (change_members json (codes "DELETE") (codes "before") r row answers.milliseconds))
        → printer.member_names row ≡ ok keys
        → (t : PostgresqlReplicator) × (q : LibrdKafkaProducer) × (m : ConsumerMessage Value)
          × (parse_packet host json answers (wal_packet prefix (b'D' ∷ encode_row id mark fs)) s
              ≡ ok t)
          × (t.kafka_producer ≡ some q)
          × (q.produced ≡ p.produced ++ sent ∷ [])
          × (start_consuming json reader (replication_callbacks json reader) (arrives sent) c []
              ≡ ok (record c { stats = count_received sent.value c.stats }, m ∷ []))
          × (handler_incoming_data json reader printer server m w ≡ ok (exec server statement w))
  unfolding send_message
  delete_replicated answers prefix id mark fs r b bs text keys p s c w k cached producer made taken
        hid tuple fits keyed read_back listed =
      let row = row_object json r.columns (map shown fs) null_value in
      let packet = wal_packet prefix (b'D' ∷ encode_row id mark fs) in
      let sent =
        change_message json p.topic_name (codes "DELETE") (codes "before") r row
          answers.milliseconds in
      let (member, text_there, key) = key_text_lem json laws reader reads r fs b bs text keyed in
      (
        after_change json answers packet (codes "DELETE") (codes "before") r (map shown fs) p s,
        (send_message (extract_key json row r.columns).1 sent.value answers.produce p).0,
        _,
        delete_delivered host json answers prefix id mark fs r p s k cached producer hid tuple
            (omega (arith, keyed.size)) fits,
        apply_lsn-kafka_producer answers _,
        rw (made, taken),
        consume_delete json laws reader reads r row answers.milliseconds sent.value _ c []
            read_back,
        handler_delete json reader printer server _ b bs text keys (of_string text) w refl key
            listed member text_there,
      )
