-- ===== src/Consumer/Changes.antt =====
-- consumer_bo: from the message that the producer writes about a row to the element of the queue.
use kafka_replication.Base.{
  ℕ, ◌≡◌, refl, ◌∙◌, inl, true, false, Option, some, List, [], ◌∷◌, ◌++◌, Bytes, codes, bytes_eq,
  ok,
}
use kafka_replication.Message.{RelationMessage, get_relation_namespace}
use kafka_replication.Json.{JsonLib, JsonLaws, TakesMembers}
use kafka_replication.Json.Rows.{extract_key}
use kafka_replication.Json.Objects.{
  assign_all, assign_all-TakesMembers, get-assign_all, is_member-assign_all,
}
use kafka_replication.Replicator.Handlers.{insert_json, header}
use kafka_replication.Replicator.Changes.{change_members}
use kafka_replication.Consumer.{
  JsonReader, ReaderLaws, ConsumerMessage, message, LibRdkafkaConsumer, count_received,
  call_message, start_consuming,
}
use kafka_replication.Consumer.Callback.{
  text_member, with_rows, consumer_message, save_into_queue, on_message, replication_callbacks,
}

module _ (json : JsonLib) (laws : JsonLaws json) (reader : JsonReader json)
    (reads : ReaderLaws json reader) where
  open json use {Value, null_value, of_string, get, is_member, type}

  -- An object with a text under each of the names that every message has.
  record IsMessage (v : Value) (op table primary : Bytes) : Type 0 where
    pub takes : TakesMembers (type v)
    pub op_there : is_member v (codes "op") ≡ true
    pub table_there : is_member v (codes "table") ≡ true
    pub primary_there : is_member v (codes "primary") ≡ true
    pub op_text : get v (codes "op") ≡ of_string op
    pub table_text : get v (codes "table") ≡ of_string table
    pub primary_text : get v (codes "primary") ≡ of_string primary

  text_member-of_string :
      (v : Value) (k s : Bytes)
      → TakesMembers (type v)
      → is_member v k ≡ true
      → get v k ≡ of_string s
      → text_member json reader v k ≡ ok s
  unfolding text_member
  text_member-of_string v k s h e e' =
      rw (reads.get_default_lem v k [] h, e, e', reads.as_string-of_string s)

  abbrev message_of : Bytes → Bytes → RelationMessage → Value → ℕ → Value
  message_of op rows r row now = assign_all json null_value (change_members json op rows r row now)

  message_of-IsMessage :
      (op rows : Bytes) (r : RelationMessage) (row : Value) (now : ℕ)
      → bytes_eq rows (codes "op") ≡ false
      → bytes_eq rows (codes "table") ≡ false
      → IsMessage
          (message_of op rows r row now)
          op
          r.relation_name
          (extract_key json row r.columns).0
  unfolding bytes_eq
  message_of-IsMessage op rows r row now e e' =
      let ms = change_members json op rows r row now in
      let read =
        λ (j : Bytes). get-assign_all json laws null_value ms j (inl laws.type-null_value) in
      let there =
        λ (j : Bytes). is_member-assign_all json laws null_value ms j (inl laws.type-null_value) in
      record {
        takes = assign_all-TakesMembers json laws null_value ms (inl laws.type-null_value);
        op_there = there (codes "op") ∙ rw e;
        table_there = there (codes "table") ∙ rw e';
        primary_there = there (codes "primary");
        op_text = read (codes "op") ∙ rw e;
        table_text = read (codes "table") ∙ rw e';
        primary_text = read (codes "primary");
      }

  abbrev element : Bytes → Bytes → Bytes → ConsumerMessage Value
  element primary op table = record {
    primary_key = primary;
    op = op;
    table = table;
    row = null_value;
    before = null_value;
    after = null_value;
  }

  -- A message that is read back is counted, and what is pushed has its texts and its rows.
  consume_message :
      (v : Value) (op table primary payload : Bytes) (key : Option Bytes) (c : LibRdkafkaConsumer)
      (pending : List (ConsumerMessage Value)) (m : ConsumerMessage Value)
      → IsMessage v op table primary
      → reader.parse payload ≡ some v
      → with_rows json reader v (element primary op table) ≡ ok m
      → start_consuming json reader
          (replication_callbacks json reader)
          (message payload key)
          c
          pending
        ≡ ok (record c { stats = count_received payload c.stats }, pending ++ m ∷ [])
  unfolding start_consuming call_message on_message save_into_queue consumer_message
  consume_message v op table primary payload key c pending m k e e' = rw (
    e,
    reads.member_lem v (codes "op") k.takes,
    k.op_text,
    reads.as_string-of_string op,
    reads.member_lem v (codes "table") k.takes,
    k.table_text,
    reads.as_string-of_string table,
    reads.has_member_lem v (codes "data") k.takes,
    reads.has_member_lem v (codes "primary") k.takes,
    text_member-of_string v (codes "primary") primary k.takes k.primary_there k.primary_text,
    text_member-of_string v (codes "op") op k.takes k.op_there k.op_text,
    text_member-of_string v (codes "table") table k.takes k.table_there k.table_text,
    e',
  )

  -- The message that the producer writes about an inserted row, once it has been read back from a
  -- Kafka message, is handed to the queue as an INSERT of that row into that table, with the name
  -- of the key column, and is counted.
  pub consume_insert :
      (r : RelationMessage) (row : Value) (now : ℕ) (payload : Bytes) (key : Option Bytes)
      (c : LibRdkafkaConsumer) (pending : List (ConsumerMessage Value))
      → reader.parse payload ≡ some (insert_json json r row now)
      → start_consuming json reader
          (replication_callbacks json reader)
          (message payload key)
          c
          pending
        ≡ ok (
          record c { stats = count_received payload c.stats },
          pending
              ++ record (element
                  (extract_key json row r.columns).0
                  (codes "INSERT")
                  r.relation_name) { row = row }
                ∷ [],
        )
  unfolding with_rows bytes_eq insert_json header get_relation_namespace
  consume_insert r row now payload key c pending e =
      let v = message_of (codes "INSERT") (codes "data") r row now in
      let k : IsMessage v (codes "INSERT") r.relation_name (extract_key json row r.columns).0 =
        message_of-IsMessage (codes "INSERT") (codes "data") r row now refl refl in
      let read = λ (j : Bytes).
        get-assign_all json laws null_value
          (change_members json (codes "INSERT") (codes "data") r row now) j
          (inl laws.type-null_value) in
      consume_message v (codes "INSERT") r.relation_name (extract_key json row r.columns).0 payload
        key c pending _ k e (rw (reads.member_lem v (codes "data") k.takes, read (codes "data")))

  -- A deleted row is handed to the queue as the row before.
  pub consume_delete :
      (r : RelationMessage) (row : Value) (now : ℕ) (payload : Bytes) (key : Option Bytes)
      (c : LibRdkafkaConsumer) (pending : List (ConsumerMessage Value))
      → reader.parse payload ≡ some (message_of (codes "DELETE") (codes "before") r row now)
      → start_consuming json reader
          (replication_callbacks json reader)
          (message payload key)
          c
          pending
        ≡ ok (
          record c { stats = count_received payload c.stats },
          pending
              ++ record (element
                  (extract_key json row r.columns).0
                  (codes "DELETE")
                  r.relation_name) { before = row }
                ∷ [],
        )
  unfolding with_rows bytes_eq
  consume_delete r row now payload key c pending e =
      let v = message_of (codes "DELETE") (codes "before") r row now in
      let k : IsMessage v (codes "DELETE") r.relation_name (extract_key json row r.columns).0 =
        message_of-IsMessage (codes "DELETE") (codes "before") r row now refl refl in
      let read = λ (j : Bytes).
        get-assign_all json laws null_value
          (change_members json (codes "DELETE") (codes "before") r row now) j
          (inl laws.type-null_value) in
      consume_message v (codes "DELETE") r.relation_name (extract_key json row r.columns).0 payload
        key c pending _ k e
        (rw (reads.member_lem v (codes "before") k.takes, read (codes "before")))

  -- A row that is updated, with no old tuple, is handed on as the row after; the row before is what
  -- an empty object has under this name.
  pub consume_update :
      (r : RelationMessage) (row : Value) (now : ℕ) (payload : Bytes) (key : Option Bytes)
      (c : LibRdkafkaConsumer) (pending : List (ConsumerMessage Value))
      → reader.parse payload ≡ some (message_of (codes "UPDATE") (codes "after") r row now)
      → start_consuming json reader
          (replication_callbacks json reader)
          (message payload key)
          c
          pending
        ≡ ok (
          record c { stats = count_received payload c.stats },
          pending
              ++ record (element
                  (extract_key json row r.columns).0
                  (codes "UPDATE")
                  r.relation_name) { before = get null_value (codes "before"); after = row }
                ∷ [],
        )
  unfolding with_rows bytes_eq
  consume_update r row now payload key c pending e =
      let v = message_of (codes "UPDATE") (codes "after") r row now in
      let k : IsMessage v (codes "UPDATE") r.relation_name (extract_key json row r.columns).0 =
        message_of-IsMessage (codes "UPDATE") (codes "after") r row now refl refl in
      let read = λ (j : Bytes).
        get-assign_all json laws null_value
          (change_members json (codes "UPDATE") (codes "after") r row now) j
          (inl laws.type-null_value) in
      consume_message v (codes "UPDATE") r.relation_name (extract_key json row r.columns).0 payload
        key c pending _ k e
        (rw (
          reads.member_lem v (codes "before") k.takes,
          read (codes "before"),
          reads.member_lem v (codes "after") k.takes,
          read (codes "after"),
        ))
