-- ===== src/Pipeline/Rows.antt =====
-- The rows that a stream inserts or deletes: what the server writes for each, and what is sent
-- about it.
use kafka_replication.Base.{
  ℕ, ◌^◌, ◌<◌, ◌≡◌, refl, ap, ◌∙◌, true, some, List, [], ◌∷◌, ◌++◌, map, append-nil, append_assoc,
  arith, Bytes, codes, length, All, ok,
}
use kafka_replication.Base.Word.{IsU32}
use kafka_replication.Tuple.Encoding.{Field, shown, IsTuple}
use kafka_replication.Message.{RelationMessage}
use kafka_replication.Message.Cache.{RelationCache, get_cached_relation}
use kafka_replication.Message.Parse.{Host}
use kafka_replication.Message.Parse.Encoding.{encode_row}
use kafka_replication.Json.{JsonLib}
use kafka_replication.Json.Rows.{extract_key}
use kafka_replication.Json.Members.{Distinct, row_object}
use kafka_replication.Producer.{
  ErrorCode, failed, message_key, LibrdKafkaProducer, KafkaMessage, no_error, send_message,
}
use kafka_replication.Replicator.{PostgresqlReplicator, Answers, send_standby_status_update}
use kafka_replication.Replicator.Handlers.{insert_json}
use kafka_replication.Replicator.Packets.{
  apply_lsn, CopyData, copy_row, process_replication_message, read_step,
}
use kafka_replication.Replicator.Delivery.{
  IsPrefixOf24, wal_packet, insert_delivered, received_state,
}
use kafka_replication.Consumer.{ConsumerMessage}
use kafka_replication.Json.Objects.{assign_all}
use kafka_replication.Replicator.Changes.{change_members, delete_delivered}
use kafka_replication.Pipeline.Changes.{IsKeyed}
use kafka_replication.Pipeline.{apply_lsn-kafka_producer}

-- A row: the head of its packet, its relation and values, what the outside answers while it is
-- handled, and the order in which JsonCpp lists its members.
pub record Row : Type 0 where
  pub prefix : Bytes
  pub id : ℕ
  pub relation : RelationMessage
  pub fields : List Field
  pub answers : Answers
  pub listed : List (Bytes × Bytes)

-- A row that is inserted, or one that is deleted: with the mark before its values, and the name and
-- the value of its key.
pub data Change : Type 0 where
  inserted : Row → Change
  deleted : Row → ℕ → ℕ → Bytes → Bytes → Change

abbrev pub changed_row : Change → Row
changed_row (inserted row) = row
changed_row (deleted row mark b bs text) = row

abbrev pub type_byte : Change → ℕ
type_byte (inserted row) = b'I'
type_byte (deleted row mark b bs text) = b'D'

abbrev pub tuple_mark : Change → ℕ
tuple_mark (inserted row) = b'N'
tuple_mark (deleted row mark b bs text) = mark

abbrev pub change_bytes : Change → Bytes
change_bytes c = type_byte c ∷ encode_row (changed_row c).id (tuple_mark c) (changed_row c).fields

-- What the connection yields for it.
abbrev pub copied : Change → CopyData × Answers
copied c = (copy_row b'w' ((changed_row c).prefix ++ change_bytes c), (changed_row c).answers)

-- A deleted row has the key.
abbrev pub HasKey : Change → Type 0
HasKey (inserted row) = Unit {0}
HasKey (deleted row mark b bs text) = IsKeyed row.relation row.fields b bs text

-- The columns' names differ, and a deleted row has its key.
abbrev pub IsFit : Change → Type 0
IsFit c = Distinct (changed_row c).relation.columns × HasKey c

-- The server has written the row of a relation that is cached.
pub record IsWritten (relations : RelationCache) (c : Change) : Type 0 where
  pub prefix : IsPrefixOf24 (changed_row c).prefix
  pub cached : get_cached_relation (changed_row c).id relations ≡ some (changed_row c).relation
  pub id : IsU32 (changed_row c).id
  pub tuple : IsTuple (changed_row c).fields
  pub size : length (changed_row c).fields ≡ length (changed_row c).relation.columns
  pub fit : IsFit c
  pub fits : length (encode_row (changed_row c).id (tuple_mark c) (changed_row c).fields) < 2 ^ 64

-- Kafka takes the row's message.
abbrev pub IsTaken : Change → Type 0
IsTaken c = (changed_row c).answers.produce ≡ no_error

abbrev keep : ErrorCode → Change → List Change → List Change
keep no_error c cs = c ∷ cs
keep (failed code) c cs = cs

-- The changes whose messages Kafka takes.
abbrev pub accepted : List Change → List Change
accepted [] = []
accepted (c ∷ cs) = keep (changed_row c).answers.produce c (accepted cs)

pub accepted_all : (cs : List Change) → All IsTaken cs → accepted cs ≡ cs
accepted_all [] h = refl
accepted_all (c ∷ cs) (h, hs) =
    ap (λ code. keep code c (accepted cs)) h ∙ ap (λ rest. c ∷ rest) (accepted_all cs hs)

module _ (json : JsonLib) where
  open json use {Value, null_value, write}

  abbrev pub object_of : Row → Value
  object_of row = row_object json row.relation.columns (map shown row.fields) null_value

  abbrev pub json_of : Change → Value
  json_of (inserted row) = insert_json json row.relation (object_of row) row.answers.milliseconds
  json_of (deleted row mark b bs text) = assign_all json null_value (
      change_members json (codes "DELETE") (codes "before") row.relation (object_of row)
        row.answers.milliseconds)

  abbrev pub key_pair : Row → Bytes × Bytes
  key_pair row = extract_key json (object_of row) row.relation.columns

  abbrev pub sent_of : Bytes → Change → KafkaMessage
  sent_of topic c = record {
    topic = topic;
    key = message_key (key_pair (changed_row c)).1;
    value = write (json_of c);
  }

  abbrev pub element_of : Change → ConsumerMessage Value
  element_of (inserted row) = record {
    primary_key = (key_pair row).0;
    op = codes "INSERT";
    table = row.relation.relation_name;
    row = object_of row;
    before = null_value;
    after = null_value;
  }
  element_of (deleted row mark b bs text) = record {
    primary_key = (key_pair row).0;
    op = codes "DELETE";
    table = row.relation.relation_name;
    row = null_value;
    before = object_of row;
    after = null_value;
  }

pub apply_lsn_lem :
    (answers : Answers) (s : PostgresqlReplicator)
    → ((apply_lsn answers s).relations ≡ s.relations)
      × ((apply_lsn answers s).replicating ≡ s.replicating)
unfolding apply_lsn send_standby_status_update
apply_lsn_lem answers s = ground arith

module _ (host : Host) (json : JsonLib) where
  pub next_producer : LibrdKafkaProducer → Change → LibrdKafkaProducer
  next_producer p c =
      (send_message (key_pair json (changed_row c)).1 (json.write (json_of json c))
        (changed_row c).answers.produce p).0

  pub after_row : LibrdKafkaProducer → Change → PostgresqlReplicator → PostgresqlReplicator
  after_row p c s =
      apply_lsn (changed_row c).answers
        (record (received_state (wal_packet (changed_row c).prefix (change_bytes c)) s) {
          kafka_producer = some (next_producer p c);
        })

  send_message_lem :
      (key value : Bytes) (code : ErrorCode) (p : LibrdKafkaProducer) (c : Change)
      → p.created ≡ true
      → record { topic = p.topic_name; key = message_key key; value = value }
        ≡ sent_of json p.topic_name c
      → let q = (send_message key value code p).0 in
        (q.created ≡ true)
        × (q.topic_name ≡ p.topic_name)
        × (q.produced ≡ p.produced ++ map (sent_of json p.topic_name) (keep code c []))
  unfolding send_message
  send_message_lem key value no_error p c made same = rw made (refl, refl, rw same)
  send_message_lem key value (failed code) p c made same = rw made (refl, refl, rw append-nil)

  pub next_producer_lem :
      (p : LibrdKafkaProducer) (c : Change)
      → p.created ≡ true
      → ((next_producer p c).created ≡ true)
        × ((next_producer p c).topic_name ≡ p.topic_name)
        × ((next_producer p c).produced
            ≡ p.produced
              ++ map (sent_of json p.topic_name) (keep (changed_row c).answers.produce c []))
  unfolding next_producer
  next_producer_lem p c made = send_message_lem _ _ (changed_row c).answers.produce p c made refl

  pub keep_append :
      (code : ErrorCode) (c : Change) (cs : List Change) (before : List KafkaMessage)
      (topic : Bytes)
      → (before ++ map (sent_of json topic) (keep code c [])) ++ map (sent_of json topic) cs
        ≡ before ++ map (sent_of json topic) (keep code c cs)
  keep_append no_error c cs before topic = rw append_assoc
  keep_append (failed code) c cs before topic = rw append-nil

  read_step_change :
      (p : LibrdKafkaProducer) (c : Change) (s : PostgresqlReplicator)
      → IsWritten s.relations c
      → s.kafka_producer ≡ some p
      → read_step host json (copied c).0 (copied c).1 s ≡ ok (after_row p c s)
  unfolding read_step process_replication_message after_row next_producer
  read_step_change p (inserted row) s k producer =
      insert_delivered host json row.answers row.prefix row.id row.fields row.relation p s k.prefix
        k.cached producer k.id k.tuple (omega (arith, k.size)) k.fits
  read_step_change p (deleted row mark b bs text) s k producer =
      delete_delivered host json row.answers row.prefix row.id mark row.fields row.relation p s
        k.prefix k.cached producer k.id k.tuple (omega (arith, k.size)) k.fits

  pub read_step_row :
      (p : LibrdKafkaProducer) (c : Change) (s : PostgresqlReplicator)
      → IsWritten s.relations c
      → s.kafka_producer ≡ some p
      → (read_step host json (copied c).0 (copied c).1 s ≡ ok (after_row p c s))
        × ((after_row p c s).kafka_producer ≡ some (next_producer p c))
        × ((after_row p c s).relations ≡ s.relations)
        × ((after_row p c s).replicating ≡ s.replicating)
  unfolding after_row
  read_step_row p c s k producer =
      let (relations, replicating) = apply_lsn_lem (changed_row c).answers _ in
      (
        read_step_change p c s k producer,
        apply_lsn-kafka_producer (changed_row c).answers _,
        relations,
        replicating,
      )
