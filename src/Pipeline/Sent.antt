-- ===== src/Pipeline/Sent.antt =====
-- The read loop over a stream as PostgreSQL writes it (producer_azs/postgresql_replicator.cpp,
-- startReadReplicationMessages): which messages go to Kafka, and what is acknowledged.
use kafka_replication.Base.{
  ℕ, ◌≡◌, refl, sym, ap, ◌∙◌, subst, Bool, true, some, List, [], ◌∷◌, ◌++◌, map, append-nil,
  if◌then◌else◌, Bytes, ok, ◌>>=◌,
}
use kafka_replication.Base.Word.{be32}
use kafka_replication.Wire.{byte_at}
use kafka_replication.Message.{BeginMessage, ReplicationMessage, begin, commit, relation}
use kafka_replication.Message.Cache.{RelationCache}
use kafka_replication.Message.Parse.{Host, from_host}
use kafka_replication.Message.Parse.Encoding.{encode_begin, encode_commit, encode_relation}
use kafka_replication.Message.Parse.RoundTrip.{
  parse_begin-encode_begin, parse_commit-encode_commit, parse_relation-encode_relation,
}
use kafka_replication.Parser.{parse_message, parse_switch, catch_parse}
use kafka_replication.Json.{JsonLib}
use kafka_replication.Producer.{LibrdKafkaProducer, KafkaMessage}
use kafka_replication.Replicator.{PostgresqlReplicator, Answers}
use kafka_replication.Replicator.Handlers.{handle_message}
use kafka_replication.Replicator.Packets.{
  apply_lsn, CopyData, process_replication_message, read_step, read_loop, catch_packet,
}
use kafka_replication.Replicator.Delivery.{
  IsPrefixOf24, wal_packet, received_state, parse_packet-wal_packet,
}
use kafka_replication.Replicator.Acknowledge.{IsAt}
use kafka_replication.Replicator.Refinement.{acknowledge, read_loop-acknowledge}
use kafka_replication.Pipeline.{apply_lsn-kafka_producer}
use kafka_replication.Pipeline.Rows.{
  Change, changed_row, accepted, sent_of, apply_lsn_lem, after_row, next_producer,
  next_producer_lem, keep_append, read_step_row,
}
use kafka_replication.Pipeline.Events.{
  Event, begins, commits, announces, changes, packet_of, yields, known_after, change_of, changes_of,
  IsEvent, IsStream,
}

module _ (host : Host) (json : JsonLib) where
  -- What the handling of one event has done to the producer and to the state.
  record Handled (p : LibrdKafkaProducer) (e : Event) (s : PostgresqlReplicator) : Type 0 where
    state : PostgresqlReplicator
    producer : LibrdKafkaProducer
    stepped : read_step host json (yields e).0 (yields e).1 s ≡ ok state
    there : state.kafka_producer ≡ some producer
    created : producer.created ≡ true
    topic : producer.topic_name ≡ p.topic_name
    produced :
        producer.produced ≡ p.produced ++ map (sent_of json p.topic_name) (accepted (change_of e))
    relations : state.relations ≡ known_after e s.relations
    replicating : state.replicating ≡ s.replicating

  -- A message that the switch of handleMessage passes over.
  read_step_quiet :
      (prefix message : Bytes) (answers : Answers) (m : ReplicationMessage) (cache : RelationCache)
      (s : PostgresqlReplicator)
      → IsPrefixOf24 prefix
      → parse_message host s.relations message ≡ ok (some m, cache)
      → ((v : PostgresqlReplicator) → handle_message json (some m) answers v ≡ ok v)
      → read_step host json (packet_of prefix message answers).0 answers s
        ≡ ok (
            apply_lsn answers
              (record (received_state (wal_packet prefix message) s) { relations = cache }))
  unfolding read_step process_replication_message catch_packet
  read_step_quiet prefix message answers m cache s k parsed quiet =
      parse_packet-wal_packet host json answers prefix message s k ∙ rw (parsed, quiet _)

  quiet_lem :
      (p : LibrdKafkaProducer) (e : Event) (prefix message : Bytes) (answers : Answers)
      (m : ReplicationMessage) (s : PostgresqlReplicator)
      → yields e ≡ packet_of prefix message answers
      → change_of e ≡ []
      → s.kafka_producer ≡ some p
      → p.created ≡ true
      → IsPrefixOf24 prefix
      → parse_message host s.relations message ≡ ok (some m, known_after e s.relations)
      → ((v : PostgresqlReplicator) → handle_message json (some m) answers v ≡ ok v)
      → Handled p e s
  quiet_lem p e prefix message answers m s packet no_row there made k parsed quiet =
      let u = record (received_state (wal_packet prefix message) s) {
        relations = known_after e s.relations;
      } in
      let (relations, replicating) = apply_lsn_lem answers u in
      record {
        state = apply_lsn answers u;
        producer = p;
        stepped =
            ap (λ (c : CopyData × Answers). read_step host json c.0 c.1 s) packet
            ∙ read_step_quiet prefix message answers m _ s k parsed quiet;
        there = apply_lsn-kafka_producer answers u ∙ there;
        created = made;
        topic = refl;
        produced = rw no_row (rw append-nil);
        relations = relations;
        replicating = replicating;
      }

  event_lem :
      (p : LibrdKafkaProducer) (e : Event) (s : PostgresqlReplicator)
      → IsEvent s.relations e
      → s.kafka_producer ≡ some p
      → p.created ≡ true
      → Handled p e s
  unfolding parse_message byte_at parse_switch catch_parse handle_message
  event_lem p (begins prefix lsn timestamp xid answers) s (k, (hl, ht)) there made =
      let m : BeginMessage = record {
        lsn = lsn;
        commit_timestamp = timestamp;
        transaction_id = from_host host.byte_order (be32 xid);
      } in
      quiet_lem p (begins prefix lsn timestamp xid answers) prefix
        (b'B' ∷ encode_begin lsn timestamp xid) answers (begin m) s refl refl there made k
        (rw (parse_begin-encode_begin host lsn timestamp xid hl ht)) (λ v. refl)
  event_lem p (commits prefix m answers) s (k, (hl, (he, ht))) there made =
      quiet_lem p (commits prefix m answers) prefix (b'C' ∷ encode_commit m) answers (commit m) s
        refl refl there made k (rw (parse_commit-encode_commit m hl he ht)) (λ v. refl)
  event_lem p (announces prefix r answers) s (k, (h, fits)) there made =
      quiet_lem p (announces prefix r answers) prefix (b'R' ∷ encode_relation r) answers
        (relation r) s refl refl there made k (rw (parse_relation-encode_relation r h fits))
        (λ v. refl)
  event_lem p (changes c) s k there made =
      let (stepped, there', relations, replicating) = read_step_row host json p c s k there in
      let (created, topic, produced) = next_producer_lem host json p c made in
      record {
        state = after_row host json p c s;
        producer = next_producer host json p c;
        stepped = stepped;
        there = there';
        created = created;
        topic = topic;
        produced = produced;
        relations = relations;
        replicating = replicating;
      }

  event_append :
      (e : Event) (rows : List Change) (before : List KafkaMessage) (topic : Bytes)
      → (before ++ map (sent_of json topic) (accepted (change_of e)))
          ++ map (sent_of json topic) (accepted rows)
        ≡ before ++ map (sent_of json topic) (accepted (change_of e ++ rows))
  event_append (begins prefix lsn timestamp xid answers) rows before topic = rw append-nil
  event_append (commits prefix m answers) rows before topic = rw append-nil
  event_append (announces prefix r answers) rows before topic = rw append-nil
  event_append (changes c) rows before topic =
      keep_append host json (changed_row c).answers.produce c (accepted rows) before topic

  -- What the loop has come to behind events whose rows have been sent.
  pub record AreHandled (p : LibrdKafkaProducer) (rows : List Change) (t : PostgresqlReplicator)
      : Type 0 where
    pub producer : LibrdKafkaProducer
    pub there : t.kafka_producer ≡ some producer
    pub produced : producer.produced ≡ p.produced ++ map (sent_of json p.topic_name) rows

  pub read_loop-events :
      (es : List Event) (p : LibrdKafkaProducer) (s : PostgresqlReplicator)
      → IsStream s.relations es
      → s.kafka_producer ≡ some p
      → p.created ≡ true
      → s.replicating ≡ true
      → (t : PostgresqlReplicator) × (read_loop host json (map yields es) s ≡ ok t)
        × AreHandled p (accepted (changes_of es)) t
  unfolding read_loop
  read_loop-events [] p s k there made runs =
      (s, refl, record { producer = p; there = there; produced = rw append-nil })
  read_loop-events (e ∷ es) p s (k, ks) there made runs =
      let h = event_lem p e s k there made in
      let ks' = subst (λ cache. IsStream cache es) (sym h.relations) ks in
      let (t, looped, sent) =
        read_loop-events es h.producer h.state ks' h.there h.created (h.replicating ∙ runs) in
      let go = λ (b : Bool).
        if b
        then (read_step host json (yields e).0 (yields e).1 s
            >>= read_loop host json (map yields es))
        else ok s in
      (
        t,
        ap go runs ∙ ap (λ r. r >>= read_loop host json (map yields es)) h.stepped ∙ looped,
        record {
          producer = sent.producer;
          there = sent.there;
          produced =
              sent.produced
              ∙ rw (h.produced, h.topic) (event_append e (changes_of es) p.produced p.topic_name);
        },
      )

  -- Where the server writes transactions of inserted and deleted rows, and the producer is up,
  -- whatever Kafka answers: the loop sends the messages of the rows that Kafka takes, in their order,
  -- and no other; yet its replies acknowledge the position of every packet of the stream, just as if
  -- Kafka had taken all of them.
  pub refused_rows_acknowledged :
      (flag : ℕ) (position : ℕ × ℕ) (es : List Event) (p : LibrdKafkaProducer)
      (s : PostgresqlReplicator)
      → IsStream s.relations es
      → s.kafka_producer ≡ some p
      → p.created ≡ true
      → IsAt flag position s
      → (t : PostgresqlReplicator) × (read_loop host json (map yields es) s ≡ ok t)
        × AreHandled p (accepted (changes_of es)) t
        × (t.replies ≡ s.replies ++ acknowledge flag (map yields es) position)
  refused_rows_acknowledged flag position es p s k there made at =
      let (t, looped, sent) = read_loop-events es p s k there made at.running in
      (t, looped, sent, read_loop-acknowledge host json flag (map yields es) position s t at looped)
