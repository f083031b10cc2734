-- ===== src/Tests/Changes.antt =====
-- One row of the table users, deleted and updated.
use kafka_replication.Base.{
  fault, ◌≡◌, refl, none, some, List, [], ◌∷◌, map, arith, if◌then◌else◌, Bytes, codes, replicate,
  bytes_eq, bytes_eq_self, ok,
}
use mathlib.Core.List.{Permᴰ}
use kafka_replication.Tuple.Encoding.{shown, encode_fields}
use kafka_replication.Message.Cache.{get_cached_relation}
use kafka_replication.Message.Parse.Encoding.{encode_row}
use kafka_replication.Json.Members.{first_flagged, row_object, cells}
use kafka_replication.Producer.{LibrdKafkaProducer, KafkaMessage}
use kafka_replication.Replicator.{PostgresqlReplicator}
use kafka_replication.Replicator.Packets.{parse_packet}
use kafka_replication.Replicator.Delivery.{wal_packet}
use kafka_replication.Consumer.{
  JsonReader, ReaderLaws, ConsumerMessage, count_received, start_consuming,
}
use kafka_replication.Consumer.Callback.{replication_callbacks}
use kafka_replication.Writer.Rows.{handler_incoming_data}
use kafka_replication.Pipeline.{arrives, IsCarried}
use kafka_replication.Tests.Doubles.{
  Node, null_node, big_host, node_json, node_laws, answers, producer, replicator, users,
}
use kafka_replication.Tests.Parsing.{fields, fields-IsTuple}
use kafka_replication.Tests.Sink.{node_reader, node_printer, server, consumer, writer}
use kafka_replication.Json.Objects.{assign_all}
use kafka_replication.Replicator.Changes.{change_members}
use kafka_replication.Writer.{exec}
use kafka_replication.Pipeline.Changes.{IsKeyed, change_message, delete_replicated}
use kafka_replication.Pipeline.Updates.{NullLaws, update_undefined}
use kafka_replication.Tests.Doubles.{id_column}

abbrev changed_row : Node
changed_row = row_object node_json users.columns (map shown fields) null_node

abbrev changed_json : Bytes → Bytes → Node
changed_json op rows =
    assign_all node_json null_node (change_members node_json op rows users changed_row 1000)

abbrev changed : Bytes → Bytes → KafkaMessage
changed op rows = change_message node_json producer.topic_name op rows users changed_row 1000

-- It reads one message.
abbrev changed_reader : Bytes → Bytes → JsonReader node_json
changed_reader op rows = record node_reader {
  parse = λ payload.
      if bytes_eq payload (node_json.write (changed_json op rows))
      then some (changed_json op rows)
      else none;
}

changed_reader_laws : (op rows : Bytes) → ReaderLaws node_json (changed_reader op rows)
changed_reader_laws op rows = record {
  as_string-of_string = λ s. refl;
  member_lem = λ v k h. refl;
  has_member_lem = λ v k h. refl;
  get_default_lem = λ v k d h. refl;
}

pub users-IsKeyed : IsKeyed users fields b'i' (codes "d") (codes "1")
unfolding first_flagged
users-IsKeyed = record {
  place = 0;
  column = id_column;
  there = refl;
  named = refl;
  value = refl;
  flagged = refl;
  distinct = ((λ e. cc, tt), (tt, tt));
  size = refl;
}

delete_replicated_example :
    (t : PostgresqlReplicator) × (q : LibrdKafkaProducer) × (m : ConsumerMessage Node)
    × (parse_packet big_host node_json answers
          (wal_packet (replicate 24 0) (b'D' ∷ encode_row 7 b'K' fields))
          replicator
        ≡ ok t)
    × (t.kafka_producer ≡ some q)
    × (q.produced ≡ changed (codes "DELETE") (codes "before") ∷ [])
    × (start_consuming node_json
          (changed_reader (codes "DELETE") (codes "before"))
          (replication_callbacks node_json (changed_reader (codes "DELETE") (codes "before")))
          (arrives (changed (codes "DELETE") (codes "before")))
          consumer
          []
        ≡ ok (
          record consumer {
            stats = count_received (changed (codes "DELETE") (codes "before")).value consumer.stats;
          },
          m ∷ [],
        ))
    × (handler_incoming_data node_json
          (changed_reader (codes "DELETE") (codes "before"))
          node_printer
          server
          m
          writer
        ≡ ok (exec server (codes "DELETE FROM users WHERE \"id\" = '1'") writer))
unfolding encode_fields get_cached_relation row_object
delete_replicated_example =
    delete_replicated big_host node_json node_laws
      (changed_reader (codes "DELETE") (codes "before"))
      (changed_reader_laws (codes "DELETE") (codes "before")) node_printer server answers
      (replicate 24 0) 7 b'K' fields users b'i' (codes "d") (codes "1")
      (codes "name" ∷ codes "id" ∷ []) producer replicator consumer writer refl refl refl refl refl
      (omega arith) fields-IsTuple (omega arith) users-IsKeyed
      (rw (bytes_eq_self (node_json.write (changed_json (codes "DELETE") (codes "before"))))) refl

null_laws : NullLaws node_json (changed_reader (codes "UPDATE") (codes "after")) node_printer
null_laws = record {
  get-null_value = λ k. refl;
  as_string-null_value = refl;
  member_names-null_value = refl;
}

abbrev columns_listed : List (Bytes × Bytes)
columns_listed = (codes "name", codes "NULL") ∷ (codes "id", codes "1") ∷ []

changed-IsCarried :
    IsCarried node_json
      (changed_reader (codes "UPDATE") (codes "after"))
      node_printer
      (changed_json (codes "UPDATE") (codes "after"))
      changed_row
      (cells users.columns (map shown fields))
      columns_listed
unfolding row_object
changed-IsCarried = record {
  read_back = rw (bytes_eq_self (node_json.write (changed_json (codes "UPDATE") (codes "after"))));
  strings = λ s. refl;
  listed_all = Permᴰ.swap refl refl;
  listed_names = refl;
}

update_undefined_example :
    (t : PostgresqlReplicator) × (q : LibrdKafkaProducer) × (m : ConsumerMessage Node)
    × (parse_packet big_host node_json answers
          (wal_packet (replicate 24 0) (b'U' ∷ encode_row 7 b'N' fields))
          replicator
        ≡ ok t)
    × (t.kafka_producer ≡ some q)
    × (q.produced ≡ changed (codes "UPDATE") (codes "after") ∷ [])
    × (start_consuming node_json
          (changed_reader (codes "UPDATE") (codes "after"))
          (replication_callbacks node_json (changed_reader (codes "UPDATE") (codes "after")))
          (arrives (changed (codes "UPDATE") (codes "after")))
          consumer
          []
        ≡ ok (
          record consumer {
            stats = count_received (changed (codes "UPDATE") (codes "after")).value consumer.stats;
          },
          m ∷ [],
        ))
    × (handler_incoming_data node_json
          (changed_reader (codes "UPDATE") (codes "after"))
          node_printer
          server
          m
          writer
        ≡ fault)
unfolding encode_fields get_cached_relation row_object
update_undefined_example =
    update_undefined big_host node_json node_laws (changed_reader (codes "UPDATE") (codes "after"))
      (changed_reader_laws (codes "UPDATE") (codes "after")) node_printer null_laws server answers
      (replicate 24 0) 7 b'N' fields users b'i' (codes "d") (codes "1") (codes "name", codes "NULL")
      ((codes "id", codes "1") ∷ []) producer replicator consumer writer refl refl refl refl refl
      (omega arith) fields-IsTuple (omega arith) (omega arith) users-IsKeyed changed-IsCarried
