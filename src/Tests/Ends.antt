-- ===== src/Tests/Ends.antt =====
-- One row of the table users, from the packet to the statements.
use kafka_replication.Base.{
  ◌≡◌, refl, none, some, List, [], ◌∷◌, ◌++◌, map, arith, if◌then◌else◌, Bytes, codes, replicate,
  bytes_eq, bytes_eq_self, ok, fault,
}
use mathlib.Core.List.{Permᴰ}
use kafka_replication.Tuple.Encoding.{shown, encode_fields}
use kafka_replication.Message.Cache.{get_cached_relation}
use kafka_replication.Message.Parse.Encoding.{encode_row}
use kafka_replication.Json.Members.{row_object, cells}
use kafka_replication.Producer.{LibrdKafkaProducer, KafkaMessage}
use kafka_replication.Replicator.{PostgresqlReplicator}
use kafka_replication.Replicator.Handlers.{insert_json}
use kafka_replication.Replicator.Packets.{parse_packet}
use kafka_replication.Replicator.Delivery.{wal_packet}
use kafka_replication.Consumer.{
  JsonReader, ReaderLaws, ConsumerMessage, count_received, start_consuming,
}
use kafka_replication.Consumer.Callback.{replication_callbacks}
use kafka_replication.Writer.Rows.{handler_incoming_data}
use kafka_replication.Pipeline.{insert_message, arrives, IsCarried, insert_undefined}
use kafka_replication.Tests.Doubles.{
  Node, null_node, big_host, node_json, node_laws, answers, producer, replicator, users,
}
use kafka_replication.Tests.Parsing.{fields, fields-IsTuple}
use kafka_replication.Tests.Sink.{node_reader, node_printer, server, consumer, writer}

abbrev pub sent_row : Node
sent_row = row_object node_json users.columns (map shown fields) null_node

abbrev pub sent_json : Node
sent_json = insert_json node_json users sent_row 1000

abbrev pub sent : KafkaMessage
sent = insert_message node_json producer.topic_name users sent_row 1000

-- It reads what has been sent.
abbrev pub sent_reader : JsonReader node_json
sent_reader = record node_reader {
  parse = λ payload. if bytes_eq payload (node_json.write sent_json) then some sent_json else none;
}

pub sent_reader_laws : ReaderLaws node_json sent_reader
sent_reader_laws = record {
  as_string-of_string = λ s. refl;
  member_lem = λ v k h. refl;
  has_member_lem = λ v k h. refl;
  get_default_lem = λ v k d h. refl;
}

abbrev pub listed : List (Bytes × Bytes)
listed = (codes "name", codes "NULL") ∷ (codes "id", codes "1") ∷ []

pub sent-IsCarried :
    IsCarried node_json sent_reader node_printer sent_json sent_row
      (cells users.columns (map shown fields))
      listed
unfolding row_object
sent-IsCarried = record {
  read_back = rw (bytes_eq_self (node_json.write sent_json));
  strings = λ s. refl;
  listed_all = Permᴰ.swap refl refl;
  listed_names = refl;
}

insert_undefined_example :
    (t : PostgresqlReplicator) × (q : LibrdKafkaProducer) × (m : ConsumerMessage Node)
    × (parse_packet big_host node_json answers
          (wal_packet (replicate 24 0) (b'I' ∷ encode_row 7 b'N' fields))
          replicator
        ≡ ok t)
    × (t.kafka_producer ≡ some q)
    × (q.produced ≡ [] ++ sent ∷ [])
    × (start_consuming node_json sent_reader
          (replication_callbacks node_json sent_reader)
          (arrives sent)
          consumer
          []
        ≡ ok (
          record consumer { stats = count_received (node_json.write sent_json) consumer.stats },
          m ∷ [],
        ))
    × (handler_incoming_data node_json sent_reader node_printer server m writer ≡ fault)
unfolding encode_fields get_cached_relation row_object
insert_undefined_example =
    insert_undefined big_host node_json node_laws sent_reader sent_reader_laws node_printer server
      answers (replicate 24 0) 7 fields users producer replicator consumer
      (codes "name", codes "NULL") ((codes "id", codes "1") ∷ []) writer refl refl refl refl refl
      (omega arith) fields-IsTuple refl ((λ e. cc, tt), (tt, tt)) (omega arith) sent-IsCarried
