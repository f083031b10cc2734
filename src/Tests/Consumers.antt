-- ===== src/Tests/Consumers.antt =====
-- The consumer and the database writer on one row of the table users.
use kafka_replication.Base.{◌≡◌, refl, none, [], ◌∷◌, codes, bytes_eq, ok, fault}
use kafka_replication.Consumer.{LibRdkafkaConsumer, message, failed, start_consuming, call_message}
use kafka_replication.Consumer.Callback.{replication_callbacks}
use kafka_replication.Consumer.Messages.{IsCounted, consume_all, consume_all-IsCounted}
use kafka_replication.Writer.Rows.{insert_row}
use kafka_replication.Writer.Statements.{insert_row_undefined}
use kafka_replication.Tests.Doubles.{Node, null_node, member, node_json}
use kafka_replication.Tests.Sink.{
  user, node_reader, consumer, node_printer, server, writer, user-IsTextMember,
}

abbrev behind : LibRdkafkaConsumer
behind = record consumer { stats = record { message_received = 1; bytes_received = 3; errors = 1 } }

rounds :
    consume_all node_json node_reader
      (replication_callbacks node_json node_reader)
      (message (codes "abc") none ∷ failed (codes "down") ∷ [])
      consumer
      []
    ≡ ok (behind, [])
unfolding consume_all start_consuming call_message bytes_eq
rounds = refl

consume_all-IsCounted_example : IsCounted 1 3 1 behind.stats
consume_all-IsCounted_example =
    consume_all-IsCounted node_json node_reader (replication_callbacks node_json node_reader)
      (message (codes "abc") none ∷ failed (codes "down") ∷ []) 0 0 0 consumer behind [] []
      (record { received = refl; bytes = refl; errors = refl }) rounds

text_undefined :
    insert_row node_json node_reader node_printer server (codes "users") user writer ≡ fault
text_undefined =
    insert_row_undefined node_json node_reader node_printer server (codes "users") user
      (codes "id", codes "1") [] writer refl user-IsTextMember

-- A row with a null.
abbrev null_user : Node
null_user = member (codes "id") null_node null_node
