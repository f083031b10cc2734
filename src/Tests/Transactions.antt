-- ===== src/Tests/Transactions.antt =====
-- A transaction that deletes a row of the table users and inserts it again, while the consumer
-- writes the first change before it hands over the second.
use kafka_replication.Base.{
  none, some, List, [], ◌∷◌, codes, replicate, bytes_eq, Bytes, if◌then◌else◌,
}
use kafka_replication.Replicator.{PostgresqlReplicator}
use kafka_replication.Consumer.{LibRdkafkaConsumer, count_received, JsonReader}
use kafka_replication.Queue.{new_queue, wait_pop}
use kafka_replication.Service.Threads.{Threads, Step, write}
use kafka_replication.Pipeline.{arrives}
use kafka_replication.Pipeline.Rows.{Change, inserted, json_of, sent_of, element_of}
use kafka_replication.Pipeline.Events.{Event, begins, announces, changes, commits}
use kafka_replication.Tests.Doubles.{Node, node_json, answers, producer, replicator, users}
use kafka_replication.Tests.Parsing.{commit_message}
use kafka_replication.Tests.Sink.{node_reader, node_printer, server, consumer, writer}
use kafka_replication.Tests.Flow.{first_row, deletes}

abbrev come : Change
come = inserted first_row

abbrev gone : Change
gone = deletes first_row

abbrev come_text : Bytes
come_text = node_json.write (json_of node_json come)

abbrev gone_text : Bytes
gone_text = node_json.write (json_of node_json gone)

-- It reads the two messages.
abbrev both_reader : JsonReader node_json
both_reader = record node_reader {
  parse = λ payload.
      if bytes_eq payload come_text
      then some (json_of node_json come)
      else if bytes_eq payload gone_text
      then some (json_of node_json gone)
      else none;
}

abbrev start : Threads Node
start = record {
  input =
      arrives (sent_of node_json producer.topic_name gone)
      ∷ arrives (sent_of node_json producer.topic_name come)
      ∷ [];
  consumer = consumer;
  pending = [];
  queue = new_queue 1000;
  in_hand = [];
  writer = writer;
}

abbrev counted : Bytes → LibRdkafkaConsumer → LibRdkafkaConsumer
counted text c = record c { stats = count_received text c.stats }

-- The writing thread has found the queue empty.
abbrev waiting : Threads Node
waiting = record start { queue = wait_pop (new_queue 1000) }

abbrev read_gone : Threads Node
read_gone = record waiting {
  input = arrives (sent_of node_json producer.topic_name come) ∷ [];
  consumer = counted gone_text consumer;
  pending = element_of node_json gone ∷ [];
}

-- The push has woken it.
abbrev queued_gone : Threads Node
queued_gone = record read_gone {
  pending = [];
  queue = record (new_queue 1000) { queue_to_save = element_of node_json gone ∷ [] };
}

abbrev read_come : Threads Node
read_come = record queued_gone {
  input = [];
  consumer = counted come_text (counted gone_text consumer);
  pending = element_of node_json come ∷ [];
}

abbrev taken_gone : Threads Node
taken_gone = record read_come { queue = new_queue 1000; in_hand = element_of node_json gone ∷ [] }

abbrev written_gone : Threads Node
written_gone = record taken_gone {
  in_hand = [];
  writer = record writer { executed = codes "DELETE FROM users WHERE \"id\" = '1'" ∷ [] };
}

abbrev Steps : Threads Node → Threads Node → Type 0
Steps = Step node_json both_reader node_printer server

abbrev stream : List Event
stream =
    begins (replicate 24 0) 300 5 9 answers
    ∷ announces (replicate 24 0) users answers
    ∷ changes gone
    ∷ changes come
    ∷ commits (replicate 24 0) commit_message answers
    ∷ []

abbrev idle_replicator : PostgresqlReplicator
idle_replicator = record replicator { relations = [] }
