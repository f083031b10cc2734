-- ===== src/Service/Start.antt =====
-- consumer_bo/replication_consumer.h: the constructor, and what it leaves behind.
use kafka_replication.Base.{
  ℕ, Bool, ◌&&◌, Option, List, [], if◌then◌else◌, Bytes, Error, Outcome, ok, throw, fault, ◌>>=◌,
}
use kafka_replication.Json.{JsonLib}
use kafka_replication.Consumer.{Kafka, Consumed, LibRdkafkaConsumer, new_consumer, pre_start}
use kafka_replication.Writer.{DatabaseWriter, new_writer}
use kafka_replication.Queue.{new_queue}
use kafka_replication.Service.Threads.{Threads}

abbrev pub queue_size : ℕ
queue_size = 1000

-- Where the main thread is: behind the constructor, which has returned or has thrown; in the
-- destructor, which joins one thread and then the other; or at the end, by itself or by an exception
-- that nobody catches or undefined behaviour.
pub data Process (Value : Type 0) : Type 0 where
  constructed : Threads Value → Process Value
  failed : Error → Process Value
  joining_writer : Threads Value → Process Value
  joining_consumer : Threads Value → Process Value
  exited : ℕ → Process Value
  aborted : Process Value

-- The database writer, and then the Kafka consumer.
unfoldable pub new_members :
    (Bytes → Option Bytes) → (Bytes → Bool) → Kafka → Outcome (DatabaseWriter × LibRdkafkaConsumer)
new_members getenv connects kafka = do
  writer ← new_writer getenv connects
  consumer ← new_consumer getenv kafka
  ok (writer, consumer)

module _ (json : JsonLib) where
  open json use {Value}

  -- The two threads are started; the consuming one first calls preStart.
  abbrev pub new_threads :
      List Consumed → DatabaseWriter → LibRdkafkaConsumer → Outcome (Threads Value)
  new_threads answers writer consumer = pre_start consumer >>= λ started. ok (record {
    input = answers;
    consumer = started;
    pending = [];
    queue = new_queue queue_size;
    in_hand = [];
    writer = writer;
  })

  -- Once the threads have been started, an exception of the constructor destroys objects of threads
  -- that can still be joined, and one of preStart leaves its thread: both end the process.
  unfoldable pub check_started : Outcome (Threads Value) → Process Value
  check_started (ok t) = if t.consumer.running && t.writer.running then constructed t else aborted
  check_started (throw x) = aborted
  check_started fault = aborted

  unfoldable pub start_threads :
      List Consumed → Outcome (DatabaseWriter × LibRdkafkaConsumer) → Process Value
  start_threads answers (ok (writer, consumer)) =
      check_started (new_threads answers writer consumer)
  start_threads answers (throw x) = failed x
  start_threads answers fault = aborted

  unfoldable pub new_replication_consumer :
      (Bytes → Option Bytes) → (Bytes → Bool) → Kafka → List Consumed → Process Value
  new_replication_consumer getenv connects kafka answers =
      start_threads answers (new_members getenv connects kafka)
