-- ===== src/Programs.antt =====
-- producer_azs/main.cpp and consumer_bo/main.cpp.
pub mod Producer
pub mod Consumer
use kafka_replication.Base.{
  ℕ, zero, suc, ◌+◌, ◌-◌, ◌*◌, ◌/◌, ◌%◌, ◌^◌, ◌≤◌, ◌<◌, bit_and, ◌≡◌, refl, sym, ap, ◌∙◌, subst,
  ◌≢◌, ◌↔◌, ◌⊎◌, inl, inr, Bool, true, false, ◌&&◌, ◌||◌, not, Option, none, some, List, [], ◌∷◌,
  ◌++◌, map, append-nil, append_assoc, arith, ltb, leb, ◌==◌, if◌then◌else◌, ltb→lt, lt→ltb, le→ltb,
  leb→le, le→leb, lt→leb, ==_iff, ==_self, ==_ne, Bool-cases, Option-cases, Bytes, codes, length,
  get_elem?, take, drop, replicate, All, length-append, length-drop, get_elem?-drop, drop-suc,
  drop-append, take-append, drop-append_at, get_elem?-lt, length-map, bytes_eq, bytes_eq_iff,
  bytes_eq_self, bytes_eq_ne, Error, buffer_underflow, string_underflow, not_null_terminated,
  bad_alloc, invalid_argument, out_of_range, logic_error, wal_too_short, config_path_not_set,
  not_replicating, read_failed, start_failed, Outcome, ok, throw, fault, ◌>>=◌, >>=-eq-ok,
  Outcome-cases,
}
use kafka_replication.Message.Parse.{Host}
use kafka_replication.Json.{JsonLib}
use kafka_replication.Replicator.{PostgresqlReplicator, Answers}
use kafka_replication.Replicator.Packets.{CopyData, start_read_replication_messages}
use kafka_replication.Startup.{Postgres, new_replicator}
use kafka_replication.Consumer.{Kafka, Consumed, JsonReader}
use kafka_replication.Writer.{JsonPrinter, Server}
use kafka_replication.Service.Threads.{Threads, Step, Dies}
use kafka_replication.Service.Start.{
  Process, constructed, failed, joining_writer, joining_consumer, exited, aborted,
  new_replication_consumer,
}

-- Every exception is printed, and the program ends with 0.
unfoldable pub exit_code {ℓ} : {A : Type ℓ} → Outcome A → Outcome ℕ
exit_code fault = fault
exit_code (throw x) = ok 0
exit_code (ok v) = ok 0

-- The surroundings of the producer: PostgreSQL, the environment, the files, librdkafka, the clock.
pub record Surroundings : Type 0 where
  pub pg : Postgres
  pub getenv : Bytes → Option Bytes
  pub files : Bytes → Option Bytes
  pub create : List (Bytes × Bytes) → Bool
  pub microseconds : ℕ

module _ (host : Host) (json : JsonLib) (around : Surroundings) where
  open around use {pg, getenv, files, create, microseconds}

  -- The body of the try block, over what the connection yields.
  unfoldable pub producer_run : List (CopyData × Answers) → Outcome PostgresqlReplicator
  producer_run copied = new_replicator pg getenv files create microseconds >>= λ s.
      start_read_replication_messages host json copied s.replicator

  unfoldable pub producer_main : List (CopyData × Answers) → Outcome ℕ
  producer_main copied = exit_code (producer_run copied)

-- What follows the constructor in the main function of the consumer: the object goes out of scope,
-- and its destructor starts to join the threads; or a handler prints the exception, and the program
-- ends with 0.
unfoldable pub leave_scope : {Value : Type 0} → Process Value → Process Value
leave_scope (constructed t) = joining_writer t
leave_scope (failed x) = exited 0
leave_scope (joining_writer t) = joining_writer t
leave_scope (joining_consumer t) = joining_consumer t
leave_scope (exited code) = exited code
leave_scope aborted = aborted

module _ (json : JsonLib) (getenv : Bytes → Option Bytes) (connects : Bytes → Bool)
    (kafka : Kafka) where
  open json use {Value}

  unfoldable pub consumer_main : List Consumed → Process Value
  consumer_main answers = leave_scope (new_replication_consumer json getenv connects kafka answers)

module _ (json : JsonLib) (reader : JsonReader json) (printer : JsonPrinter json)
    (server : Server) where
  open json use {Value}

  -- A step of the process while the destructor joins: a thread goes on or dies, or the thread that
  -- is joined has left its loop, which it does where it is awake and status() is false at the loop's
  -- test. The destructor's assignment to all_started_, which is only printed, does nothing here.
  pub data ProcessStep : Process Value → Process Value → Type 0 where
    goes_on_first :
        {t u : Threads Value}
        → Step json reader printer server t u
        → ProcessStep (joining_writer t) (joining_writer u)
    goes_on_second :
        {t u : Threads Value}
        → Step json reader printer server t u
        → ProcessStep (joining_consumer t) (joining_consumer u)
    dies_first :
        {t : Threads Value}
        → Dies json reader printer server t
        → ProcessStep (joining_writer t) aborted
    dies_second :
        {t : Threads Value}
        → Dies json reader printer server t
        → ProcessStep (joining_consumer t) aborted
    writer_joined :
        {t : Threads Value}
        → t.in_hand ≡ []
        → t.queue.cond_pop ≡ 0
        → t.writer.running ≡ false
        → ProcessStep (joining_writer t) (joining_consumer t)
    consumer_joined :
        {t : Threads Value}
        → t.pending ≡ []
        → t.consumer.running ≡ false
        → ProcessStep (joining_consumer t) (exited 0)

  pub data ProcessReach (p : Process Value) : Process Value → Type 0 where
    at_once : ProcessReach p p
    behind : {q r : Process Value} → ProcessReach p q → ProcessStep q r → ProcessReach p r
