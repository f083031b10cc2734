-- ===== src/Programs/Consumer.antt =====
-- consumer_bo/main.cpp: the program does not come to its end by itself.
use kafka_replication.Base.{
  ◌≡◌, refl, sym, ap, ◌∙◌, subst, inl, inr, Bool, ◌&&◌, Option, List, [], arith, if◌then◌else◌,
  Bool-cases, Bytes, ok, throw, fault, >>=-eq-ok, Outcome,
}
use kafka_replication.Json.{JsonLib}
use kafka_replication.Queue.{new_queue}
use kafka_replication.Consumer.{Kafka, JsonReader, Consumed, LibRdkafkaConsumer, pre_start}
use kafka_replication.Writer.{JsonPrinter, Server, DatabaseWriter}
use kafka_replication.Service.Threads.{Threads, Reach, here, next, Dies}
use kafka_replication.Service.Threads.Order.{IsSequential, threads-IsSequential}
use kafka_replication.Service.Threads.Progress.{IsRunning, threads_run_on}
use kafka_replication.Service.Start.{
  queue_size, Process, constructed, failed, joining_writer, joining_consumer, exited, aborted,
  new_threads, check_started, start_threads, new_members, new_replication_consumer,
}
use kafka_replication.Programs.{
  leave_scope, consumer_main, ProcessReach, at_once, behind, goes_on_first, goes_on_second,
  dies_first, dies_second, writer_joined, consumer_joined,
}

module _ (json : JsonLib) (reader : JsonReader json) (printer : JsonPrinter json)
    (server : Server) where
  open json use {Value}

  -- The queue is new, and nothing is in hand.
  record IsNew (t : Threads Value) : Type 0 where
    queue : t.queue ≡ new_queue queue_size
    idle : t.pending ≡ []
    none_in_hand : t.in_hand ≡ []

  record IsStarted (s : Threads Value) : Type 0 where
    pub running : IsRunning json reader printer server s
    pub empty : s.queue.queue_to_save ≡ []
    pub idle : s.pending ≡ []
    pub none_in_hand : s.in_hand ≡ []

  new_threads-IsNew :
      (answers : List Consumed) (writer : DatabaseWriter) (consumer : LibRdkafkaConsumer)
      (t : Threads Value)
      → new_threads json answers writer consumer ≡ ok t
      → IsNew t
  new_threads-IsNew answers writer consumer t e =
      let (started, _, made) = >>=-eq-ok (pre_start consumer) _ e in
      let first : Threads Value = record {
        input = answers;
        consumer = started;
        pending = [];
        queue = new_queue queue_size;
        in_hand = [];
        writer = writer;
      } in
      let same : first ≡ t = cc in
      subst IsNew same (record { queue = refl; idle = refl; none_in_hand = refl })

  check_started-IsStarted :
      (r : Outcome (Threads Value)) (s : Threads Value)
      → ((t : Threads Value) → r ≡ ok t → IsNew t)
      → leave_scope (check_started json r) ≡ joining_writer s
      → IsStarted s
  unfolding check_started leave_scope
  check_started-IsStarted (throw x) s fresh e = cc
  check_started-IsStarted fault s fresh e = cc
  check_started-IsStarted (ok t) s fresh e =
      let up = t.consumer.running && t.writer.running in
      elim (Bool-cases up) [
        | inr down ↦
            cc (sym (ap (λ b. leave_scope (if b then constructed t else aborted)) down) ∙ e)
        | inl runs ↦
            let n = fresh t refl in
            let made : joining_writer t ≡ joining_writer s =
              sym (ap (λ b. leave_scope (if b then constructed t else aborted)) runs) ∙ e in
            let same : t ≡ s = cc in
            subst IsStarted same (record {
              running = record {
                consumes = ground (arith, runs);
                writes = ground (arith, runs);
                has_room = rw (n.queue) (λ none_left. omega (arith, none_left));
                woken = rw (n.queue) (record {
                  one_push = omega arith;
                  one_pop = omega arith;
                  full = λ sleeps. absurd (omega (arith, sleeps));
                  empty = λ sleeps. refl;
                });
              };
              empty = rw (n.queue);
              idle = n.idle;
              none_in_hand = n.none_in_hand;
            })
      ]

  start_threads-IsStarted :
      (answers : List Consumed) (r : Outcome (DatabaseWriter × LibRdkafkaConsumer))
      (s : Threads Value)
      → leave_scope (start_threads json answers r) ≡ joining_writer s
      → IsStarted s
  unfolding start_threads leave_scope
  start_threads-IsStarted answers (throw x) s e = cc
  start_threads-IsStarted answers fault s e = cc
  start_threads-IsStarted answers (ok (writer, consumer)) s e =
      check_started-IsStarted (new_threads json answers writer consumer) s
        (new_threads-IsNew answers writer consumer) e

  -- The destructor joins the first thread, or one of the threads has died.
  abbrev pub NeverReturns : Threads Value → Process Value → Type 0
  NeverReturns s (joining_writer t) =
      Reach json reader printer server s t × IsSequential json reader printer server s t
  NeverReturns s aborted =
      (t : Threads Value) × Reach json reader printer server s t × Dies json reader printer server t
  NeverReturns s (constructed t) = ⊥
  NeverReturns s (failed x) = ⊥
  NeverReturns s (joining_consumer t) = ⊥
  NeverReturns s (exited code) = ⊥

  reach_lem :
      (s : Threads Value) {p : Process Value}
      → IsStarted s
      → ProcessReach json reader printer server (joining_writer s) p
      → NeverReturns s p
  reach_lem s k at_once =
      (here, threads-IsSequential json reader printer server s k.empty k.idle k.none_in_hand here)
  reach_lem s k (behind run (goes_on_first step)) =
      let (before, _) = reach_lem s k run in
      let run' = next before step in
      (run', threads-IsSequential json reader printer server s k.empty k.idle k.none_in_hand run')
  reach_lem s k (behind run (goes_on_second step)) = absurd (reach_lem s k run)
  reach_lem s k (behind run (dies_first {t} end)) =
      let (before, _) = reach_lem s k run in (t, before, end)
  reach_lem s k (behind run (dies_second end)) = absurd (reach_lem s k run)
  reach_lem s k (behind run (writer_joined none_there awake stopped)) =
      let (before, _) = reach_lem s k run in
      let running = threads_run_on json reader printer server before k.running in
      cc (sym running.writes ∙ stopped)
  reach_lem s k (behind run (consumer_joined idle stopped)) = absurd (reach_lem s k run)

  -- Once the consumer is up, its main function never returns: whatever has happened since, it is
  -- still in the destructor, which it enters as soon as the object is constructed and which waits
  -- for the writing thread, and the threads have done what one thread would have done that handles
  -- the answers of the broker one after the other; or a thread that had done so ran into an exception
  -- or undefined behaviour, which ended the process.
  pub consumer_main-NeverReturns :
      (getenv : Bytes → Option Bytes) (connects : Bytes → Bool) (kafka : Kafka)
      (answers : List Consumed) (s : Threads Value) (p : Process Value)
      → consumer_main json getenv connects kafka answers ≡ joining_writer s
      → ProcessReach json reader printer server (consumer_main json getenv connects kafka answers) p
      → NeverReturns s p
  unfolding consumer_main new_replication_consumer
  consumer_main-NeverReturns getenv connects kafka answers s p e run =
      reach_lem s (start_threads-IsStarted answers (new_members getenv connects kafka) s e)
        (subst (λ q. ProcessReach json reader printer server q p) e run)
