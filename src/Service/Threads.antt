-- ===== src/Service/Threads.antt =====
-- consumer_bo/replication_consumer.h: the two threads of the consumer over one queue, interleaved in
-- any order. A thread that sleeps on a condition variable takes no step until it is notified. An
-- exception or undefined behaviour in a thread ends the process (Dies).
pub mod Rounds
pub mod Order
pub mod Progress
use kafka_replication.Base.{
  ℕ, zero, suc, ◌+◌, ◌-◌, ◌*◌, ◌/◌, ◌%◌, ◌^◌, ◌≤◌, ◌<◌, bit_and, ◌≡◌, refl, sym, ap, ◌∙◌, subst,
  ◌≢◌, ◌↔◌, ◌⊎◌, inl, inr, Bool, true, false, ◌&&◌, ◌||◌, not, Option, none, some, List, [], ◌∷◌,
  ◌++◌, map, append-nil, append_assoc, arith, ltb, leb, ◌==◌, if◌then◌else◌, ltb→lt, lt→ltb, le→ltb,
  leb→le, le→leb, lt→leb, ==_iff, ==_self, ==_ne, Bool-cases, Option-cases, Bytes, codes, length,
  get_elem?, take, drop, replicate, All, length-append, length-drop, get_elem?-drop, drop-suc,
  drop-append, take-append, drop-append_at, get_elem?-lt, length-map, bytes_eq, bytes_eq_iff,
  bytes_eq_self, bytes_eq_ne, Error, buffer_underflow, string_underflow, not_null_terminated,
  bad_alloc, invalid_argument, out_of_range, logic_error, wal_too_short, config_path_not_set,
  not_replicating, read_failed, start_failed, Outcome, ok, throw, fault, ◌>>=◌, >>=-eq-ok,
  Outcome-cases,
}
use kafka_replication.Json.{JsonLib}
use kafka_replication.Queue.{SafeQueue, push, pop, take_front, wait_push, wait_pop}
use kafka_replication.Consumer.{
  JsonReader, ConsumerMessage, Consumed, LibRdkafkaConsumer, start_consuming,
}
use kafka_replication.Consumer.Callback.{replication_callbacks}
use kafka_replication.Writer.{JsonPrinter, Server, DatabaseWriter}
use kafka_replication.Writer.Rows.{handler_incoming_data}

-- `input` is what the broker will answer, `pending` what the callback has built and not yet pushed,
-- `in_hand` what loadFromQueue has popped and not yet written. Only the consuming thread pushes and
-- only the writing one pops, so that each sleeps where its condition variable has a sleeper.
pub record Threads (Value : Type 0) : Type 0 where
  pub input : List Consumed
  pub consumer : LibRdkafkaConsumer
  pub pending : List (ConsumerMessage Value)
  pub queue : SafeQueue (ConsumerMessage Value)
  pub in_hand : List (ConsumerMessage Value)
  pub writer : DatabaseWriter

-- Every answer has been read, and every message written.
pub record IsDone {Value : Type 0} (t : Threads Value) : Type 0 where
  pub silent : t.input ≡ []
  pub idle : t.pending ≡ []
  pub empty : t.queue.queue_to_save ≡ []
  pub none_in_hand : t.in_hand ≡ []

-- A call that returns nothing: it ends the process.
abbrev pub Ends {ℓ} : {A : Type ℓ} → Outcome A → Type ℓ
Ends call = ((x : Error) × (call ≡ throw x)) ⊎ (call ≡ fault)

module _ (json : JsonLib) (reader : JsonReader json) (printer : JsonPrinter json)
    (server : Server) where
  open json use {Value}

  -- A round of startConsumer up to the push, and the push; the pop of loadFromQueue, and the write;
  -- and each thread going to sleep.
  pub data Step (s : Threads Value) : Threads Value → Type 0 where
    consume :
        {x : Consumed} {xs : List Consumed} {c : LibRdkafkaConsumer}
        {ms : List (ConsumerMessage Value)}
        → s.consumer.running ≡ true
        → s.pending ≡ []
        → s.input ≡ x ∷ xs
        → start_consuming json reader (replication_callbacks json reader) x s.consumer []
          ≡ ok (c, ms)
        → Step s (record s { input = xs; consumer = c; pending = ms })
    hand_over :
        {m : ConsumerMessage Value} {ms : List (ConsumerMessage Value)}
        {q : SafeQueue (ConsumerMessage Value)}
        → s.queue.cond_push ≡ 0
        → s.pending ≡ m ∷ ms
        → push m s.queue ≡ some q
        → Step s (record s { pending = ms; queue = q })
    sleep_push :
        {m : ConsumerMessage Value} {ms : List (ConsumerMessage Value)}
        → s.queue.cond_push ≡ 0
        → s.pending ≡ m ∷ ms
        → push m s.queue ≡ none
        → Step s (record s { queue = wait_push s.queue })
    take_out :
        {m : ConsumerMessage Value} {q : SafeQueue (ConsumerMessage Value)}
        → s.writer.running ≡ true
        → s.queue.cond_pop ≡ 0
        → s.in_hand ≡ []
        → pop s.queue ≡ some (m, q)
        → Step s (record s { queue = q; in_hand = m ∷ [] })
    sleep_pop :
        s.writer.running ≡ true
        → s.queue.cond_pop ≡ 0
        → s.in_hand ≡ []
        → pop s.queue ≡ none
        → Step s (record s { queue = wait_pop s.queue })
    write :
        {m : ConsumerMessage Value} {ms : List (ConsumerMessage Value)} {w : DatabaseWriter}
        {result : Bool}
        → s.in_hand ≡ m ∷ ms
        → handler_incoming_data json reader printer server m s.writer ≡ ok (w, result)
        → Step s (record s { in_hand = ms; writer = w })

  -- What one of the threads does next throws or is undefined.
  pub data Dies (s : Threads Value) : Type 0 where
    consumer_dies :
        {x : Consumed} {xs : List Consumed}
        → s.consumer.running ≡ true
        → s.pending ≡ []
        → s.input ≡ x ∷ xs
        → Ends (start_consuming json reader (replication_callbacks json reader) x s.consumer [])
        → Dies s
    writer_dies :
        {m : ConsumerMessage Value} {ms : List (ConsumerMessage Value)}
        → s.in_hand ≡ m ∷ ms
        → Ends (handler_incoming_data json reader printer server m s.writer)
        → Dies s

  pub data Reach (s : Threads Value) : Threads Value → Type 0 where
    here : Reach s s
    next : {t u : Threads Value} → Reach s t → Step t u → Reach s u
