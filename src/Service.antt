-- ===== src/Service.antt =====
-- consumer_bo/replication_consumer.h: the thread that writes what the queue holds.
pub mod Drain
pub mod Threads
pub mod Start
use kafka_replication.Base.{
  ℕ, zero, suc, ◌+◌, ◌-◌, ◌*◌, ◌/◌, ◌%◌, ◌^◌, ◌≤◌, ◌<◌, bit_and, ◌≡◌, refl, sym, ap, ◌∙◌, subst,
  ◌≢◌, ◌↔◌, ◌⊎◌, inl, inr, Bool, true, false, ◌&&◌, ◌||◌, not, Option, none, some, List, [], ◌∷◌,
  ◌++◌, map, append-nil, append_assoc, arith, ltb, leb, ◌==◌, if◌then◌else◌, ltb→lt, lt→ltb, le→ltb,
  leb→le, le→leb, lt→leb, ==_iff, ==_self, ==_ne, Bool-cases, Option-cases, Bytes, codes, length,
  get_elem?, take, drop, replicate, All, length-append, length-drop, get_elem?-drop, drop-suc,
  drop-append, take-append, drop-append_at, get_elem?-lt, length-map, bytes_eq, bytes_eq_iff,
  bytes_eq_self, bytes_eq_ne, Error, buffer_underflow, string_underflow, not_null_terminated,
  bad_alloc, invalid_argument, out_of_range, logic_error, wal_too_short, config_path_not_set,
  not_replicating, read_failed, start_failed, Outcome, ok, throw, fault, ◌>>=◌, >>=-eq-ok,
  Outcome-cases,
}
use kafka_replication.Json.{JsonLib}
use kafka_replication.Queue.{SafeQueue, pop, take_front}
use kafka_replication.Consumer.{JsonReader, ConsumerMessage}
use kafka_replication.Writer.{JsonPrinter, Server, DatabaseWriter}
use kafka_replication.Writer.Rows.{handler_incoming_data}

module _ (json : JsonLib) (reader : JsonReader json) (printer : JsonPrinter json)
    (server : Server) where
  open json use {Value}

  abbrev pub Round : Type 0
  Round = SafeQueue (ConsumerMessage Value) × DatabaseWriter

  -- loadFromQueue, as the writing thread meets it (Service/Threads has the pop and the write as two
  -- steps). `none` where the pop waits; what the handler returns is dropped.
  abbrev pub write_popped :
      Option (ConsumerMessage Value × SafeQueue (ConsumerMessage Value))
      → DatabaseWriter
      → Option (Outcome Round)
  write_popped none w = none
  write_popped (some (m, q)) w =
      some (handler_incoming_data json reader printer server m w >>= λ (w', result). ok (q, w'))

  unfoldable pub load_from_queue :
      SafeQueue (ConsumerMessage Value) → DatabaseWriter → Option (Outcome Round)
  load_from_queue q w = write_popped (pop q) w

  -- So many rounds of startDbWriter, while it runs and does not wait.
  unfoldable pub start_db_writer :
      ℕ → SafeQueue (ConsumerMessage Value) → DatabaseWriter → Outcome Round
  start_db_writer zero q w = ok (q, w)
  start_db_writer (suc rounds) q w =
      let next = λ (r : Outcome Round). r >>= λ (q', w'). start_db_writer rounds q' w' in
      if w.running
      then elim (load_from_queue q w) [ none ↦ ok (q, w) | some round ↦ next round ]
      else ok (q, w)

  -- The messages, one after the other.
  unfoldable pub write_all : List (ConsumerMessage Value) → DatabaseWriter → Outcome DatabaseWriter
  write_all [] w = ok w
  write_all (m ∷ ms) w =
      handler_incoming_data json reader printer server m w >>= λ (w', result). write_all ms w'
