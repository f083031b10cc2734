-- ===== src/Replicator.antt =====
-- producer_azs/postgresql_replicator.cpp: the state of PostgresqlReplicator and its operations on
-- the replication stream. PostgreSQL's and Kafka's answers, and the clock, are arguments. The
-- counters' mutex is held for single assignments by one thread, and is left out.
pub mod Handlers
pub mod Packets
pub mod Frame
pub mod Acknowledge
pub mod Refinement
pub mod Delivery
pub mod Changes
pub mod Words
pub mod Invariant
use kafka_replication.Base.{
  ℕ, zero, suc, ◌+◌, ◌-◌, ◌*◌, ◌/◌, ◌%◌, ◌^◌, ◌≤◌, ◌<◌, bit_and, ◌≡◌, refl, sym, ap, ◌∙◌, subst,
  ◌≢◌, ◌↔◌, ◌⊎◌, inl, inr, Bool, true, false, ◌&&◌, ◌||◌, not, Option, none, some, List, [], ◌∷◌,
  ◌++◌, map, append-nil, append_assoc, arith, ltb, leb, ◌==◌, if◌then◌else◌, ltb→lt, lt→ltb, le→ltb,
  leb→le, le→leb, lt→leb, ==_iff, ==_self, ==_ne, Bool-cases, Option-cases, Bytes, codes, length,
  get_elem?, take, drop, replicate, All, length-append, length-drop, get_elem?-drop, drop-suc,
  drop-append, take-append, drop-append_at, get_elem?-lt, length-map, bytes_eq, bytes_eq_iff,
  bytes_eq_self, Error, buffer_underflow, string_underflow, not_null_terminated, bad_alloc,
  invalid_argument, out_of_range, logic_error, wal_too_short, config_path_not_set, not_replicating,
  read_failed, start_failed, Outcome, ok, throw, fault, ◌>>=◌, >>=-eq-ok, Outcome-cases,
}
use kafka_replication.Base.Word.{be32, be64}
use kafka_replication.Message.Cache.{RelationCache}
use kafka_replication.Producer.{LibrdKafkaProducer, ErrorCode}

-- shared_structures.h, struct Stats.
pub record Stats : Type 0 where
  pub restart_lsn_high : ℕ
  pub restart_lsn_low : ℕ
  pub applied_lsn_high : ℕ
  pub applied_lsn_low : ℕ
  pub received_lsn_high : ℕ
  pub received_lsn_low : ℕ
  pub last_heartbeat : ℕ
  pub timestamp : ℕ
  pub flag : ℕ

-- `kafka_producer` is the unique_ptr, `repl_conn` tells whether the pointer is set, and `replies`
-- holds the status updates that were handed to PQputCopyData, oldest first.
pub record PostgresqlReplicator : Type 0 where
  pub replicating : Bool
  pub kafka_producer : Option LibrdKafkaProducer
  pub repl_conn : Bool
  pub relations : RelationCache
  pub stats : Stats
  pub replies : List Bytes

-- What the outside answers while one packet is handled: the clock in milliseconds and microseconds,
-- whether the connection's status is CONNECTION_OK, and the answer to `produce`.
pub record Answers : Type 0 where
  pub milliseconds : ℕ
  pub microseconds : ℕ
  pub connection_ok : Bool
  pub produce : ErrorCode

-- The status update: flush, apply and flush LSN, the time, and the flag.
abbrev pub status_update : ℕ → Stats → Bytes
status_update microseconds s =
    b'r'
    ∷ (be32 s.restart_lsn_high
        ++ (be32 s.restart_lsn_low
            ++ (be32 s.applied_lsn_high
                ++ (be32 s.applied_lsn_low
                    ++ (be32 s.restart_lsn_high
                        ++ (be32 s.restart_lsn_low ++ (be64 microseconds ++ s.flag ∷ [])))))))

abbrev pub restart_at_applied : Stats → Stats
restart_at_applied s = record s {
  restart_lsn_high = s.applied_lsn_high;
  restart_lsn_low = s.applied_lsn_low;
}

unfoldable pub send_standby_status_update : Answers → PostgresqlReplicator → PostgresqlReplicator
send_standby_status_update answers r =
    if r.repl_conn && answers.connection_ok
    then (let stats = restart_at_applied r.stats in
        record r {
          stats = stats;
          replies = r.replies ++ status_update answers.microseconds stats ∷ [];
        })
    else r
