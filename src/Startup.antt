-- ===== src/Startup.antt =====
-- producer_azs/postgresql_replicator.cpp: the constructor and what it calls, up to the start of the
-- stream. What PostgreSQL answers to each text is a parameter.
pub mod Position
pub mod Fresh
use kafka_replication.Base.{
  ℕ, zero, suc, ◌+◌, ◌-◌, ◌*◌, ◌/◌, ◌%◌, ◌^◌, ◌≤◌, ◌<◌, bit_and, ◌≡◌, refl, sym, ap, ◌∙◌, subst,
  ◌≢◌, ◌↔◌, ◌⊎◌, inl, inr, Bool, true, false, ◌&&◌, ◌||◌, not, Option, none, some, List, [], ◌∷◌,
  ◌++◌, map, append-nil, append_assoc, arith, ltb, leb, ◌==◌, if◌then◌else◌, ltb→lt, lt→ltb, le→ltb,
  leb→le, le→leb, lt→leb, ==_iff, ==_self, ==_ne, Bool-cases, Option-cases, Bytes, codes, length,
  get_elem?, take, drop, replicate, All, length-append, length-drop, get_elem?-drop, drop-suc,
  drop-append, take-append, drop-append_at, get_elem?-lt, length-map, bytes_eq, bytes_eq_iff,
  bytes_eq_self, bytes_eq_ne, Error, buffer_underflow, string_underflow, not_null_terminated,
  bad_alloc, invalid_argument, out_of_range, logic_error, wal_too_short, config_path_not_set,
  not_replicating, read_failed, start_failed, Outcome, ok, throw, fault, ◌>>=◌, >>=-eq-ok,
  Outcome-cases,
}
use kafka_replication.Base.Text.{to_string}
use kafka_replication.Config.{ConfigManager, open_config, get_value_by_key, parse_lsn}
use kafka_replication.Settings.{ConnInfo, new_conn_info, concate_to_string}
use kafka_replication.Producer.{LibrdKafkaProducer, new_producer, init}
use kafka_replication.Replicator.{Stats, PostgresqlReplicator}

-- Whether a connection's status is CONNECTION_OK; the error of a query that gives no tuples; whether
-- a query has rows; and whether a command, or the start of the copy, succeeds.
pub record Postgres : Type 0 where
  pub connects : Bytes → Bool
  pub query_error : Bytes → Option Bytes
  pub has_rows : Bytes → Bool
  pub command_ok : Bytes → Bool
  pub copy_both : Bytes → Bool

-- `conn` tells whether `conn_` is set; `executed` holds the statements, oldest first.
pub record Starting : Type 0 where
  pub conn : Bool
  pub executed : List Bytes
  pub replicator : PostgresqlReplicator

abbrev pub no_lsn : ℕ → Stats
no_lsn microseconds = record {
  restart_lsn_high = 0;
  restart_lsn_low = 0;
  applied_lsn_high = 0;
  applied_lsn_low = 0;
  received_lsn_high = 0;
  received_lsn_low = 0;
  last_heartbeat = 0;
  timestamp = microseconds;
  flag = 0;
}

abbrev pub new_state : ℕ → Starting
new_state microseconds = record {
  conn = false;
  executed = [];
  replicator = record {
    replicating = false;
    kafka_producer = none;
    repl_conn = false;
    relations = [];
    stats = no_lsn microseconds;
    replies = [];
  };
}

-- `err.find(text) != npos`.
unfoldable pub starts_with : Bytes → Bytes → Bool
starts_with [] s = true
starts_with (c ∷ text) [] = false
starts_with (c ∷ text) (d ∷ s) = c == d && starts_with text s

unfoldable pub contains : Bytes → Bytes → Bool
contains text [] = starts_with text []
contains text (c ∷ s) = starts_with text (c ∷ s) || contains text s

abbrev pub execute : Bytes → Starting → Starting
execute sql s = record s { executed = s.executed ++ sql ∷ [] }

abbrev pub slot_query : ConnInfo → Bytes
slot_query info =
    codes "SELECT * FROM pg_create_logical_replication_slot('"
    ++ info.slot_name
    ++ codes "', '"
    ++ info.output_plugin
    ++ codes "')"

abbrev pub publication_query : ConnInfo → Bytes
publication_query info =
    codes "SELECT 1 FROM  pg_publication WHERE pubname = '" ++ info.publication_name ++ codes "'"

abbrev pub publication_command : ConnInfo → Bytes
publication_command info =
    codes "CREATE PUBLICATION " ++ info.publication_name ++ codes " FOR ALL TABLES"

abbrev pub start_command : ConnInfo → ℕ × ℕ → Bytes
start_command info (high, low) =
    codes "START_REPLICATION SLOT "
    ++ info.slot_name
    ++ codes " LOGICAL "
    ++ to_string high
    ++ codes "/"
    ++ to_string low
    ++ codes " (proto_version '"
    ++ info.proto_version
    ++ codes "', publication_names '\""
    ++ info.publication_name
    ++ codes "\"')"

module _ (pg : Postgres) (info : ConnInfo) where
  open pg use {connects, query_error, has_rows, command_ok, copy_both}

  unfoldable pub connect : Starting → Starting × Bool
  connect s =
      (record s { conn = connects (concate_to_string info) }, connects (concate_to_string info))

  unfoldable pub create_replication_slot : Starting → Starting × Bool
  create_replication_slot s = (
    execute (slot_query info) s,
    elim (query_error (slot_query info)) [
      | none ↦ true
      | some err ↦ contains (codes "already exists") err
    ],
  )

  unfoldable pub create_publication_all_tables : Starting → Starting × Bool
  create_publication_all_tables s =
      let checked = execute (publication_query info) s in
      if has_rows (publication_query info)
      then (checked, true)
      else (execute (publication_command info) checked, command_ok (publication_command info))

  abbrev pub at_restart : ℕ × ℕ → Starting → Starting
  at_restart (high, low) s = record s {
    replicator = record (s.replicator) {
      stats = record (s.replicator.stats) { restart_lsn_high = high; restart_lsn_low = low };
    };
  }

  -- Where the copy is asked for; `lsn` is the position from the configuration.
  unfoldable pub start_copy : ℕ × ℕ → Starting → Starting × Bool
  start_copy lsn s =
      let asked = execute (start_command info lsn) (at_restart lsn s) in
      if copy_both (start_command info lsn)
      then (record asked { replicator = record (asked.replicator) { replicating = true } }, true)
      else (asked, false)

  -- The answers of the two creations are dropped. A connection that fails stays set.
  unfoldable pub start_connection : ConfigManager → Starting → Outcome (Starting × Bool)
  start_connection config s =
      let created = (create_publication_all_tables (create_replication_slot s).0).0 in
      let opened = record created {
        replicator = record (created.replicator) { repl_conn = true };
      } in
      if connects (concate_to_string info ++ codes " replication=database")
      then (parse_lsn (get_value_by_key (codes "RESTART_LSN") config) >>= λ lsn.
          ok (start_copy lsn opened))
      else ok (opened, false)

  unfoldable pub start_replication_all : ConfigManager → Starting → Outcome (Starting × Bool)
  start_replication_all config s = if s.conn then start_connection config s else ok (s, false)

  unfoldable pub init_kafka : (List (Bytes × Bytes) → Bool) → Starting → Starting × Bool
  init_kafka create s =
      let (p, made) = init create info.brokers_names info.topic new_producer in
      (record s { replicator = record (s.replicator) { kafka_producer = some p } }, made)

  -- The constructor behind `connect` and `initKafka`; that startReplicationAll fails is no error here.
  unfoldable pub start_connected : Bool → Bool → ConfigManager → Starting → Outcome Starting
  start_connected false made config s = throw start_failed
  start_connected true false config s = throw start_failed
  start_connected true true config s = start_replication_all config s >>= λ (t, started). ok t

-- The constructor.
unfoldable pub new_replicator :
    Postgres
    → (Bytes → Option Bytes)
    → (Bytes → Option Bytes)
    → (List (Bytes × Bytes) → Bool)
    → ℕ
    → Outcome Starting
new_replicator pg getenv files create microseconds = do
  info ← new_conn_info getenv
  config ← open_config files (codes "../replicator.conf")
  let (connected, there) = connect pg info (new_state microseconds)
  let (producing, made) = init_kafka pg info create connected
  start_connected pg info there made config producing
