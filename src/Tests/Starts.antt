-- ===== src/Tests/Starts.antt =====
-- A start with an existing publication.
use kafka_replication.Base.{
  ◌≡◌, refl, true, none, [], ◌∷◌, ◌++◌, codes, bytes_eq, ok, Bytes, arith, Option, if◌then◌else◌,
  some,
}
use kafka_replication.Config.{ConfigManager, get_value_by_key, parse_lsn, find_value, parse_halves}
use kafka_replication.Base.Text.{find_byte, stoul, read_sign, read_digits}
use kafka_replication.Settings.{ConnInfo, new_conn_info}
use kafka_replication.Base.Text.{show_int}
use kafka_replication.Settings.Environment.{IsEnvironment, new_conn_info-environment}
use kafka_replication.Base.Int.{pos}
use kafka_replication.Consumer.{Kafka}
use kafka_replication.Startup.{Postgres, Starting, new_state, start_replication_all}
use kafka_replication.Startup.Position.{preparations, start_replication_all_lem, asks_stream}

abbrev pub info : ConnInfo
info = record {
  host = codes "db";
  port = pos 5432;
  db_name = codes "shop";
  db_user = codes "reader";
  db_password = codes "secret";
  group_id = codes "writers";
  slot_name = codes "slot";
  output_plugin = codes "pgoutput";
  publication_name = codes "pub";
  proto_version = codes "1";
  brokers_names = codes "kafka";
  topic = codes "changes";
}

abbrev pub pg : Postgres
pg = record {
  connects = λ text. true;
  query_error = λ sql. none;
  has_rows = λ sql. true;
  command_ok = λ sql. true;
  copy_both = λ sql. true;
}

abbrev pub config : ConfigManager
config = record { filename = codes "f"; values = (codes "RESTART_LSN", codes "2/7") ∷ [] }

abbrev connected : Starting
connected = record (new_state 5) { conn = true }

position : parse_lsn (get_value_by_key (codes "RESTART_LSN") config) ≡ ok (2, 7)
unfolding parse_lsn parse_halves get_value_by_key find_value bytes_eq find_byte stoul read_sign
    read_digits
position = refl

start_replication_all_lem_example :
    (t : Starting) × (start_replication_all pg info config connected ≡ ok (t, true))
    × (t.executed ≡ [] ++ preparations pg info ++ asks_stream info 2 7 ∷ [])
    × (t.replicator.stats.restart_lsn_high ≡ 2)
    × (t.replicator.stats.restart_lsn_low ≡ 7)
    × (t.replicator.replicating ≡ true)
start_replication_all_lem_example =
    start_replication_all_lem pg info config connected 2 7 refl refl position

abbrev pub environment : Bytes → Option Bytes
environment name =
    if bytes_eq name (codes "HOSTNAME")
    then some info.host
    else if bytes_eq name (codes "MCC_DB_PORT")
    then some (show_int info.port)
    else if bytes_eq name (codes "DBNAME_REPLICA")
    then some info.db_name
    else if bytes_eq name (codes "MCC_DB_USER")
    then some info.db_user
    else if bytes_eq name (codes "MCC_DB_PASSWORD")
    then some info.db_password
    else if bytes_eq name (codes "SLOT_NAME")
    then some info.slot_name
    else if bytes_eq name (codes "PUBLICATION_NAME")
    then some info.publication_name
    else if bytes_eq name (codes "OUTPUT_PLUGIN")
    then some info.output_plugin
    else if bytes_eq name (codes "PROTO_VERSION")
    then some info.proto_version
    else if bytes_eq name (codes "BROKERS")
    then some info.brokers_names
    else if bytes_eq name (codes "TOPIC")
    then some info.topic
    else if bytes_eq name (codes "GROUP_ID_KAFKA")
    then some info.group_id
    else none

pub environment-IsEnvironment : IsEnvironment environment info
unfolding bytes_eq
environment-IsEnvironment = record {
  host = refl;
  port = refl;
  db_name = refl;
  db_user = refl;
  db_password = refl;
  slot_name = refl;
  publication_name = refl;
  output_plugin = refl;
  proto_version = refl;
  brokers_names = refl;
  topic = refl;
  group_id = refl;
}

new_conn_info-environment_example : new_conn_info environment ≡ ok info
new_conn_info-environment_example =
    new_conn_info-environment environment info environment-IsEnvironment (omega arith)

abbrev pub kafka : Kafka
kafka = record {
  creates = λ topic_conf conf. true;
  subscribes = λ topic. bytes_eq topic info.topic;
}
