-- ===== src/Tests/Runs.antt =====
-- The producer from its start to a keepalive.
use kafka_replication.Base.{◌≡◌, refl, true, some, List, [], ◌∷◌, ◌++◌, arith, codes, bytes_eq, ok}
use kafka_replication.Base.Text.{
  find_byte, stoul, read_sign, read_digits, split_lines, find_first_not_of, find_last_not_of,
}
use kafka_replication.Config.{
  open_config, load, load_lines, parse_line, trim, trim_between, entry_of, split_entry, store_entry,
  assign_value, get_value_by_key, find_value, parse_lsn, parse_halves,
}
use kafka_replication.Startup.Position.{preparations}
use kafka_replication.Startup.{
  no_lsn, start_command, Starting, new_replicator, connect, init_kafka, start_connected,
  start_replication_all, start_connection, create_replication_slot, create_publication_all_tables,
  start_copy,
}
use kafka_replication.Settings.Environment.{new_conn_info-environment}
use kafka_replication.Producer.{init, new_producer}
use kafka_replication.Replicator.{PostgresqlReplicator, Answers, send_standby_status_update}
use kafka_replication.Replicator.Packets.{
  CopyData, copy_row, read_loop, read_step, process_replication_message,
  start_read_replication_messages, parse_packet, packet_switch, catch_packet,
}
use kafka_replication.Replicator.Refinement.{acknowledge}
use kafka_replication.Replicator.Words.{IsReplicator}
use kafka_replication.Programs.{Surroundings, producer_run}
use kafka_replication.Programs.Producer.{producer_run-acknowledge, producer_run-IsReplicator}
use kafka_replication.Tests.Doubles.{big_host, node_json, answers, only_bytes-All}
use kafka_replication.Tests.Starts.{info, pg, environment, environment-IsEnvironment}

abbrev surroundings : Surroundings
surroundings = record {
  pg = pg;
  getenv = environment;
  files = λ name. some (codes "RESTART_LSN=2/7\n");
  create = λ conf. true;
  microseconds = 5;
}

abbrev keepalive : List (CopyData × Answers)
keepalive = (copy_row b'k' [], answers) ∷ []

abbrev up : PostgresqlReplicator
up = record {
  replicating = true;
  kafka_producer = some (record new_producer { created = true; topic_name = codes "changes" });
  repl_conn = true;
  relations = [];
  stats = record (no_lsn 5) { restart_lsn_high = 2; restart_lsn_low = 7 };
  replies = [];
}

abbrev started : Starting
started = record {
  conn = true;
  executed = preparations pg info ++ start_command info (2, 7) ∷ [];
  replicator = up;
}

made : new_replicator pg environment surroundings.files surroundings.create 5 ≡ ok started
unfolding new_replicator open_config load load_lines split_lines parse_line trim trim_between
    entry_of split_entry store_entry find_byte find_first_not_of find_last_not_of assign_value
    get_value_by_key find_value bytes_eq parse_lsn parse_halves stoul read_sign read_digits connect
    init_kafka init start_connected start_replication_all start_connection create_replication_slot
    create_publication_all_tables start_copy
made = rw (new_conn_info-environment environment info environment-IsEnvironment (omega arith)) refl

abbrev reached : PostgresqlReplicator
reached = send_standby_status_update answers up

runs : producer_run big_host node_json surroundings keepalive ≡ ok reached
unfolding producer_run start_read_replication_messages read_loop read_step
    process_replication_message parse_packet packet_switch catch_packet send_standby_status_update
runs = rw made refl

producer_run-acknowledge_example : reached.replies ≡ acknowledge 0 keepalive (0, 0)
producer_run-acknowledge_example =
    producer_run-acknowledge big_host node_json surroundings keepalive reached runs

producer_run-IsReplicator_example : IsReplicator reached
producer_run-IsReplicator_example =
    producer_run-IsReplicator big_host node_json surroundings keepalive reached
      (only_bytes-All (b'k' ∷ []) refl, tt) runs
