-- ===== src/Replicator/Handlers.antt =====
-- producer_azs/postgresql_replicator.cpp: handleMessage and the handlers, which turn a message into
-- a JSON text and send it to Kafka.
use kafka_replication.Base.{
  ℕ, Bool, true, ◌||◌, Option, none, some, List, [], ◌∷◌, if◌then◌else◌, Bytes, codes, Outcome, ok,
  fault, ◌>>=◌,
}
use kafka_replication.Message.{
  ReplicationMessage, begin, relation, commit, insert, delete, update, truncate, RelationMessage,
  InsertMessage, DeleteMessage, UpdateMessage, TruncateMessage, get_relation_namespace, has_cascade,
  has_restart_identity,
}
use kafka_replication.Message.Cache.{RelationCache, get_cached_relation}
use kafka_replication.Json.{JsonLib}
use kafka_replication.Json.Rows.{fill_row, extract_key}
use kafka_replication.Producer.{LibrdKafkaProducer, ErrorCode, send_message}
use kafka_replication.Replicator.{PostgresqlReplicator, Answers}

module _ (json : JsonLib) where
  open json use {
    Value, null_value, array_value, of_string, of_int64, of_bool, set, append, get, write,
  }

  -- LibrdKafkaProducer::sendJson.
  unfoldable pub send_json :
      Value → Bytes → ErrorCode → LibrdKafkaProducer → LibrdKafkaProducer × Bool
  send_json j key resp p = send_message key (write j) resp p

  -- The members that the messages of a row share.
  unfoldable pub header : Bytes → RelationMessage → ℕ → Value
  header op r now =
      let v₁ = set null_value (codes "op") (of_string op) in
      let v₂ = set v₁ (codes "table") (of_string r.relation_name) in
      let v₃ = set v₂ (codes "schema") (of_string (get_relation_namespace r)) in
      set v₃ (codes "timestamp") (of_int64 now)

  unfoldable pub insert_json : RelationMessage → Value → ℕ → Value
  insert_json r row now =
      let message = set (header (codes "INSERT") r now) (codes "data") row in
      set message (codes "primary") (of_string (extract_key json row r.columns).0)

  unfoldable pub with_before : RelationMessage → List Bytes → Value → Outcome Value
  with_before r [] message = ok message
  with_before r (x ∷ xs) message = do
    old_data ← fill_row json r.columns (x ∷ xs) null_value
    ok (set message (codes "before") old_data)

  unfoldable pub update_json : RelationMessage → Value → Value → Value
  update_json r row message =
      set (set message (codes "after") row) (codes "primary")
        (of_string (extract_key json row r.columns).0)

  unfoldable pub delete_json : RelationMessage → Value → ℕ → Value
  delete_json r row now =
      let message = set (header (codes "DELETE") r now) (codes "before") row in
      set message (codes "primary") (of_string (extract_key json row r.columns).0)

  -- The producer behind the pointer sends; the answer is dropped.
  unfoldable pub send_row :
      RelationMessage
      → Value
      → Value
      → Answers
      → LibrdKafkaProducer
      → PostgresqlReplicator
      → PostgresqlReplicator
  send_row r row message answers p state =
      let key = (extract_key json row r.columns).1 in
      record state { kafka_producer = some (send_json message key answers.produce p).0 }

  unfoldable pub insert_row :
      InsertMessage
      → Answers
      → Option RelationMessage
      → Option LibrdKafkaProducer
      → PostgresqlReplicator
      → Outcome PostgresqlReplicator
  insert_row ins answers none p state = ok state
  insert_row ins answers (some r) none state = ok state
  insert_row ins answers (some r) (some p) state = do
    data' ← fill_row json r.columns ins.new_tuple null_value
    ok (send_row r data' (insert_json r data' answers.milliseconds) answers p state)

  unfoldable pub handle_insert :
      InsertMessage → Answers → PostgresqlReplicator → Outcome PostgresqlReplicator
  handle_insert ins answers state =
      insert_row ins answers (get_cached_relation ins.relation_id state.relations)
        state.kafka_producer state

  unfoldable pub update_row :
      UpdateMessage
      → Answers
      → Option RelationMessage
      → Option LibrdKafkaProducer
      → PostgresqlReplicator
      → Outcome PostgresqlReplicator
  update_row upd answers none p state = ok state
  update_row upd answers (some r) none state = ok state
  update_row upd answers (some r) (some p) state = do
    message ← with_before r upd.old_tuple (header (codes "UPDATE") r answers.milliseconds)
    new_data ← fill_row json r.columns upd.new_tuple null_value
    ok (send_row r new_data (update_json r new_data message) answers p state)

  unfoldable pub handle_update :
      UpdateMessage → Answers → PostgresqlReplicator → Outcome PostgresqlReplicator
  handle_update upd answers state =
      update_row upd answers (get_cached_relation upd.relation_id state.relations)
        state.kafka_producer state

  unfoldable pub delete_row :
      DeleteMessage
      → Answers
      → Option RelationMessage
      → Option LibrdKafkaProducer
      → PostgresqlReplicator
      → Outcome PostgresqlReplicator
  delete_row del answers none p state = ok state
  delete_row del answers (some r) none state = ok state
  delete_row del answers (some r) (some p) state = do
    old_data ← fill_row json r.columns del.old_tuple null_value
    ok (send_row r old_data (delete_json r old_data answers.milliseconds) answers p state)

  unfoldable pub handle_delete :
      DeleteMessage → Answers → PostgresqlReplicator → Outcome PostgresqlReplicator
  handle_delete del answers state =
      delete_row del answers (get_cached_relation del.relation_id state.relations)
        state.kafka_producer state

  unfoldable pub append_table : Option RelationMessage → Value → Value
  append_table none tables = tables
  append_table (some r) tables =
      let info = set null_value (codes "schema") (of_string (get_relation_namespace r)) in
      append tables (set info (codes "table") (of_string r.relation_name))

  -- The relations that are cached, as a JSON array.
  unfoldable pub truncated_tables : RelationCache → List ℕ → Value → Value
  truncated_tables cache [] tables = tables
  truncated_tables cache (oid ∷ oids) tables =
      truncated_tables cache oids (append_table (get_cached_relation oid cache) tables)

  unfoldable pub truncate_options : TruncateMessage → Value
  truncate_options m =
      let cascade =
        if has_cascade m then set null_value (codes "cascade") (of_bool true) else null_value in
      if has_restart_identity m
      then set cascade (codes "restart_identity") (of_bool true)
      else cascade

  unfoldable pub truncate_json : RelationCache → TruncateMessage → ℕ → Value
  truncate_json cache m now =
      let v₁ = set null_value (codes "op") (of_string (codes "TRUNCATE")) in
      let v₂ = set v₁ (codes "timestamp") (of_int64 now) in
      let v₃ = set v₂ (codes "tables") (truncated_tables cache m.relation_ids array_value) in
      if has_cascade m || has_restart_identity m
      then set v₃ (codes "options") (truncate_options m)
      else v₃

  unfoldable pub truncate_tables :
      TruncateMessage
      → Answers
      → Option LibrdKafkaProducer
      → PostgresqlReplicator
      → PostgresqlReplicator
  truncate_tables m answers none state = state
  truncate_tables m answers (some p) state = record state {
    kafka_producer =
        some
          (send_json (truncate_json state.relations m answers.milliseconds) [] answers.produce p).0;
  }

  unfoldable pub handle_truncate :
      TruncateMessage → Answers → PostgresqlReplicator → Outcome PostgresqlReplicator
  handle_truncate m answers state = ok (truncate_tables m answers state.kafka_producer state)

  -- `msg->getType()` through a null pointer is undefined.
  unfoldable pub handle_message :
      Option ReplicationMessage → Answers → PostgresqlReplicator → Outcome PostgresqlReplicator
  handle_message none answers state = fault
  handle_message (some (insert m)) answers state = handle_insert m answers state
  handle_message (some (update m)) answers state = handle_update m answers state
  handle_message (some (delete m)) answers state = handle_delete m answers state
  handle_message (some (truncate m)) answers state = handle_truncate m answers state
  handle_message (some (begin m)) answers state = ok state
  handle_message (some (commit m)) answers state = ok state
  handle_message (some (relation m)) answers state = ok state
