-- ===== src/Writer/Inserted.antt =====
-- consumer_bo/database_writer.cpp: what comes of a message about an inserted row.
use kafka_replication.Base.{
  ◌≡◌, inl, inr, List, ◌∷◌, Bool-cases, Bytes, codes, bytes_eq, ok, fault, ◌++◌,
}
use kafka_replication.Json.{JsonLib}
use kafka_replication.Consumer.{JsonReader, ConsumerMessage}
use kafka_replication.Writer.{
  JsonPrinter, Server, DatabaseWriter, exec, create_table_if_not_exists, build_create_table_sql,
  table_exists,
}
use kafka_replication.Writer.Rows.{handler_incoming_data}
use kafka_replication.Writer.Statements.{IsTextMember, insert_row_undefined}

abbrev pub table_query : Bytes → Bytes
table_query table =
    codes "SELECT 1 FROM information_schema.tables WHERE table_name = '" ++ table ++ codes "'"

module _ (json : JsonLib) (reader : JsonReader json) (printer : JsonPrinter json)
    (server : Server) where
  open json use {Value}
  open printer use {member_names}
  open server use {answer}

  -- Whether the table is there or is created first, the row is not inserted where its first member is
  -- a text.
  pub handler_insert_undefined :
      (m : ConsumerMessage Value) (member : Bytes × Bytes) (keys : List Bytes) (w : DatabaseWriter)
      → m.op ≡ codes "INSERT"
      → member_names m.row ≡ ok (member.0 ∷ keys)
      → IsTextMember json reader printer server m.row member
      → handler_incoming_data json reader printer server m w ≡ fault
  unfolding handler_incoming_data create_table_if_not_exists build_create_table_sql table_exists
      exec bytes_eq
  handler_insert_undefined m member keys w op e h =
      let row = λ (w' : DatabaseWriter).
        insert_row_undefined json reader printer server m.table m.row member keys w' e h in
      elim (Bool-cases (answer w.executed (table_query m.table))) [
        | inl there ↦ rw (op, there, row (exec server (table_query m.table) w).0)
        | inr missing ↦ rw (op, missing, e, row _)
      ]
