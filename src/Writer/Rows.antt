-- ===== src/Writer/Rows.antt =====
-- consumer_bo/database_writer.cpp: the statements for the rows of a message.
use kafka_replication.Base.{
  Bool, true, false, List, [], ◌∷◌, ◌++◌, if◌then◌else◌, Bytes, codes, bytes_eq, Outcome, ok, fault,
  ◌>>=◌,
}
use kafka_replication.Json.{JsonLib}
use kafka_replication.Consumer.{JsonReader, ConsumerMessage}
use kafka_replication.Writer.{
  JsonPrinter, Server, DatabaseWriter, exec, separated, quoted_name, quoted_text, literal,
  create_table_if_not_exists,
}

module _ (json : JsonLib) (reader : JsonReader json) (printer : JsonPrinter json)
    (server : Server) where
  open json use {Value, get}
  open reader use {as_string, member}
  open printer use {member_names}

  -- In insertRow, `values << b ? "TRUE" : "FALSE"` prints the Boolean itself.
  abbrev pub inserted_bool : Bool → Bytes
  inserted_bool b = if b then codes "1" else codes "0"

  abbrev pub updated_bool : Bool → Bytes
  updated_bool b = if b then codes "TRUE" else codes "FALSE"

  -- The two streams of insertRow.
  unfoldable pub insert_lists : Bool → List Bytes → Value → Outcome (Bytes × Bytes)
  insert_lists first [] row = ok ([], [])
  insert_lists first (key ∷ keys) row = do
    value ← literal json reader printer server inserted_bool (get row key)
    (columns, values) ← insert_lists false keys row
    ok (separated first (quoted_name key) ++ columns, separated first value ++ values)

  unfoldable pub insert_row : Bytes → Value → DatabaseWriter → Outcome (DatabaseWriter × Bool)
  insert_row table_name row w = do
    members ← member_names row
    (columns, values) ← insert_lists true members row
    ok (
        exec server
          (codes "INSERT INTO "
            ++ table_name
            ++ codes " ("
            ++ columns
            ++ codes ") VALUES ("
            ++ values
            ++ codes ")")
          w)

  -- The primary key, or the first member, which is undefined if there is none.
  unfoldable pub key_column : Bytes → List Bytes → Outcome Bytes
  key_column (b ∷ primary_key) members = ok (b ∷ primary_key)
  key_column [] (key ∷ keys) = ok key
  key_column [] [] = fault

  -- The key's value in `before`, quoted but not escaped.
  unfoldable pub key_value : Bytes → Value → Outcome Bytes
  key_value column before = member before column >>= as_string >>= λ text. ok (quoted_text text)

  abbrev pub where_key : Bytes → Bytes → Bytes
  where_key column value = codes " WHERE " ++ quoted_name column ++ codes " = " ++ value

  -- The stream of updateRow: the name and the value, with nothing between them.
  unfoldable pub set_clause : Bool → List Bytes → Value → Outcome Bytes
  set_clause first [] row = ok []
  set_clause first (key ∷ keys) row = do
    value ← literal json reader printer server updated_bool (get row key)
    rest ← set_clause false keys row
    ok (separated first (quoted_name key) ++ value ++ rest)

  unfoldable pub update_row :
      Bytes → Value → Value → Bytes → DatabaseWriter → Outcome (DatabaseWriter × Bool)
  update_row table_name before after primary_key w = do
    members_before ← member_names before
    column ← key_column primary_key members_before
    value ← key_value column before
    members_after ← member_names after
    sets ← set_clause true members_after after
    ok (
        exec server
          (codes "UPDATE " ++ table_name ++ codes " SET " ++ sets ++ where_key column value) w)

  unfoldable pub delete_row :
      Bytes → Value → Bytes → DatabaseWriter → Outcome (DatabaseWriter × Bool)
  delete_row table_name before primary_key w = do
    members ← member_names before
    column ← key_column primary_key members
    value ← key_value column before
    ok (exec server (codes "DELETE FROM " ++ table_name ++ where_key column value) w)

  unfoldable pub handler_incoming_data :
      ConsumerMessage Value → DatabaseWriter → Outcome (DatabaseWriter × Bool)
  handler_incoming_data m w =
      if bytes_eq m.op (codes "INSERT")
      then (create_table_if_not_exists json reader printer server m.table m.row w >>= λ (w', _).
          insert_row m.table m.row w')
      else if bytes_eq m.op (codes "UPDATE")
      then update_row m.table m.before m.after m.primary_key w
      else if bytes_eq m.op (codes "DELETE")
      then delete_row m.table m.before m.primary_key w
      else ok (w, false)
