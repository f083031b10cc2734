-- ===== src/Writer.antt =====
-- consumer_bo/database_writer.cpp: DatabaseWriter, which turns a message into SQL. PostgreSQL and
-- JsonCpp are parameters.
pub mod Rows
pub mod Statements
pub mod Inserted
use kafka_replication.Base.{
  ℕ, zero, suc, ◌+◌, ◌-◌, ◌*◌, ◌/◌, ◌%◌, ◌^◌, ◌≤◌, ◌<◌, bit_and, ◌≡◌, refl, sym, ap, ◌∙◌, subst,
  ◌≢◌, ◌↔◌, ◌⊎◌, inl, inr, Bool, true, false, ◌&&◌, ◌||◌, not, Option, none, some, List, [], ◌∷◌,
  ◌++◌, map, append-nil, append_assoc, arith, ltb, leb, ◌==◌, if◌then◌else◌, ltb→lt, lt→ltb, le→ltb,
  leb→le, le→leb, lt→leb, ==_iff, ==_self, ==_ne, Bool-cases, Option-cases, Bytes, codes, length,
  get_elem?, take, drop, replicate, All, length-append, length-drop, get_elem?-drop, drop-suc,
  drop-append, take-append, drop-append_at, get_elem?-lt, length-map, bytes_eq, bytes_eq_iff,
  bytes_eq_self, bytes_eq_ne, Error, buffer_underflow, string_underflow, not_null_terminated,
  bad_alloc, invalid_argument, out_of_range, logic_error, wal_too_short, config_path_not_set,
  not_replicating, read_failed, start_failed, Outcome, ok, throw, fault, ◌>>=◌, >>=-eq-ok,
  Outcome-cases,
}
use kafka_replication.Json.{JsonLib, ValueType, null_type, string_type, boolean_type}
use kafka_replication.Settings.{new_conn_info, concate_to_string}
use kafka_replication.Consumer.{JsonReader, ConsumerMessage}

-- The part of JsonCpp that only the writer uses: `isInt`, `isInt64` and `isDouble`, the texts that
-- `<<` prints for the numbers, `asBool`, `toStyledString`, and `getMemberNames`, which throws.
pub record JsonPrinter (json : JsonLib) : Type 0 where
  pub is_int : json.Value → Bool
  pub is_int64 : json.Value → Bool
  pub is_double : json.Value → Bool
  pub show_int : json.Value → Bytes
  pub show_int64 : json.Value → Bytes
  pub show_double : json.Value → Bytes
  pub as_bool : json.Value → Bool
  pub to_styled : json.Value → Bytes
  pub member_names : json.Value → Outcome (List Bytes)

-- `answer` tells, after the statements so far, whether a statement succeeds, or for the query of
-- tableExists, whether it has a row. `escape` is PQescapeStringConn.
pub record Server : Type 0 where
  pub answer : List Bytes → Bytes → Bool
  pub escape : Bytes → Bytes

-- `executed` holds the statements that were handed to PQexec, oldest first.
pub record DatabaseWriter : Type 0 where
  pub connected : Bool
  pub running : Bool
  pub executed : List Bytes

-- `connects` tells whether the connection's status is CONNECTION_OK.
unfoldable pub connect : Bool → DatabaseWriter → DatabaseWriter × Bool
connect connects w = (record w { connected = connects }, connects)

unfoldable pub started_writer : Bool → DatabaseWriter → Outcome DatabaseWriter
started_writer running w = if running then ok (record w { running = true }) else throw start_failed

-- The constructor.
unfoldable pub new_writer : (Bytes → Option Bytes) → (Bytes → Bool) → Outcome DatabaseWriter
new_writer getenv connects = do
  info ← new_conn_info getenv
  let (w, running) =
      connect (connects (concate_to_string info))
        (record { connected = false; running = false; executed = [] })
  started_writer running w

-- A comma in front of all texts but the first.
unfoldable pub separated : Bool → Bytes → Bytes
separated first s = if first then s else codes ", " ++ s

abbrev pub quoted_name : Bytes → Bytes
quoted_name key = b'"' ∷ key ++ b'"' ∷ []

abbrev pub quoted_text : Bytes → Bytes
quoted_text s = b'\'' ∷ s ++ b'\'' ∷ []

-- What `new` gives: one char, or an array of them.
pub data Block : Type 0 where
  one_char : Block
  char_array : ℕ → Block

abbrev pub block_size : Block → ℕ
block_size one_char = 1
block_size (char_array n) = n

-- A text is written into a block with its final zero, and read back; past the end it is undefined.
unfoldable pub write_text : Block → Bytes → Outcome Bytes
write_text block s = if leb (length s + 1) (block_size block) then ok s else fault

-- `delete[]` behind the text that has been read.
unfoldable pub delete_array : Block → Bytes → Outcome Bytes
delete_array one_char result = fault
delete_array (char_array n) result = ok result

module _ (server : Server) where
  open server use {answer, escape}

  unfoldable pub exec : Bytes → DatabaseWriter → DatabaseWriter × Bool
  exec sql w = (record w { executed = w.executed ++ sql ∷ [] }, answer w.executed sql)

  unfoldable pub table_exists : Bytes → DatabaseWriter → DatabaseWriter × Bool
  table_exists table_name = exec (
      codes "SELECT 1 FROM information_schema.tables WHERE table_name = '"
      ++ table_name
      ++ codes "'")

  -- `new char(len * 2 + 1)` is one char with that value, no array: the escaped text and its final
  -- zero have room there only if the text is empty, and `delete[]` is undefined on it in any case.
  unfoldable pub escape_string : Bytes → Outcome Bytes
  escape_string str = do result ← write_text one_char (escape str); delete_array one_char result

abbrev pub null_test : ValueType → Bool
null_test null_type = true
null_test _ = false

abbrev pub string_test : ValueType → Bool
string_test string_type = true
string_test _ = false

abbrev pub bool_test : ValueType → Bool
bool_test boolean_type = true
bool_test _ = false

module _ (json : JsonLib) (reader : JsonReader json) (printer : JsonPrinter json)
    (server : Server) where
  open json use {Value, get, type}
  open reader use {as_string, member}
  open printer use {
    is_int, is_int64, is_double, show_int, show_int64, show_double, as_bool, to_styled,
    member_names,
  }

  unfoldable pub is_null : Value → Bool
  is_null v = null_test (type v)

  unfoldable pub is_string : Value → Bool
  is_string v = string_test (type v)

  unfoldable pub is_bool : Value → Bool
  is_bool v = bool_test (type v)

  unfoldable pub get_column_type : Value → Bytes
  get_column_type v =
      if is_int v
      then codes "INTEGER"
      else if is_int64 v
      then codes "BIGINT"
      else if is_double v
      then codes "DOUBLE PRECISION"
      else if is_bool v
      then codes "BOOLEAN"
      else codes "TEXT"

  unfoldable pub column_list : Bool → List Bytes → Value → Bytes
  column_list first [] row = []
  column_list first (key ∷ keys) row =
      separated first (quoted_name key ++ b' ' ∷ get_column_type (get row key))
      ++ column_list false keys row

  unfoldable pub build_create_table_sql : Bytes → Value → Outcome Bytes
  build_create_table_sql table_name row = do
    members ← member_names row
    ok (
        codes "CREATE TABLE IF NOT EXISTS "
        ++ table_name
        ++ codes " ("
        ++ column_list true members row
        ++ codes ")")

  unfoldable pub create_table_if_not_exists :
      Bytes → Value → DatabaseWriter → Outcome (DatabaseWriter × Bool)
  create_table_if_not_exists table_name row w =
      let (w', exists) = table_exists server table_name w in
      if exists
      then ok (w', true)
      else (build_create_table_sql table_name row >>= λ sql. ok (exec server sql w'))

  -- A value in a statement; the last argument is the text of a Boolean.
  unfoldable pub literal : (Bool → Bytes) → Value → Outcome Bytes
  literal show_bool v =
      if is_null v
      then ok (codes "NULL")
      else if is_string v
      then (as_string v >>= λ s. escape_string server s >>= λ e. ok (quoted_text e))
      else if is_int v
      then ok (show_int v)
      else if is_int64 v
      then ok (show_int64 v)
      else if is_double v
      then ok (show_double v)
      else if is_bool v
      then ok (show_bool (as_bool v))
      else (escape_string server (to_styled v) >>= λ e. ok (quoted_text e))
