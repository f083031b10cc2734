-- ===== src/Writer/Statements.antt =====
-- consumer_bo/database_writer.cpp: the statements that come of rows, and the rows of which none comes.
use kafka_replication.Base.{
  ℕ, ◌+◌, ◌≡◌, Bool, List, [], ◌∷◌, ◌++◌, map, Bytes, codes, length, ok, fault, leb, Bool-cases,
  inl, inr,
}
use kafka_replication.Json.{JsonLib, string_type}
use kafka_replication.Consumer.{JsonReader}
use kafka_replication.Writer.{
  JsonPrinter, Server, DatabaseWriter, quoted_name, escape_string, write_text, delete_array,
  is_null, is_string, literal,
}
use kafka_replication.Writer.Rows.{
  inserted_bool, updated_bool, insert_lists, insert_row, key_column, key_value, set_clause,
  update_row, delete_row,
}

-- The texts with commas between them.
abbrev pub commas_behind : List Bytes → Bytes
commas_behind [] = []
commas_behind (x ∷ xs) = (codes ", " ++ x) ++ commas_behind xs

abbrev pub commas : List Bytes → Bytes
commas [] = []
commas (x ∷ xs) = x ++ commas_behind xs

abbrev pub names : List (Bytes × Bytes) → List Bytes
names = map (λ (key, text). key)

pub escape_string-fault : (server : Server) (text : Bytes) → escape_string server text ≡ fault
unfolding escape_string write_text delete_array
escape_string-fault server text = elim (Bool-cases (leb (length (server.escape text) + 1) 1)) [
  | inl fits ↦ rw fits
  | inr too_long ↦ rw too_long
]

module _ (json : JsonLib) (reader : JsonReader json) (printer : JsonPrinter json)
    (server : Server) where
  open json use {Value, get, type}
  open reader use {as_string, member}
  open printer use {member_names}

  -- A member that is a text.
  pub record IsTextMember (row : Value) (m : Bytes × Bytes) : Type 0 where
    pub string : type (get row m.0) ≡ string_type
    pub text : as_string (get row m.0) ≡ ok m.1

  literal_text :
      (show_bool : Bool → Bytes) (row : Value) (m : Bytes × Bytes)
      → IsTextMember row m
      → literal json reader printer server show_bool (get row m.0) ≡ fault
  unfolding literal is_null is_string
  literal_text show_bool row m k = rw (k.string, k.text, escape_string-fault server m.1)

  -- A row with a text as its first member is not inserted: escapeString is undefined on every text.
  pub insert_row_undefined :
      (table_name : Bytes) (row : Value) (m : Bytes × Bytes) (keys : List Bytes)
      (w : DatabaseWriter)
      → member_names row ≡ ok (m.0 ∷ keys)
      → IsTextMember row m
      → insert_row json reader printer server table_name row w ≡ fault
  unfolding insert_row insert_lists
  insert_row_undefined table_name row m keys w e h =
      rw (e, literal_text (inserted_bool json reader printer server) row m h)

  -- Nor is such a row the new one of an update.
  pub update_row_undefined :
      (table_name : Bytes) (before after : Value) (b : ℕ) (bs key : Bytes) (v : Value)
      (keys : List Bytes) (m : Bytes × Bytes) (more : List Bytes) (w : DatabaseWriter)
      → member_names before ≡ ok keys
      → member before (b ∷ bs) ≡ ok v
      → as_string v ≡ ok key
      → member_names after ≡ ok (m.0 ∷ more)
      → IsTextMember after m
      → update_row json reader printer server table_name before after (b ∷ bs) w ≡ fault
  unfolding update_row key_column key_value set_clause
  update_row_undefined table_name before after b bs key v keys m more w e e₁ e₂ e₃ h =
      rw (e, e₁, e₂, e₃, literal_text (updated_bool json reader printer server) after m h)

  -- A member with the literal that is written for it, which is no text: null, a number or a Boolean.
  abbrev pub IsLiteral : Value → Bytes × Bytes → Type 0
  IsLiteral row m =
      literal json reader printer server (updated_bool json reader printer server) (get row m.0)
      ≡ ok m.1

  abbrev pub assigned : List (Bytes × Bytes) → List Bytes
  assigned = map (λ (key, written). quoted_name key ++ written)

  -- Where the old row is missing or empty, an update or a delete with no primary key reads the first
  -- of no members.
  pub no_key_crash :
      (table_name : Bytes) (before after : Value) (w : DatabaseWriter)
      → member_names before ≡ ok []
      → (update_row json reader printer server table_name before after [] w ≡ fault)
        × (delete_row json reader printer server table_name before [] w ≡ fault)
  unfolding update_row delete_row key_column
  no_key_crash table_name before after w e = (rw e, rw e)
