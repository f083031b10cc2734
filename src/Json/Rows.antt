-- ===== src/Json/Rows.antt =====
-- producer_azs/postgresql_replicator.cpp: the rows of a message as JSON objects, and extractKey.
use kafka_replication.Base.{
  bit_and, ◌&&◌, not, Option, none, some, List, [], ◌∷◌, ◌==◌, if◌then◌else◌, Bytes, Outcome, ok,
  fault,
}
use kafka_replication.Message.{Column}
use kafka_replication.Json.{JsonLib}

module _ (json : JsonLib) where
  open json use {Value, null_value, of_string, set, is_member, get, write}

  -- `data[cols[i].name] = new_cols[i]` for each value; `cols[i]` out of range is undefined.
  unfoldable pub fill_row : List Column → List Bytes → Value → Outcome Value
  fill_row cols [] row = ok row
  fill_row [] (x ∷ xs) row = fault
  fill_row (c ∷ cols) (x ∷ xs) row = fill_row cols xs (set row c.name (of_string x))

  -- The first column of the key that the row holds.
  unfoldable pub find_key : Value → List Column → Option Bytes
  find_key row [] = none
  find_key row (c ∷ cols) =
      if not (bit_and c.flags 1 == 0) && is_member row c.name
      then some c.name
      else find_key row cols

  unfoldable pub first_column : Value → List Column → Option Bytes
  first_column row [] = none
  first_column row (c ∷ cols) = if is_member row c.name then some c.name else none

  unfoldable pub key_of : Value → Option Bytes → Option Bytes → Bytes × Bytes
  key_of row (some name) fallback = (name, write (get row name))
  key_of row none (some name) = (name, write (get row name))
  key_of row none none = ([], [])

  unfoldable pub extract_key : Value → List Column → Bytes × Bytes
  extract_key row cols = key_of row (find_key row cols) (first_column row cols)
