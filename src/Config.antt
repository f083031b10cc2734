-- ===== src/Config.antt =====
-- producer_azs/config_manager.cpp: the configuration file, and the position in it.
pub mod Lsn
pub mod Entries
pub mod File
use kafka_replication.Base.{
  ℕ, suc, ◌+◌, ◌-◌, ◌%◌, ◌^◌, Option, none, some, List, [], ◌∷◌, ◌==◌, if◌then◌else◌, Bytes, take,
  drop, bytes_eq, config_path_not_set, Outcome, ok, throw, ◌>>=◌,
}
use kafka_replication.Base.Text.{
  find_byte, find_first_not_of, find_last_not_of, substr, split_lines, stoul,
}

-- `values_`, a std::map.
abbrev pub Values : Type 0
Values = List (Bytes × Bytes)

unfoldable pub find_value : Bytes → Values → Option Bytes
find_value key [] = none
find_value key ((k, v) ∷ values) = if bytes_eq k key then some v else find_value key values

unfoldable pub assign_value : Bytes → Bytes → Values → Values
assign_value key value [] = (key, value) ∷ []
assign_value key value ((k, v) ∷ values) =
    if bytes_eq k key then (key, value) ∷ values else (k, v) ∷ assign_value key value values

pub record ConfigManager : Type 0 where
  pub filename : Bytes
  pub values : Values

-- `none` where a text is blank.
unfoldable pub trim_between : Option ℕ → Option ℕ → Bytes → Option Bytes
trim_between (some start) (some end) s = some (substr s start (end - start + 1))
trim_between none _ s = none
trim_between (some start) none s = none

unfoldable pub trim : Bytes → Option Bytes
trim s = trim_between (find_first_not_of s) (find_last_not_of s) s

-- A blank key skips the line; a blank value is the empty text.
unfoldable pub entry_of : Option Bytes → Option Bytes → Option (Bytes × Bytes)
entry_of none value = none
entry_of (some key) none = some (key, [])
entry_of (some key) (some value) = some (key, value)

unfoldable pub split_entry : Option ℕ → Bytes → Option (Bytes × Bytes)
split_entry none line = none
split_entry (some eq_pos) line = entry_of (trim (take eq_pos line)) (trim (drop (suc eq_pos) line))

-- The body of the loop in `load`, on one line.
unfoldable pub parse_line : Bytes → Option (Bytes × Bytes)
parse_line [] = none
parse_line (c ∷ line) =
    if c == b'#' then none else split_entry (find_byte b'=' (c ∷ line)) (c ∷ line)

unfoldable pub store_entry : Option (Bytes × Bytes) → Values → Values
store_entry none values = values
store_entry (some (key, value)) values = assign_value key value values

unfoldable pub load_lines : List Bytes → Values → Values
load_lines [] values = values
load_lines (line ∷ lines) values = load_lines lines (store_entry (parse_line line) values)

-- `file` is the text of the file, or `none` if it does not open.
unfoldable pub load : Option Bytes → ConfigManager → ConfigManager
load none config = config
load (some file) config = record config { values = load_lines (split_lines file) config.values }

-- The constructor; `files` are the files that can be opened.
unfoldable pub open_config : (Bytes → Option Bytes) → Bytes → Outcome ConfigManager
open_config files [] = throw config_path_not_set
open_config files (c ∷ name) =
    ok (load (files (c ∷ name)) (record { filename = c ∷ name; values = [] }))

abbrev pub or_empty : Option Bytes → Bytes
or_empty none = []
or_empty (some v) = v

unfoldable pub get_value_by_key : Bytes → ConfigManager → Bytes
get_value_by_key key config = or_empty (find_value key config.values)

unfoldable pub parse_halves : Option ℕ → Bytes → Outcome (ℕ × ℕ)
parse_halves none lsn_str = ok (0, 0)
parse_halves (some slash) lsn_str = do
  high ← stoul (take slash lsn_str)
  low ← stoul (drop (suc slash) lsn_str)
  ok (high % 2 ^ 32, low % 2 ^ 32)

-- `high` and `low` are 32-bit; the numbers are read in base ten.
unfoldable pub parse_lsn : Bytes → Outcome (ℕ × ℕ)
parse_lsn lsn_str = parse_halves (find_byte b'/' lsn_str) lsn_str

-- `save` has an empty body.
unfoldable pub save : Bytes → Bytes → ConfigManager → ConfigManager
save key value config = config
