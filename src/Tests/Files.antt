-- ===== src/Tests/Files.antt =====
-- Configuration files and positions.
use kafka_replication.Base.{◌≡◌, refl, inl, some, [], ◌∷◌, ◌++◌, arith, codes, bytes_eq, ok}
use kafka_replication.Base.Text.{to_string, find_first_not_of, find_last_not_of}
use kafka_replication.Config.{parse_lsn, load, get_value_by_key}
use kafka_replication.Tests.Doubles.{avoids-All}
use kafka_replication.Config.Lsn.{parse_lsn-to_string}
use kafka_replication.Config.Entries.{IsTrimmed}
use kafka_replication.Config.File.{
  Line, IsLine, left, text_of, last_value, file_of, get_value_by_key-load,
}

parse_lsn-to_string_example :
    parse_lsn (to_string 22 ++ b'/' ∷ (to_string 3 ++ codes "D40")) ≡ ok (22, 3)
parse_lsn-to_string_example =
    parse_lsn-to_string 22 3 (codes "D40") (omega arith) (omega arith) refl

-- A line with the value `db`.
abbrev host_line : Line
host_line = record {
  front = codes " ";
  key = codes "host";
  behind_key = codes " ";
  before_value = codes " ";
  value = codes "db";
  back = [];
}

host-IsTrimmed : IsTrimmed (codes "host")
unfolding find_first_not_of find_last_not_of
host-IsTrimmed = record { first = refl; last = refl; ne_nil = omega arith }

db-IsTrimmed : IsTrimmed (codes "db")
unfolding find_first_not_of find_last_not_of
db-IsTrimmed = record { first = refl; last = refl; ne_nil = omega arith }

host_line-IsLine : IsLine host_line
host_line-IsLine = record {
  front = (refl, tt);
  behind_key = (refl, tt);
  before_value = (refl, tt);
  back = tt;
  key = host-IsTrimmed;
  value = inl db-IsTrimmed;
  no_equals = avoids-All b'=' (left host_line) refl;
  no_comment = refl;
  one_line = avoids-All b'\n' (text_of host_line) refl;
}

get_value_by_key-load_example :
    get_value_by_key
      (codes "host")
      (load (some (file_of (host_line ∷ []))) (record { filename = codes "f"; values = [] }))
    ≡ codes "db"
unfolding last_value bytes_eq
get_value_by_key-load_example =
    get_value_by_key-load (codes "host") (host_line ∷ [])
      (record { filename = codes "f"; values = [] }) (host_line-IsLine, tt)
