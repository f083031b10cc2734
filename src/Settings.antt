-- ===== src/Settings.antt =====
-- shared_structures.h, struct ConnInfo: the connection settings, from the environment.
pub mod Environment
use kafka_replication.Base.{
  ℕ, zero, suc, ◌+◌, ◌-◌, ◌*◌, ◌/◌, ◌%◌, ◌^◌, ◌≤◌, ◌<◌, bit_and, ◌≡◌, refl, sym, ap, ◌∙◌, subst,
  ◌≢◌, ◌↔◌, ◌⊎◌, inl, inr, Bool, true, false, ◌&&◌, ◌||◌, not, Option, none, some, List, [], ◌∷◌,
  ◌++◌, map, append-nil, append_assoc, arith, ltb, leb, ◌==◌, if◌then◌else◌, ltb→lt, lt→ltb, le→ltb,
  leb→le, le→leb, lt→leb, ==_iff, ==_self, ==_ne, Bool-cases, Option-cases, Bytes, codes, length,
  get_elem?, take, drop, replicate, All, length-append, length-drop, get_elem?-drop, drop-suc,
  drop-append, take-append, drop-append_at, get_elem?-lt, length-map, bytes_eq, bytes_eq_iff,
  bytes_eq_self, bytes_eq_ne, Error, buffer_underflow, string_underflow, not_null_terminated,
  bad_alloc, invalid_argument, out_of_range, logic_error, wal_too_short, config_path_not_set,
  not_replicating, read_failed, start_failed, Outcome, ok, throw, fault, ◌>>=◌, >>=-eq-ok,
  Outcome-cases,
}
use kafka_replication.Base.Int.{ℤ, pos, negsuc}
use kafka_replication.Base.Text.{is_space, read_digits, to_string, show_int}

-- The members with a default that no code reads are left out.
pub record ConnInfo : Type 0 where
  pub host : Bytes
  pub port : ℤ
  pub db_name : Bytes
  pub db_user : Bytes
  pub db_password : Bytes
  pub slot_name : Bytes
  pub publication_name : Bytes
  pub output_plugin : Bytes
  pub proto_version : Bytes
  pub brokers_names : Bytes
  pub topic : Bytes
  pub group_id : Bytes

-- std::stoi in base ten, with a 32-bit int.
abbrev pub to_signed : Bool → Option ℕ → Outcome ℤ
to_signed negative none = throw invalid_argument
to_signed false (some n) = if ltb n (2 ^ 31) then ok (pos n) else throw out_of_range
to_signed true (some zero) = ok (pos 0)
to_signed true (some (suc n)) = if ltb n (2 ^ 31) then ok (negsuc n) else throw out_of_range

unfoldable pub read_signed : Bytes → Outcome ℤ
read_signed [] = throw invalid_argument
read_signed (c ∷ s) =
    if c == b'-'
    then to_signed true (read_digits s none)
    else if c == b'+'
    then to_signed false (read_digits s none)
    else to_signed false (read_digits (c ∷ s) none)

unfoldable pub stoi : Bytes → Outcome ℤ
stoi [] = throw invalid_argument
stoi (c ∷ s) = let rest = stoi s in if is_space c then rest else read_signed (c ∷ s)

-- std::getenv gives a null pointer for a variable that is not set, and the string is built from it
-- before the test for null.
unfoldable pub get_env_local : (Bytes → Option Bytes) → Bytes → Outcome Bytes
get_env_local getenv env = elim (getenv env) [ none ↦ fault | some value ↦ ok value ]

unfoldable pub new_conn_info : (Bytes → Option Bytes) → Outcome ConnInfo
new_conn_info getenv = do
  host ← get_env_local getenv (codes "HOSTNAME")
  port_text ← get_env_local getenv (codes "MCC_DB_PORT")
  port ← stoi port_text
  db_name ← get_env_local getenv (codes "DBNAME_REPLICA")
  db_user ← get_env_local getenv (codes "MCC_DB_USER")
  db_password ← get_env_local getenv (codes "MCC_DB_PASSWORD")
  slot_name ← get_env_local getenv (codes "SLOT_NAME")
  publication_name ← get_env_local getenv (codes "PUBLICATION_NAME")
  output_plugin ← get_env_local getenv (codes "OUTPUT_PLUGIN")
  proto_version ← get_env_local getenv (codes "PROTO_VERSION")
  brokers_names ← get_env_local getenv (codes "BROKERS")
  topic ← get_env_local getenv (codes "TOPIC")
  group_id ← get_env_local getenv (codes "GROUP_ID_KAFKA")
  ok (record {
    host = host;
    port = port;
    db_name = db_name;
    db_user = db_user;
    db_password = db_password;
    slot_name = slot_name;
    publication_name = publication_name;
    output_plugin = output_plugin;
    proto_version = proto_version;
    brokers_names = brokers_names;
    topic = topic;
    group_id = group_id;
  })

unfoldable pub concate_to_string : ConnInfo → Bytes
concate_to_string info =
    codes "host="
    ++ info.host
    ++ codes " "
    ++ codes "port="
    ++ show_int info.port
    ++ codes " "
    ++ codes "dbname="
    ++ info.db_name
    ++ codes " "
    ++ codes "user="
    ++ info.db_user
    ++ codes " "
    ++ codes "password="
    ++ info.db_password
