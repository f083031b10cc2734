-- ===== src/Settings/Environment.antt =====
-- shared_structures.h, struct ConnInfo: the settings that an environment gives.
use kafka_replication.Base.{
  ℕ, suc, ◌+◌, ◌^◌, ◌<◌, ◌≡◌, refl, ◌∙◌, ◌≢◌, false, Option, none, some, [], ◌∷◌, arith, ◌==◌,
  lt→ltb, Bytes, codes, All, ok, ap, fault,
}
use kafka_replication.Base.Int.{ℤ, pos, negsuc, IsInt32}
use kafka_replication.Base.Text.{is_space, read_digits, to_string}
use kafka_replication.Config.Lsn.{
  IsDigit, to_decimal-IsDigit, read_digits-to_decimal, to_decimal-ne-nil,
}
use kafka_replication.Settings.{
  ConnInfo, to_signed, read_signed, stoi, get_env_local, new_conn_info,
}
use kafka_replication.Base.Text.{show_int}

stoi_digits :
    (xs : Bytes) → All IsDigit xs → xs ≢ [] → stoi xs ≡ to_signed false (read_digits xs none)
unfolding stoi read_signed
stoi_digits [] h ne = absurd (ne refl)
stoi_digits (c ∷ s) (h, hs) ne =
    let space : is_space c ≡ false = ground arith in
    let minus : (c == b'-') ≡ false = ground arith in
    let plus : (c == b'+') ≡ false = ground arith in rw (space, minus, plus)

read_back : (n : ℕ) → n < 2 ^ 64 → read_digits (to_string n) none ≡ some n
read_back n h = read_digits-to_decimal 19 n (omega arith)

-- std::stoi reads back what std::to_string prints of an int.
stoi-show_int : (z : ℤ) → IsInt32 z → stoi (show_int z) ≡ ok z
stoi-show_int (pos n) h =
    stoi_digits (to_string n) (to_decimal-IsDigit 20 n) (to_decimal-ne-nil 19 n)
    ∙ rw (read_back n (omega arith), lt→ltb n (2 ^ 31) h)
stoi-show_int (negsuc n) h =
    let next : n + 1 ≡ suc n = omega arith in
    unfold stoi read_signed in rw (read_back (n + 1) (omega arith), next, lt→ltb n (2 ^ 31) h)

is_set :
    (getenv : Bytes → Option Bytes) (name value : Bytes)
    → getenv name ≡ some value
    → get_env_local getenv name ≡ ok value
unfolding get_env_local
is_set getenv name value e = ap (λ (o : Option Bytes). elim o [ none ↦ fault | some v ↦ ok v ]) e

-- The environment that sets every variable as the settings say.
pub record IsEnvironment (getenv : Bytes → Option Bytes) (info : ConnInfo) : Type 0 where
  pub host : getenv (codes "HOSTNAME") ≡ some info.host
  pub port : getenv (codes "MCC_DB_PORT") ≡ some (show_int info.port)
  pub db_name : getenv (codes "DBNAME_REPLICA") ≡ some info.db_name
  pub db_user : getenv (codes "MCC_DB_USER") ≡ some info.db_user
  pub db_password : getenv (codes "MCC_DB_PASSWORD") ≡ some info.db_password
  pub slot_name : getenv (codes "SLOT_NAME") ≡ some info.slot_name
  pub publication_name : getenv (codes "PUBLICATION_NAME") ≡ some info.publication_name
  pub output_plugin : getenv (codes "OUTPUT_PLUGIN") ≡ some info.output_plugin
  pub proto_version : getenv (codes "PROTO_VERSION") ≡ some info.proto_version
  pub brokers_names : getenv (codes "BROKERS") ≡ some info.brokers_names
  pub topic : getenv (codes "TOPIC") ≡ some info.topic
  pub group_id : getenv (codes "GROUP_ID_KAFKA") ≡ some info.group_id

-- The settings come back from the environment that they are written into, with any port that is
-- an int.
pub new_conn_info-environment :
    (getenv : Bytes → Option Bytes) (info : ConnInfo)
    → IsEnvironment getenv info
    → IsInt32 info.port
    → new_conn_info getenv ≡ ok info
unfolding new_conn_info
new_conn_info-environment getenv info k port = rw (
  is_set getenv _ _ k.host,
  is_set getenv _ _ k.port,
  stoi-show_int info.port port,
  is_set getenv _ _ k.db_name,
  is_set getenv _ _ k.db_user,
  is_set getenv _ _ k.db_password,
  is_set getenv _ _ k.slot_name,
  is_set getenv _ _ k.publication_name,
  is_set getenv _ _ k.output_plugin,
  is_set getenv _ _ k.proto_version,
  is_set getenv _ _ k.brokers_names,
  is_set getenv _ _ k.topic,
  is_set getenv _ _ k.group_id,
)
