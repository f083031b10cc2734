-- ===== src/Tests/Doubles.antt =====
-- A small JSON library that keeps the laws, a host, and a replicator in the middle of a stream.
use kafka_replication.Base.{
  inl, inr, arith, ℕ, refl, Bool, true, false, some, [], ◌∷◌, ◌++◌, ltb, if◌then◌else◌, Bytes,
  codes, bytes_eq, ◌==◌, ◌≡◌, All, ◌≢◌, Bool-cases, inl, inr,
}
use kafka_replication.Base.Int.{negsuc}
use kafka_replication.Base.Word.{IsByte}
use kafka_replication.Message.{Column, RelationMessage}
use kafka_replication.Message.Parse.{Host, big_endian}
use kafka_replication.Json.{
  JsonLib, JsonLaws, ValueType, null_type, int_type, string_type, boolean_type, array_type,
  object_type,
}
use kafka_replication.Producer.{LibrdKafkaProducer, no_stats, no_error}
use kafka_replication.Replicator.{Stats, PostgresqlReplicator, Answers}

-- A member stands in front of the ones it hides.
pub data Node : Type 0 where
  null_node array_node : Node
  text_node : Bytes → Node
  number_node : ℕ → Node
  bool_node : Bool → Node
  member : Bytes → Node → Node → Node
  element : Node → Node → Node

abbrev type_of : Node → ValueType
type_of null_node = null_type
type_of array_node = array_type
type_of (text_node _) = string_type
type_of (number_node _) = int_type
type_of (bool_node _) = boolean_type
type_of (member _ _ _) = object_type
type_of (element _ _) = array_type

abbrev is_member_of : Node → Bytes → Bool
is_member_of (member k _ rest) j = if bytes_eq k j then true else is_member_of rest j
is_member_of _ j = false

abbrev get_of : Node → Bytes → Node
get_of (member k v rest) j = if bytes_eq k j then v else get_of rest j
get_of _ j = null_node

abbrev write_of : Node → Bytes
write_of (text_node s) = b'"' ∷ s ++ b'"' ∷ []
write_of (member k v rest) = k ++ b':' ∷ write_of v ++ b',' ∷ write_of rest
write_of _ = codes "null"

abbrev pub node_json : JsonLib
node_json = record {
  Value = Node;
  null_value = null_node;
  array_value = array_node;
  of_string = text_node;
  of_int64 = number_node;
  of_bool = bool_node;
  set = λ v k w. member k w v;
  append = λ v w. element w v;
  type = type_of;
  is_member = is_member_of;
  get = get_of;
  write = write_of;
}

pub node_laws : JsonLaws node_json
node_laws = record {
  type-null_value = refl;
  type-set = λ v k w h. refl;
  is_member-null_value = λ k. refl;
  is_member-set = λ v k j w h. refl;
  get-set = λ v k j w h. refl;
}

abbrev pub big_host : Host
big_host = record { byte_order = big_endian; uninitialised = 0; reserves = λ n. ltb n 1000 }

abbrev pub id_column : Column
id_column = record { flags = 1; name = codes "id"; type_id = 23; type_modifier = negsuc 0 }

abbrev pub name_column : Column
name_column = record { flags = 0; name = codes "name"; type_id = 25; type_modifier = negsuc 0 }

abbrev pub users : RelationMessage
users = record {
  relation_id = 7;
  namespace = codes "public";
  relation_name = codes "users";
  replica_identity = b'd';
  columns = id_column ∷ name_column ∷ [];
}

abbrev pub answers : Answers
answers = record { milliseconds = 1000; microseconds = 5; connection_ok = true; produce = no_error }

abbrev pub producer : LibrdKafkaProducer
producer = record {
  created = true;
  topic_name = codes "changes";
  stopping = false;
  stats = no_stats;
  produced = [];
}

abbrev pub stats : Stats
stats = record {
  restart_lsn_high = 0;
  restart_lsn_low = 16;
  applied_lsn_high = 0;
  applied_lsn_low = 16;
  received_lsn_high = 0;
  received_lsn_low = 16;
  last_heartbeat = 0;
  timestamp = 0;
  flag = 0;
}

abbrev pub replicator : PostgresqlReplicator
replicator = record {
  replicating = true;
  kafka_producer = some producer;
  repl_conn = true;
  relations = (7, users) ∷ [];
  stats = stats;
  replies = [];
}

abbrev pub avoids : ℕ → Bytes → Bool
avoids b [] = true
avoids b (c ∷ s) = if c == b then false else avoids b s

pub avoids-All : (b : ℕ) (s : Bytes) → avoids b s ≡ true → All (λ c. c ≢ b) s
avoids-All b [] e = tt
avoids-All b (c ∷ s) e = elim (Bool-cases (c == b)) [
  | inl same ↦ cc (rw same at e)
  | inr other ↦ (λ same. ground (arith, other), avoids-All b s (rw other at e))
]

abbrev pub only_bytes : Bytes → Bool
only_bytes [] = true
only_bytes (b ∷ s) = if ltb b 256 then only_bytes s else false

pub only_bytes-All : (s : Bytes) → only_bytes s ≡ true → All IsByte s
only_bytes-All [] e = tt
only_bytes-All (b ∷ s) e = elim (Bool-cases (ltb b 256)) [
  | inl small ↦ (ground (arith, small), only_bytes-All s (rw small at e))
  | inr large ↦ cc (rw large at e)
]
