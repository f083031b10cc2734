-- ===== src/Message/Parse.antt =====
-- producer_azs/replication_message.cpp: the `parse` methods. `buf` is the message without its type
-- byte. Each method also prints its message, which is left out.
pub mod Encoding
pub mod RoundTrip
pub mod Rows
pub mod HostOrder
use kafka_replication.Base.{
  ℕ, zero, suc, Bool, Option, none, some, List, [], ◌∷◌, ◌++◌, ◌==◌, if◌then◌else◌, Bytes,
  bad_alloc, Outcome, ok, throw, ◌>>=◌,
}
use kafka_replication.Base.Int.{to_int32}
use kafka_replication.Base.Word.{advance}
use kafka_replication.Wire.{
  byte_at, memcpy, from_be, read_uint8, read_uint16, read_uint32, read_uint64, read_string,
}
use kafka_replication.Tuple.{parse_tuple, parse_values}
use kafka_replication.Message.{
  Column, BeginMessage, RelationMessage, CommitMessage, InsertMessage, DeleteMessage, UpdateMessage,
  TruncateMessage,
}
use kafka_replication.Message.Cache.{RelationCache, get_cached_relation}
use mathlib.Core.List.{reverse}

pub data ByteOrder : Type 0 where
  big_endian little_endian : ByteOrder

-- What the code takes from its host: the order of a word's bytes, the value that an uninitialised
-- size_t happens to have, and how many numbers a vector can reserve.
pub record Host : Type 0 where
  pub byte_order : ByteOrder
  pub uninitialised : ℕ
  pub reserves : ℕ → Bool

-- `*reinterpret_cast<const uint32_t*>(&data[offset])`: the host's order, and no check.
unfoldable pub from_host : ByteOrder → Bytes → ℕ
from_host big_endian bs = from_be bs
from_host little_endian bs = from_be (reverse bs)

unfoldable pub parse_begin : Host → Bytes → Outcome BeginMessage
parse_begin host buf = do
  (lsn, offset₁) ← read_uint64 buf 0
  (commit_timestamp, offset₂) ← read_uint64 buf offset₁
  xid ← memcpy buf offset₂ 4
  ok (record {
    lsn = lsn;
    commit_timestamp = commit_timestamp;
    transaction_id = from_host host.byte_order xid;
  })

-- The loop over the columns; it fills a vector that was resized to their number.
unfoldable pub parse_columns : ℕ → Bytes → ℕ → List Column → Outcome (List Column × ℕ)
parse_columns zero buf offset columns = ok (columns, offset)
parse_columns (suc rounds) buf offset columns = do
  (flags, offset₁) ← read_uint8 buf offset
  (name, offset₂) ← read_string buf offset₁
  (type_id, offset₃) ← read_uint32 buf offset₂
  (type_modifier, offset₄) ← read_uint32 buf offset₃
  let column : Column = record {
    flags = flags;
    name = name;
    type_id = type_id;
    type_modifier = to_int32 type_modifier;
  }
  parse_columns rounds buf offset₄ (columns ++ column ∷ [])

unfoldable pub parse_relation : Bytes → Outcome RelationMessage
parse_relation buf = do
  (relation_id, offset₁) ← read_uint32 buf 0
  (namespace, offset₂) ← read_string buf offset₁
  (relation_name, offset₃) ← read_string buf offset₂
  replica_identity ← byte_at buf offset₃
  (num_columns, offset₄) ← read_uint16 buf (advance offset₃ 1)
  (columns, _) ← parse_columns num_columns buf offset₄ []
  ok (record {
    relation_id = relation_id;
    namespace = namespace;
    relation_name = relation_name;
    replica_identity = replica_identity;
    columns = columns;
  })

unfoldable pub parse_commit : Bytes → Outcome CommitMessage
parse_commit buf = do
  flags ← byte_at buf 0
  (lsn, offset₁) ← read_uint64 buf 1
  (end_lsn, offset₂) ← read_uint64 buf offset₁
  (commit_timestamp, _) ← read_uint64 buf offset₂
  ok (record { flags = flags; lsn = lsn; end_lsn = end_lsn; commit_timestamp = commit_timestamp })

-- The overload by whether the relation is cached.
unfoldable pub parse_tuple_for : Option RelationMessage → Bytes → ℕ → Outcome (List Bytes × ℕ)
parse_tuple_for none = parse_tuple
parse_tuple_for (some relation) = parse_values

unfoldable pub parse_insert : RelationCache → Bytes → Outcome InsertMessage
parse_insert cache buf = do
  (relation_id, offset₁) ← read_uint32 buf 0
  (tuple_type, offset₂) ← read_uint8 buf offset₁
  (new_tuple, _) ← parse_tuple_for (get_cached_relation relation_id cache) buf offset₂
  ok (record { relation_id = relation_id; tuple_type = tuple_type; new_tuple = new_tuple })

unfoldable pub parse_delete : RelationCache → Bytes → Outcome DeleteMessage
parse_delete cache buf = do
  (relation_id, offset₁) ← read_uint32 buf 0
  (flags, offset₂) ← read_uint8 buf offset₁
  (old_tuple, _) ← parse_tuple_for (get_cached_relation relation_id cache) buf offset₂
  ok (record { relation_id = relation_id; old_tuple = old_tuple })

-- `has_old_tuple` is the byte behind the flags; the cursor does not pass it.
unfoldable pub parse_update : RelationCache → Bytes → Outcome UpdateMessage
parse_update cache buf = do
  (relation_id, offset₁) ← read_uint32 buf 0
  (flags, offset₂) ← read_uint8 buf offset₁
  has_old_tuple ← byte_at buf offset₂
  let relation = get_cached_relation relation_id cache
  (old_tuple, offset₃) ←
      if has_old_tuple == b'O' then parse_tuple_for relation buf offset₂ else ok ([], offset₂)
  (new_tuple, _) ← parse_tuple_for relation buf offset₃
  ok (record { relation_id = relation_id; old_tuple = old_tuple; new_tuple = new_tuple })

-- The loop reads at one cursor in all its rounds.
unfoldable pub parse_relation_ids : Host → ℕ → Bytes → ℕ → List ℕ → Outcome (List ℕ)
parse_relation_ids host zero buf offset ids = ok ids
parse_relation_ids host (suc rounds) buf offset ids = do
  oid ← memcpy buf offset 4
  parse_relation_ids host rounds buf offset (ids ++ from_host host.byte_order oid ∷ [])

-- `relation_ids_.reserve(number_of_relations_)` and the loop.
unfoldable pub read_relation_ids : Host → ℕ → Bytes → ℕ → Outcome (List ℕ)
read_relation_ids host number buf offset =
    if host.reserves number then parse_relation_ids host number buf offset [] else throw bad_alloc

-- What follows the transaction id.
unfoldable pub parse_truncate_rest : Host → ℕ → Bytes → ℕ → Outcome TruncateMessage
parse_truncate_rest host transaction_id buf offset = do
  (number_of_relations, offset₁) ← read_uint32 buf offset
  options ← byte_at buf offset₁
  ids ← read_relation_ids host number_of_relations buf (advance offset₁ 1)
  ok (record {
    transaction_id = transaction_id;
    number_of_relations = number_of_relations;
    options = options;
    relation_ids = ids;
  })

-- `size_t offset;` has no initial value.
unfoldable pub parse_truncate : Host → Bytes → Outcome TruncateMessage
parse_truncate host buf = do
  (transaction_id, offset) ← read_uint32 buf host.uninitialised
  parse_truncate_rest host transaction_id buf offset
