-- ===== src/Message.antt =====
-- producer_azs/replication_message.h: the messages, as the parser leaves them.
pub mod Cache
pub mod Listing
pub mod Text
pub mod Parse
use kafka_replication.Base.{
  ℕ, zero, suc, ◌+◌, ◌-◌, ◌*◌, ◌/◌, ◌%◌, ◌^◌, ◌≤◌, ◌<◌, bit_and, ◌≡◌, refl, sym, ap, ◌∙◌, subst,
  ◌≢◌, ◌↔◌, ◌⊎◌, inl, inr, Bool, true, false, ◌&&◌, ◌||◌, not, Option, none, some, List, [], ◌∷◌,
  ◌++◌, map, append-nil, append_assoc, arith, ltb, leb, ◌==◌, if◌then◌else◌, ltb→lt, lt→ltb, le→ltb,
  leb→le, le→leb, lt→leb, ==_iff, ==_self, ==_ne, Bool-cases, Option-cases, Bytes, codes, length,
  get_elem?, take, drop, All, length-append, length-drop, get_elem?-drop, drop-suc, drop-append,
  take-append, drop-append_at, get_elem?-lt, length-map, bytes_eq, bytes_eq_iff, bytes_eq_self,
  Error, buffer_underflow, string_underflow, not_null_terminated, bad_alloc, invalid_argument,
  out_of_range, logic_error, wal_too_short, config_path_not_set, not_replicating, read_failed,
  start_failed, Outcome, ok, throw, fault, ◌>>=◌, >>=-eq-ok, Outcome-cases,
}
use kafka_replication.Base.Int.{ℤ}

-- ReplicationMessage::Column.
pub record Column : Type 0 where
  pub flags : ℕ
  pub name : Bytes
  pub type_id : ℕ
  pub type_modifier : ℤ

pub record BeginMessage : Type 0 where
  pub lsn : ℕ
  pub commit_timestamp : ℕ
  pub transaction_id : ℕ

pub record RelationMessage : Type 0 where
  pub relation_id : ℕ
  pub namespace : Bytes
  pub relation_name : Bytes
  pub replica_identity : ℕ
  pub columns : List Column

pub record CommitMessage : Type 0 where
  pub flags : ℕ
  pub lsn : ℕ
  pub end_lsn : ℕ
  pub commit_timestamp : ℕ

pub record InsertMessage : Type 0 where
  pub relation_id : ℕ
  pub tuple_type : ℕ
  pub new_tuple : List Bytes

pub record DeleteMessage : Type 0 where
  pub relation_id : ℕ
  pub old_tuple : List Bytes

pub record UpdateMessage : Type 0 where
  pub relation_id : ℕ
  pub old_tuple : List Bytes
  pub new_tuple : List Bytes

pub record TruncateMessage : Type 0 where
  pub transaction_id : ℕ
  pub number_of_relations : ℕ
  pub options : ℕ
  pub relation_ids : List ℕ

-- A pointer to the base class, by the class of the object.
pub data ReplicationMessage : Type 0 where
  begin : BeginMessage → ReplicationMessage
  relation : RelationMessage → ReplicationMessage
  commit : CommitMessage → ReplicationMessage
  insert : InsertMessage → ReplicationMessage
  delete : DeleteMessage → ReplicationMessage
  update : UpdateMessage → ReplicationMessage
  truncate : TruncateMessage → ReplicationMessage

unfoldable pub get_type : ReplicationMessage → ℕ
get_type (begin _) = b'B'
get_type (relation _) = b'R'
get_type (commit _) = b'C'
get_type (insert _) = b'I'
get_type (delete _) = b'D'
get_type (update _) = b'U'
get_type (truncate _) = b'T'

-- RelationMessage::getRelationNamespace, which returns `relation_name_`.
unfoldable pub get_relation_namespace : RelationMessage → Bytes
get_relation_namespace r = r.relation_name

unfoldable pub has_cascade : TruncateMessage → Bool
has_cascade m = not (bit_and m.options 0x01 == 0)

unfoldable pub has_restart_identity : TruncateMessage → Bool
has_restart_identity m = not (bit_and m.options 0x02 == 0)
