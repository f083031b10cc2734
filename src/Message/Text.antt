-- ===== src/Message/Text.antt =====
-- producer_azs/replication_message.cpp: the toString methods, which print each message as it is
-- parsed.
pub mod Collision
use kafka_replication.Base.{
  ℕ, zero, suc, ◌+◌, ◌-◌, ◌*◌, ◌/◌, ◌%◌, ◌^◌, ◌≤◌, ◌<◌, bit_and, ◌≡◌, refl, sym, ap, ◌∙◌, subst,
  ◌≢◌, ◌↔◌, ◌⊎◌, inl, inr, Bool, true, false, ◌&&◌, ◌||◌, not, Option, none, some, List, [], ◌∷◌,
  ◌++◌, map, append-nil, append_assoc, arith, ltb, leb, ◌==◌, if◌then◌else◌, ltb→lt, lt→ltb, le→ltb,
  leb→le, le→leb, lt→leb, ==_iff, ==_self, ==_ne, Bool-cases, Option-cases, Bytes, codes, length,
  get_elem?, take, drop, replicate, All, length-append, length-drop, get_elem?-drop, drop-suc,
  drop-append, take-append, drop-append_at, get_elem?-lt, length-map, bytes_eq, bytes_eq_iff,
  bytes_eq_self, bytes_eq_ne, Error, buffer_underflow, string_underflow, not_null_terminated,
  bad_alloc, invalid_argument, out_of_range, logic_error, wal_too_short, config_path_not_set,
  not_replicating, read_failed, start_failed, Outcome, ok, throw, fault, ◌>>=◌, >>=-eq-ok,
  Outcome-cases,
}
use kafka_replication.Base.Text.{to_string, to_hex, show_int, to_decimal}
use kafka_replication.Message.{
  Column, BeginMessage, RelationMessage, CommitMessage, InsertMessage, DeleteMessage, UpdateMessage,
  TruncateMessage, ReplicationMessage, begin, relation, commit, insert, delete, update, truncate,
  has_cascade, has_restart_identity,
}

-- A loop with `if (i > 0) ss << ", "`.
abbrev pub listed_from : Bool → List Bytes → Bytes
listed_from first [] = []
listed_from first (x ∷ xs) = (if first then x else codes ", " ++ x) ++ listed_from false xs

abbrev pub listed : List Bytes → Bytes
listed = listed_from true

unfoldable pub column_text : Column → Bytes
column_text c =
    c.name
    ++ codes " (type: "
    ++ to_string c.type_id
    ++ codes ", modifier: "
    ++ show_int c.type_modifier
    ++ codes ")"

unfoldable pub column_lines : ℕ → List Column → Bytes
unfolding column_text
column_lines i [] = []
column_lines i (c ∷ cols) =
    codes "  Column "
    ++ to_string i
    ++ codes ": "
    ++ column_text c
    ++ codes "\n"
    ++ column_lines (i + 1) cols

unfoldable pub begin_text : BeginMessage → Bytes
begin_text m =
    codes "BEGIN [LSN: "
    ++ to_hex m.lsn
    ++ codes ", XID: "
    ++ to_string m.transaction_id
    ++ codes ", Timestamp: "
    ++ to_string m.commit_timestamp
    ++ codes "]\n"

unfoldable pub relation_text : RelationMessage → Bytes
relation_text m =
    codes "RELATION [id: "
    ++ to_string m.relation_id
    ++ codes ", schema: "
    ++ m.namespace
    ++ codes ", table: "
    ++ m.relation_name
    ++ codes ", columns: "
    ++ to_string (length m.columns)
    ++ codes "]\n"
    ++ column_lines 0 m.columns

unfoldable pub commit_text : CommitMessage → Bytes
commit_text m =
    codes "COMMIT [flags: "
    ++ to_string m.flags
    ++ codes ", LSN: "
    ++ to_hex m.lsn
    ++ codes ", end LSN: "
    ++ to_hex m.end_lsn
    ++ codes ", timestamp: "
    ++ to_string m.commit_timestamp
    ++ codes "]\n"

unfoldable pub insert_text : InsertMessage → Bytes
insert_text m =
    codes "INSERT [relation_id: "
    ++ to_string m.relation_id
    ++ codes ", tuple_type: "
    ++ (m.tuple_type ∷ [])
    ++ codes ", values: "
    ++ listed m.new_tuple
    ++ codes "]\n"

-- Nothing stands between the relation id and the first value.
unfoldable pub delete_text : DeleteMessage → Bytes
delete_text m =
    codes "DELETE [relation_id: " ++ to_string m.relation_id ++ listed m.old_tuple ++ codes "]\n"

abbrev pub old_values : List Bytes → Bytes
old_values [] = []
old_values (x ∷ xs) = codes ", old_values: " ++ listed (x ∷ xs)

unfoldable pub update_text : UpdateMessage → Bytes
update_text m =
    codes "UPDATE [relation_id: "
    ++ to_string m.relation_id
    ++ old_values m.old_tuple
    ++ codes ", new_values: "
    ++ listed m.new_tuple
    ++ codes "]\n"

unfoldable pub options_text : TruncateMessage → Bytes
options_text m =
    let cascade = if has_cascade m then codes "CASCADE" else [] in
    let bar = if has_cascade m then codes "|" else [] in
    let restart = if has_restart_identity m then bar ++ codes "RESTART IDENTITY" else [] in
    if m.options == 0 then [] else codes "options: " ++ cascade ++ restart ++ codes ", "

unfoldable pub truncate_text : TruncateMessage → Bytes
truncate_text m =
    codes "TRUNCATE ["
    ++ codes "transaction_id_ = "
    ++ to_string m.transaction_id
    ++ codes ", "
    ++ options_text m
    ++ codes "tables: "
    ++ listed (map to_string m.relation_ids)
    ++ codes "]\n"

-- The virtual method.
unfoldable pub message_text : ReplicationMessage → Bytes
message_text (begin m) = begin_text m
message_text (relation m) = relation_text m
message_text (commit m) = commit_text m
message_text (insert m) = insert_text m
message_text (delete m) = delete_text m
message_text (update m) = update_text m
message_text (truncate m) = truncate_text m
