-- ===== src/Message/Parse/Encoding.antt =====
-- The messages of the logical replication protocol (producer_azs/readme, section 53.9), as the
-- server writes them behind their type byte.
use kafka_replication.Base.{ℕ, ◌^◌, ◌<◌, List, [], ◌∷◌, ◌++◌, append-nil, arith, Bytes, length, All}
use kafka_replication.Base.Int.{from_int32, IsInt32}
use kafka_replication.Base.Word.{IsU16, IsU32, be16, be32, be64}
use kafka_replication.Wire.Cursor.{At, IsText, c_string}
use kafka_replication.Tuple.Encoding.{Field, encode_tuple}
use kafka_replication.Message.{Column, RelationMessage, CommitMessage}

abbrev pub encode_begin : ℕ → ℕ → ℕ → Bytes
encode_begin lsn timestamp xid = be64 lsn ++ (be64 timestamp ++ be32 xid)

abbrev pub encode_commit : CommitMessage → Bytes
encode_commit m = m.flags ∷ (be64 m.lsn ++ (be64 m.end_lsn ++ be64 m.commit_timestamp))

abbrev pub encode_column : Column → Bytes → Bytes
encode_column c rest =
    c.flags ∷ (c_string c.name ++ (be32 c.type_id ++ (be32 (from_int32 c.type_modifier) ++ rest)))

unfoldable pub encode_columns : List Column → Bytes
encode_columns [] = []
encode_columns (c ∷ cs) = encode_column c (encode_columns cs)

abbrev pub encode_relation : RelationMessage → Bytes
encode_relation r =
    be32 r.relation_id
    ++ (c_string r.namespace
        ++ (c_string r.relation_name
            ++ (r.replica_identity ∷ (be16 (length r.columns) ++ encode_columns r.columns))))

-- INSERT with `N`, DELETE with `K` or `O`, and UPDATE without an old tuple.
abbrev pub encode_row : ℕ → ℕ → List Field → Bytes
encode_row relation_id mark fs = be32 relation_id ++ mark ∷ encode_tuple fs

-- UPDATE with an old tuple, behind `K` or `O`; the new one stands behind `N`.
abbrev pub encode_update_with_old : ℕ → ℕ → List Field → List Field → Bytes
encode_update_with_old relation_id mark old new =
    be32 relation_id ++ (mark ∷ encode_tuple old) ++ b'N' ∷ encode_tuple new

pub record IsColumn (c : Column) : Type 0 where
  pub name : IsText c.name
  pub type_id : IsU32 c.type_id
  pub type_modifier : IsInt32 c.type_modifier

pub record IsRelation (r : RelationMessage) : Type 0 where
  pub relation_id : IsU32 r.relation_id
  pub namespace : IsText r.namespace
  pub relation_name : IsText r.relation_name
  pub count : IsU16 (length r.columns)
  pub columns : All IsColumn r.columns

-- A whole message in a vector.
pub At-start : (buf : Bytes) → length buf < 2 ^ 64 → At buf 0 (buf ++ [])
At-start buf h = record { rest = rw append-nil; fits = h; inside = omega arith }
