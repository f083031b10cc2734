-- ===== src/Message/Parse/RoundTrip.antt =====
-- The `parse` methods read back what the server wrote.
use kafka_replication.Base.{
  ℕ, ◌^◌, ◌<◌, ◌≡◌, List, [], ◌∷◌, ◌++◌, append-nil, append_assoc, arith, Bytes, length, All, ok,
}
use kafka_replication.Base.Int.{from_int32, to_int32-from_int32, from_int32-lt}
use kafka_replication.Base.Word.{IsU64, be32, be64, be16}
use kafka_replication.Wire.Cursor.{At, At-next, memcpy_at, byte_at_at, c_string}
use kafka_replication.Tuple.Encoding.{
  Reads, uint8_Reads, uint16_Reads, uint32_Reads, uint64_Reads, string_Reads,
}
use kafka_replication.Message.{Column, RelationMessage, CommitMessage}
use kafka_replication.Message.Parse.{
  Host, from_host, parse_begin, parse_columns, parse_relation, parse_commit,
}
use kafka_replication.Message.Parse.Encoding.{
  encode_begin, encode_commit, encode_columns, encode_relation, IsColumn, IsRelation, At-start,
}

-- The position and the timestamp of BEGIN come back; the transaction id comes back in the byte
-- order of the host.
pub parse_begin-encode_begin :
    (host : Host) (lsn timestamp xid : ℕ)
    → IsU64 lsn
    → IsU64 timestamp
    → parse_begin host (encode_begin lsn timestamp xid)
      ≡ ok (record {
        lsn = lsn;
        commit_timestamp = timestamp;
        transaction_id = from_host host.byte_order (be32 xid);
      })
unfolding parse_begin
parse_begin-encode_begin host lsn timestamp xid hl ht =
    let h₀ = At-start (encode_begin lsn timestamp xid) (omega arith) in
    let (o₁, h₁, e₁) = uint64_Reads lsn (be64 timestamp ++ be32 xid) hl h₀ in
    let (o₂, h₂, e₂) = uint64_Reads timestamp (be32 xid) ht h₁ in
    rw (e₁, e₂, memcpy_at (be32 xid) [] h₂)

-- A commit message comes back whole.
pub parse_commit-encode_commit :
    (m : CommitMessage)
    → IsU64 m.lsn
    → IsU64 m.end_lsn
    → IsU64 m.commit_timestamp
    → parse_commit (encode_commit m) ≡ ok m
unfolding parse_commit
parse_commit-encode_commit m hl he ht =
    let ends = be64 m.end_lsn ++ be64 m.commit_timestamp in
    let h₀ = At-start (encode_commit m) (omega arith) in
    let (o₂, h₂, e₂) =
      uint64_Reads m.lsn ends hl (At-next (m.flags ∷ []) (be64 m.lsn ++ ends) h₀) in
    let (o₃, h₃, e₃) = uint64_Reads m.end_lsn (be64 m.commit_timestamp) he h₂ in
    let (o₄, h₄, e₄) = uint64_Reads m.commit_timestamp [] ht h₃ in
    rw (byte_at_at m.flags (be64 m.lsn ++ ends) h₀, e₂, e₃, e₄)

parse_columns-Reads :
    (cs : List Column) (s : Bytes) {buf : Bytes} {offset : ℕ} (done : List Column)
    → All IsColumn cs
    → At buf offset (encode_columns cs ++ s)
    → Reads buf s (done ++ cs) (parse_columns (length cs) buf offset done)
unfolding parse_columns encode_columns
parse_columns-Reads [] s done k h = (_, h, rw append-nil)
parse_columns-Reads (c ∷ cs) s done (k, ks) h =
    let s₄ = encode_columns cs ++ s in
    let s₃ = be32 (from_int32 c.type_modifier) ++ s₄ in
    let s₂ = be32 c.type_id ++ s₃ in
    let (o₁, h₁, e₁) =
      uint8_Reads c.flags (c_string c.name ++ s₂) (rw (append_assoc (c_string c.name)) at h) in
    let (o₂, h₂, e₂) = string_Reads c.name s₂ k.name h₁ in
    let (o₃, h₃, e₃) = uint32_Reads c.type_id s₃ k.type_id h₂ in
    let (o₄, h₄, e₄) =
      uint32_Reads (from_int32 c.type_modifier) s₄ (from_int32-lt _ k.type_modifier) h₃ in
    let (o₅, h₅, e₅) = parse_columns-Reads cs s (done ++ c ∷ []) ks h₄ in
    (
      o₅,
      h₅,
      rw (e₁, e₂, e₃, e₄, to_int32-from_int32 c.type_modifier k.type_modifier, e₅, append_assoc),
    )

-- A relation message with texts, numbers and a count that fit their fields comes back with all its
-- columns.
pub parse_relation-encode_relation :
    (r : RelationMessage)
    → IsRelation r
    → length (encode_relation r) < 2 ^ 64
    → parse_relation (encode_relation r) ≡ ok r
unfolding parse_relation
parse_relation-encode_relation r k fits =
    let s₅ = encode_columns r.columns ++ [] in
    let s₄ = be16 (length r.columns) ++ s₅ in
    let s₃ = r.replica_identity ∷ s₄ in
    let s₂ = c_string r.relation_name ++ s₃ in
    let s₁ = c_string r.namespace ++ s₂ in
    let h₀ : At (encode_relation r) 0 (be32 r.relation_id ++ s₁) = record {
      rest = rw (append-nil (encode_columns r.columns));
      fits = fits;
      inside = omega arith;
    } in
    let (o₁, h₁, e₁) = uint32_Reads r.relation_id s₁ k.relation_id h₀ in
    let (o₂, h₂, e₂) = string_Reads r.namespace s₂ k.namespace h₁ in
    let (o₃, h₃, e₃) = string_Reads r.relation_name s₃ k.relation_name h₂ in
    let (o₅, h₅, e₅) =
      uint16_Reads (length r.columns) s₅ k.count (At-next (r.replica_identity ∷ []) s₄ h₃) in
    let (o₆, h₆, e₆) = parse_columns-Reads r.columns [] [] k.columns h₅ in
    rw (e₁, e₂, e₃, byte_at_at r.replica_identity s₄ h₃, e₅, e₆)
