-- ===== src/Message/Parse/Rows.antt =====
-- INSERT, DELETE and UPDATE on what the server wrote, whether or not the relation is cached.
use kafka_replication.Base.{
  ℕ, ◌*◌, ◌/◌, ◌%◌, ◌^◌, ◌<◌, ◌≡◌, refl, false, Option, none, some, List, [], ◌∷◌, ◌++◌, map,
  append-nil, arith, ◌==◌, Bytes, length, ok,
}
use kafka_replication.Base.Word.{IsU32, be32}
use kafka_replication.Wire.Cursor.{At, byte_at_at}
use kafka_replication.Tuple.Encoding.{
  Reads, uint8_Reads, uint32_Reads, Field, encode_tuple, encode_fields, shown, IsTuple,
}
use kafka_replication.Tuple.RoundTrip.{parse_tuple-Reads, parse_values-Reads}
use kafka_replication.Message.{RelationMessage}
use kafka_replication.Message.Cache.{RelationCache, get_cached_relation}
use kafka_replication.Message.Parse.{parse_tuple_for, parse_insert, parse_delete, parse_update}
use kafka_replication.Message.Parse.Encoding.{encode_row, encode_update_with_old, At-start}

parse_tuple_for-Reads :
    (relation : Option RelationMessage) (fs : List Field) (s : Bytes) {buf : Bytes} {offset : ℕ}
    → IsTuple fs
    → At buf offset (encode_tuple fs ++ s)
    → Reads buf s (map shown fs) (parse_tuple_for relation buf offset)
unfolding parse_tuple_for
parse_tuple_for-Reads none fs s k h = parse_tuple-Reads fs s k h
parse_tuple_for-Reads (some _) fs s k h = parse_values-Reads fs s k h

module _ (cache : RelationCache) (id mark : ℕ) (fs : List Field) (hid : IsU32 id) (k : IsTuple fs)
    (fits : length (encode_row id mark fs) < 2 ^ 64) where
  -- An insert comes back with the relation, the mark and the values, whether or not the relation is
  -- cached.
  pub parse_insert-encode_row :
      parse_insert cache (encode_row id mark fs)
      ≡ ok (record { relation_id = id; tuple_type = mark; new_tuple = map shown fs })
  unfolding parse_insert
  parse_insert-encode_row =
      let h₀ = At-start (encode_row id mark fs) fits in
      let (o₁, h₁, e₁) = uint32_Reads id (mark ∷ encode_tuple fs ++ []) hid h₀ in
      let (o₂, h₂, e₂) = uint8_Reads mark (encode_tuple fs ++ []) h₁ in
      let (o₃, h₃, e₃) = parse_tuple_for-Reads (get_cached_relation id cache) fs [] k h₂ in
      rw (e₁, e₂, e₃)

  -- So does a delete, with its old values; the mark, K or O, is dropped.
  pub parse_delete-encode_row :
      parse_delete cache (encode_row id mark fs)
      ≡ ok (record { relation_id = id; old_tuple = map shown fs })
  unfolding parse_delete
  parse_delete-encode_row =
      let h₀ = At-start (encode_row id mark fs) fits in
      let (o₁, h₁, e₁) = uint32_Reads id (mark ∷ encode_tuple fs ++ []) hid h₀ in
      let (o₂, h₂, e₂) = uint8_Reads mark (encode_tuple fs ++ []) h₁ in
      let (o₃, h₃, e₃) = parse_tuple_for-Reads (get_cached_relation id cache) fs [] k h₂ in
      rw (e₁, e₂, e₃)

-- The byte behind the mark is the high byte of the tuple's count, and no `O` below 79 * 256 columns.
count_byte : (n : ℕ) → n < 79 * 2 ^ 8 → (n / 2 ^ 8 % 2 ^ 8 == b'O') ≡ false
count_byte n h = ground arith

module _ (cache : RelationCache) (id mark : ℕ) (fs : List Field) (rest : Bytes) (hid : IsU32 id)
    (k : IsTuple fs) (few : length fs < 79 * 2 ^ 8) where
  -- An update reads the first tuple behind the mark as the new one, whatever the mark says.
  parse_update_first :
      length (be32 id ++ mark ∷ encode_tuple fs ++ rest) < 2 ^ 64
      → parse_update cache (be32 id ++ mark ∷ encode_tuple fs ++ rest)
        ≡ ok (record { relation_id = id; old_tuple = []; new_tuple = map shown fs })
  unfolding parse_update
  parse_update_first fits =
      let tuple = encode_tuple fs ++ rest in
      let h₀ : At (be32 id ++ mark ∷ tuple) 0 (be32 id ++ mark ∷ tuple) = record {
        rest = refl;
        fits = fits;
        inside = omega arith;
      } in
      let (o₁, h₁, e₁) = uint32_Reads id (mark ∷ tuple) hid h₀ in
      let (o₂, h₂, e₂) = uint8_Reads mark tuple h₁ in
      let (o₃, h₃, e₃) = parse_tuple_for-Reads (get_cached_relation id cache) fs rest k h₂ in
      rw (e₁, e₂, byte_at_at _ _ h₂, count_byte (length fs) few, e₃)

-- An update that carries no old tuple, below 79 * 256 values, comes back with its new values,
-- whether or not its relation is cached.
pub parse_update-encode_row :
    (cache : RelationCache) (id mark : ℕ) (fs : List Field)
    → IsU32 id
    → IsTuple fs
    → length fs < 79 * 2 ^ 8
    → length (encode_row id mark fs) < 2 ^ 64
    → parse_update cache (encode_row id mark fs)
      ≡ ok (record { relation_id = id; old_tuple = []; new_tuple = map shown fs })
parse_update-encode_row cache id mark fs hid k few fits =
    rw (append-nil (encode_fields fs)) at
      (parse_update_first cache id mark fs [] hid k few (rw (append-nil (encode_fields fs)) fits))

-- An update that carries the old tuple, below 79 * 256 values, comes back with the old values in
-- the place of the new ones, and with no old values: the mark in front of the old tuple is taken
-- for flags, and the new tuple is not read.
pub update_old_as_new :
    (cache : RelationCache) (id mark : ℕ) (old new : List Field)
    → IsU32 id
    → IsTuple old
    → length old < 79 * 2 ^ 8
    → length (encode_update_with_old id mark old new) < 2 ^ 64
    → parse_update cache (encode_update_with_old id mark old new)
      ≡ ok (record { relation_id = id; old_tuple = []; new_tuple = map shown old })
update_old_as_new cache id mark old new hid k few fits =
    parse_update_first cache id mark old (b'N' ∷ encode_tuple new) hid k few fits
