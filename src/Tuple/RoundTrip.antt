-- ===== src/Tuple/RoundTrip.antt =====
-- Both overloads read back what the server wrote.
use kafka_replication.Base.{
  ℕ, ◌≡◌, refl, List, [], ◌∷◌, ◌++◌, map, append-nil, append_assoc, arith, lt→ltb, Bytes, length,
  All,
}
use kafka_replication.Base.Word.{IsU32, be32}
use kafka_replication.Wire.Cursor.{At, At-next, memcpy_at}
use kafka_replication.Tuple.Encoding.{
  Reads, uint8_Reads, uint16_Reads, uint32_Reads, Field, null_value, toast_value, text,
  encode_fields, encode_tuple, shown, IsField, IsTuple, field_body, field_type,
}
use kafka_replication.Tuple.{
  null_text, text_value, push_column, parse_tuple_loop, parse_tuple, column_value,
  parse_values_loop, parse_values, assign,
}

text_value-Reads :
    (v s : Bytes) {buf : Bytes} {offset : ℕ}
    → IsU32 (length v)
    → At buf offset (be32 (length v) ++ (v ++ s))
    → Reads buf s v (text_value buf offset)
unfolding text_value assign
text_value-Reads [] s k h = let (o₁, h₁, e₁) = uint32_Reads 0 s k h in (o₁, h₁, rw e₁)
text_value-Reads (x ∷ v) s k h =
    let (o₁, h₁, e₁) = uint32_Reads (length (x ∷ v)) ((x ∷ v) ++ s) k h in
    (
      _,
      At-next (x ∷ v) s h₁,
      rw (e₁, lt→ltb 0 (length (x ∷ v)) (omega arith), memcpy_at (x ∷ v) s h₁),
    )

column_value-Reads :
    (f : Field) (s : Bytes) {buf : Bytes} {offset : ℕ}
    → IsField f
    → At buf offset (field_body f ++ s)
    → Reads buf s (shown f) (column_value (field_type f) buf offset)
unfolding column_value
column_value-Reads null_value s k h = (_, h, refl)
column_value-Reads toast_value s k h = (_, h, refl)
column_value-Reads (text v) s k h = text_value-Reads v s k (rw append_assoc at h)

push_column-Reads :
    (f : Field) (s : Bytes) {buf : Bytes} {offset : ℕ} (tuple : List Bytes)
    → IsField f
    → At buf offset (field_body f ++ s)
    → Reads buf s (tuple ++ shown f ∷ []) (push_column (field_type f) buf offset tuple)
unfolding push_column
push_column-Reads null_value s tuple k h = (_, h, refl)
push_column-Reads toast_value s tuple k h = (_, h, refl)
push_column-Reads (text v) s tuple k h =
    let (o, h', e) = text_value-Reads v s k (rw append_assoc at h) in (o, h', rw e)

parse_tuple_loop-Reads :
    (fs : List Field) (s : Bytes) {buf : Bytes} {offset : ℕ} (tuple : List Bytes)
    → All IsField fs
    → At buf offset (encode_fields fs ++ s)
    → Reads buf s (tuple ++ map shown fs) (parse_tuple_loop (length fs) buf offset tuple)
unfolding parse_tuple_loop encode_fields
parse_tuple_loop-Reads [] s tuple k h = (_, h, rw append-nil)
parse_tuple_loop-Reads (f ∷ fs) s tuple (k, ks) h =
    let rest = encode_fields fs ++ s in
    let (o₁, h₁, e₁) = uint8_Reads (field_type f) (field_body f ++ rest) (rw append_assoc at h) in
    let (o₂, h₂, e₂) = push_column-Reads f rest tuple k h₁ in
    let (o₃, h₃, e₃) = parse_tuple_loop-Reads fs s (tuple ++ shown f ∷ []) ks h₂ in
    (o₃, h₃, rw (e₁, e₂, e₃, append_assoc))

parse_values_loop-Reads :
    (fs : List Field) (s : Bytes) {buf : Bytes} {offset : ℕ} (tuple : List Bytes)
    → All IsField fs
    → At buf offset (encode_fields fs ++ s)
    → Reads buf s (tuple ++ map shown fs) (parse_values_loop (length fs) buf offset tuple)
unfolding parse_values_loop encode_fields
parse_values_loop-Reads [] s tuple k h = (_, h, rw append-nil)
parse_values_loop-Reads (f ∷ fs) s tuple (k, ks) h =
    let rest = encode_fields fs ++ s in
    let (o₁, h₁, e₁) = uint8_Reads (field_type f) (field_body f ++ rest) (rw append_assoc at h) in
    let (o₂, h₂, e₂) = column_value-Reads f rest k h₁ in
    let (o₃, h₃, e₃) = parse_values_loop-Reads fs s (tuple ++ shown f ∷ []) ks h₂ in
    (o₃, h₃, rw (e₁, e₂, e₃, append_assoc))

module _ (fs : List Field) (s : Bytes) {buf : Bytes} {offset : ℕ} (k : IsTuple fs) where
  pub parse_tuple-Reads :
      At buf offset (encode_tuple fs ++ s) → Reads buf s (map shown fs) (parse_tuple buf offset)
  unfolding parse_tuple
  parse_tuple-Reads h =
      let (o₁, h₁, e₁) = uint16_Reads (length fs) (encode_fields fs ++ s) k.count h in
      let (o₂, h₂, e₂) = parse_tuple_loop-Reads fs s [] k.fields h₁ in (o₂, h₂, rw (e₁, e₂))

  pub parse_values-Reads :
      At buf offset (encode_tuple fs ++ s) → Reads buf s (map shown fs) (parse_values buf offset)
  unfolding parse_values
  parse_values-Reads h =
      let (o₁, h₁, e₁) = uint16_Reads (length fs) (encode_fields fs ++ s) k.count h in
      let (o₂, h₂, e₂) = parse_values_loop-Reads fs s [] k.fields h₁ in (o₂, h₂, rw (e₁, e₂))

-- A tuple at any place of a message is read back by both overloads, from its first byte to its
-- last.
pub tuple_round_trip :
    (fs : List Field) (s buf : Bytes) (offset : ℕ)
    → IsTuple fs
    → At buf offset (encode_tuple fs ++ s)
    → Reads buf s (map shown fs) (parse_tuple buf offset)
      × Reads buf s (map shown fs) (parse_values buf offset)
tuple_round_trip fs s buf offset k h = (parse_tuple-Reads fs s k h, parse_values-Reads fs s k h)

map-shown_collision :
    (fs gs : List Field) → map shown (fs ++ text null_text ∷ gs) ≡ map shown (fs ++ null_value ∷ gs)
map-shown_collision [] gs = refl
map-shown_collision (f ∷ fs) gs = rw (map-shown_collision fs gs)

-- The parser shows SQL NULL and the text NULL alike: two messages whose tuples differ in nothing
-- else are read as the same values.
pub null_collision :
    (fs gs : List Field) (s buf buf' : Bytes) (offset offset' : ℕ)
    → IsTuple (fs ++ null_value ∷ gs)
    → IsTuple (fs ++ text null_text ∷ gs)
    → At buf offset (encode_tuple (fs ++ null_value ∷ gs) ++ s)
    → At buf' offset' (encode_tuple (fs ++ text null_text ∷ gs) ++ s)
    → (values : List Bytes) × Reads buf s values (parse_values buf offset)
      × Reads buf' s values (parse_values buf' offset')
null_collision fs gs s buf buf' offset offset' k k' h h' = (
  _,
  parse_values-Reads (fs ++ null_value ∷ gs) s k h,
  rw (map-shown_collision fs gs) at (parse_values-Reads (fs ++ text null_text ∷ gs) s k' h'),
)
