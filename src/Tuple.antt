-- ===== src/Tuple.antt =====
-- producer_azs/pgoutput_parser.cpp, both overloads of parseTuple. A tuple is the vector of the
-- values' texts.
pub mod Encoding
pub mod RoundTrip
pub mod Overloads
use kafka_replication.Base.{
  ℕ, zero, suc, ◌+◌, ◌-◌, ◌*◌, ◌/◌, ◌%◌, ◌^◌, ◌≤◌, ◌<◌, bit_and, ◌≡◌, refl, sym, ap, ◌∙◌, subst,
  ◌≢◌, ◌↔◌, ◌⊎◌, inl, inr, Bool, true, false, ◌&&◌, ◌||◌, not, Option, none, some, List, [], ◌∷◌,
  ◌++◌, map, append-nil, append_assoc, arith, ltb, leb, ◌==◌, if◌then◌else◌, ltb→lt, lt→ltb, le→ltb,
  leb→le, le→leb, lt→leb, ==_iff, ==_self, ==_ne, Bool-cases, Option-cases, Bytes, codes, length,
  get_elem?, take, drop, All, length-append, length-drop, get_elem?-drop, drop-suc, drop-append,
  take-append, drop-append_at, get_elem?-lt, length-map, bytes_eq, bytes_eq_iff, bytes_eq_self,
  Error, buffer_underflow, string_underflow, not_null_terminated, bad_alloc, invalid_argument,
  out_of_range, logic_error, wal_too_short, config_path_not_set, not_replicating, read_failed,
  start_failed, Outcome, ok, throw, fault, ◌>>=◌, >>=-eq-ok, Outcome-cases,
}
use kafka_replication.Base.Word.{advance}
use kafka_replication.Wire.{memcpy, read_uint8, read_uint16, read_uint32}

abbrev pub null_text : Bytes
null_text = codes "NULL"

abbrev pub toast_text : Bytes
toast_text = codes "TOAST"

-- `value.assign(&data[offset], length)`: nothing checks that the buffer holds the value.
unfoldable pub assign : Bytes → ℕ → ℕ → Outcome (Bytes × ℕ)
assign buf offset size = do value ← memcpy buf offset size; ok (value, advance offset size)

unfoldable pub text_value : Bytes → ℕ → Outcome (Bytes × ℕ)
text_value buf offset = do
  (size, offset₁) ← read_uint32 buf offset
  if ltb 0 size then assign buf offset₁ size else ok ([], offset₁)

-- The body of the loop without the relation's columns: another column type adds no value.
unfoldable pub push_column : ℕ → Bytes → ℕ → List Bytes → Outcome (List Bytes × ℕ)
push_column column_type buf offset tuple =
    if column_type == b'n'
    then ok (tuple ++ null_text ∷ [], offset)
    else if column_type == b'u'
    then ok (tuple ++ toast_text ∷ [], offset)
    else if column_type == b't'
    then (text_value buf offset >>= λ (value, offset'). ok (tuple ++ value ∷ [], offset'))
    else ok (tuple, offset)

unfoldable pub parse_tuple_loop : ℕ → Bytes → ℕ → List Bytes → Outcome (List Bytes × ℕ)
parse_tuple_loop zero buf offset tuple = ok (tuple, offset)
parse_tuple_loop (suc rounds) buf offset tuple = do
  (column_type, offset₁) ← read_uint8 buf offset
  (tuple', offset₂) ← push_column column_type buf offset₁ tuple
  parse_tuple_loop rounds buf offset₂ tuple'

unfoldable pub parse_tuple : Bytes → ℕ → Outcome (List Bytes × ℕ)
parse_tuple buf offset = do
  (num_columns, offset₁) ← read_uint16 buf offset
  parse_tuple_loop num_columns buf offset₁ []

-- The body with the columns: another column type gives the empty value.
unfoldable pub column_value : ℕ → Bytes → ℕ → Outcome (Bytes × ℕ)
column_value column_type buf offset =
    if column_type == b'n'
    then ok (null_text, offset)
    else if column_type == b'u'
    then ok (toast_text, offset)
    else if column_type == b't'
    then text_value buf offset
    else ok ([], offset)

unfoldable pub parse_values_loop : ℕ → Bytes → ℕ → List Bytes → Outcome (List Bytes × ℕ)
parse_values_loop zero buf offset tuple = ok (tuple, offset)
parse_values_loop (suc rounds) buf offset tuple = do
  (column_type, offset₁) ← read_uint8 buf offset
  (value, offset₂) ← column_value column_type buf offset₁
  parse_values_loop rounds buf offset₂ (tuple ++ value ∷ [])

-- The overload for a cached relation; it compares the counts for its log line only.
unfoldable pub parse_values : Bytes → ℕ → Outcome (List Bytes × ℕ)
parse_values buf offset = do
  (num_values, offset₁) ← read_uint16 buf offset
  parse_values_loop num_values buf offset₁ []
