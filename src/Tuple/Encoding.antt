-- ===== src/Tuple/Encoding.antt =====
-- TupleData of the logical replication protocol, as the server writes it, and the rule for reading
-- from a cursor.
use kafka_replication.Base.{ℕ, ◌≡◌, List, [], ◌∷◌, ◌++◌, Bytes, length, All, Outcome, ok}
use kafka_replication.Base.Word.{IsU16, IsU32, IsU64, be16, be32, be64}
use kafka_replication.Wire.{read_uint8, read_uint16, read_uint32, read_uint64, read_string}
use kafka_replication.Wire.Cursor.{
  At, At-next, read_uint8-At, read_uint16-At, read_uint32-At, read_uint64-At, read_string-At,
  IsText, c_string,
}
use kafka_replication.Tuple.{null_text, toast_text}

-- The read takes `v` and leaves the cursor at `s`.
abbrev pub Reads {ℓ} : {A : Type ℓ} → Bytes → Bytes → A → Outcome (A × ℕ) → Type ℓ
Reads buf s v r = (offset : ℕ) × At buf offset s × (r ≡ ok (v, offset))

module _ {buf : Bytes} {offset : ℕ} (v : ℕ) (s : Bytes) where
  pub uint8_Reads : At buf offset (v ∷ s) → Reads buf s v (read_uint8 buf offset)
  uint8_Reads h = (_, At-next (v ∷ []) s h, read_uint8-At v s h)

  pub uint16_Reads : IsU16 v → At buf offset (be16 v ++ s) → Reads buf s v (read_uint16 buf offset)
  uint16_Reads k h = (_, At-next (be16 v) s h, read_uint16-At v s k h)

  pub uint32_Reads : IsU32 v → At buf offset (be32 v ++ s) → Reads buf s v (read_uint32 buf offset)
  uint32_Reads k h = (_, At-next (be32 v) s h, read_uint32-At v s k h)

  pub uint64_Reads : IsU64 v → At buf offset (be64 v ++ s) → Reads buf s v (read_uint64 buf offset)
  uint64_Reads k h = (_, At-next (be64 v) s h, read_uint64-At v s k h)

pub string_Reads :
    (xs s : Bytes) {buf : Bytes} {offset : ℕ}
    → IsText xs
    → At buf offset (c_string xs ++ s)
    → Reads buf s xs (read_string buf offset)
string_Reads xs s k h = (_, At-next (c_string xs) s h, read_string-At xs s k h)

-- One column's datum: SQL NULL, an unchanged TOASTed value, or a text.
pub data Field : Type 0 where
  null_value toast_value : Field
  text : Bytes → Field

abbrev pub field_type : Field → ℕ
field_type null_value = b'n'
field_type toast_value = b'u'
field_type (text v) = b't'

abbrev pub field_body : Field → Bytes
field_body null_value = []
field_body toast_value = []
field_body (text v) = be32 (length v) ++ v

unfoldable pub encode_fields : List Field → Bytes
encode_fields [] = []
encode_fields (f ∷ fs) = field_type f ∷ (field_body f ++ encode_fields fs)

abbrev pub encode_tuple : List Field → Bytes
encode_tuple fs = be16 (length fs) ++ encode_fields fs

-- What the parser shows of a datum.
abbrev pub shown : Field → Bytes
shown null_value = null_text
shown toast_value = toast_text
shown (text v) = v

-- A text's length has 32 bits.
abbrev pub IsField : Field → Type 0
IsField (text v) = IsU32 (length v)
IsField _ = Unit {0}

pub record IsTuple (fs : List Field) : Type 0 where
  pub count : IsU16 (length fs)
  pub fields : All IsField fs
