-- ===== src/Wire.antt =====
-- producer_azs/pgoutput_parser.cpp, the checked reads of PgOutputParser. The cursor is the size_t
-- `offset` into `data`, here `buf`; a read returns its value and the new cursor.
pub mod Cursor
pub mod Checked
use kafka_replication.Base.{
  ℕ, ◌+◌, ◌-◌, ◌*◌, ◌^◌, ◌≤◌, ◌<◌, List, [], ◌∷◌, ◌++◌, Option, none, some, Bytes, length,
  get_elem?, take, drop, ltb, leb, ◌==◌, if◌then◌else◌, Outcome, ok, throw, fault, ◌>>=◌,
  buffer_underflow, string_underflow, not_null_terminated,
}
use kafka_replication.Base.Int.{ℤ, pos, negsuc}
use kafka_replication.Base.Word.{advance}
use mathlib.Core.List.{foldl}

-- `data[offset]`: undefined out of range.
unfoldable pub byte_at : Bytes → ℕ → Outcome ℕ
byte_at buf offset = elim (get_elem? buf offset) [ none ↦ fault | some b ↦ ok b ]

-- `memcpy(&word, &data[offset], n)`: undefined when the source runs over the end.
unfoldable pub memcpy : Bytes → ℕ → ℕ → Outcome Bytes
memcpy buf offset n = if leb (offset + n) (length buf) then ok (take n (drop offset buf)) else fault

-- The value that ntohs, ntohl and be64toh give to copied bytes, on any host.
abbrev pub from_be : Bytes → ℕ
from_be = foldl (λ acc b. acc * 2 ^ 8 + b) 0

unfoldable pub read_uint8 : Bytes → ℕ → Outcome (ℕ × ℕ)
unfolding byte_at
read_uint8 buf offset =
    if leb (length buf) offset
    then throw buffer_underflow
    else byte_at buf offset >>= λ b. ok (b, advance offset 1)

unfoldable pub read_uint16 : Bytes → ℕ → Outcome (ℕ × ℕ)
read_uint16 buf offset =
    if ltb (length buf) (advance offset 2)
    then throw buffer_underflow
    else memcpy buf offset 2 >>= λ bs. ok (from_be bs, advance offset 2)

unfoldable pub read_uint32 : Bytes → ℕ → Outcome (ℕ × ℕ)
read_uint32 buf offset =
    if ltb (length buf) (advance offset 4)
    then throw buffer_underflow
    else memcpy buf offset 4 >>= λ bs. ok (from_be bs, advance offset 4)

-- `(high << 32) | low`: the shifted half has zeros where `low` has its bits.
unfoldable pub read_uint64 : Bytes → ℕ → Outcome (ℕ × ℕ)
read_uint64 buf offset =
    if ltb (length buf) (advance offset 8)
    then throw buffer_underflow
    else read_uint32 buf offset >>= λ (high, offset₁).
        read_uint32 buf offset₁ >>= λ (low, offset₂). ok (high * 2 ^ 32 + low, offset₂)

-- The loop of `read_string`; the first argument is what the cursor has not passed.
unfoldable pub read_string_loop : Bytes → ℕ → Bytes → Outcome (Bytes × ℕ)
read_string_loop [] offset str = throw not_null_terminated
read_string_loop (b ∷ bs) offset str =
    let rest = read_string_loop bs (advance offset 1) (str ++ b ∷ []) in
    if b == 0 then ok (str, advance offset 1) else rest

unfoldable pub read_string : Bytes → ℕ → Outcome (Bytes × ℕ)
read_string buf offset =
    if leb (length buf) offset
    then throw string_underflow
    else read_string_loop (drop offset buf) offset []

-- The int64_t that a 64-bit pattern stands for.
abbrev pub to_int64 : ℕ → ℤ
to_int64 w = if ltb w (2 ^ 63) then pos w else negsuc (2 ^ 64 - w - 1)

unfoldable pub read_int64 : Bytes → ℕ → Outcome (ℤ × ℕ)
read_int64 buf offset =
    if ltb (length buf) (advance offset 8)
    then throw buffer_underflow
    else memcpy buf offset 8 >>= λ bs. ok (to_int64 (from_be bs), advance offset 8)
