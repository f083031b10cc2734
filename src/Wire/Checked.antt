-- ===== src/Wire/Checked.antt =====
-- The checked reads on any input: what succeeds, what throws, and what never happens.
use kafka_replication.Base.{
  ℕ, ◌+◌, ◌*◌, ◌^◌, ◌≤◌, ◌<◌, ◌≡◌, refl, ◌⊎◌, inl, inr, [], ◌∷◌, ◌++◌, arith, ltb, leb, ltb→lt,
  le→leb, Bool-cases, Bytes, length, take, drop, length-drop, get_elem?-lt, Error, buffer_underflow,
  Outcome, ok, throw, ◌>>=◌,
}
use kafka_replication.Wire.{
  byte_at, memcpy, from_be, read_uint8, read_uint16, read_uint32, read_uint64, read_int64, to_int64,
}
use kafka_replication.Wire.Cursor.{At, At-next, memcpy_at, room_test}
use kafka_replication.Base.Word.{advance}

-- A cursor that no read of at most eight bytes makes wrap.
abbrev pub IsCursor : ℕ → Type 0
IsCursor offset = offset + 8 < 2 ^ 64

-- A read of `n` bytes returns a value and moves the cursor if they are there, else throws.
abbrev pub ReadsExactly {ℓ} : {A : Type ℓ} → Bytes → ℕ → ℕ → Error → Outcome (A × ℕ) → Type ℓ
ReadsExactly {A} buf offset n e r =
    ((v : A) × (offset + n ≤ length buf) × (r ≡ ok (v, offset + n)))
    ⊎ ((length buf < offset + n) × (r ≡ throw e))

pub no_wrap : (offset n : ℕ) → IsCursor offset → n ≤ 8 → advance offset n ≡ offset + n
no_wrap offset n h k = omega arith

memcpy_inside :
    (buf : Bytes) (offset n : ℕ)
    → offset + n ≤ length buf
    → memcpy buf offset n ≡ ok (take n (drop offset buf))
unfolding memcpy
memcpy_inside buf offset n h = rw (le→leb _ _ h)

pub read_uint8_cases :
    (buf : Bytes) (offset : ℕ)
    → IsCursor offset
    → ReadsExactly buf offset 1 buffer_underflow (read_uint8 buf offset)
unfolding read_uint8
read_uint8_cases buf offset h = elim (Bool-cases (leb (length buf) offset)) [
  | inl short ↦ inr (ground arith, rw short)
  | inr long ↦
      let (b, e) = get_elem?-lt buf offset (ground arith) in
      inl (b, ground arith, rw (long, e, byte_at, no_wrap offset 1 h (omega arith)))
]

pub read_uint16_cases :
    (buf : Bytes) (offset : ℕ)
    → IsCursor offset
    → ReadsExactly buf offset 2 buffer_underflow (read_uint16 buf offset)
unfolding read_uint16
read_uint16_cases buf offset h = elim (Bool-cases (ltb (length buf) (offset + 2))) [
  | inl short ↦ inr (ltb→lt _ _ short, rw (no_wrap offset 2 h (omega arith), short))
  | inr long ↦
      let room : offset + 2 ≤ length buf = ground arith in
      inl (
        from_be (take 2 (drop offset buf)),
        room,
        rw (no_wrap offset 2 h (omega arith), long, memcpy_inside buf offset 2 room),
      )
]

pub read_uint32_cases :
    (buf : Bytes) (offset : ℕ)
    → IsCursor offset
    → ReadsExactly buf offset 4 buffer_underflow (read_uint32 buf offset)
unfolding read_uint32
read_uint32_cases buf offset h = elim (Bool-cases (ltb (length buf) (offset + 4))) [
  | inl short ↦ inr (ltb→lt _ _ short, rw (no_wrap offset 4 h (omega arith), short))
  | inr long ↦
      let room : offset + 4 ≤ length buf = ground arith in
      inl (
        from_be (take 4 (drop offset buf)),
        room,
        rw (no_wrap offset 4 h (omega arith), long, memcpy_inside buf offset 4 room),
      )
]

-- Both reads of eight bytes, on a buffer that holds the eight at the cursor.
wide_reads :
    (xs : Bytes) {buf : Bytes} {offset : ℕ}
    → 8 ≤ length xs
    → At buf offset xs
    → (w : ℕ) × (read_uint64 buf offset ≡ ok (w, advance offset 8))
      × (read_int64 buf offset ≡ ok (to_int64 w, advance offset 8))
unfolding read_uint64 read_int64 read_uint32
wide_reads (a ∷ b ∷ c ∷ d ∷ e ∷ f ∷ g ∷ h ∷ s) {buf} {offset} size here =
    let hi : Bytes = a ∷ b ∷ c ∷ d ∷ [] in
    let lo : Bytes = e ∷ f ∷ g ∷ h ∷ [] in
    let after = At-next hi (lo ++ s) here in
    let cursor : advance (advance offset 4) 4 ≡ advance offset 8 = omega arith in
    let value : from_be hi * 2 ^ 32 + from_be lo ≡ from_be (hi ++ lo) = omega arith in
    (
      from_be (hi ++ lo),
      rw (
        room_test (hi ++ lo) s here,
        room_test hi (lo ++ s) here,
        memcpy_at hi (lo ++ s) here,
        room_test lo s after,
        memcpy_at lo s after,
        cursor,
        value,
      ),
      rw (room_test (hi ++ lo) s here, memcpy_at (hi ++ lo) s here),
    )
wide_reads _ h here = absurd (omega arith)

wide_room :
    (buf : Bytes) (offset : ℕ)
    → length buf < 2 ^ 64
    → offset + 8 ≤ length buf
    → (8 ≤ length (drop offset buf)) × At buf offset (drop offset buf)
wide_room buf offset fits room = (
  omega (arith, length-drop offset buf),
  record { rest = refl; fits = fits; inside = omega arith },
)

-- Eight bytes at the cursor are read and passed, and if there are fewer, the read throws: it never
-- runs into undefined behaviour.
pub read_uint64_cases :
    (buf : Bytes) (offset : ℕ)
    → length buf < 2 ^ 64
    → IsCursor offset
    → ReadsExactly buf offset 8 buffer_underflow (read_uint64 buf offset)
read_uint64_cases buf offset fits h = elim (Bool-cases (ltb (length buf) (offset + 8))) [
  | inl short ↦
      inr (ltb→lt _ _ short, unfold read_uint64 in rw (no_wrap offset 8 h (omega arith), short))
  | inr long ↦
      let room : offset + 8 ≤ length buf = ground arith in
      let (size, here) = wide_room buf offset fits room in
      let (w, e, _) = wide_reads (drop offset buf) size here in
      inl (w, room, rw e (rw (no_wrap offset 8 h (omega arith))))
]

-- On a cursor that does not wrap, `read_int64`, which copies eight bytes at once, reads what
-- `read_uint64` does from two halves, as a signed number, and throws where it throws.
pub read_int64-read_uint64 :
    (buf : Bytes) (offset : ℕ)
    → length buf < 2 ^ 64
    → IsCursor offset
    → read_int64 buf offset ≡ (read_uint64 buf offset >>= λ (w, offset'). ok (to_int64 w, offset'))
read_int64-read_uint64 buf offset fits h = elim (Bool-cases (ltb (length buf) (offset + 8))) [
  | inl short ↦ unfold read_uint64 read_int64 in rw (no_wrap offset 8 h (omega arith), short)
  | inr long ↦
      let (size, here) = wide_room buf offset fits (ground arith) in
      let (w, e, e') = wide_reads (drop offset buf) size here in rw (e, e')
]
