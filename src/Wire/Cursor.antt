-- ===== src/Wire/Cursor.antt =====
-- The checked reads on well-formed input: each takes the bytes that its encoding put at the cursor.
use kafka_replication.Base.{
  ℕ, ◌+◌, ◌^◌, ◌≤◌, ◌<◌, ◌≡◌, [], ◌∷◌, ◌++◌, arith, Bytes, length, drop, length-append, length-drop,
  take-append, drop-append_at, get_elem?-drop, ltb, leb, le→leb, le→ltb, lt→leb, ok, ap, false, All,
  ◌≢◌, append-nil, append_assoc, suc, ◌/◌, ==_ne, ◌%◌, ◌∙◌, ◌*◌,
}
use kafka_replication.Base.Word.{advance, IsU16, IsU32, be16, be32, IsU64, be64}
use kafka_replication.Wire.{
  byte_at, memcpy, from_be, read_uint8, read_uint16, read_uint32, read_uint64, read_string_loop,
  read_string,
}

-- The bytes from the cursor on are `s`, in a vector that a size_t can measure.
pub record At (buf : Bytes) (offset : ℕ) (s : Bytes) : Type 0 where
  pub rest : drop offset buf ≡ s
  pub fits : length buf < 2 ^ 64
  pub inside : offset ≤ length buf

module _ {buf : Bytes} {offset : ℕ} (xs s : Bytes) (here : At buf offset (xs ++ s)) where
  pub At-room : offset + length xs + length s ≡ length buf
  At-room =
      omega (arith, here.inside, ap length here.rest, length-drop offset buf, length-append xs s)

  pub At-advance : advance offset (length xs) ≡ offset + length xs
  At-advance = omega (arith, At-room, here.fits)

  pub At-next : At buf (advance offset (length xs)) s
  At-next = rw At-advance (record {
    rest = drop-append_at offset xs buf s here.rest;
    fits = here.fits;
    inside = omega (arith, At-room);
  })

  pub memcpy_at : memcpy buf offset (length xs) ≡ ok xs
  unfolding memcpy
  memcpy_at =
      rw (le→leb (offset + length xs) (length buf) (omega (arith, At-room)), here.rest)
        (ap ok (take-append xs s))

  pub room_test : ltb (length buf) (advance offset (length xs)) ≡ false
  room_test = le→ltb (length buf) _ (omega (arith, At-room, At-advance))

module _ {buf : Bytes} {offset : ℕ} (b : ℕ) (s : Bytes) (here : At buf offset (b ∷ s)) where
  pub byte_at_at : byte_at buf offset ≡ ok b
  unfolding byte_at
  byte_at_at = rw (get_elem?-drop offset buf b s here.rest, byte_at)

  pub start_test : leb (length buf) offset ≡ false
  start_test = lt→leb (length buf) offset (omega (arith, At-room (b ∷ []) s here))

  pub read_uint8-At : read_uint8 buf offset ≡ ok (b, advance offset 1)
  unfolding read_uint8
  read_uint8-At = rw (start_test, byte_at_at)

module _ {buf : Bytes} {offset : ℕ} (v : ℕ) (s : Bytes) where
  pub read_uint16-At :
      IsU16 v → At buf offset (be16 v ++ s) → read_uint16 buf offset ≡ ok (v, advance offset 2)
  unfolding read_uint16
  read_uint16-At h here =
      let value : from_be (be16 v) ≡ v = omega arith in
      rw (room_test (be16 v) s here, memcpy_at (be16 v) s here, value)

  pub read_uint32-At :
      IsU32 v → At buf offset (be32 v ++ s) → read_uint32 buf offset ≡ ok (v, advance offset 4)
  unfolding read_uint32
  read_uint32-At h here =
      let value : from_be (be32 v) ≡ v = omega arith in
      rw (room_test (be32 v) s here, memcpy_at (be32 v) s here, value)

module _ {buf : Bytes} {offset : ℕ} (v : ℕ) (s : Bytes) where
  pub read_uint64-At :
      IsU64 v → At buf offset (be64 v ++ s) → read_uint64 buf offset ≡ ok (v, advance offset 8)
  unfolding read_uint64
  read_uint64-At h here =
      let hi = be32 (v / 2 ^ 32) in
      let lo = be32 (v % 2 ^ 32) in
      let value : v / 2 ^ 32 * 2 ^ 32 + v % 2 ^ 32 ≡ v = omega arith in
      let cursor : advance (advance offset 4) 4 ≡ advance offset 8 = omega arith in
      rw (
        room_test (be64 v) s here,
        read_uint32-At (v / 2 ^ 32) (lo ++ s) (omega arith) here,
        read_uint32-At (v % 2 ^ 32) s (omega arith) (At-next hi (lo ++ s) here),
        value,
        cursor,
      )

-- A C string holds no NUL.
abbrev pub IsText : Bytes → Type 0
IsText = All (λ b. b ≢ 0)

read_string_loop_lem :
    (xs s : Bytes) (offset : ℕ) (str : Bytes)
    → IsText xs
    → read_string_loop (xs ++ 0 ∷ s) offset str ≡ ok (str ++ xs, advance offset (length xs + 1))
unfolding read_string_loop
read_string_loop_lem [] s offset str h = rw append-nil
read_string_loop_lem (x ∷ xs) s offset str (hx, hxs) =
    let cursor : advance (advance offset 1) (length xs + 1) ≡ advance offset (suc (length xs) + 1) =
      omega arith in
    rw (==_ne x 0 hx)
      (read_string_loop_lem xs s (advance offset 1) (str ++ x ∷ []) hxs ∙ rw (append_assoc, cursor))

-- The encoding of a text: its bytes and a NUL.
abbrev pub c_string : Bytes → Bytes
c_string xs = xs ++ 0 ∷ []

module _ {buf : Bytes} {offset : ℕ} (xs s : Bytes) (text : IsText xs) where
  pub read_string-At :
      At buf offset (c_string xs ++ s)
      → read_string buf offset ≡ ok (xs, advance offset (length (c_string xs)))
  unfolding read_string
  read_string-At here =
      let room = At-room (c_string xs) s here in
      let size = length-append xs (0 ∷ []) in
      let cursor : length (c_string xs) ≡ length xs + 1 = omega (arith, size) in
      rw
        (
          lt→leb (length buf) offset (omega (arith, room, size)),
          here.rest,
          cursor,
          append_assoc xs (0 ∷ []) s,
        )
        (read_string_loop_lem xs s offset [] text)
