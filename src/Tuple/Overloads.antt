-- ===== src/Tuple/Overloads.antt =====
-- The two overloads of parseTuple compared, on any input.
use kafka_replication.Base.{
  ℕ, zero, suc, ◌+◌, ◌≤◌, ◌<◌, ◌≡◌, refl, ap, ◌∙◌, inl, inr, List, [], ◌∷◌, ◌++◌, arith, lt→ltb,
  lt→leb, Bytes, length, length-append, Outcome, ok, throw, fault, ◌>>=◌, >>=-eq-ok, Outcome-cases,
}
use kafka_replication.Wire.{memcpy, read_uint8, read_uint16, read_uint32}
use kafka_replication.Tuple.{
  text_value, assign, push_column, parse_tuple_loop, parse_tuple, column_value, parse_values_loop,
  parse_values, memcpy,
}

-- The cursor that a read leaves.
abbrev pub cursor {ℓ} : {A : Type ℓ} → Outcome (A × ℕ) → Outcome ℕ
cursor r = r >>= λ (_, offset). ok offset

column_cursors :
    (c : ℕ) (buf : Bytes) (offset : ℕ) (tuple : List Bytes)
    → cursor (push_column c buf offset tuple) ≡ cursor (column_value c buf offset)
unfolding push_column column_value
column_cursors c buf offset tuple = ground arith

module _ {A B C D : Type 0} where
  -- What comes behind two reads that end alike ends alike.
  cursor-bind :
      (r : Outcome (A × ℕ)) (q : Outcome (B × ℕ)) (f : A × ℕ → Outcome (C × ℕ))
      (g : B × ℕ → Outcome (D × ℕ))
      → cursor r ≡ cursor q
      → ((a : A) (b : B) (offset : ℕ) → cursor (f (a, offset)) ≡ cursor (g (b, offset)))
      → cursor (r >>= f) ≡ cursor (q >>= g)
  cursor-bind (ok (a, n)) (ok (b, m)) f g e k = let same : m ≡ n = cc in rw same (k a b n)
  cursor-bind (throw x) (throw y) f g e k = cc
  cursor-bind fault fault f g e k = refl
  cursor-bind (ok _) (throw _) f g e k = cc
  cursor-bind (ok _) fault f g e k = cc
  cursor-bind (throw _) (ok _) f g e k = cc
  cursor-bind (throw _) fault f g e k = cc
  cursor-bind fault (ok _) f g e k = cc
  cursor-bind fault (throw _) f g e k = cc

loop_cursors :
    (n : ℕ) (buf : Bytes) (offset : ℕ) (ts vs : List Bytes)
    → cursor (parse_tuple_loop n buf offset ts) ≡ cursor (parse_values_loop n buf offset vs)
unfolding parse_tuple_loop parse_values_loop
loop_cursors zero buf offset ts vs = refl
loop_cursors (suc n) buf offset ts vs = elim (Outcome-cases (read_uint8 buf offset)) [
  | inl ((c, o₁), e) ↦ rw e (
      cursor-bind (push_column c buf o₁ ts) (column_value c buf o₁) _ _ (column_cursors c buf o₁ ts)
        (λ ts' v o₂. loop_cursors n buf o₂ ts' (vs ++ v ∷ [])))
  | inr (inl (x, e)) ↦ rw e
  | inr (inr e) ↦ rw e
]

-- On every input, also a broken one, the two overloads stop at the same byte, or throw the same
-- exception, or run into undefined behaviour, together: the columns that one of them is given play
-- no part.
pub parse_tuple-parse_values :
    (buf : Bytes) (offset : ℕ) → cursor (parse_tuple buf offset) ≡ cursor (parse_values buf offset)
unfolding parse_tuple parse_values
parse_tuple-parse_values buf offset = elim (Outcome-cases (read_uint16 buf offset)) [
  | inl ((n, o₁), e) ↦ rw e (loop_cursors n buf o₁ [] [])
  | inr (inl (x, e)) ↦ rw e
  | inr (inr e) ↦ rw e
]

parse_values_loop-length :
    (n : ℕ) (buf : Bytes) (offset : ℕ) (vs ws : List Bytes) (end : ℕ)
    → parse_values_loop n buf offset vs ≡ ok (ws, end)
    → length ws ≡ length vs + n
unfolding parse_values_loop
parse_values_loop-length zero buf offset vs ws end e =
    let same : ws ≡ vs = cc in rw same (omega arith)
parse_values_loop-length (suc n) buf offset vs ws end e =
    let ((c, o₁), _, e₁) = >>=-eq-ok (read_uint8 buf offset) _ e in
    let ((v, o₂), _, e₂) = >>=-eq-ok (column_value c buf o₁) _ e₁ in
    omega
      (arith, parse_values_loop-length n buf o₂ (vs ++ v ∷ []) ws end e₂, length-append vs (v ∷ []))

-- A tuple that is read for a cached relation has as many values as its message announces, whatever
-- the types of its columns.
pub length-parse_values :
    (buf : Bytes) (offset : ℕ) (values : List Bytes) (end : ℕ)
    → parse_values buf offset ≡ ok (values, end)
    → (start : ℕ) × (read_uint16 buf offset ≡ ok (length values, start))
unfolding parse_values
length-parse_values buf offset values end e =
    let ((n, o₁), r, e₁) = >>=-eq-ok (read_uint16 buf offset) _ e in
    let count : n ≡ length values =
      omega (arith, parse_values_loop-length n buf o₁ [] values end e₁) in
    (o₁, r ∙ ap (λ (k : ℕ). ok (k, o₁)) count)

-- A text whose announced length runs over the end of the message is read all the same: the parser
-- does not throw but reads outside its buffer.
pub text_value_overrun :
    (buf : Bytes) (offset : ℕ) (size start : ℕ)
    → read_uint32 buf offset ≡ ok (size, start)
    → start ≤ length buf
    → length buf < start + size
    → text_value buf offset ≡ fault
unfolding text_value assign memcpy
text_value_overrun buf offset size start e h k =
    rw (e, lt→ltb 0 size (omega arith), lt→leb (start + size) (length buf) k)
