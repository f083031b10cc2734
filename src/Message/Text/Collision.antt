-- ===== src/Message/Text/Collision.antt =====
-- producer_azs/replication_message.cpp: DeleteMessage::toString runs numbers together.
use kafka_replication.Base.{
  ℕ, zero, suc, ◌+◌, ◌*◌, ◌/◌, ◌%◌, ◌^◌, ◌<◌, ◌≡◌, sym, ap, ◌∙◌, inl, inr, true, false, List, [],
  ◌∷◌, ◌++◌, append_assoc, arith, ◌==◌, Bool-cases, Bytes, codes,
}
use native.Mathlib.Nat.{pow-suc}
use kafka_replication.Base.Word.{IsU32}
use kafka_replication.Base.Text.{to_string, to_decimal}
use kafka_replication.Config.Lsn.{to_decimal_one, to_decimal_more}
use kafka_replication.Message.Text.{listed, delete_text}

-- A round more than enough changes nothing.
to_decimal_enough :
    (rounds n : ℕ)
    → n < 10 ^ suc rounds
    → to_decimal (suc (suc rounds)) n ≡ to_decimal (suc rounds) n
to_decimal_enough zero n h =
    let one : (n / 10 == 0) ≡ true = ground arith in
    to_decimal_one 1 n one ∙ sym (to_decimal_one 0 n one)
to_decimal_enough (suc rounds) n h = elim (Bool-cases (n / 10 == 0)) [
  | inl one ↦ to_decimal_one (suc (suc rounds)) n one ∙ sym (to_decimal_one (suc rounds) n one)
  | inr more ↦
      let fits : n / 10 < 10 ^ suc rounds = omega (arith, pow-suc 10 (suc rounds)) in
      to_decimal_more (suc (suc rounds)) n more
      ∙ ap (λ front. front ++ (b'0' + n % 10) ∷ []) (to_decimal_enough rounds (n / 10) fits)
      ∙ sym (to_decimal_more (suc rounds) n more)
]

-- A number printed with a digit more.
to_string_digit :
    (r d : ℕ)
    → 0 < r
    → d < 10
    → IsU32 (r * 10 + d)
    → to_string (r * 10 + d) ≡ to_string r ++ (b'0' + d) ∷ []
to_string_digit r d pos digit h =
    let more : ((r * 10 + d) / 10 == 0) ≡ false = ground arith in
    let front : (r * 10 + d) / 10 ≡ r = omega arith in
    let last : (r * 10 + d) % 10 ≡ d = omega arith in
    to_decimal_more 19 (r * 10 + d) more
    ∙ rw (front, last) (ap (λ s. s ++ (b'0' + d) ∷ []) (sym (to_decimal_enough 18 r (omega arith))))

shift :
    (before number : Bytes) (c : ℕ) (s : Bytes)
    → (before ++ number) ++ c ∷ s ≡ (before ++ (number ++ c ∷ [])) ++ s
shift before number c s =
    rw (append_assoc before number, append_assoc before (number ++ c ∷ []), append_assoc number)

-- Nothing stands between the relation id and the first value of a printed DELETE: a row of the
-- relation r whose first value begins with the digit d prints as a row of the relation 10 r + d
-- whose first value lacks this digit.
pub delete_text_collision :
    (r d : ℕ) (x : Bytes) (xs : List Bytes)
    → 0 < r
    → d < 10
    → IsU32 (r * 10 + d)
    → delete_text (record { relation_id = r; old_tuple = ((b'0' + d) ∷ x) ∷ xs })
      ≡ delete_text (record { relation_id = r * 10 + d; old_tuple = x ∷ xs })
unfolding delete_text
delete_text_collision r d x xs pos digit h = rw (to_string_digit r d pos digit h) (
    ap (λ s. s ++ codes "]\n")
      (shift (codes "DELETE [relation_id: ") (to_string r) (b'0' + d) (listed (x ∷ xs))))
