-- ===== src/Config/Lsn.antt =====
-- producer_azs/config_manager.cpp, parseLSN: which texts it reads, and as what.
use kafka_replication.Base.{
  ℕ, zero, suc, ◌+◌, ◌*◌, ◌/◌, ◌%◌, ◌^◌, ◌≤◌, ◌<◌, ◌≡◌, refl, sym, ap, ◌∙◌, ◌≢◌, inl, inr, true,
  false, Option, none, some, [], ◌∷◌, ◌++◌, append-nil, arith, ◌==◌, lt→ltb, Bool-cases, Bytes,
  length, All, drop-suc, drop-append, take-append, invalid_argument, ok, throw, ◌>>=◌,
}
use kafka_replication.Base.Text.{
  is_space, is_digit, find_byte, read_digits, digit_value, to_unsigned, read_sign, stoul,
  to_decimal, to_string,
}
use native.Mathlib.Nat.{pow-suc}
use kafka_replication.Base.Word.{IsU32}
use kafka_replication.Config.{parse_halves, parse_lsn}

abbrev pub IsDigit : ℕ → Type 0
IsDigit c = is_digit c ≡ true

All-snoc : (xs : Bytes) (c : ℕ) → All IsDigit xs → IsDigit c → All IsDigit (xs ++ c ∷ [])
All-snoc [] c h k = (k, tt)
All-snoc (x ∷ xs) c (h, hs) k = (h, All-snoc xs c hs k)

last-IsDigit : (n : ℕ) → IsDigit (b'0' + n % 10)
last-IsDigit n = ground arith

pub to_decimal-IsDigit : (rounds n : ℕ) → All IsDigit (to_decimal rounds n)
unfolding to_decimal
to_decimal-IsDigit zero n = tt
to_decimal-IsDigit (suc rounds) n = elim (Bool-cases (n / 10 == 0)) [
  | inl one ↦ rw one (last-IsDigit n, tt)
  | inr more ↦ rw more (
      All-snoc (to_decimal rounds (n / 10)) _ (to_decimal-IsDigit rounds (n / 10)) (last-IsDigit n))
]

-- The digits of a text are read before what follows them.
read_digits-append :
    (xs s : Bytes) (n : Option ℕ)
    → All IsDigit xs
    → read_digits (xs ++ s) n ≡ read_digits s (read_digits xs n)
unfolding read_digits
read_digits-append [] s n h = refl
read_digits-append (x ∷ xs) s n (h, hs) = rw h (read_digits-append xs s (some (digit_value n x)) hs)

read_digit : (n m : ℕ) → read_digits ((b'0' + n % 10) ∷ []) (some m) ≡ some (m * 10 + n % 10)
unfolding read_digits
read_digit n m = rw (last-IsDigit n) (ap some (omega arith))

pub to_decimal_one :
    (rounds n : ℕ) → (n / 10 == 0) ≡ true → to_decimal (suc rounds) n ≡ (b'0' + n % 10) ∷ []
unfolding to_decimal
to_decimal_one rounds n e = rw e

pub to_decimal_more :
    (rounds n : ℕ)
    → (n / 10 == 0) ≡ false
    → to_decimal (suc rounds) n ≡ to_decimal rounds (n / 10) ++ (b'0' + n % 10) ∷ []
unfolding to_decimal
to_decimal_more rounds n e = rw e

one_digit : (n : ℕ) → (n / 10 == 0) ≡ true → read_digits ((b'0' + n % 10) ∷ []) none ≡ some n
unfolding read_digits
one_digit n e = rw (last-IsDigit n) (ap some (ground arith))

-- Enough rounds print a number that reads back.
pub read_digits-to_decimal :
    (rounds n : ℕ) → n < 10 ^ suc rounds → read_digits (to_decimal (suc rounds) n) none ≡ some n
read_digits-to_decimal zero n h = elim (Bool-cases (n / 10 == 0)) [
  | inl one ↦ rw (to_decimal_one zero n one) (one_digit n one)
  | inr more ↦ absurd (ground arith)
]
read_digits-to_decimal (suc rounds) n h = elim (Bool-cases (n / 10 == 0)) [
  | inl one ↦ rw (to_decimal_one (suc rounds) n one) (one_digit n one)
  | inr more ↦
      let front = to_decimal (suc rounds) (n / 10) in
      let d = (b'0' + n % 10) ∷ [] in
      let value : n / 10 * 10 + n % 10 ≡ n = omega arith in
      rw (
        to_decimal_more (suc rounds) n more,
        read_digits-append front d none (to_decimal-IsDigit (suc rounds) (n / 10)),
        read_digits-to_decimal rounds (n / 10) (omega (arith, pow-suc 10 (suc rounds))),
        read_digit n (n / 10),
        value,
      )
]

-- What follows a number's digits, if it is no digit, is not read.
abbrev pub EndsNumber : Bytes → Type 0
EndsNumber [] = Unit {0}
EndsNumber (c ∷ s) = is_digit c ≡ false

read_digits_end : (s : Bytes) (n : ℕ) → EndsNumber s → read_digits s (some n) ≡ some n
unfolding read_digits
read_digits_end [] n h = refl
read_digits_end (c ∷ s) n h = rw h

stoul_digit :
    (c : ℕ) (s : Bytes) → IsDigit c → stoul (c ∷ s) ≡ to_unsigned false (read_digits (c ∷ s) none)
unfolding stoul read_sign
stoul_digit c s h =
    let space : is_space c ≡ false = ground arith in
    let minus : (c == b'-') ≡ false = ground arith in
    let plus : (c == b'+') ≡ false = ground arith in rw (space, minus, plus)

stoul_digits :
    (xs s : Bytes)
    → All IsDigit xs
    → xs ≢ []
    → stoul (xs ++ s) ≡ to_unsigned false (read_digits (xs ++ s) none)
stoul_digits [] s h ne = absurd (ne refl)
stoul_digits (x ∷ xs) s (h, hs) ne = stoul_digit x (xs ++ s) h

pub to_decimal-ne-nil : (rounds n : ℕ) → to_decimal (suc rounds) n ≢ []
to_decimal-ne-nil rounds n e = elim (Bool-cases (n / 10 == 0)) [
  | inl one ↦ cc (to_decimal_one rounds n one, e)
  | inr more ↦ ends (to_decimal rounds (n / 10)) _ (sym (to_decimal_more rounds n more) ∙ e)
]
  where
    ends : (xs : Bytes) (d : ℕ) → xs ++ d ∷ [] ≢ []
    ends [] d e' = cc
    ends (x ∷ xs) d e' = cc

-- std::stoul reads back what std::to_string prints, up to the first character that is no digit.
pub stoul-to_string :
    (n : ℕ) (s : Bytes) → n < 2 ^ 64 → EndsNumber s → stoul (to_string n ++ s) ≡ ok n
stoul-to_string n s h k =
    let digits = to_decimal-IsDigit 20 n in
    rw (
      stoul_digits (to_string n) s digits (to_decimal-ne-nil 19 n),
      read_digits-append (to_string n) s none digits,
      read_digits-to_decimal 19 n (omega arith),
      read_digits_end s n k,
      lt→ltb n (2 ^ 64) h,
    )

find_slash : (xs s : Bytes) → All IsDigit xs → find_byte b'/' (xs ++ b'/' ∷ s) ≡ some (length xs)
unfolding find_byte
find_slash [] s h = refl
find_slash (x ∷ xs) s (h, hs) =
    let other : (x == b'/') ≡ false = ground arith in rw (other, find_slash xs s hs)

split_slash :
    (h : ℕ) (s : Bytes)
    → parse_lsn (to_string h ++ b'/' ∷ s)
      ≡ (stoul (to_string h) >>= λ high. stoul s >>= λ low. ok (high % 2 ^ 32, low % 2 ^ 32))
unfolding parse_lsn parse_halves
split_slash h s =
    let xs = to_string h in
    rw (
      find_slash xs s (to_decimal-IsDigit 20 h),
      take-append xs (b'/' ∷ s),
      drop-suc (length xs) (xs ++ b'/' ∷ s) b'/' s (drop-append xs (b'/' ∷ s)),
    )

stoul_whole : (n : ℕ) → n < 2 ^ 64 → stoul (to_string n) ≡ ok n
stoul_whole n h = rw (append-nil (to_string n)) at (stoul-to_string n [] h tt)

-- A position that is written with two decimal numbers is read back. Of anything else behind the
-- second number, such as the hexadecimal digits A to F that PostgreSQL writes, nothing is read.
pub parse_lsn-to_string :
    (h l : ℕ) (s : Bytes)
    → IsU32 h
    → IsU32 l
    → EndsNumber s
    → parse_lsn (to_string h ++ b'/' ∷ (to_string l ++ s)) ≡ ok (h, l)
parse_lsn-to_string h l s hh hl k =
    let high : h % 2 ^ 32 ≡ h = omega arith in
    let low : l % 2 ^ 32 ≡ l = omega arith in
    rw (
      split_slash h (to_string l ++ s),
      stoul_whole h (omega arith),
      stoul-to_string l s (omega arith) k,
      high,
      low,
    )

-- Where the second number begins with a letter, as many hexadecimal numbers do, the parse
-- throws.
pub parse_lsn_letter :
    (h c : ℕ) (s : Bytes)
    → IsU32 h
    → b'A' ≤ c
    → parse_lsn (to_string h ++ b'/' ∷ (c ∷ s)) ≡ throw invalid_argument
unfolding stoul read_sign read_digits
parse_lsn_letter h c s hh letter =
    let space : is_space c ≡ false = ground arith in
    let minus : (c == b'-') ≡ false = ground arith in
    let plus : (c == b'+') ≡ false = ground arith in
    let digit : is_digit c ≡ false = ground arith in
    split_slash h (c ∷ s) ∙ rw (stoul_whole h (omega arith), space, minus, plus, digit)
