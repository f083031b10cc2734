-- ===== src/Base/Text.antt =====
-- The C++ library's texts: searching, lines, and decimal numbers.
use Prim.Native.Nat.{ℕ, zero, suc, ◌+◌, ◌-◌, ◌*◌, ◌/◌, ◌%◌, ◌^◌}
use mathlib.Core.Bool.{Bool, true, false, ◌&&◌, ◌||◌}
use mathlib.Core.Option.{Option, none, some}
use mathlib.Core.List.{List, [], ◌∷◌, ◌++◌}
use kafka_replication.Base.Tests.{ltb, leb, ◌==◌, if◌then◌else◌}
use kafka_replication.Base.Int.{ℤ, pos, negsuc}
use kafka_replication.Base.Lists.{Bytes, take, drop}
use kafka_replication.Base.Effects.{Outcome, ok, throw, invalid_argument, out_of_range}

-- The characters of " \t\n\r".
abbrev pub is_blank : ℕ → Bool
is_blank c = c == b' ' || (c == b'\t' || (c == b'\n' || c == b'\r'))

-- std::isspace in the C locale: also the vertical tab and the form feed.
abbrev pub is_space : ℕ → Bool
is_space c = is_blank c || (c == 11 || c == 12)

abbrev pub is_digit : ℕ → Bool
is_digit c = leb b'0' c && leb c b'9'

abbrev pub map_suc : Option ℕ → Option ℕ
map_suc none = none
map_suc (some i) = some (suc i)

-- `find(c)`; `none` is npos.
unfoldable pub find_byte : ℕ → Bytes → Option ℕ
find_byte c [] = none
find_byte c (x ∷ xs) = if x == c then some 0 else map_suc (find_byte c xs)

unfoldable pub find_first_not_of : Bytes → Option ℕ
find_first_not_of [] = none
find_first_not_of (x ∷ xs) = if is_blank x then map_suc (find_first_not_of xs) else some 0

abbrev pub last_of : ℕ → Option ℕ → Option ℕ
last_of x (some i) = some (suc i)
last_of x none = if is_blank x then none else some 0

unfoldable pub find_last_not_of : Bytes → Option ℕ
find_last_not_of [] = none
find_last_not_of (x ∷ xs) = last_of x (find_last_not_of xs)

abbrev pub substr : Bytes → ℕ → ℕ → Bytes
substr s start n = take n (drop start s)

abbrev pub push_front : ℕ → List Bytes → List Bytes
push_front c [] = (c ∷ []) ∷ []
push_front c (line ∷ lines) = (c ∷ line) ∷ lines

-- The lines that repeated std::getline gives.
unfoldable pub split_lines : Bytes → List Bytes
split_lines [] = []
split_lines (c ∷ s) = if c == b'\n' then [] ∷ split_lines s else push_front c (split_lines s)

abbrev pub digit_value : Option ℕ → ℕ → ℕ
digit_value none c = c - b'0'
digit_value (some n) c = n * 10 + (c - b'0')

-- The digits at the front; `none` if there are none.
unfoldable pub read_digits : Bytes → Option ℕ → Option ℕ
read_digits [] n = n
read_digits (c ∷ s) n =
    let rest = read_digits s (some (digit_value n c)) in if is_digit c then rest else n

abbrev pub to_unsigned : Bool → Option ℕ → Outcome ℕ
to_unsigned negative none = throw invalid_argument
to_unsigned negative (some n) =
    if ltb n (2 ^ 64)
    then ok (if negative then (2 ^ 64 - n) % 2 ^ 64 else n)
    else throw out_of_range

unfoldable pub read_sign : Bytes → Outcome ℕ
read_sign [] = throw invalid_argument
read_sign (c ∷ s) =
    if c == b'-'
    then to_unsigned true (read_digits s none)
    else if c == b'+'
    then to_unsigned false (read_digits s none)
    else to_unsigned false (read_digits (c ∷ s) none)

-- std::stoul in base ten, with a 64-bit unsigned long: blanks, a sign, digits; the rest is ignored.
unfoldable pub stoul : Bytes → Outcome ℕ
stoul [] = throw invalid_argument
stoul (c ∷ s) = let rest = stoul s in if is_space c then rest else read_sign (c ∷ s)

-- std::to_string of a number below 10 ^ rounds.
unfoldable pub to_decimal : ℕ → ℕ → Bytes
to_decimal zero n = []
to_decimal (suc rounds) n =
    let front = to_decimal rounds (n / 10) in
    if n / 10 == 0 then (b'0' + n % 10) ∷ [] else front ++ (b'0' + n % 10) ∷ []

-- Twenty digits hold any 64-bit number.
abbrev pub to_string : ℕ → Bytes
to_string = to_decimal 20

-- std::to_string of an int.
abbrev pub show_int : ℤ → Bytes
show_int (pos n) = to_string n
show_int (negsuc n) = b'-' ∷ to_string (n + 1)

-- A digit of a number printed with std::hex.
abbrev pub hex_digit : ℕ → ℕ
hex_digit d = if ltb d 10 then b'0' + d else b'a' + (d - 10)

-- A number below 16 ^ rounds, printed with std::hex.
unfoldable pub to_hexadecimal : ℕ → ℕ → Bytes
to_hexadecimal zero n = []
to_hexadecimal (suc rounds) n =
    let front = to_hexadecimal rounds (n / 16) in
    if n / 16 == 0 then hex_digit (n % 16) ∷ [] else front ++ hex_digit (n % 16) ∷ []

-- Sixteen digits hold any 64-bit number.
abbrev pub to_hex : ℕ → Bytes
to_hex = to_hexadecimal 16
