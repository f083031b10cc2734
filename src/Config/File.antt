-- ===== src/Config/File.antt =====
-- producer_azs/config_manager.cpp: a whole file is read back.
use kafka_replication.Base.{
  ℕ, ◌≡◌, refl, sym, ap, ◌∙◌, subst, ◌≢◌, ◌⊎◌, inl, inr, Bool, false, Option, none, some, List, [],
  ◌∷◌, ◌++◌, map, arith, ◌==◌, if◌then◌else◌, ==_ne, Bytes, length, All, drop-suc, drop-append,
  take-append, bytes_eq, bytes_eq_iff,
}
use kafka_replication.Base.Text.{find_byte, find_first_not_of, find_last_not_of, split_lines}
use kafka_replication.Config.{
  Values, find_value, assign_value, ConfigManager, trim_between, trim, entry_of, split_entry,
  parse_line, store_entry, load_lines, load, get_value_by_key, or_empty,
}
use kafka_replication.Config.Entries.{IsBlank, IsTrimmed, trim_pad, find_last_blank}

-- A line `key = value`, with any blanks round both.
pub record Line : Type 0 where
  pub front : Bytes
  pub key : Bytes
  pub behind_key : Bytes
  pub before_value : Bytes
  pub value : Bytes
  pub back : Bytes

abbrev pub left : Line → Bytes
left l = l.front ++ (l.key ++ l.behind_key)

abbrev pub right : Line → Bytes
right l = l.before_value ++ (l.value ++ l.back)

abbrev pub text_of : Line → Bytes
text_of l = left l ++ b'=' ∷ right l

abbrev pub is_comment : Bytes → Bool
is_comment [] = false
is_comment (c ∷ s) = c == b'#'

pub record IsLine (l : Line) : Type 0 where
  pub front : All IsBlank l.front
  pub behind_key : All IsBlank l.behind_key
  pub before_value : All IsBlank l.before_value
  pub back : All IsBlank l.back
  pub key : IsTrimmed l.key
  pub value : IsTrimmed l.value ⊎ (l.value ≡ [])
  pub no_equals : All (λ c. c ≢ b'=') (left l)
  pub no_comment : is_comment (text_of l) ≡ false
  pub one_line : All (λ c. c ≢ b'\n') (text_of l)

find_equals :
    (xs s : Bytes) → All (λ c. c ≢ b'=') xs → find_byte b'=' (xs ++ b'=' ∷ s) ≡ some (length xs)
unfolding find_byte
find_equals [] s h = refl
find_equals (x ∷ xs) s (h, hs) = rw (==_ne x b'=' h, find_equals xs s hs)

All-join : (xs ys : Bytes) → All IsBlank xs → All IsBlank ys → All IsBlank (xs ++ ys)
All-join [] ys h k = k
All-join (x ∷ xs) ys (h, hs) k = (h, All-join xs ys hs k)

trim_blank : (s : Bytes) → All IsBlank s → trim s ≡ none
unfolding trim trim_between
trim_blank s h = after (find_first_not_of s) (find_last_blank s h)
  where
    after :
        (o : Option ℕ) → find_last_not_of s ≡ none → trim_between o (find_last_not_of s) s ≡ none
    after none e = refl
    after (some i) e = rw e

entry_of_value :
    (l : Line) → IsLine l → entry_of (some l.key) (trim (right l)) ≡ some (l.key, l.value)
unfolding entry_of
entry_of_value l k = elim k.value [
  | inl v ↦ rw (trim_pad l.before_value l.value l.back k.before_value k.back v)
  | inr e ↦
      let blank : All IsBlank (right l) =
        subst (λ v. All IsBlank (l.before_value ++ (v ++ l.back))) (sym e)
          (All-join l.before_value l.back k.before_value k.back) in
      rw (trim_blank (right l) blank) (ap (λ v. some (l.key, v)) (sym e))
]

parse_line_text :
    (s : Bytes) → is_comment s ≡ false → s ≢ [] → parse_line s ≡ split_entry (find_byte b'=' s) s
unfolding parse_line
parse_line_text [] h ne = absurd (ne refl)
parse_line_text (c ∷ s) h ne = rw h

ne_nil_at_equals : (xs s : Bytes) → xs ++ b'=' ∷ s ≢ []
ne_nil_at_equals [] s = cc
ne_nil_at_equals (x ∷ xs) s = cc

parse_line-text_of : (l : Line) → IsLine l → parse_line (text_of l) ≡ some (l.key, l.value)
unfolding split_entry
parse_line-text_of l k =
    parse_line_text (text_of l) k.no_comment (ne_nil_at_equals (left l) (right l))
    ∙ rw
        (
          find_equals (left l) (right l) k.no_equals,
          take-append (left l) (b'=' ∷ right l),
          drop-suc (length (left l)) (text_of l) b'=' (right l)
              (drop-append (left l) (b'=' ∷ right l)),
          trim_pad l.front l.key l.behind_key k.front k.behind_key k.key,
        )
        (entry_of_value l k)

-- A file, line by line.
abbrev pub file_of : List Line → Bytes
file_of [] = []
file_of (l ∷ ls) = text_of l ++ b'\n' ∷ file_of ls

split_line :
    (xs s : Bytes) → All (λ c. c ≢ b'\n') xs → split_lines (xs ++ b'\n' ∷ s) ≡ xs ∷ split_lines s
unfolding split_lines
split_line [] s h = refl
split_line (x ∷ xs) s (h, hs) = rw (==_ne x b'\n' h, split_line xs s hs)

split_lines-file_of : (ls : List Line) → All IsLine ls → split_lines (file_of ls) ≡ map text_of ls
split_lines-file_of [] h = unfold split_lines in refl
split_lines-file_of (l ∷ ls) (h, hs) =
    rw (split_line (text_of l) (file_of ls) h.one_line, split_lines-file_of ls hs)

pub find_value-assign_value :
    (k j : Bytes) (v : Bytes) (values : Values)
    → find_value j (assign_value k v values)
      ≡ (if bytes_eq k j then some v else find_value j values)
unfolding find_value assign_value
find_value-assign_value k j v [] = refl
find_value-assign_value k j v ((i, w) ∷ values) = ground (
  arith,
  bytes_eq_iff k j,
  bytes_eq_iff i k,
  bytes_eq_iff i j,
  find_value-assign_value k j v values,
)

-- The value of the last line with the key.
unfoldable pub last_value : Bytes → List Line → Option Bytes → Option Bytes
last_value key [] before = before
last_value key (l ∷ ls) before =
    last_value key ls (if bytes_eq l.key key then some l.value else before)

load_lines-parse_line :
    (line k v : Bytes) (lines : List Bytes) (values : Values)
    → parse_line line ≡ some (k, v)
    → load_lines (line ∷ lines) values ≡ load_lines lines (assign_value k v values)
unfolding load_lines store_entry
load_lines-parse_line line k v lines values e = rw e

load_lines-last_value :
    (key : Bytes) (ls : List Line) (values : Values)
    → All IsLine ls
    → find_value key (load_lines (map text_of ls) values)
      ≡ last_value key ls (find_value key values)
unfolding last_value
load_lines-last_value key [] values h = unfold load_lines in refl
load_lines-last_value key (l ∷ ls) values (h, hs) =
    ap (find_value key) (
      load_lines-parse_line (text_of l) l.key l.value (map text_of ls) values
        (parse_line-text_of l h))
    ∙ load_lines-last_value key ls (assign_value l.key l.value values) hs
    ∙ ap (last_value key ls) (find_value-assign_value l.key key l.value values)

-- A value as it is read, where a key may have none.
abbrev pub read_as : Option Bytes → Bytes
read_as none = []
read_as (some value) = value

or_empty_lem : (v : Option Bytes) → or_empty v ≡ read_as v
or_empty_lem none = refl
or_empty_lem (some value) = refl

-- After a file of `key = value` lines is loaded, with blanks allowed round the key and the value,
-- no `=` in the key and no `#` in front, a key has the value of its last line, a key with no line
-- keeps the value it had, and one that never had a value reads as the empty text.
pub get_value_by_key-load :
    (key : Bytes) (ls : List Line) (config : ConfigManager)
    → All IsLine ls
    → get_value_by_key key (load (some (file_of ls)) config)
      ≡ read_as (last_value key ls (find_value key config.values))
unfolding get_value_by_key load
get_value_by_key-load key ls config h =
    ap (λ lines. or_empty (find_value key (load_lines lines config.values)))
      (split_lines-file_of ls h)
    ∙ ap or_empty (load_lines-last_value key ls config.values h)
    ∙ or_empty_lem (last_value key ls (find_value key config.values))
