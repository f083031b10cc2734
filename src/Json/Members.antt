-- ===== src/Json/Members.antt =====
-- What the rows of a message hold, and which column extractKey chooses.
use kafka_replication.Base.{
  ℕ, zero, suc, ◌≤◌, ◌<◌, bit_and, ◌≡◌, refl, ◌∙◌, ◌≢◌, ◌⊎◌, inl, inr, true, not, Option, none,
  some, List, [], ◌∷◌, arith, ◌==◌, if◌then◌else◌, Bytes, length, get_elem?, All, bytes_eq_self,
  bytes_eq_ne, ok, fault,
}
use kafka_replication.Message.{Column}
use kafka_replication.Json.{JsonLib, JsonLaws, TakesMembers}
use kafka_replication.Json.Rows.{fill_row, find_key, first_column, key_of, extract_key}

-- The columns' names differ, as those of a table do.
abbrev pub Distinct : List Column → Type 0
Distinct [] = Unit {0}
Distinct (c ∷ cols) = All (λ (d : Column). d.name ≢ c.name) cols × Distinct cols

-- The first column that is marked as part of the key.
unfoldable pub first_flagged : List Column → Option Bytes
first_flagged [] = none
first_flagged (c ∷ cols) = if not (bit_and c.flags 1 == 0) then some c.name else first_flagged cols

abbrev pub first_name : List Column → Option Bytes
first_name [] = none
first_name (c ∷ cols) = some c.name

-- The columns' names with their values.
abbrev pub cells : List Column → List Bytes → List (Bytes × Bytes)
cells (c ∷ cols) (x ∷ xs) = (c.name, x) ∷ cells cols xs
cells _ _ = []

module _ (json : JsonLib) where
  open json use {Value, null_value, of_string, set, is_member, get, type}

  -- The values under their columns' names.
  unfoldable pub row_object : List Column → List Bytes → Value → Value
  row_object cols [] row = row
  row_object [] (x ∷ xs) row = row
  row_object (c ∷ cols) (x ∷ xs) row = row_object cols xs (set row c.name (of_string x))

  -- A tuple that is no longer than the relation's columns fills a row; a longer one runs into
  -- undefined behaviour.
  pub fill_row_lem :
      (cols : List Column) (xs : List Bytes) (row : Value)
      → ((length xs ≤ length cols) × (fill_row json cols xs row ≡ ok (row_object cols xs row)))
        ⊎ ((length cols < length xs) × (fill_row json cols xs row ≡ fault))
  unfolding fill_row row_object
  fill_row_lem cols [] row = inl (omega arith, refl)
  fill_row_lem [] (x ∷ xs) row = inr (omega arith, refl)
  fill_row_lem (c ∷ cols) (x ∷ xs) row =
      ground (arith, fill_row_lem cols xs (set row c.name (of_string x)))

pub fill_row_fits :
    (json : JsonLib) (cols : List Column) (xs : List Bytes) (row : json.Value)
    → length xs ≤ length cols
    → fill_row json cols xs row ≡ ok (row_object json cols xs row)
fill_row_fits json cols xs row h = elim (fill_row_lem json cols xs row) [
  | inl (_, e) ↦ e
  | inr (longer, _) ↦ absurd (omega arith)
]

module _ (json : JsonLib) (laws : JsonLaws json) where
  open json use {Value, null_value, of_string, set, is_member, get, type, write}

  pub set-TakesMembers :
      (v : Value) (k : Bytes) (w : Value) → TakesMembers (type v) → TakesMembers (type (set v k w))
  set-TakesMembers v k w h = inr (laws.type-set v k w h)

  get-set_ne :
      (v : Value) (k j : Bytes) (w : Value)
      → TakesMembers (type v)
      → k ≢ j
      → get (set v k w) j ≡ get v j
  get-set_ne v k j w h ne = rw (laws.get-set v k j w h, bytes_eq_ne k j ne)

  pub get-set_self :
      (v : Value) (k : Bytes) (w : Value) → TakesMembers (type v) → get (set v k w) k ≡ w
  get-set_self v k w h = rw (laws.get-set v k k w h, bytes_eq_self k)

  row_object_other :
      (cols : List Column) (xs : List Bytes) (row : Value) (k : Bytes)
      → TakesMembers (type row)
      → All (λ (d : Column). d.name ≢ k) cols
      → get (row_object json cols xs row) k ≡ get row k
  unfolding row_object
  row_object_other cols [] row k h ne = refl
  row_object_other [] (x ∷ xs) row k h ne = refl
  row_object_other (c ∷ cols) (x ∷ xs) row k h (ne, nes) =
      row_object_other cols xs _ k (set-TakesMembers row c.name _ h) nes
      ∙ get-set_ne row c.name k _ h ne

  -- Where the names of the columns differ, each value of the tuple stands in the row under the
  -- name of its column.
  pub get-row_object :
      (cols : List Column) (xs : List Bytes) (row : Value) (i : ℕ) (c : Column) (x : Bytes)
      → Distinct cols
      → TakesMembers (type row)
      → get_elem? cols i ≡ some c
      → get_elem? xs i ≡ some x
      → get (row_object json cols xs row) c.name ≡ of_string x
  unfolding row_object
  get-row_object [] xs row i c x d h e e' = cc
  get-row_object (b ∷ cols) [] row i c x d h e e' = cc
  get-row_object (b ∷ cols) (y ∷ xs) row zero c x (d, ds) h e e' =
      let one : c ≡ b = cc (e) in
      let two : x ≡ y = cc (e') in
      rw (one, two)
        (row_object_other cols xs _ b.name (set-TakesMembers row b.name _ h) d
          ∙ get-set_self row b.name (of_string y) h)
  get-row_object (b ∷ cols) (y ∷ xs) row (suc i) c x (d, ds) h e e' =
      get-row_object cols xs _ i c x ds (set-TakesMembers row b.name _ h) e e'

  -- Under each column's name stands its value.
  pub row_object-cells :
      (cols : List Column) (xs : List Bytes) (row : Value)
      → Distinct cols
      → TakesMembers (type row)
      → All (λ m. get (row_object json cols xs row) m.0 ≡ of_string m.1) (cells cols xs)
  unfolding row_object
  row_object-cells [] xs row d h = tt
  row_object-cells (c ∷ cols) [] row d h = tt
  row_object-cells (c ∷ cols) (x ∷ xs) row (d, ds) h = (
    row_object_other cols xs _ c.name (set-TakesMembers row c.name _ h) d
        ∙ get-set_self row c.name (of_string x) h,
    row_object-cells cols xs _ ds (set-TakesMembers row c.name _ h),
  )

  is_member-set_true :
      (v : Value) (k j : Bytes) (w : Value)
      → TakesMembers (type v)
      → is_member v j ≡ true
      → is_member (set v k w) j ≡ true
  is_member-set_true v k j w h e = ground (arith, laws.is_member-set v k j w h)

  row_object_keeps :
      (cols : List Column) (xs : List Bytes) (row : Value) (k : Bytes)
      → TakesMembers (type row)
      → is_member row k ≡ true
      → is_member (row_object json cols xs row) k ≡ true
  unfolding row_object
  row_object_keeps cols [] row k h e = e
  row_object_keeps [] (x ∷ xs) row k h e = e
  row_object_keeps (c ∷ cols) (x ∷ xs) row k h e =
      row_object_keeps cols xs _ k (set-TakesMembers row c.name _ h)
        (is_member-set_true row c.name k (of_string x) h e)

  -- A full tuple makes a row with every column.
  is_member-row_object :
      (cols : List Column) (xs : List Bytes) (row : Value)
      → TakesMembers (type row)
      → length xs ≡ length cols
      → All (λ (c : Column). is_member (row_object json cols xs row) c.name ≡ true) cols
  unfolding row_object
  is_member-row_object [] xs row h e = tt
  is_member-row_object (c ∷ cols) [] row h e = absurd (omega arith)
  is_member-row_object (c ∷ cols) (x ∷ xs) row h e = (
    row_object_keeps cols xs _ c.name (set-TakesMembers row c.name _ h)
        (rw (laws.is_member-set row c.name c.name (of_string x) h, bytes_eq_self c.name)),
    is_member-row_object cols xs _ (set-TakesMembers row c.name _ h) (omega arith),
  )

  find_key-first_flagged :
      (row : Value) (cols : List Column)
      → All (λ (c : Column). is_member row c.name ≡ true) cols
      → find_key json row cols ≡ first_flagged cols
  unfolding find_key first_flagged
  find_key-first_flagged row [] h = refl
  find_key-first_flagged row (c ∷ cols) (h, hs) = ground (arith, find_key-first_flagged row cols hs)

  first_column-first_name :
      (row : Value) (cols : List Column)
      → All (λ (c : Column). is_member row c.name ≡ true) cols
      → first_column json row cols ≡ first_name cols
  unfolding first_column
  first_column-first_name row [] h = refl
  first_column-first_name row (c ∷ cols) (h, hs) = rw h

  -- The column whose value is the key: the first one that is marked as part of the key, or the first
  -- of all.
  abbrev pub chosen_column : Option Bytes → Option Bytes → Option Bytes
  chosen_column (some marked) first = some marked
  chosen_column none first = first

  -- The column's name, with the JSON text of its value in the row.
  abbrev pub name_and_text : Value → Option Bytes → Bytes × Bytes
  name_and_text row none = ([], [])
  name_and_text row (some name) = (name, json.write (get row name))

  key_of-eq :
      (row : Value) (marked first : Option Bytes)
      → key_of json row marked first ≡ name_and_text row (chosen_column marked first)
  unfolding key_of
  key_of-eq row (some marked) first = refl
  key_of-eq row none (some name) = refl
  key_of-eq row none none = refl

  -- On a full row, extractKey gives the first column that is marked as part of the key, or the
  -- first column if none is, with the JSON text of its value in the row; or two empty texts if there
  -- is no column.
  pub extract_key_lem :
      (cols : List Column) (xs : List Bytes)
      → length xs ≡ length cols
      → let row = row_object json cols xs null_value in
        extract_key json row cols
        ≡ name_and_text row (chosen_column (first_flagged cols) (first_name cols))
  unfolding extract_key
  extract_key_lem cols xs e =
      let row = row_object json cols xs null_value in
      let all = is_member-row_object cols xs null_value (inl laws.type-null_value) e in
      rw (find_key-first_flagged row cols all, first_column-first_name row cols all)
        (key_of-eq row (first_flagged cols) (first_name cols))
