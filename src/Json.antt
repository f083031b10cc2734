-- ===== src/Json.antt =====
-- The part of JsonCpp (Json::Value, Json::writeString) that the producer uses. JsonCpp is not part
-- of this repository: it is a parameter, with the documented behaviour that the theorems rely on.
pub mod Rows
pub mod Members
pub mod Objects
use kafka_replication.Base.{
  ℕ, zero, suc, ◌+◌, ◌-◌, ◌*◌, ◌/◌, ◌%◌, ◌^◌, ◌≤◌, ◌<◌, bit_and, ◌≡◌, refl, sym, ap, ◌∙◌, subst,
  ◌≢◌, ◌↔◌, ◌⊎◌, inl, inr, Bool, true, false, ◌&&◌, ◌||◌, not, Option, none, some, List, [], ◌∷◌,
  ◌++◌, map, append-nil, append_assoc, arith, ltb, leb, ◌==◌, if◌then◌else◌, ltb→lt, lt→ltb, le→ltb,
  leb→le, le→leb, lt→leb, ==_iff, ==_self, ==_ne, Bool-cases, Option-cases, Bytes, codes, length,
  get_elem?, take, drop, replicate, All, length-append, length-drop, get_elem?-drop, drop-suc,
  drop-append, take-append, drop-append_at, get_elem?-lt, length-map, bytes_eq, bytes_eq_iff,
  bytes_eq_self, Error, buffer_underflow, string_underflow, not_null_terminated, bad_alloc,
  invalid_argument, out_of_range, logic_error, wal_too_short, config_path_not_set, not_replicating,
  read_failed, start_failed, Outcome, ok, throw, fault, ◌>>=◌, >>=-eq-ok, Outcome-cases,
}

-- Json::ValueType.
pub data ValueType : Type 0 where
  null_type int_type uint_type real_type string_type boolean_type array_type object_type : ValueType

pub record JsonLib : Type 1 where
  pub Value : Type 0
  -- Json::Value(), Json::Value(Json::arrayValue), and the conversions.
  pub null_value : Value
  pub array_value : Value
  pub of_string : Bytes → Value
  pub of_int64 : ℕ → Value
  pub of_bool : Bool → Value
  -- `v[key] = w` and `v.append(w)`.
  pub set : Value → Bytes → Value → Value
  pub append : Value → Value → Value
  -- `v.type()`, `v.isMember(key)`, and `v[key]` on a constant.
  pub type : Value → ValueType
  pub is_member : Value → Bytes → Bool
  pub get : Value → Bytes → Value
  -- `Json::writeString` with no indentation.
  pub write : Value → Bytes

-- A value that takes members: null becomes an object when a member is assigned.
abbrev pub TakesMembers : ValueType → Type 0
TakesMembers t = (t ≡ null_type) ⊎ (t ≡ object_type)

pub record JsonLaws (json : JsonLib) : Type 0 where
  pub type-null_value : json.type json.null_value ≡ null_type
  pub type-set :
      (v : json.Value) (k : Bytes) (w : json.Value)
      → TakesMembers (json.type v)
      → json.type (json.set v k w) ≡ object_type
  pub is_member-null_value : (k : Bytes) → json.is_member json.null_value k ≡ false
  pub is_member-set :
      (v : json.Value) (k j : Bytes) (w : json.Value)
      → TakesMembers (json.type v)
      → json.is_member (json.set v k w) j ≡ (if bytes_eq k j then true else json.is_member v j)
  pub get-set :
      (v : json.Value) (k j : Bytes) (w : json.Value)
      → TakesMembers (json.type v)
      → json.get (json.set v k w) j ≡ (if bytes_eq k j then w else json.get v j)
