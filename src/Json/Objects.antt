-- ===== src/Json/Objects.antt =====
-- An object that is built by one assignment after the other, as the messages are.
use kafka_replication.Base.{
  ◌≡◌, refl, ap, ◌∙◌, Bool, true, List, [], ◌∷◌, if◌then◌else◌, Bytes, bytes_eq,
}
use kafka_replication.Json.{JsonLib, JsonLaws, TakesMembers}
use kafka_replication.Json.Members.{set-TakesMembers}

module _ (json : JsonLib) where
  open json use {Value, set, get, is_member, type}

  abbrev pub assign_all : Value → List (Bytes × Value) → Value
  assign_all v [] = v
  assign_all v ((k, w) ∷ ms) = assign_all (set v k w) ms

  -- The last of the assigned values under a name.
  abbrev pub last_assigned : List (Bytes × Value) → Bytes → Value → Value
  last_assigned [] j before = before
  last_assigned ((k, w) ∷ ms) j before = last_assigned ms j (if bytes_eq k j then w else before)

  abbrev pub is_assigned : List (Bytes × Value) → Bytes → Bool → Bool
  is_assigned [] j before = before
  is_assigned ((k, w) ∷ ms) j before = is_assigned ms j (if bytes_eq k j then true else before)

module _ (json : JsonLib) (laws : JsonLaws json) where
  open json use {Value, set, get, is_member, type}

  pub assign_all-TakesMembers :
      (v : Value) (ms : List (Bytes × Value))
      → TakesMembers (type v)
      → TakesMembers (type (assign_all json v ms))
  assign_all-TakesMembers v [] h = h
  assign_all-TakesMembers v ((k, w) ∷ ms) h =
      assign_all-TakesMembers (set v k w) ms (set-TakesMembers json laws v k w h)

  pub get-assign_all :
      (v : Value) (ms : List (Bytes × Value)) (j : Bytes)
      → TakesMembers (type v)
      → get (assign_all json v ms) j ≡ last_assigned json ms j (get v j)
  get-assign_all v [] j h = refl
  get-assign_all v ((k, w) ∷ ms) j h =
      get-assign_all (set v k w) ms j (set-TakesMembers json laws v k w h)
      ∙ ap (last_assigned json ms j) (laws.get-set v k j w h)

  pub is_member-assign_all :
      (v : Value) (ms : List (Bytes × Value)) (j : Bytes)
      → TakesMembers (type v)
      → is_member (assign_all json v ms) j ≡ is_assigned json ms j (is_member v j)
  is_member-assign_all v [] j h = refl
  is_member-assign_all v ((k, w) ∷ ms) j h =
      is_member-assign_all (set v k w) ms j (set-TakesMembers json laws v k w h)
      ∙ ap (is_assigned json ms j) (laws.is_member-set v k j w h)
