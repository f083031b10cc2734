-- ===== src/Message/Cache.antt =====
-- producer_azs/pgoutput_parser.cpp, cacheRelation and getCachedRelation: the std::map from relation
-- ids to the last relation message with that id. A cached message is never changed.
use kafka_replication.Base.{
  ◌∙◌, ℕ, ◌≡◌, refl, Option, none, some, List, [], ◌∷◌, arith, ◌==◌, if◌then◌else◌, All, Bool-cases,
  ◌≢◌, inl, ==_iff, inr, subst, sym, ap, ◌∙◌,
}
use kafka_replication.Message.{RelationMessage}

abbrev pub RelationCache : Type 0
RelationCache = List (ℕ × RelationMessage)

-- `relation_cache_[id] = relation`.
pub assign_key : ℕ → RelationMessage → RelationCache → RelationCache
assign_key id r [] = (id, r) ∷ []
assign_key id r ((j, q) ∷ cache) =
    if j == id then (id, r) ∷ cache else (j, q) ∷ assign_key id r cache

unfoldable pub cache_relation : RelationMessage → RelationCache → RelationCache
unfolding assign_key
cache_relation r cache = assign_key r.relation_id r cache

unfoldable pub get_cached_relation : ℕ → RelationCache → Option RelationMessage
get_cached_relation id [] = none
get_cached_relation id ((j, q) ∷ cache) = if j == id then some q else get_cached_relation id cache

assign_key_lookup :
    (id j : ℕ) (r : RelationMessage) (cache : RelationCache)
    → get_cached_relation j (assign_key id r cache)
      ≡ (if id == j then some r else get_cached_relation j cache)
unfolding assign_key get_cached_relation
assign_key_lookup id j r [] = refl
assign_key_lookup id j r ((i, q) ∷ cache) = ground (arith, assign_key_lookup id j r cache)

-- A lookup finds the relation that was cached last under its id; the other ids are as they were.
pub get_cached_relation-cache_relation :
    (r : RelationMessage) (j : ℕ) (cache : RelationCache)
    → get_cached_relation j (cache_relation r cache)
      ≡ (if r.relation_id == j then some r else get_cached_relation j cache)
unfolding cache_relation
get_cached_relation-cache_relation r j cache = assign_key_lookup r.relation_id j r cache

-- One entry for each id, and under an id the relation with this id.
abbrev pub IsCache : RelationCache → Type 0
IsCache [] = Unit {0}
IsCache ((id, r) ∷ cache) =
    (r.relation_id ≡ id) × (All (λ (e : ℕ × RelationMessage). e.0 ≢ id) cache × IsCache cache)

assign_key_other :
    (id j : ℕ) (r : RelationMessage) (cache : RelationCache)
    → id ≢ j
    → All (λ (e : ℕ × RelationMessage). e.0 ≢ j) cache
    → All (λ (e : ℕ × RelationMessage). e.0 ≢ j) (assign_key id r cache)
unfolding assign_key
assign_key_other id j r [] ne h = (ne, tt)
assign_key_other id j r ((i, q) ∷ cache) ne (h, hs) = elim (Bool-cases (i == id)) [
  | inl same ↦ rw same (ne, hs)
  | inr other ↦ rw other (h, assign_key_other id j r cache ne hs)
]

assign_key-IsCache :
    (r : RelationMessage) (cache : RelationCache)
    → IsCache cache
    → IsCache (assign_key r.relation_id r cache)
unfolding assign_key
assign_key-IsCache r [] h = (refl, (tt, tt))
assign_key-IsCache r ((i, q) ∷ cache) (e, (ne, h)) = elim (Bool-cases (i == r.relation_id)) [
  | inl same ↦
      let there : i ≡ r.relation_id = (==_iff i r.relation_id).0 same in
      rw same (refl, (subst (λ k. All (λ (e : ℕ × RelationMessage). e.0 ≢ k) cache) there ne, h))
  | inr other ↦
      let apart : r.relation_id ≢ i = λ e'. ground (arith, other, e') in
      rw other
        (e, (assign_key_other r.relation_id i r cache apart ne, assign_key-IsCache r cache h))
]

pub cache_relation-IsCache :
    (r : RelationMessage) (cache : RelationCache) → IsCache cache → IsCache (cache_relation r cache)
unfolding cache_relation
cache_relation-IsCache = assign_key-IsCache

-- What is found under an id is the relation with this id.
pub get_cached_relation-relation_id :
    (id : ℕ) (r : RelationMessage) (cache : RelationCache)
    → IsCache cache
    → get_cached_relation id cache ≡ some r
    → r.relation_id ≡ id
unfolding get_cached_relation
get_cached_relation-relation_id id r [] h e = cc
get_cached_relation-relation_id id r ((j, q) ∷ cache) (here, (_, h)) e =
    elim (Bool-cases (j == id)) [
      | inl same ↦
          let found : q ≡ r = cc (rw same at e) in
          let there : j ≡ id = (==_iff j id).0 same in
          sym (ap (λ (q : RelationMessage). q.relation_id) found) ∙ here ∙ there
      | inr other ↦ get_cached_relation-relation_id id r cache h (rw other at e)
    ]
