-- ===== src/Message/Listing.antt =====
-- producer_azs/pgoutput_parser.cpp, getRelationInfo: the cached relations, in the order of a
-- std::map. It returns nothing; what it prints is its result here.
use kafka_replication.Base.{ℕ, [], ◌∷◌, ◌++◌, ltb, if◌then◌else◌, Bytes, codes}
use kafka_replication.Base.Text.{to_string}
use kafka_replication.Message.{RelationMessage, relation, get_type}
use kafka_replication.Message.Cache.{RelationCache}

-- An entry at its place in a map whose keys ascend.
unfoldable pub place : ℕ × RelationMessage → RelationCache → RelationCache
place e [] = e ∷ []
place e (f ∷ cache) = let rest = place e cache in if ltb e.0 f.0 then e ∷ f ∷ cache else f ∷ rest

unfoldable pub in_order : RelationCache → RelationCache
in_order [] = []
in_order (e ∷ cache) = place e (in_order cache)

abbrev pub relation_line : ℕ × RelationMessage → Bytes
relation_line e =
    codes "Relation cache [ "
    ++ to_string e.0
    ++ codes ", "
    ++ get_type (relation e.1) ∷ []
    ++ codes " ]\n"

unfoldable pub relation_lines : RelationCache → Bytes
relation_lines [] = []
relation_lines (e ∷ cache) = relation_line e ++ relation_lines cache

unfoldable pub get_relation_info : RelationCache → Bytes
get_relation_info cache = relation_lines (in_order cache)
