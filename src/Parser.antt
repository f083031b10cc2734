-- ===== src/Parser.antt =====
-- producer_azs/pgoutput_parser.cpp, parseMessage. The parser's state is its relation cache; a null
-- pointer is `none`.
pub mod Messages
use kafka_replication.Base.{
  ℕ, zero, suc, ◌+◌, ◌-◌, ◌*◌, ◌/◌, ◌%◌, ◌^◌, ◌≤◌, ◌<◌, bit_and, ◌≡◌, refl, sym, ap, ◌∙◌, subst,
  ◌≢◌, ◌↔◌, ◌⊎◌, inl, inr, Bool, true, false, ◌&&◌, ◌||◌, not, Option, none, some, List, [], ◌∷◌,
  ◌++◌, map, append-nil, append_assoc, arith, ltb, leb, ◌==◌, if◌then◌else◌, ltb→lt, lt→ltb, le→ltb,
  leb→le, le→leb, lt→leb, ==_iff, ==_self, ==_ne, Bool-cases, Option-cases, Bytes, codes, length,
  get_elem?, take, drop, All, length-append, length-drop, get_elem?-drop, drop-suc, drop-append,
  take-append, drop-append_at, get_elem?-lt, length-map, bytes_eq, bytes_eq_iff, bytes_eq_self,
  Error, buffer_underflow, string_underflow, not_null_terminated, bad_alloc, invalid_argument,
  out_of_range, logic_error, wal_too_short, config_path_not_set, not_replicating, read_failed,
  start_failed, Outcome, ok, throw, fault, ◌>>=◌, >>=-eq-ok, Outcome-cases,
}
use kafka_replication.Wire.{byte_at}
use kafka_replication.Message.{
  ReplicationMessage, begin, relation, commit, insert, delete, update, truncate,
}
use kafka_replication.Message.Cache.{RelationCache, cache_relation}
use kafka_replication.Message.Parse.{
  Host, parse_begin, parse_relation, parse_commit, parse_insert, parse_delete, parse_update,
  parse_truncate,
}

abbrev pub Parsed : Type 0
Parsed = Option ReplicationMessage × RelationCache

-- The switch over the type; `buf` is what follows the type byte.
unfoldable pub parse_switch : Host → RelationCache → ℕ → Bytes → Outcome Parsed
parse_switch host cache msg_type buf =
    if msg_type == b'B'
    then (parse_begin host buf >>= λ m. ok (some (begin m), cache))
    else if msg_type == b'C'
    then (parse_commit buf >>= λ m. ok (some (commit m), cache))
    else if msg_type == b'R'
    then (parse_relation buf >>= λ m. ok (some (relation m), cache_relation m cache))
    else if msg_type == b'I'
    then (parse_insert cache buf >>= λ m. ok (some (insert m), cache))
    else if msg_type == b'U'
    then (parse_update cache buf >>= λ m. ok (some (update m), cache))
    else if msg_type == b'D'
    then (parse_delete cache buf >>= λ m. ok (some (delete m), cache))
    else if msg_type == b'T'
    then (parse_truncate host buf >>= λ m. ok (some (truncate m), cache))
    else ok (none, cache)

-- The handler: an exception leaves the pointer null.
unfoldable pub catch_parse : RelationCache → Outcome Parsed → Outcome Parsed
catch_parse cache (ok p) = ok p
catch_parse cache (throw e) = ok (none, cache)
catch_parse cache fault = fault

-- `raw_message[0]` of an empty vector is undefined.
unfoldable pub parse_message : Host → RelationCache → Bytes → Outcome Parsed
parse_message host cache raw_message = do
  msg_type ← byte_at raw_message 0
  catch_parse cache (parse_switch host cache msg_type (drop 1 raw_message))
