-- ===== src/Tests/Parsing.antt =====
-- Messages that the server wrote, read back.
use kafka_replication.Base.{
  ℕ, ◌≡◌, refl, List, [], ◌∷◌, ◌++◌, map, arith, Bytes, codes, replicate, ok, ◌>>=◌,
}
use kafka_replication.Base.Word.{be32}
use kafka_replication.Wire.{read_uint64, read_int64, to_int64, memcpy, byte_at, read_uint32}
use kafka_replication.Wire.Checked.{read_int64-read_uint64}
use kafka_replication.Tuple.{parse_tuple, parse_values}
use kafka_replication.Tuple.Encoding.{
  Field, null_value, text, encode_tuple, shown, IsTuple, Reads, encode_fields,
}
use kafka_replication.Tuple.RoundTrip.{tuple_round_trip, null_collision}
use kafka_replication.Tuple.Overloads.{cursor, parse_tuple-parse_values}
use kafka_replication.Message.{CommitMessage, TruncateMessage}
use kafka_replication.Message.Parse.{
  parse_commit, parse_relation, parse_update, from_host, parse_truncate, parse_truncate_rest,
  read_relation_ids, parse_relation_ids,
}
use kafka_replication.Message.Parse.Encoding.{
  encode_commit, encode_relation, encode_row, encode_update_with_old, IsRelation, encode_columns,
}
use kafka_replication.Message.Parse.RoundTrip.{
  parse_commit-encode_commit, parse_relation-encode_relation,
}
use kafka_replication.Message.Parse.Rows.{parse_update-encode_row, update_old_as_new}
use kafka_replication.Message.Parse.HostOrder.{truncate_names_one}
use kafka_replication.Tests.Doubles.{big_host, users, avoids-All}

abbrev pub fields : List Field
fields = text (codes "1") ∷ null_value ∷ []

abbrev changed : List Field
changed = text (codes "1") ∷ text (codes "Ann") ∷ []

pub fields-IsTuple : IsTuple fields
fields-IsTuple = record { count = omega arith; fields = (omega arith, (tt, tt)) }

abbrev pub commit_message : CommitMessage
commit_message = record { flags = 0; lsn = 300; end_lsn = 340; commit_timestamp = 5 }

parse_commit-encode_commit_example : parse_commit (encode_commit commit_message) ≡ ok commit_message
parse_commit-encode_commit_example =
    parse_commit-encode_commit commit_message (omega arith) (omega arith) (omega arith)

pub users-IsRelation : IsRelation users
users-IsRelation = record {
  relation_id = omega arith;
  namespace = avoids-All 0 (codes "public") refl;
  relation_name = avoids-All 0 (codes "users") refl;
  count = omega arith;
  columns = (
    record {
      name = avoids-All 0 (codes "id") refl;
      type_id = omega arith;
      type_modifier = omega arith;
    },
    (
      record {
        name = avoids-All 0 (codes "name") refl;
        type_id = omega arith;
        type_modifier = omega arith;
      },
      tt,
    ),
  );
}

parse_relation-encode_relation_example : parse_relation (encode_relation users) ≡ ok users
unfolding encode_columns
parse_relation-encode_relation_example =
    parse_relation-encode_relation users users-IsRelation (omega arith)

parse_update-encode_row_example :
    parse_update ((7, users) ∷ []) (encode_row 7 b'N' fields)
    ≡ ok (record { relation_id = 7; old_tuple = []; new_tuple = map shown fields })
unfolding encode_fields
parse_update-encode_row_example =
    parse_update-encode_row ((7, users) ∷ []) 7 b'N' fields (omega arith) fields-IsTuple
      (omega arith) (omega arith)

update_old_as_new_example :
    parse_update ((7, users) ∷ []) (encode_update_with_old 7 b'O' fields changed)
    ≡ ok (record { relation_id = 7; old_tuple = []; new_tuple = map shown fields })
unfolding encode_fields
update_old_as_new_example =
    update_old_as_new ((7, users) ∷ []) 7 b'O' fields changed (omega arith) fields-IsTuple
      (omega arith) (omega arith)

tuple_round_trip_example :
    Reads (encode_tuple fields) [] (map shown fields) (parse_tuple (encode_tuple fields) 0)
    × Reads (encode_tuple fields) [] (map shown fields) (parse_values (encode_tuple fields) 0)
unfolding encode_fields
tuple_round_trip_example =
    tuple_round_trip fields [] (encode_tuple fields) 0 fields-IsTuple
      (record { rest = refl; fits = omega arith; inside = omega arith })

abbrev null_word : List Field
null_word = text (codes "1") ∷ text (codes "NULL") ∷ []

null_collision_example :
    (values : List Bytes) × Reads
      (encode_tuple fields)
      []
      values
      (parse_values (encode_tuple fields) 0)
    × Reads (encode_tuple null_word) [] values (parse_values (encode_tuple null_word) 0)
unfolding encode_fields
null_collision_example =
    null_collision (text (codes "1") ∷ []) [] [] (encode_tuple fields) (encode_tuple null_word) 0 0
      fields-IsTuple (record { count = omega arith; fields = (omega arith, (omega arith, tt)) })
      (record { rest = refl; fits = omega arith; inside = omega arith })
      (record { rest = refl; fits = omega arith; inside = omega arith })

parse_tuple-parse_values_example :
    cursor (parse_tuple (0 ∷ 2 ∷ b'n' ∷ b'x' ∷ []) 0)
    ≡ cursor (parse_values (0 ∷ 2 ∷ b'n' ∷ b'x' ∷ []) 0)
parse_tuple-parse_values_example = parse_tuple-parse_values (0 ∷ 2 ∷ b'n' ∷ b'x' ∷ []) 0

-- A TRUNCATE of two relations, 11 and 12, in the streamed transaction 9.
abbrev truncate_bytes : Bytes
truncate_bytes = be32 9 ++ (be32 2 ++ (0 ∷ (be32 11 ++ be32 12)))

abbrev truncated : TruncateMessage
truncated = record {
  transaction_id = 9;
  number_of_relations = 2;
  options = 0;
  relation_ids = 11 ∷ 11 ∷ [];
}

truncate_parsed : parse_truncate big_host truncate_bytes ≡ ok truncated
unfolding parse_truncate parse_truncate_rest read_relation_ids parse_relation_ids read_uint32
    byte_at memcpy from_host
truncate_parsed = refl

truncate_names_one_example : (oid : ℕ) × ((11 ∷ 11 ∷ []) ≡ replicate 2 oid)
truncate_names_one_example = truncate_names_one big_host truncate_bytes truncated truncate_parsed

read_int64-read_uint64_example :
    read_int64 (255 ∷ 255 ∷ 255 ∷ 255 ∷ 255 ∷ 255 ∷ 255 ∷ 254 ∷ []) 0 ≡ (
      read_uint64 (255 ∷ 255 ∷ 255 ∷ 255 ∷ 255 ∷ 255 ∷ 255 ∷ 254 ∷ []) 0 >>= λ (w, offset').
      ok (to_int64 w, offset'))
read_int64-read_uint64_example =
    read_int64-read_uint64 (255 ∷ 255 ∷ 255 ∷ 255 ∷ 255 ∷ 255 ∷ 255 ∷ 254 ∷ []) 0 (omega arith)
      (omega arith)
