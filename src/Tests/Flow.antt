-- ===== src/Tests/Flow.antt =====
-- Two changes of the table users, of which Kafka refuses the first.
use kafka_replication.Base.{◌≡◌, refl, List, [], map, ◌∷◌, arith, codes, replicate, ok}
use kafka_replication.Tuple.Encoding.{encode_fields}
use kafka_replication.Message.Cache.{get_cached_relation}
use kafka_replication.Replicator.{PostgresqlReplicator}
use kafka_replication.Replicator.Packets.{read_loop}
use kafka_replication.Producer.{failed}
use kafka_replication.Replicator.Refinement.{acknowledge}
use kafka_replication.Tests.Stream.{replicator-IsAt}
use kafka_replication.Pipeline.Rows.{Row, IsWritten, inserted, Change, deleted}
use kafka_replication.Pipeline.Sent.{AreHandled, refused_rows_acknowledged}
use kafka_replication.Pipeline.Events.{Event, changes, yields}
use kafka_replication.Tests.Doubles.{big_host, node_json, answers, producer, replicator, users}
use kafka_replication.Tests.Parsing.{fields, fields-IsTuple}
use kafka_replication.Tests.Changes.{users-IsKeyed}
use kafka_replication.Tests.Ends.{listed}

abbrev pub first_row : Row
first_row = record {
  prefix = replicate 24 0;
  id = 7;
  relation = users;
  fields = fields;
  answers = answers;
  listed = listed;
}

pub first_row-IsWritten : IsWritten ((7, users) ∷ []) (inserted first_row)
unfolding encode_fields get_cached_relation
first_row-IsWritten = record {
  prefix = refl;
  cached = refl;
  id = omega arith;
  tuple = fields-IsTuple;
  size = refl;
  fit = (((λ e. cc, tt), (tt, tt)), tt);
  fits = omega arith;
}

abbrev refused_row : Row
refused_row = record first_row { answers = record answers { produce = failed 7 } }

abbrev pub deletes : Row → Change
deletes row = deleted row b'K' b'i' (codes "d") (codes "1")

abbrev refused : Change
refused = deletes refused_row

pub first_deleted-IsWritten : IsWritten ((7, users) ∷ []) (deletes first_row)
unfolding encode_fields get_cached_relation
first_deleted-IsWritten = record {
  prefix = refl;
  cached = refl;
  id = omega arith;
  tuple = fields-IsTuple;
  size = refl;
  fit = (((λ e. cc, tt), (tt, tt)), users-IsKeyed);
  fits = omega arith;
}

refused-IsWritten : IsWritten replicator.relations refused
unfolding encode_fields get_cached_relation
refused-IsWritten = record {
  prefix = refl;
  cached = refl;
  id = omega arith;
  tuple = fields-IsTuple;
  size = refl;
  fit = (((λ e. cc, tt), (tt, tt)), users-IsKeyed);
  fits = omega arith;
}

abbrev refused_stream : List Event
refused_stream = changes refused ∷ changes (inserted first_row) ∷ []

refused_rows_acknowledged_example :
    (t : PostgresqlReplicator) × (read_loop big_host node_json
        (map yields refused_stream)
        replicator
      ≡ ok t)
    × AreHandled big_host node_json producer (inserted first_row ∷ []) t
    × (t.replies ≡ acknowledge 0 (map yields refused_stream) (0, 16))
refused_rows_acknowledged_example =
    refused_rows_acknowledged big_host node_json 0 (0, 16) refused_stream producer replicator
      (refused-IsWritten, (first_row-IsWritten, tt)) refl refl replicator-IsAt
