-- ===== src/Tests/Members.antt =====
-- The rows of a message, and the producer.
use kafka_replication.Base.{◌≡◌, refl, List, [], ◌∷◌, Bytes, codes, bytes_eq}
use kafka_replication.Json.Rows.{extract_key}
use kafka_replication.Json.Members.{row_object, first_flagged, extract_key_lem}
use kafka_replication.Producer.{no_error, failed}
use kafka_replication.Producer.Counters.{IsCounted, run, sends, delivers, run-IsCounted}
use kafka_replication.Tests.Doubles.{Node, null_node, node_json, node_laws, users, producer}

abbrev values : List Bytes
values = codes "1" ∷ codes "Ann" ∷ []

abbrev user : Node
user = row_object node_json users.columns values null_node

extract_key_lem_example : extract_key node_json user users.columns ≡ (codes "id", codes "\"1\"")
unfolding first_flagged row_object bytes_eq
extract_key_lem_example = extract_key_lem node_json node_laws users.columns values refl

producer-IsCounted : IsCounted 0 producer
producer-IsCounted = record { created = refl; messages = refl; bytes = refl; errors = refl }

run-IsCounted_example :
    IsCounted 1 (run (sends (codes "k") (codes "v") no_error ∷ delivers (failed 3) ∷ []) producer)
run-IsCounted_example =
    run-IsCounted (sends (codes "k") (codes "v") no_error ∷ delivers (failed 3) ∷ []) 0 producer
      producer-IsCounted
