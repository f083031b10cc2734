-- ===== src/Tests/Texts.antt =====
-- What some messages print.
use kafka_replication.Base.{◌≡◌, refl, [], ◌∷◌, ◌++◌, arith, codes}
use kafka_replication.Base.Text.{to_decimal, to_hexadecimal}
use kafka_replication.Message.{
  get_type, begin, relation, truncate, has_cascade, has_restart_identity,
}
use kafka_replication.Message.Listing.{get_relation_info, in_order, place, relation_lines}
use kafka_replication.Message.Text.{
  message_text, begin_text, relation_text, column_lines, column_text, delete_text, truncate_text,
  options_text,
}
use kafka_replication.Message.Text.Collision.{delete_text_collision}
use kafka_replication.Tests.Doubles.{users}

begin_prints :
    message_text (begin (record { lsn = 0x1B374D8; commit_timestamp = 5; transaction_id = 9 }))
    ≡ codes "BEGIN [LSN: 1b374d8, XID: 9, Timestamp: 5]\n"
unfolding message_text begin_text to_decimal to_hexadecimal
begin_prints = refl

relation_prints :
    message_text (relation users)
    ≡ codes "RELATION [id: 7, schema: public, table: users, columns: 2]\n"
      ++ codes "  Column 0: id (type: 23, modifier: -1)\n"
      ++ codes "  Column 1: name (type: 25, modifier: -1)\n"
unfolding message_text relation_text column_lines column_text to_decimal
relation_prints = refl

truncate_prints :
    message_text (
      truncate (record {
        transaction_id = 9;
        number_of_relations = 2;
        options = 3;
        relation_ids = 7 ∷ 8 ∷ [];
      }))
    ≡ codes "TRUNCATE [transaction_id_ = 9, options: CASCADE|RESTART IDENTITY, tables: 7, 8]\n"
unfolding message_text truncate_text options_text has_cascade has_restart_identity to_decimal
truncate_prints = refl

relations_listed :
    get_relation_info ((7, users) ∷ (3, users) ∷ [])
    ≡ codes "Relation cache [ 3, R ]\nRelation cache [ 7, R ]\n"
unfolding get_relation_info in_order place relation_lines get_type to_decimal
relations_listed = refl

delete_text_collision_example :
    delete_text (record { relation_id = 7; old_tuple = codes "12" ∷ [] })
    ≡ delete_text (record { relation_id = 71; old_tuple = codes "2" ∷ [] })
delete_text_collision_example =
    delete_text_collision 7 1 (codes "2") [] (omega arith) (omega arith) (omega arith)
