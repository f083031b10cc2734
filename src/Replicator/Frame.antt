-- ===== src/Replicator/Frame.antt =====
-- What the handlers leave alone: all but the producer. No handler throws.
use kafka_replication.Base.{
  ◌≡◌, refl, Option, none, some, List, [], ◌∷◌, Bytes, codes, Outcome, ok, throw, fault, ◌>>=◌,
}
use kafka_replication.Message.{
  ReplicationMessage, begin, relation, commit, insert, delete, update, truncate, RelationMessage,
  Column, InsertMessage, DeleteMessage, UpdateMessage, TruncateMessage,
}
use kafka_replication.Json.{JsonLib}
use kafka_replication.Json.Rows.{fill_row}
use kafka_replication.Producer.{LibrdKafkaProducer}
use kafka_replication.Replicator.{PostgresqlReplicator, Answers}
use kafka_replication.Replicator.Handlers.{
  send_row, with_before, insert_row, update_row, delete_row, handle_insert, handle_update,
  handle_delete, truncate_tables, handle_truncate, handle_message,
}

-- Two states that differ in the producer at most.
pub record SameStream (s t : PostgresqlReplicator) : Type 0 where
  pub stats : t.stats ≡ s.stats
  pub relations : t.relations ≡ s.relations
  pub replies : t.replies ≡ s.replies
  pub replicating : t.replicating ≡ s.replicating
  pub repl_conn : t.repl_conn ≡ s.repl_conn

abbrev pub itself : (s : PostgresqlReplicator) → SameStream s s
itself s = record {
  stats = refl;
  relations = refl;
  replies = refl;
  replicating = refl;
  repl_conn = refl;
}

-- A call that ends in the same stream, or in undefined behaviour.
abbrev pub Keeps : PostgresqlReplicator → Outcome PostgresqlReplicator → Type 0
Keeps s (ok t) = SameStream s t
Keeps s (throw e) = ⊥
Keeps s fault = Unit {0}

module _ (json : JsonLib) where
  abbrev Fills : Outcome json.Value → Type 0
  Fills (throw e) = ⊥
  Fills _ = Unit {0}

  fill_row-Fills :
      (cols : List Column) (xs : List Bytes) (row : json.Value) → Fills (fill_row json cols xs row)
  unfolding fill_row
  fill_row-Fills cols [] row = tt
  fill_row-Fills [] (x ∷ xs) row = tt
  fill_row-Fills (c ∷ cols) (x ∷ xs) row = fill_row-Fills cols xs _

  with_before-Fills :
      (r : RelationMessage) (xs : List Bytes) (message : json.Value)
      → Fills (with_before json r xs message)
  unfolding with_before
  with_before-Fills r [] message = tt
  with_before-Fills r (x ∷ xs) message =
      after (fill_row json r.columns (x ∷ xs) json.null_value) (fill_row-Fills r.columns (x ∷ xs) _)
    where
      after :
          (o : Outcome json.Value)
          → Fills o
          → Fills (o >>= λ old. ok (json.set message (codes "before") old))
      after (ok v) h = tt
      after fault h = tt
      after (throw e) h = h

  bind-Keeps :
      (s : PostgresqlReplicator) (o : Outcome json.Value)
      (f : json.Value → Outcome PostgresqlReplicator)
      → Fills o
      → ((v : json.Value) → Keeps s (f v))
      → Keeps s (o >>= f)
  bind-Keeps s (ok v) f h k = k v
  bind-Keeps s (throw e) f h k = h
  bind-Keeps s fault f h k = tt

  insert_row-Keeps :
      (m : InsertMessage) (answers : Answers) (r : Option RelationMessage)
      (p : Option LibrdKafkaProducer) (s : PostgresqlReplicator)
      → Keeps s (insert_row json m answers r p s)
  unfolding insert_row send_row
  insert_row-Keeps m answers none p s = itself s
  insert_row-Keeps m answers (some r) none s = itself s
  insert_row-Keeps m answers (some r) (some p) s =
      bind-Keeps s (fill_row json r.columns m.new_tuple _) _
        (fill_row-Fills r.columns m.new_tuple _)
        (λ v. record {
          stats = refl;
          relations = refl;
          replies = refl;
          replicating = refl;
          repl_conn = refl;
        })

  delete_row-Keeps :
      (m : DeleteMessage) (answers : Answers) (r : Option RelationMessage)
      (p : Option LibrdKafkaProducer) (s : PostgresqlReplicator)
      → Keeps s (delete_row json m answers r p s)
  unfolding delete_row send_row
  delete_row-Keeps m answers none p s = itself s
  delete_row-Keeps m answers (some r) none s = itself s
  delete_row-Keeps m answers (some r) (some p) s =
      bind-Keeps s (fill_row json r.columns m.old_tuple _) _
        (fill_row-Fills r.columns m.old_tuple _)
        (λ v. record {
          stats = refl;
          relations = refl;
          replies = refl;
          replicating = refl;
          repl_conn = refl;
        })

  update_row-Keeps :
      (m : UpdateMessage) (answers : Answers) (r : Option RelationMessage)
      (p : Option LibrdKafkaProducer) (s : PostgresqlReplicator)
      → Keeps s (update_row json m answers r p s)
  unfolding update_row send_row
  update_row-Keeps m answers none p s = itself s
  update_row-Keeps m answers (some r) none s = itself s
  update_row-Keeps m answers (some r) (some p) s =
      bind-Keeps s (with_before json r m.old_tuple _) _ (with_before-Fills r m.old_tuple _)
        (λ message.
          bind-Keeps s (fill_row json r.columns m.new_tuple _) _
            (fill_row-Fills r.columns m.new_tuple _)
            (λ v. record {
              stats = refl;
              relations = refl;
              replies = refl;
              replicating = refl;
              repl_conn = refl;
            }))

  truncate_tables-SameStream :
      (m : TruncateMessage) (answers : Answers) (p : Option LibrdKafkaProducer)
      (s : PostgresqlReplicator)
      → SameStream s (truncate_tables json m answers p s)
  unfolding truncate_tables
  truncate_tables-SameStream m answers none s = itself s
  truncate_tables-SameStream m answers (some p) s = record {
    stats = refl;
    relations = refl;
    replies = refl;
    replicating = refl;
    repl_conn = refl;
  }

  pub handle_message-Keeps :
      (m : Option ReplicationMessage) (answers : Answers) (s : PostgresqlReplicator)
      → Keeps s (handle_message json m answers s)
  unfolding handle_message handle_insert handle_update handle_delete handle_truncate
  handle_message-Keeps none answers s = tt
  handle_message-Keeps (some (insert m)) answers s = insert_row-Keeps m answers _ _ s
  handle_message-Keeps (some (update m)) answers s = update_row-Keeps m answers _ _ s
  handle_message-Keeps (some (delete m)) answers s = delete_row-Keeps m answers _ _ s
  handle_message-Keeps (some (truncate m)) answers s = truncate_tables-SameStream m answers _ s
  handle_message-Keeps (some (begin m)) answers s = itself s
  handle_message-Keeps (some (commit m)) answers s = itself s
  handle_message-Keeps (some (relation m)) answers s = itself s
