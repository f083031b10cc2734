-- ===== src/Service/Drain.antt =====
-- consumer_bo/replication_consumer.h: the writing thread empties the queue.
use kafka_replication.Base.{
  ℕ, zero, suc, ◌+◌, ◌≡◌, refl, sym, ap, ◌∙◌, inl, inr, Bool, true, false, List, [], ◌∷◌, arith,
  if◌then◌else◌, Bytes, codes, length, bytes_eq, Outcome, ok, throw, fault, ◌>>=◌, >>=-eq-ok,
  Outcome-cases,
}
use kafka_replication.Json.{JsonLib}
use kafka_replication.Queue.{SafeQueue, pop}
use kafka_replication.Consumer.{JsonReader, ConsumerMessage}
use kafka_replication.Writer.{
  JsonPrinter, Server, DatabaseWriter, exec, table_exists, build_create_table_sql,
  create_table_if_not_exists,
}
use kafka_replication.Writer.Rows.{
  insert_lists, insert_row, key_column, key_value, set_clause, update_row, delete_row,
  handler_incoming_data,
}
use kafka_replication.Service.{load_from_queue, start_db_writer, write_all}

module _ (json : JsonLib) (reader : JsonReader json) (printer : JsonPrinter json) (server : Server)
    (running : Bool) where
  open json use {Value}
  open printer use {member_names}

  abbrev pub Keeps : Outcome (DatabaseWriter × Bool) → Type 0
  Keeps r = (w : DatabaseWriter) (result : Bool) → r ≡ ok (w, result) → w.running ≡ running

  bind_Keeps :
      {A : Type 0} (m : Outcome A) (f : A → Outcome (DatabaseWriter × Bool))
      → ((a : A) → Keeps (f a))
      → Keeps (m >>= f)
  bind_Keeps (ok a) f h w result e = h a w result e
  bind_Keeps (throw x) f h w result e = cc
  bind_Keeps fault f h w result e = cc

  if_Keeps :
      (b : Bool) {x y : Outcome (DatabaseWriter × Bool)}
      → Keeps x
      → Keeps y
      → Keeps (if b then x else y)
  if_Keeps true h k = h
  if_Keeps false h k = k

  ok_Keeps : (v : DatabaseWriter) (b : Bool) → v.running ≡ running → Keeps (ok (v, b))
  ok_Keeps v b h w result e = ground (arith, h, e)

  exec-Keeps :
      (sql : Bytes) (v : DatabaseWriter) → v.running ≡ running → Keeps (ok (exec server sql v))
  unfolding exec
  exec-Keeps sql v h = ok_Keeps _ _ h

  create_table_if_not_exists-Keeps :
      (table : Bytes) (row : Value) (v : DatabaseWriter)
      → v.running ≡ running
      → Keeps (create_table_if_not_exists json reader printer server table row v)
  unfolding create_table_if_not_exists table_exists exec
  create_table_if_not_exists-Keeps table row v h = if_Keeps _ (ok_Keeps _ true h) (
      bind_Keeps (build_create_table_sql json reader printer server table row) _
        (λ sql. exec-Keeps sql _ h))

  insert_row-Keeps :
      (table : Bytes) (row : Value) (v : DatabaseWriter)
      → v.running ≡ running
      → Keeps (insert_row json reader printer server table row v)
  unfolding insert_row
  insert_row-Keeps table row v h = bind_Keeps (member_names row) _ (λ members.
      bind_Keeps (insert_lists json reader printer server true members row) _
        (λ lists. exec-Keeps _ v h))

  update_row-Keeps :
      (table : Bytes) (before after : Value) (key : Bytes) (v : DatabaseWriter)
      → v.running ≡ running
      → Keeps (update_row json reader printer server table before after key v)
  unfolding update_row
  update_row-Keeps table before after key v h = bind_Keeps (member_names before) _ (λ members.
      bind_Keeps (key_column json reader printer server key members) _ (λ column.
        bind_Keeps (key_value json reader printer server column before) _ (λ value.
          bind_Keeps (member_names after) _ (λ members_after.
            bind_Keeps (set_clause json reader printer server true members_after after) _
              (λ sets. exec-Keeps _ v h)))))

  delete_row-Keeps :
      (table : Bytes) (before : Value) (key : Bytes) (v : DatabaseWriter)
      → v.running ≡ running
      → Keeps (delete_row json reader printer server table before key v)
  unfolding delete_row
  delete_row-Keeps table before key v h = bind_Keeps (member_names before) _ (λ members.
      bind_Keeps (key_column json reader printer server key members) _ (λ column.
        bind_Keeps (key_value json reader printer server column before) _
          (λ value. exec-Keeps _ v h)))

  pub handler_incoming_data-Keeps :
      (m : ConsumerMessage Value) (v : DatabaseWriter)
      → v.running ≡ running
      → Keeps (handler_incoming_data json reader printer server m v)
  unfolding handler_incoming_data
  handler_incoming_data-Keeps m v h = if_Keeps (bytes_eq m.op (codes "INSERT")) (insert m v h) (
      if_Keeps (bytes_eq m.op (codes "UPDATE"))
        (update_row-Keeps m.table m.before m.after m.primary_key v h)
        (if_Keeps (bytes_eq m.op (codes "DELETE"))
          (delete_row-Keeps m.table m.before m.primary_key v h) (ok_Keeps v false h)))
    where
      insert :
          (m : ConsumerMessage Value) (v : DatabaseWriter)
          → v.running ≡ running
          → Keeps (
              create_table_if_not_exists json reader printer server m.table m.row v >>= λ (w', _).
              insert_row json reader printer server m.table m.row w')
      insert m v h w result e =
          let ((w', b), e₁, e₂) =
            >>=-eq-ok (create_table_if_not_exists json reader printer server m.table m.row v) _ e in
          insert_row-Keeps m.table m.row w'
            (create_table_if_not_exists-Keeps m.table m.row v h w' b e₁) w result e₂

module _ (json : JsonLib) (reader : JsonReader json) (printer : JsonPrinter json) (server : Server)
    (bound : ℕ) where
  open json use {Value}

  -- The queue with these messages.
  abbrev pub queue_of : List (ConsumerMessage Value) → SafeQueue (ConsumerMessage Value)
  queue_of ms = record { queue_to_save = ms; max_queue_size = bound; cond_push = 0; cond_pop = 0 }

  count : List (ConsumerMessage Value) → ℕ → ℕ
  count [] extra = extra
  count (m ∷ ms) extra = suc (count ms extra)

  count_lem : (ms : List (ConsumerMessage Value)) (extra : ℕ) → count ms extra ≡ length ms + extra
  unfolding count
  count_lem [] extra = omega arith
  count_lem (m ∷ ms) extra = omega (arith, count_lem ms extra)

  if_same : {A : Type 0} (b : Bool) (x : A) → (if b then x else x) ≡ x
  if_same true x = refl
  if_same false x = refl

  if_true : {A : Type 0} (b : Bool) (x y : A) → b ≡ true → (if b then x else y) ≡ x
  if_true true x y h = refl
  if_true false x y h = cc

  drain :
      (ms : List (ConsumerMessage Value)) (extra : ℕ) (w : DatabaseWriter)
      → w.running ≡ true
      → start_db_writer json reader printer server (count ms extra) (queue_of ms) w
        ≡ (write_all json reader printer server ms w >>= λ w'. ok (queue_of [], w'))
  unfolding start_db_writer load_from_queue pop write_all count
  drain [] zero w h = refl
  drain [] (suc extra) w h = if_same w.running (ok (queue_of [], w))
  drain (m ∷ ms) extra w h =
      if_true w.running _ _ h
      ∙ elim (Outcome-cases (handler_incoming_data json reader printer server m w)) [
        | inl ((w', result), e) ↦ rw e (
            drain ms extra w'
              (handler_incoming_data-Keeps json reader printer server true m w h w' result e))
        | inr (inl (x, e)) ↦ rw e
        | inr (inr e) ↦ rw e
      ]

  -- As many rounds as the queue has messages write all of them, in their order, and leave the queue
  -- empty; any further round waits. Where the handler of one throws or runs into undefined
  -- behaviour, so do the rounds.
  pub start_db_writer-write_all :
      (ms : List (ConsumerMessage Value)) (extra : ℕ) (w : DatabaseWriter)
      → w.running ≡ true
      → start_db_writer json reader printer server (length ms + extra) (queue_of ms) w
        ≡ (write_all json reader printer server ms w >>= λ w'. ok (queue_of [], w'))
  start_db_writer-write_all ms extra w h =
      ap (λ rounds. start_db_writer json reader printer server rounds (queue_of ms) w)
        (sym (count_lem ms extra))
      ∙ drain ms extra w h
