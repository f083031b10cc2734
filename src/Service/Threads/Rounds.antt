-- ===== src/Service/Threads/Rounds.antt =====
-- consumer_bo/replication_consumer.h: what one round of each thread does.
use kafka_replication.Base.{
  ◌≡◌, refl, sym, ap, ◌∙◌, Option, none, some, List, [], ◌∷◌, ◌++◌, append-nil, Bytes, codes,
  Outcome, ok, ◌>>=◌, >>=_inside, >>=_ok, length, >>=-eq-ok, ◌≤◌, arith, subst,
}
use kafka_replication.Json.{JsonLib}
use kafka_replication.Consumer.{
  JsonReader, ConsumerMessage, Consumed, message, timed_out, partition_eof, failed,
  LibRdkafkaConsumer, call_message, start_consuming, key_text, count_received,
}
use kafka_replication.Consumer.Callback.{
  consumer_message, save_into_queue, on_message, replication_callbacks,
}
use kafka_replication.Consumer.Messages.{consume_all}
use kafka_replication.Writer.{JsonPrinter, Server, DatabaseWriter}
use kafka_replication.Writer.Rows.{handler_incoming_data}
use kafka_replication.Service.{write_all}

module _ (json : JsonLib) (reader : JsonReader json) where
  open json use {Value}

  abbrev pub Messages : Type 0
  Messages = List (ConsumerMessage Value)

  -- What is built is handed on behind what was there.
  on_message_pending :
      (msg : Value) (key : Bytes) (ms : Messages)
      → on_message json reader msg key ms
        ≡ (on_message json reader msg key [] >>= λ new. ok (ms ++ new))
  unfolding on_message save_into_queue
  on_message_pending msg key ms = >>=_inside (reader.member msg (codes "op")) _ _ _ (λ op.
      >>=_inside (reader.as_string op) _ _ _ (λ _.
        >>=_inside (reader.member msg (codes "table")) _ _ _ (λ table.
          >>=_inside (reader.as_string table) _ _ _ (λ _.
            >>=_inside (reader.has_member msg (codes "data")) _ _ _ (λ _.
              >>=_inside (consumer_message json reader msg) _ _ (λ new. ok (ms ++ new))
                (λ m. refl))))))

  call_message_pending :
      (root : Option Value) (payload key : Bytes) (ms : Messages)
      → call_message json reader (replication_callbacks json reader) root payload key ms ≡ (
          call_message json reader (replication_callbacks json reader) root payload key []
          >>= λ new. ok (ms ++ new))
  unfolding call_message
  call_message_pending none payload key ms = rw append-nil
  call_message_pending (some root) payload key ms = on_message_pending root key ms

  pub start_consuming_pending :
      (x : Consumed) (c : LibRdkafkaConsumer) (ms : Messages)
      → start_consuming json reader (replication_callbacks json reader) x c ms ≡ (
          start_consuming json reader (replication_callbacks json reader) x c [] >>= λ (c', new).
          ok (c', ms ++ new))
  unfolding start_consuming
  start_consuming_pending (message payload key) c ms =
      let counted = record c { stats = count_received payload c.stats } in
      let new =
        call_message json reader (replication_callbacks json reader) (reader.parse payload) payload
          (key_text key) [] in
      ap (λ r. r >>= λ ms'. ok (counted, ms'))
        (call_message_pending (reader.parse payload) payload (key_text key) ms)
      ∙ sym (>>=_inside new (λ new. ok (ms ++ new)) (λ new. ok (counted, ms ++ new)) _ (λ v. refl))
      ∙ >>=_inside new _ _ _ (λ v. refl)
  start_consuming_pending timed_out c ms = rw append-nil
  start_consuming_pending partition_eof c ms = rw append-nil
  start_consuming_pending (failed errstr) c ms = rw append-nil

  pub consume_all_snoc :
      (xs : List Consumed) (x : Consumed) (c : LibRdkafkaConsumer) (ms : Messages)
      → consume_all json reader (replication_callbacks json reader) (xs ++ x ∷ []) c ms ≡ (
          consume_all json reader (replication_callbacks json reader) xs c ms >>= λ (c', ms').
          start_consuming json reader (replication_callbacks json reader) x c' ms')
  unfolding consume_all
  consume_all_snoc [] x c ms = >>=_ok _ _ (λ v. refl)
  consume_all_snoc (y ∷ ys) x c ms =
      >>=_inside (start_consuming json reader (replication_callbacks json reader) y c ms) _ _ _
        (λ (c', ms'). consume_all_snoc ys x c' ms')

  pub write_all_snoc :
      (printer : JsonPrinter json) (server : Server) (ms : Messages) (m : ConsumerMessage Value)
      (w : DatabaseWriter)
      → write_all json reader printer server (ms ++ m ∷ []) w ≡ (
          write_all json reader printer server ms w >>= λ w'.
          handler_incoming_data json reader printer server m w' >>= λ (w'', result). ok w'')
  unfolding write_all
  write_all_snoc printer server [] m w = refl
  write_all_snoc printer server (n ∷ ms) m w =
      >>=_inside (handler_incoming_data json reader printer server n w) _ _ _
        (λ (w', result). write_all_snoc printer server ms m w')

  on_message_one :
      (msg : Value) (key : Bytes) (ms : Messages)
      → on_message json reader msg key [] ≡ ok ms
      → length ms ≡ 1
  unfolding on_message save_into_queue
  on_message_one msg key ms e =
      let (op, _, e₁) = >>=-eq-ok (reader.member msg (codes "op")) _ e in
      let (_, _, e₂) = >>=-eq-ok (reader.as_string op) _ e₁ in
      let (table, _, e₃) = >>=-eq-ok (reader.member msg (codes "table")) _ e₂ in
      let (_, _, e₄) = >>=-eq-ok (reader.as_string table) _ e₃ in
      let (_, _, e₅) = >>=-eq-ok (reader.has_member msg (codes "data")) _ e₄ in
      let (m, _, e₆) = >>=-eq-ok (consumer_message json reader msg) _ e₅ in
      let same : ms ≡ m ∷ [] = cc in rw same

  call_message_one :
      (root : Option Value) (payload key : Bytes) (ms : Messages)
      → call_message json reader (replication_callbacks json reader) root payload key [] ≡ ok ms
      → length ms ≤ 1
  unfolding call_message
  call_message_one none payload key ms e = let same : ms ≡ [] = cc in rw same (omega arith)
  call_message_one (some root) payload key ms e = omega (arith, on_message_one root key ms e)

  returned :
      (v c c' : LibRdkafkaConsumer) (new ms : Messages)
      → ◌≡◌ {A = Outcome (LibRdkafkaConsumer × Messages)} (ok (v, new)) (ok (c', ms))
      → length new ≤ 1
      → v.running ≡ c.running
      → (length ms ≤ 1) × (c'.running ≡ c.running)
  returned v c c' new ms e one same =
      let same_new : new ≡ ms = cc in
      let same_v : v ≡ c' = cc in
      (subst (λ l. length l ≤ 1) same_new one, subst (λ v. v.running ≡ c.running) same_v same)

  -- A round builds one message at most, and never stops the consumer.
  pub start_consuming_one :
      (x : Consumed) (c c' : LibRdkafkaConsumer) (ms : Messages)
      → start_consuming json reader (replication_callbacks json reader) x c [] ≡ ok (c', ms)
      → (length ms ≤ 1) × (c'.running ≡ c.running)
  unfolding start_consuming
  start_consuming_one (message payload key) c c' ms e =
      let (new, e₁, e₂) =
        >>=-eq-ok
          (call_message json reader (replication_callbacks json reader) (reader.parse payload)
            payload (key_text key) [])
          _ e in
      returned _ c c' new ms e₂
        (call_message_one (reader.parse payload) payload (key_text key) new e₁) refl
  start_consuming_one timed_out c c' ms e = returned c c c' [] ms e (omega arith) refl
  start_consuming_one partition_eof c c' ms e = returned c c c' [] ms e (omega arith) refl
  start_consuming_one (failed errstr) c c' ms e = returned _ c c' [] ms e (omega arith) refl
