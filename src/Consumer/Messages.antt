-- ===== src/Consumer/Messages.antt =====
-- consumer_bo: what comes of a consumed message, and the counters.
use kafka_replication.Base.{
  ℕ, ◌+◌, ◌%◌, ◌^◌, ◌≡◌, List, [], ◌∷◌, arith, length, Outcome, ok, ◌>>=◌, >>=-eq-ok,
}
use kafka_replication.Json.{JsonLib}
use kafka_replication.Consumer.{
  ConsumerStats, LibRdkafkaConsumer, Consumed, message, timed_out, partition_eof, failed,
  JsonReader, count_failed, Callbacks, call_message, key_text, start_consuming,
}

-- The messages among the answers, their size, and the errors.
abbrev pub messages : List Consumed → ℕ
messages [] = 0
messages (message _ _ ∷ cs) = 1 + messages cs
messages (_ ∷ cs) = messages cs

abbrev pub size : List Consumed → ℕ
size [] = 0
size (message payload _ ∷ cs) = length payload + size cs
size (_ ∷ cs) = size cs

abbrev pub errors : List Consumed → ℕ
errors [] = 0
errors (failed _ ∷ cs) = 1 + errors cs
errors (_ ∷ cs) = errors cs

-- The counters after `n` messages of `b` bytes and `e` errors.
pub record IsCounted (n b e : ℕ) (s : ConsumerStats) : Type 0 where
  pub received : s.message_received ≡ n % 2 ^ 64
  pub bytes : s.bytes_received ≡ b % 2 ^ 64
  pub errors : s.errors ≡ e % 2 ^ 64

module _ (json : JsonLib) (reader : JsonReader json) {C : Type 0}
    (callbacks : Callbacks json.Value C) where
  -- The rounds of the consumer's thread.
  unfoldable pub consume_all :
      List Consumed → LibRdkafkaConsumer → C → Outcome (LibRdkafkaConsumer × C)
  consume_all [] c state = ok (c, state)
  consume_all (x ∷ xs) c state =
      start_consuming json reader callbacks x c state >>= λ (c', state'). consume_all xs c' state'

  start_consuming-IsCounted :
      (x : Consumed) (n b e : ℕ) (c d : LibRdkafkaConsumer) (state state' : C)
      → IsCounted n b e c.stats
      → start_consuming json reader callbacks x c state ≡ ok (d, state')
      → IsCounted (n + messages (x ∷ [])) (b + size (x ∷ [])) (e + errors (x ∷ [])) d.stats
  unfolding start_consuming
  start_consuming-IsCounted (message payload key) n b e c d state state' k h =
      let (st, _, h') =
        >>=-eq-ok
          (call_message json reader callbacks (reader.parse payload) payload (key_text key) state) _
          h in
      ground (arith, k, h')
  start_consuming-IsCounted timed_out n b e c d state state' k h = ground (arith, k, h)
  start_consuming-IsCounted partition_eof n b e c d state state' k h = ground (arith, k, h)
  start_consuming-IsCounted (failed errstr) n b e c d state state' k h =
      let (st, _, h') = >>=-eq-ok _ (λ st. ok (record c { stats = count_failed c.stats }, st)) h in
      ground (arith, k, h')

  counts_cons :
      (x : Consumed) (xs : List Consumed)
      → (messages (x ∷ xs) ≡ messages (x ∷ []) + messages xs)
        × (size (x ∷ xs) ≡ size (x ∷ []) + size xs)
        × (errors (x ∷ xs) ≡ errors (x ∷ []) + errors xs)
  counts_cons (message payload key) xs = (omega arith, omega arith, omega arith)
  counts_cons timed_out xs = (omega arith, omega arith, omega arith)
  counts_cons partition_eof xs = (omega arith, omega arith, omega arith)
  counts_cons (failed errstr) xs = (omega arith, omega arith, omega arith)

  -- Whatever the callbacks do, as long as they let no exception out, the counters are those of the
  -- answers of the broker, modulo 2 ^ 64: a text that is no JSON counts as a message, not as an
  -- error.
  pub consume_all-IsCounted :
      (xs : List Consumed) (n b e : ℕ) (c d : LibRdkafkaConsumer) (state state' : C)
      → IsCounted n b e c.stats
      → consume_all xs c state ≡ ok (d, state')
      → IsCounted (n + messages xs) (b + size xs) (e + errors xs) d.stats
  unfolding consume_all
  consume_all-IsCounted [] n b e c d state state' k h = ground (arith, k, h)
  consume_all-IsCounted (x ∷ xs) n b e c d state state' k h =
      let ((c', st), h₁, h₂) = >>=-eq-ok (start_consuming json reader callbacks x c state) _ h in
      let k' = start_consuming-IsCounted x n b e c c' state st k h₁ in
      let more = consume_all-IsCounted xs _ _ _ c' d st state' k' h₂ in
      ground (arith, more, counts_cons x xs)
