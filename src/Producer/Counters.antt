-- ===== src/Producer/Counters.antt =====
-- The counters after any history of sends and delivery reports.
use kafka_replication.Base.{
  ℕ, ◌+◌, ◌%◌, ◌^◌, ◌≡◌, ◌≢◌, ◌⊎◌, inr, true, false, List, [], ◌∷◌, ◌++◌, arith, Bytes, length,
  length-append,
}
use kafka_replication.Producer.{
  ErrorCode, no_error, failed, KafkaMessage, LibrdKafkaProducer, send_message, dr_cb, message_key,
}

-- A send with librdkafka's answer, or a delivery report.
pub data Event : Type 0 where
  sends : Bytes → Bytes → ErrorCode → Event
  delivers : ErrorCode → Event

pub step : Event → LibrdKafkaProducer → LibrdKafkaProducer
step (sends key value resp) p = (send_message key value resp p).0
step (delivers code) p = dr_cb code p

pub run : List Event → LibrdKafkaProducer → LibrdKafkaProducer
run [] p = p
run (e ∷ es) p = run es (step e p)

abbrev pub total_size : List KafkaMessage → ℕ
total_size [] = 0
total_size (m ∷ ms) = length m.value + total_size ms

abbrev is_failed : ErrorCode → ℕ
is_failed no_error = 0
is_failed (failed _) = 1

-- The failures among the events: sends that librdkafka refused and deliveries that failed.
abbrev pub failures : List Event → ℕ
failures [] = 0
failures (sends _ _ code ∷ es) = is_failed code + failures es
failures (delivers code ∷ es) = is_failed code + failures es

total_size-append :
    (ms ns : List KafkaMessage) → total_size (ms ++ ns) ≡ total_size ms + total_size ns
total_size-append [] ns = omega arith
total_size-append (m ∷ ms) ns = omega (arith, total_size-append ms ns)

-- The counters of a working producer, with `n` failures so far.
pub record IsCounted (n : ℕ) (p : LibrdKafkaProducer) : Type 0 where
  pub created : p.created ≡ true
  pub messages : p.stats.messages_sent ≡ length p.produced % 2 ^ 64
  pub bytes : p.stats.bytes_sent ≡ total_size p.produced % 2 ^ 64
  pub errors : p.stats.errors ≡ n % 2 ^ 64

step-IsCounted :
    (e : Event) (n : ℕ) (p : LibrdKafkaProducer)
    → IsCounted n p
    → IsCounted (n + failures (e ∷ [])) (step e p)
unfolding step send_message dr_cb
step-IsCounted (sends key value no_error) n p c =
    let m : KafkaMessage = record { topic = p.topic_name; key = message_key key; value = value } in
    ground (arith, length-append p.produced (m ∷ []), total_size-append p.produced (m ∷ []))
step-IsCounted (sends key value (failed x)) n p c = ground arith
step-IsCounted (delivers no_error) n p c = ground arith
step-IsCounted (delivers (failed x)) n p c = ground arith

failures-cons : (e : Event) (es : List Event) → failures (e ∷ es) ≡ failures (e ∷ []) + failures es
failures-cons (sends _ _ _) es = omega arith
failures-cons (delivers _) es = omega arith

-- After any history the counters are those of the messages that librdkafka took, and of the
-- failures, modulo 2 ^ 64: a refused send counts as an error and as nothing else.
pub run-IsCounted :
    (es : List Event) (n : ℕ) (p : LibrdKafkaProducer)
    → IsCounted n p
    → IsCounted (n + failures es) (run es p)
unfolding run
run-IsCounted [] n p c = let none_more : n + 0 ≡ n = omega arith in rw none_more c
run-IsCounted (e ∷ es) n p c =
    let split : n + failures (e ∷ es) ≡ n + failures (e ∷ []) + failures es =
      omega (arith, failures-cons e es) in
    rw split (run-IsCounted es (n + failures (e ∷ [])) (step e p) (step-IsCounted e n p c))

-- A send reports true exactly when librdkafka took the message, and then that message, with a null
-- key for an empty one, is the only one that it took.
pub send_message_lem :
    (key value : Bytes) (resp : ErrorCode) (p : LibrdKafkaProducer)
    → ((p.created ≡ true)
        × (resp ≡ no_error)
        × ((send_message key value resp p).1 ≡ true)
        × ((send_message key value resp p).0.produced
            ≡ p.produced
              ++ record { topic = p.topic_name; key = message_key key; value = value } ∷ []))
      ⊎ (((p.created ≡ false) ⊎ (resp ≢ no_error))
          × ((send_message key value resp p).1 ≡ false)
          × ((send_message key value resp p).0.produced ≡ p.produced))
unfolding send_message
send_message_lem key value no_error p = ground arith
send_message_lem key value (failed x) p = inr (inr (λ e. cc), ground arith, ground arith)
