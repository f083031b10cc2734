-- ===== src/Producer.antt =====
-- producer_azs/producer_librdkafka.cpp: the Kafka producer. librdkafka is not part of this
-- repository; what it answers is an argument of each operation. The producer and its delivery
-- callback share the counters under a mutex, so each of their operations is one step.
pub mod Counters
use kafka_replication.Base.{
  ℕ, zero, suc, ◌+◌, ◌-◌, ◌*◌, ◌/◌, ◌%◌, ◌^◌, ◌≤◌, ◌<◌, bit_and, ◌≡◌, refl, sym, ap, ◌∙◌, subst,
  ◌≢◌, ◌↔◌, ◌⊎◌, inl, inr, Bool, true, false, ◌&&◌, ◌||◌, not, Option, none, some, List, [], ◌∷◌,
  ◌++◌, map, append-nil, append_assoc, arith, ltb, leb, ◌==◌, if◌then◌else◌, ltb→lt, lt→ltb, le→ltb,
  leb→le, le→leb, lt→leb, ==_iff, ==_self, ==_ne, Bool-cases, Option-cases, Bytes, codes, length,
  get_elem?, take, drop, replicate, All, length-append, length-drop, get_elem?-drop, drop-suc,
  drop-append, take-append, drop-append_at, get_elem?-lt, length-map, bytes_eq, bytes_eq_iff,
  bytes_eq_self, Error, buffer_underflow, string_underflow, not_null_terminated, bad_alloc,
  invalid_argument, out_of_range, logic_error, wal_too_short, config_path_not_set, not_replicating,
  read_failed, start_failed, Outcome, ok, throw, fault, ◌>>=◌, >>=-eq-ok, Outcome-cases,
}

pub data ErrorCode : Type 0 where
  no_error : ErrorCode
  failed : ℕ → ErrorCode

-- What `produce` is handed; a null key is `none`.
pub record KafkaMessage : Type 0 where
  pub topic : Bytes
  pub key : Option Bytes
  pub value : Bytes

-- 64-bit counters.
pub record ProducerStats : Type 0 where
  pub messages_sent : ℕ
  pub bytes_sent : ℕ
  pub errors : ℕ

-- `created` tells whether `producer_` is set. `produced` holds the messages that librdkafka took.
pub record LibrdKafkaProducer : Type 0 where
  pub created : Bool
  pub topic_name : Bytes
  pub stopping : Bool
  pub stats : ProducerStats
  pub produced : List KafkaMessage

abbrev pub no_stats : ProducerStats
no_stats = record { messages_sent = 0; bytes_sent = 0; errors = 0 }

abbrev pub new_producer : LibrdKafkaProducer
new_producer = record {
  created = false;
  topic_name = [];
  stopping = false;
  stats = no_stats;
  produced = [];
}

-- The settings that `init` makes.
abbrev pub producer_conf : Bytes → List (Bytes × Bytes)
producer_conf brokers =
    (codes "bootstrap.servers", brokers)
    ∷ (codes "acks", codes "all")
    ∷ (codes "retries", codes "3")
    ∷ (codes "enable.idempotence", codes "false")
    ∷ (codes "compression.type", codes "snappy")
    ∷ (codes "broker.address.family", codes "v4")
    ∷ (codes "batch.size", codes "16384")
    ∷ (codes "linger.ms", codes "5")
    ∷ []

-- `create` tells whether RdKafka::Producer::create succeeds with these settings.
unfoldable pub init :
    (List (Bytes × Bytes) → Bool) → Bytes → Bytes → LibrdKafkaProducer → LibrdKafkaProducer × Bool
init create brokers topic p =
    if create (producer_conf brokers)
    then (record p { topic_name = topic; created = true }, true)
    else (record p { topic_name = topic; created = false }, false)

abbrev pub increment : ℕ → ℕ → ℕ
increment counter n = (counter + n) % 2 ^ 64

abbrev pub count_error : ProducerStats → ProducerStats
count_error s = record s { errors = increment s.errors 1 }

abbrev pub count_sent : Bytes → ProducerStats → ProducerStats
count_sent value s = record s {
  messages_sent = increment s.messages_sent 1;
  bytes_sent = increment s.bytes_sent (length value);
}

abbrev pub message_key : Bytes → Option Bytes
message_key [] = none
message_key (b ∷ key) = some (b ∷ key)

abbrev after_produce : ErrorCode → KafkaMessage → LibrdKafkaProducer → LibrdKafkaProducer × Bool
after_produce no_error m p =
    (record p { stats = count_sent m.value p.stats; produced = p.produced ++ m ∷ [] }, true)
after_produce (failed code) m p = (record p { stats = count_error p.stats }, false)

-- `resp` is what `produce` returns for the message.
unfoldable pub send_message :
    Bytes → Bytes → ErrorCode → LibrdKafkaProducer → LibrdKafkaProducer × Bool
send_message key value resp p =
    if p.created
    then after_produce resp (record { topic = p.topic_name; key = message_key key; value = value })
        p
    else (p, false)

abbrev after_delivery : ErrorCode → LibrdKafkaProducer → LibrdKafkaProducer
after_delivery no_error p = p
after_delivery (failed code) p = record p { stats = count_error p.stats }

-- DeliveryCb::dr_cb; its `producer_` is this producer, set by `init`.
unfoldable pub dr_cb : ErrorCode → LibrdKafkaProducer → LibrdKafkaProducer
dr_cb = after_delivery

unfoldable pub get_stats : LibrdKafkaProducer → ProducerStats
get_stats p = p.stats

-- The answer is that of librdkafka's `flush`, an error code read as a bool: true on an error.
unfoldable pub flush : ErrorCode → LibrdKafkaProducer → Bool
flush code p = if p.created then elim code [ no_error ↦ false | failed _ ↦ true ] else false

-- The destructor.
unfoldable pub destroy : LibrdKafkaProducer → LibrdKafkaProducer
destroy p = record p { stopping = true; created = false }
