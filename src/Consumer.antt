-- ===== src/Consumer.antt =====
-- consumer_bo/consumer_librdkafka.cpp and the callback of consumer_bo/replication_consumer.h: from a
-- Kafka message to what is pushed into the queue. librdkafka and JsonCpp are parameters.
pub mod Callback
pub mod Messages
pub mod Changes
use kafka_replication.Base.{
  ℕ, zero, suc, ◌+◌, ◌-◌, ◌*◌, ◌/◌, ◌%◌, ◌^◌, ◌≤◌, ◌<◌, bit_and, ◌≡◌, refl, sym, ap, ◌∙◌, subst,
  ◌≢◌, ◌↔◌, ◌⊎◌, inl, inr, Bool, true, false, ◌&&◌, ◌||◌, not, Option, none, some, List, [], ◌∷◌,
  ◌++◌, map, append-nil, append_assoc, arith, ltb, leb, ◌==◌, if◌then◌else◌, ltb→lt, lt→ltb, le→ltb,
  leb→le, le→leb, lt→leb, ==_iff, ==_self, ==_ne, Bool-cases, Option-cases, Bytes, codes, length,
  get_elem?, take, drop, replicate, All, length-append, length-drop, get_elem?-drop, drop-suc,
  drop-append, take-append, drop-append_at, get_elem?-lt, length-map, bytes_eq, bytes_eq_iff,
  bytes_eq_self, bytes_eq_ne, Error, buffer_underflow, string_underflow, not_null_terminated,
  bad_alloc, invalid_argument, out_of_range, logic_error, wal_too_short, config_path_not_set,
  not_replicating, read_failed, start_failed, Outcome, ok, throw, fault, ◌>>=◌, >>=-eq-ok,
  Outcome-cases,
}
use kafka_replication.Settings.{new_conn_info}
use kafka_replication.Json.{JsonLib, TakesMembers}

-- shared_structures.h, struct ConsumerStats; 64-bit counters.
pub record ConsumerStats : Type 0 where
  pub message_received : ℕ
  pub bytes_received : ℕ
  pub errors : ℕ

-- `created` tells whether `consumer_` is set.
pub record LibRdkafkaConsumer : Type 0 where
  pub created : Bool
  pub running : Bool
  pub topic_name : Bytes
  pub stats : ConsumerStats

-- What `consume` returns: a message with its payload and key, or an error code.
pub data Consumed : Type 0 where
  message : Bytes → Option Bytes → Consumed
  timed_out partition_eof : Consumed
  failed : Bytes → Consumed

-- The part of JsonCpp that only the consumer uses; each may throw.
pub record JsonReader (json : JsonLib) : Type 0 where
  -- `Json::parseFromStream`, and the errors that it writes where it fails.
  pub parse : Bytes → Option json.Value
  pub parse_errors : Bytes → Bytes
  -- `v.asString()`, `v[key]`, `v.isMember(key)`, and `v.get(key, default)` for a text.
  pub as_string : json.Value → Outcome Bytes
  pub member : json.Value → Bytes → Outcome json.Value
  pub has_member : json.Value → Bytes → Outcome Bool
  pub get_default : json.Value → Bytes → Bytes → Outcome json.Value

pub record ReaderLaws (json : JsonLib) (reader : JsonReader json) : Type 0 where
  pub as_string-of_string : (s : Bytes) → reader.as_string (json.of_string s) ≡ ok s
  pub member_lem :
      (v : json.Value) (k : Bytes)
      → TakesMembers (json.type v)
      → reader.member v k ≡ ok (json.get v k)
  pub has_member_lem :
      (v : json.Value) (k : Bytes)
      → TakesMembers (json.type v)
      → reader.has_member v k ≡ ok (json.is_member v k)
  pub get_default_lem :
      (v : json.Value) (k d : Bytes)
      → TakesMembers (json.type v)
      → reader.get_default v k d
        ≡ ok (if json.is_member v k then json.get v k else json.of_string d)

-- shared_structures.h, struct ConsumerMessage.
pub record ConsumerMessage (Value : Type 0) : Type 0 where
  pub primary_key : Bytes
  pub op : Bytes
  pub table : Bytes
  pub row : Value
  pub before : Value
  pub after : Value

abbrev pub count_received : Bytes → ConsumerStats → ConsumerStats
count_received payload s = record s {
  message_received = (s.message_received + 1) % 2 ^ 64;
  bytes_received = (s.bytes_received + length payload) % 2 ^ 64;
}

abbrev pub count_failed : ConsumerStats → ConsumerStats
count_failed s = record s { errors = (s.errors + 1) % 2 ^ 64 }

-- What init sets on the consumer's configuration and on the one of its topics.
abbrev pub consumer_settings : Bytes → Bytes → List (Bytes × Bytes)
consumer_settings brokers group_id =
    (codes "bootstrap.servers", brokers)
    ∷ (codes "broker.address.family", codes "v4")
    ∷ (codes "group.id", group_id)
    ∷ (codes "auto.offset.reset", codes "earliest")
    ∷ (codes "enable.auto.commit", codes "true")
    ∷ (codes "auto.commit.interval.ms", codes "5000")
    ∷ (codes "session.timeout.ms", codes "45000")
    ∷ (codes "max.poll.interval.ms", codes "300000")
    ∷ []

abbrev pub topic_settings : List (Bytes × Bytes)
topic_settings = (codes "auto.offset.reset", codes "earliest") ∷ []

-- librdkafka: whether a consumer is made for the settings, and whether it subscribes to a topic.
pub record Kafka : Type 0 where
  pub creates : List (Bytes × Bytes) → List (Bytes × Bytes) → Bool
  pub subscribes : Bytes → Bool

unfoldable pub init_consumer :
    Kafka → Bytes → Bytes → Bytes → LibRdkafkaConsumer → LibRdkafkaConsumer × Bool
init_consumer kafka brokers topic group_id c =
    if kafka.creates topic_settings (consumer_settings brokers group_id)
    then (if kafka.subscribes topic
        then (record c { topic_name = topic; created = true; running = true }, true)
        else (record c { topic_name = topic; created = true }, false))
    else (record c { topic_name = topic; created = false }, false)

abbrev pub no_consumer : LibRdkafkaConsumer
no_consumer = record {
  created = false;
  running = false;
  topic_name = [];
  stats = record { message_received = 0; bytes_received = 0; errors = 0 };
}

abbrev pub made_consumer : LibRdkafkaConsumer × Bool → Outcome LibRdkafkaConsumer
made_consumer (c, true) = ok c
made_consumer (c, false) = throw start_failed

-- The constructor.
unfoldable pub new_consumer : (Bytes → Option Bytes) → Kafka → Outcome LibRdkafkaConsumer
new_consumer getenv kafka = do
  info ← new_conn_info getenv
  made_consumer (init_consumer kafka info.brokers_names info.topic info.group_id no_consumer)

unfoldable pub pre_start : LibRdkafkaConsumer → Outcome LibRdkafkaConsumer
pre_start c = if c.created then ok (record c { running = true }) else throw start_failed

unfoldable pub stop : LibRdkafkaConsumer → LibRdkafkaConsumer
stop c = record c { running = false }

abbrev pub key_text : Option Bytes → Bytes
key_text none = []
key_text (some key) = key

-- The callbacks, on what they change.
pub record Callbacks (Value C : Type 0) : Type 0 where
  pub message_callback : Option (Value → Bytes → C → Outcome C)
  pub error_callback : Option (Bytes → C → Outcome C)

abbrev pub no_callbacks : {Value C : Type 0} → Callbacks Value C
no_callbacks = record { message_callback = none; error_callback = none }

abbrev pub set_message_callback :
    {Value C : Type 0} → (Value → Bytes → C → Outcome C) → Callbacks Value C → Callbacks Value C
set_message_callback cb callbacks = record callbacks { message_callback = some cb }

abbrev pub set_error_callback :
    {Value C : Type 0} → (Bytes → C → Outcome C) → Callbacks Value C → Callbacks Value C
set_error_callback cb callbacks = record callbacks { error_callback = some cb }

module _ (json : JsonLib) (reader : JsonReader json) where
  open json use {Value, null_value, of_string, write}
  open reader use {parse, parse_errors, as_string, member, has_member, get_default}

  unfoldable pub call_message :
      {C : Type 0} → Callbacks Value C → Option Value → Bytes → Bytes → C → Outcome C
  call_message callbacks (some root) payload key state = elim callbacks.message_callback [
    | none ↦ ok state
    | some callback ↦ callback root key state
  ]
  call_message callbacks none payload key state = elim callbacks.error_callback [
    | none ↦ ok state
    | some callback ↦
        callback
          (codes "Failed to parse JSON: "
            ++ parse_errors payload
            ++ codes "Raw payload: "
            ++ payload)
          state
  ]

  unfoldable pub start_consuming :
      {C : Type 0}
      → Callbacks Value C
      → Consumed
      → LibRdkafkaConsumer
      → C
      → Outcome (LibRdkafkaConsumer × C)
  start_consuming callbacks (message payload key) c state = do
    state' ← call_message callbacks (parse payload) payload (key_text key) state
    ok (record c { stats = count_received payload c.stats }, state')
  start_consuming callbacks timed_out c state = ok (c, state)
  start_consuming callbacks partition_eof c state = ok (c, state)
  start_consuming callbacks (failed errstr) c state = do
    state' ← elim callbacks.error_callback [
      | none ↦ ok state
      | some callback ↦ callback errstr state
    ]
    ok (record c { stats = count_failed c.stats }, state')
