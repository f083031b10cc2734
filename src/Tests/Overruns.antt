-- ===== src/Tests/Overruns.antt =====
-- Bytes that do not follow the protocol.
use kafka_replication.Base.{
  ℕ, ◌≡◌, refl, inr, none, [], ◌∷◌, arith, Bytes, replicate, buffer_underflow, ok, throw, fault,
}
use kafka_replication.Wire.{byte_at, memcpy, read_uint32, read_uint64}
use kafka_replication.Tuple.{text_value}
use kafka_replication.Tuple.Overloads.{text_value_overrun}
use kafka_replication.Message.Cache.{RelationCache}
use kafka_replication.Message.Parse.{parse_begin}
use kafka_replication.Parser.{parse_switch, catch_parse, parse_message}
use kafka_replication.Parser.Messages.{cached, HasType, parse_message-cached}
use kafka_replication.Replicator.Packets.{parse_packet}
use kafka_replication.Replicator.Delivery.{wal_packet, broken_message_crash, unknown_message_crash}
use kafka_replication.Tests.Doubles.{big_host, node_json, answers, replicator}

-- A length of 9, and one byte.
abbrev short_text : Bytes
short_text = 0 ∷ 0 ∷ 0 ∷ 9 ∷ b'x' ∷ []

short_length : read_uint32 short_text 0 ≡ ok (9, 4)
unfolding read_uint32 memcpy
short_length = refl

text_value_overrun_example : text_value short_text 0 ≡ fault
text_value_overrun_example =
    text_value_overrun short_text 0 9 4 short_length (omega arith) (omega arith)

-- A BEGIN of one byte.
short_begin :
    (cache : RelationCache) → parse_switch big_host cache b'B' (1 ∷ []) ≡ throw buffer_underflow
unfolding parse_switch parse_begin read_uint64
short_begin cache = refl

short_message : parse_message big_host [] (b'B' ∷ 1 ∷ []) ≡ ok (none, [])
unfolding parse_message byte_at catch_parse parse_switch parse_begin read_uint64
short_message = refl

parse_message-cached_example :
    (t : ℕ) × (byte_at (b'B' ∷ 1 ∷ []) 0 ≡ ok t) × ([] ≡ cached none []) × HasType t none
parse_message-cached_example =
    parse_message-cached big_host [] [] (b'B' ∷ 1 ∷ []) none short_message

broken_message_crash_example :
    parse_packet big_host node_json answers (wal_packet (replicate 24 0) (b'B' ∷ 1 ∷ [])) replicator
    ≡ fault
broken_message_crash_example =
    broken_message_crash big_host node_json answers (replicate 24 0) (b'B' ∷ 1 ∷ []) replicator refl
      b'B' (1 ∷ []) buffer_underflow (inr (refl, short_begin replicator.relations))

-- A message of the type Origin.
unknown_message_crash_example :
    parse_packet big_host node_json answers (wal_packet (replicate 24 0) (b'O' ∷ 1 ∷ [])) replicator
    ≡ fault
unknown_message_crash_example =
    unknown_message_crash big_host node_json answers (replicate 24 0) (b'O' ∷ 1 ∷ []) replicator
      refl b'O' (1 ∷ []) refl
      (
        λ e. omega (arith, e),
        (
          λ e. omega (arith, e),
          (
            λ e. omega (arith, e),
            (
              λ e. omega (arith, e),
              (λ e. omega (arith, e), (λ e. omega (arith, e), (λ e. omega (arith, e), tt))),
            ),
          ),
        ),
      )
