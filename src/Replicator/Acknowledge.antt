-- ===== src/Replicator/Acknowledge.antt =====
-- What the replicator tells the server about its position.
use kafka_replication.Base.{
  ℕ, ◌+◌, ◌*◌, ◌^◌, ◌≡◌, refl, Bool, true, ◌&&◌, List, [], ◌∷◌, ◌++◌, append-nil, arith,
  if◌then◌else◌, Bytes, length, take, drop, ok, get_elem?, some,
}
use kafka_replication.Base.Word.{IsU32, IsU64, be32, be64, advance}
use kafka_replication.Wire.{from_be, read_uint64}
use kafka_replication.Wire.Cursor.{At, At-next, read_uint64-At, read_uint32-At, room_test}
use kafka_replication.Replicator.{
  PostgresqlReplicator, Answers, Stats, status_update, send_standby_status_update,
}

-- The 64-bit position in two words.
abbrev pub lsn : ℕ → ℕ → ℕ
lsn high low = high * 2 ^ 32 + low

pub record IsStats (s : Stats) : Type 0 where
  pub restart_high : IsU32 s.restart_lsn_high
  pub restart_low : IsU32 s.restart_lsn_low
  pub applied_high : IsU32 s.applied_lsn_high
  pub applied_low : IsU32 s.applied_lsn_low

words-At :
    (h l : ℕ) (s : Bytes) {buf : Bytes} {offset : ℕ}
    → IsU32 h
    → IsU32 l
    → At buf offset (be32 h ++ (be32 l ++ s))
    → read_uint64 buf offset ≡ ok (lsn h l, advance offset 8)
unfolding read_uint64
words-At h l s {buf} {offset} hh hl here =
    let cursor : advance (advance offset 4) 4 ≡ advance offset 8 = omega arith in
    rw (
      room_test (be32 h ++ be32 l) s here,
      read_uint32-At h (be32 l ++ s) hh here,
      read_uint32-At l s hl (At-next (be32 h) (be32 l ++ s) here),
      cursor,
    )

-- The status update has 34 bytes: the type r; then, as big-endian 64-bit words, the restart position
-- in the protocol's place of what is written, the applied one in the place of what is flushed, the
-- restart one again in the place of what is applied, and the time; and the flag that asks for a reply.
pub status_update_layout :
    (microseconds : ℕ) (s : Stats)
    → IsStats s
    → IsU64 microseconds
    → let reply = status_update microseconds s in
      (length reply ≡ 34)
      × (get_elem? reply 0 ≡ some b'r')
      × (read_uint64 reply 1 ≡ ok (lsn s.restart_lsn_high s.restart_lsn_low, 9))
      × (read_uint64 reply 9 ≡ ok (lsn s.applied_lsn_high s.applied_lsn_low, 17))
      × (read_uint64 reply 17 ≡ ok (lsn s.restart_lsn_high s.restart_lsn_low, 25))
      × (read_uint64 reply 25 ≡ ok (microseconds, 33))
      × (get_elem? reply 33 ≡ some s.flag)
status_update_layout microseconds s k h = (
  refl,
  refl,
  words-At _ _ _ k.restart_high k.restart_low
      (record { rest = refl; fits = omega arith; inside = omega arith }),
  words-At _ _ _ k.applied_high k.applied_low
      (record { rest = refl; fits = omega arith; inside = omega arith }),
  words-At _ _ _ k.restart_high k.restart_low
      (record { rest = refl; fits = omega arith; inside = omega arith }),
  read_uint64-At microseconds (s.flag ∷ []) h
      (record { rest = refl; fits = omega arith; inside = omega arith }),
  refl,
)

-- The position that a packet carries: the two words at byte 9.
abbrev pub packet_lsn : Bytes → ℕ × ℕ
packet_lsn raw = (from_be (take 4 (drop 9 raw)), from_be (take 4 (drop 13 raw)))

-- The status update for one position.
abbrev pub acknowledgement : ℕ → ℕ → ℕ × ℕ → Bytes
acknowledgement flag microseconds (h, l) =
    b'r'
    ∷ (be32 h
        ++ (be32 l
            ++ (be32 h ++ (be32 l ++ (be32 h ++ (be32 l ++ (be64 microseconds ++ flag ∷ [])))))))

-- The replicator has received and applied all up to one position, and is connected.
pub record IsAt (flag : ℕ) (position : ℕ × ℕ) (s : PostgresqlReplicator) : Type 0 where
  pub received_high : s.stats.received_lsn_high ≡ position.0
  pub received_low : s.stats.received_lsn_low ≡ position.1
  pub applied_high : s.stats.applied_lsn_high ≡ position.0
  pub applied_low : s.stats.applied_lsn_low ≡ position.1
  pub same_flag : s.stats.flag ≡ flag
  pub connected : s.repl_conn ≡ true
  pub running : s.replicating ≡ true

-- The replies that one step adds.
abbrev pub replies_added : Bool → ℕ → Answers → ℕ × ℕ → List Bytes
replies_added asked flag answers position =
    if asked && answers.connection_ok
    then acknowledgement flag answers.microseconds position ∷ []
    else []

-- A step that ends at `position`, and has answered if it was asked to.
pub record Follows (flag : ℕ) (asked : Bool) (answers : Answers) (position : ℕ × ℕ)
    (s t : PostgresqlReplicator) : Type 0 where
  pub at : IsAt flag position t
  pub replies : t.replies ≡ s.replies ++ replies_added asked flag answers position

pub send_Follows :
    (flag : ℕ) (answers : Answers) (position : ℕ × ℕ) (s : PostgresqlReplicator)
    → IsAt flag position s
    → Follows flag true answers position s (send_standby_status_update answers s)
unfolding send_standby_status_update
send_Follows flag answers position s h = record {
  at = ground arith;
  replies = ground (arith, append-nil s.replies);
}
