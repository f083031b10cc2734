-- ===== src/Replicator/Words.antt =====
-- producer_azs/postgresql_replicator.cpp: the state's words and cache, and what keeps them.
use kafka_replication.Base.{
  ℕ, zero, suc, ◌≤◌, ◌≡◌, refl, sym, subst, inl, inr, ◌&&◌, Option, none, some, List, [], ◌∷◌, ◌++◌,
  arith, Bool-cases, Bytes, length, take, drop, All,
}
use kafka_replication.Base.Word.{IsByte, IsU32}
use kafka_replication.Wire.{from_be}
use kafka_replication.Message.{
  ReplicationMessage, begin, relation, commit, insert, delete, update, truncate,
}
use kafka_replication.Message.Cache.{RelationCache, IsCache, cache_relation-IsCache}
use kafka_replication.Parser.Messages.{cached}
use kafka_replication.Replicator.{
  Stats, PostgresqlReplicator, Answers, status_update, restart_at_applied,
  send_standby_status_update,
}
use kafka_replication.Replicator.Packets.{received_at, apply_lsn}
use kafka_replication.Replicator.Frame.{SameStream}
use kafka_replication.Replicator.Acknowledge.{packet_lsn, IsStats}

cached-IsCache :
    (m : Option ReplicationMessage) (cache : RelationCache)
    → IsCache cache
    → IsCache (cached m cache)
cached-IsCache none cache h = h
cached-IsCache (some (begin _)) cache h = h
cached-IsCache (some (commit _)) cache h = h
cached-IsCache (some (relation r)) cache h = cache_relation-IsCache r cache h
cached-IsCache (some (insert _)) cache h = h
cached-IsCache (some (update _)) cache h = h
cached-IsCache (some (delete _)) cache h = h
cached-IsCache (some (truncate _)) cache h = h

from_be_bound : (bs : Bytes) → All IsByte bs → length bs ≤ 4 → IsU32 (from_be bs)
from_be_bound [] h k = omega arith
from_be_bound (a ∷ []) (ha, _) k = omega arith
from_be_bound (a ∷ b ∷ []) (ha, (hb, _)) k = omega arith
from_be_bound (a ∷ b ∷ c ∷ []) (ha, (hb, (hc, _))) k = omega arith
from_be_bound (a ∷ b ∷ c ∷ d ∷ []) (ha, (hb, (hc, (hd, _)))) k = omega arith
from_be_bound (a ∷ b ∷ c ∷ d ∷ e ∷ bs) h k = absurd (omega arith)

take_All : (n : ℕ) (bs : Bytes) → All IsByte bs → All IsByte (take n bs)
take_All zero bs h = tt
take_All (suc n) [] h = tt
take_All (suc n) (b ∷ bs) (h, hs) = (h, take_All n bs hs)

drop_All : (n : ℕ) (bs : Bytes) → All IsByte bs → All IsByte (drop n bs)
drop_All zero bs h = h
drop_All (suc n) [] h = tt
drop_All (suc n) (b ∷ bs) (h, hs) = drop_All n bs hs

length-take : (n : ℕ) (bs : Bytes) → length (take n bs) ≤ n
length-take zero bs = omega arith
length-take (suc n) [] = omega arith
length-take (suc n) (b ∷ bs) = omega (arith, length-take n bs)

word_at : (n : ℕ) (raw : Bytes) → All IsByte raw → IsU32 (from_be (take 4 (drop n raw)))
word_at n raw h = from_be_bound _ (take_All 4 _ (drop_All n raw h)) (length-take 4 _)

-- A status update on words of 32 bits.
pub record IsStatusUpdate (reply : Bytes) : Type 0 where
  pub microseconds : ℕ
  pub stats : Stats
  pub words : IsStats stats
  pub bytes : reply ≡ status_update microseconds stats

pub record IsReplicator (s : PostgresqlReplicator) : Type 0 where
  pub sent : IsStats s.stats
  pub received_high : IsU32 s.stats.received_lsn_high
  pub received_low : IsU32 s.stats.received_lsn_low
  pub cache : IsCache s.relations
  pub replies : All IsStatusUpdate s.replies

All-append :
    (xs ys : List Bytes)
    → All IsStatusUpdate xs
    → All IsStatusUpdate ys
    → All IsStatusUpdate (xs ++ ys)
All-append [] ys h k = k
All-append (x ∷ xs) ys (h, hs) k = (h, All-append xs ys hs k)

restart_lem : (s : Stats) → IsStats s → IsStats (restart_at_applied s)
restart_lem s h = record {
  restart_high = h.applied_high;
  restart_low = h.applied_low;
  applied_high = h.applied_high;
  applied_low = h.applied_low;
}

-- A status update keeps the invariant.
pub send_standby_status_update-IsReplicator :
    (answers : Answers) (s : PostgresqlReplicator)
    → IsReplicator s
    → IsReplicator (send_standby_status_update answers s)
unfolding send_standby_status_update
send_standby_status_update-IsReplicator answers s h =
    elim (Bool-cases (s.repl_conn && answers.connection_ok)) [
      | inl up ↦ rw up (record {
        sent = restart_lem s.stats h.sent;
        received_high = h.received_high;
        received_low = h.received_low;
        cache = h.cache;
        replies = All-append s.replies _ h.replies (
          record {
            microseconds = answers.microseconds;
            stats = restart_at_applied s.stats;
            words = restart_lem s.stats h.sent;
            bytes = refl;
          },
          tt,
        );
      })
      | inr down ↦ rw down h
    ]

pub apply_lsn-IsReplicator :
    (answers : Answers) (s : PostgresqlReplicator)
    → IsReplicator s
    → IsReplicator (apply_lsn answers s)
unfolding apply_lsn
apply_lsn-IsReplicator answers s h = send_standby_status_update-IsReplicator answers _ (record {
  sent = record {
    restart_high = h.sent.restart_high;
    restart_low = h.sent.restart_low;
    applied_high = h.received_high;
    applied_low = h.received_low;
  };
  received_high = h.received_high;
  received_low = h.received_low;
  cache = h.cache;
  replies = h.replies;
})

pub SameStream-IsReplicator :
    (s t : PostgresqlReplicator) → SameStream s t → IsReplicator s → IsReplicator t
SameStream-IsReplicator s t same h = record {
  sent = subst IsStats (sym same.stats) h.sent;
  received_high = subst (λ (v : Stats). IsU32 v.received_lsn_high) (sym same.stats) h.received_high;
  received_low = subst (λ (v : Stats). IsU32 v.received_lsn_low) (sym same.stats) h.received_low;
  cache = subst IsCache (sym same.relations) h.cache;
  replies = subst (All IsStatusUpdate) (sym same.replies) h.replies;
}

pub received-IsReplicator :
    (raw : Bytes) (s : PostgresqlReplicator) (m : Option ReplicationMessage)
    → All IsByte raw
    → IsReplicator s
    → IsReplicator (record s {
      stats = received_at (packet_lsn raw).0 (packet_lsn raw).1 s.stats;
      relations = cached m s.relations;
    })
received-IsReplicator raw s m bytes h = record {
  sent = record {
    restart_high = h.sent.restart_high;
    restart_low = h.sent.restart_low;
    applied_high = h.sent.applied_high;
    applied_low = h.sent.applied_low;
  };
  received_high = word_at 9 raw bytes;
  received_low = word_at 13 raw bytes;
  cache = cached-IsCache m s.relations h.cache;
  replies = h.replies;
}
