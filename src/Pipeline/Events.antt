-- ===== src/Pipeline/Events.antt =====
-- The stream as PostgreSQL writes it: the BEGIN and COMMIT of transactions, the RELATION messages
-- that announce tables, and the rows that are inserted and deleted (producer_azs/readme, section
-- 53.9).
use kafka_replication.Base.{ℕ, ◌^◌, ◌<◌, List, [], ◌∷◌, ◌++◌, Bytes, length, All}
use kafka_replication.Base.Word.{IsU64}
use kafka_replication.Message.{CommitMessage, RelationMessage}
use kafka_replication.Message.Cache.{RelationCache, cache_relation}
use kafka_replication.Message.Parse.Encoding.{
  encode_begin, encode_commit, encode_relation, IsRelation,
}
use kafka_replication.Replicator.{Answers}
use kafka_replication.Replicator.Packets.{CopyData, copy_row}
use kafka_replication.Replicator.Delivery.{IsPrefixOf24}
use kafka_replication.Pipeline.Rows.{Change, copied, IsWritten, IsFit}

pub data Event : Type 0 where
  begins : Bytes → ℕ → ℕ → ℕ → Answers → Event
  commits : Bytes → CommitMessage → Answers → Event
  announces : Bytes → RelationMessage → Answers → Event
  changes : Change → Event

-- What the connection yields for an event.
abbrev pub packet_of : Bytes → Bytes → Answers → CopyData × Answers
packet_of prefix message answers = (copy_row b'w' (prefix ++ message), answers)

abbrev pub yields : Event → CopyData × Answers
yields (begins prefix lsn timestamp xid answers) =
    packet_of prefix (b'B' ∷ encode_begin lsn timestamp xid) answers
yields (commits prefix m answers) = packet_of prefix (b'C' ∷ encode_commit m) answers
yields (announces prefix r answers) = packet_of prefix (b'R' ∷ encode_relation r) answers
yields (changes c) = copied c

-- The relations that are known behind an event.
abbrev pub known_after : Event → RelationCache → RelationCache
known_after (begins prefix lsn timestamp xid answers) cache = cache
known_after (commits prefix m answers) cache = cache
known_after (announces prefix r answers) cache = cache_relation r cache
known_after (changes c) cache = cache

abbrev pub change_of : Event → List Change
change_of (begins prefix lsn timestamp xid answers) = []
change_of (commits prefix m answers) = []
change_of (announces prefix r answers) = []
change_of (changes c) = c ∷ []

abbrev pub changes_of : List Event → List Change
changes_of [] = []
changes_of (e ∷ es) = change_of e ++ changes_of es

-- The server has written the event: numbers and texts fit their fields, and a row belongs to the
-- relation that was announced last under its id.
abbrev pub IsEvent : RelationCache → Event → Type 0
IsEvent cache (begins prefix lsn timestamp xid answers) =
    IsPrefixOf24 prefix × (IsU64 lsn × IsU64 timestamp)
IsEvent cache (commits prefix m answers) =
    IsPrefixOf24 prefix × (IsU64 m.lsn × (IsU64 m.end_lsn × IsU64 m.commit_timestamp))
IsEvent cache (announces prefix r answers) =
    IsPrefixOf24 prefix × (IsRelation r × (length (encode_relation r) < 2 ^ 64))
IsEvent cache (changes c) = IsWritten cache c

abbrev pub IsStream : RelationCache → List Event → Type 0
IsStream cache [] = Unit {0}
IsStream cache (e ∷ es) = IsEvent cache e × IsStream (known_after e cache) es

pub changes_of-IsFit :
    (cache : RelationCache) (es : List Event) → IsStream cache es → All IsFit (changes_of es)
changes_of-IsFit cache [] h = tt
changes_of-IsFit cache (begins prefix lsn timestamp xid answers ∷ es) (h, hs) =
    changes_of-IsFit cache es hs
changes_of-IsFit cache (commits prefix m answers ∷ es) (h, hs) = changes_of-IsFit cache es hs
changes_of-IsFit cache (announces prefix r answers ∷ es) (h, hs) =
    changes_of-IsFit (cache_relation r cache) es hs
changes_of-IsFit cache (changes c ∷ es) (h, hs) = (h.fit, changes_of-IsFit cache es hs)
