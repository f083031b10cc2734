-- ===== src/Replicator/Refinement.antt =====
-- The stream of status updates refines an abstract acknowledger, which knows one position only.
use kafka_replication.Base.{
  ℕ, ◌+◌, ◌≤◌, ◌≡◌, refl, sym, ap, ◌∙◌, subst, ◌≢◌, inl, inr, Bool, true, false, ◌&&◌, ◌||◌, not,
  List, [], ◌∷◌, ◌++◌, append-nil, append_assoc, arith, ltb, ◌==◌, if◌then◌else◌, le→leb,
  Bool-cases, Bytes, length, drop, Error, Outcome, ok, throw, fault, ◌>>=◌, >>=-eq-ok,
}
use kafka_replication.Wire.{memcpy}
use kafka_replication.Message.Parse.{Host}
use kafka_replication.Json.{JsonLib}
use kafka_replication.Parser.{Parsed, parse_message}
use kafka_replication.Parser.Messages.{parse_message-ne-throw}
use kafka_replication.Replicator.{PostgresqlReplicator, Answers, send_standby_status_update}
use kafka_replication.Replicator.Handlers.{handle_message}
use kafka_replication.Replicator.Frame.{SameStream, Keeps, handle_message-Keeps}
use kafka_replication.Replicator.Packets.{
  receive_lsn, apply_lsn, wal_message, packet_switch, catch_packet, parse_packet, received_at,
  applied_at_received, CopyData, copy_done, copy_error, copy_nothing, copy_row, read_step,
  read_loop, process_replication_message,
}
use kafka_replication.Replicator.Acknowledge.{
  packet_lsn, IsAt, replies_added, Follows, send_Follows,
}

-- The abstract acknowledger: a WAL packet of full length moves the position; it, a keepalive and
-- the end of the copy ask for an answer.
abbrev pub is_wal : CopyData → Bool
is_wal (copy_row b bs) = (b == b'w') && not (ltb (length (b ∷ bs)) 25)
is_wal _ = false

abbrev pub is_keepalive : CopyData → Bool
is_keepalive (copy_row b bs) = b == b'k'
is_keepalive copy_done = true
is_keepalive _ = false

abbrev pub row : CopyData → Bytes
row (copy_row b bs) = b ∷ bs
row _ = []

abbrev pub position_after : CopyData → ℕ × ℕ → ℕ × ℕ
position_after copied position = if is_wal copied then packet_lsn (row copied) else position

abbrev pub asks : CopyData → Bool
asks copied = is_wal copied || is_keepalive copied

pub acknowledge : ℕ → List (CopyData × Answers) → ℕ × ℕ → List Bytes
acknowledge flag [] position = []
acknowledge flag ((copied, answers) ∷ rest) position =
    replies_added (asks copied) flag answers (position_after copied position)
    ++ acknowledge flag rest (position_after copied position)

pub receive_lsn_lem :
    (raw : Bytes) (s : PostgresqlReplicator)
    → 25 ≤ length raw
    → receive_lsn raw s
      ≡ ok (record s { stats = received_at (packet_lsn raw).0 (packet_lsn raw).1 s.stats })
unfolding receive_lsn memcpy
receive_lsn_lem raw s h =
    rw (le→leb (9 + 4) (length raw) (omega arith), le→leb (13 + 4) (length raw) (omega arith))

module _ (host : Host) (json : JsonLib) (flag : ℕ) where
  applied_Follows :
      (answers : Answers) (position : ℕ × ℕ) (s u v : PostgresqlReplicator)
      → IsAt flag position s
      → (h l : ℕ) → u.stats ≡ received_at h l s.stats
      → u.replies ≡ s.replies
      → u.repl_conn ≡ s.repl_conn
      → u.replicating ≡ s.replicating
      → SameStream u v
      → Follows flag true answers (h, l) s (apply_lsn answers v)
  unfolding apply_lsn
  applied_Follows answers position s u v at h l e₁ e₂ e₃ e₄ same =
      let moved : PostgresqlReplicator = record v { stats = applied_at_received v.stats } in
      let here : IsAt flag (h, l) moved = ground (arith, at, same) in
      let sent = send_Follows flag answers (h, l) moved here in
      record { at = sent.at; replies = ground (arith, sent.replies, same) }

  wal_Follows :
      (answers : Answers) (raw : Bytes) (position : ℕ × ℕ) (s t : PostgresqlReplicator)
      → IsAt flag position s
      → 25 ≤ length raw
      → wal_message host json answers raw s ≡ ok t
      → Follows flag true answers (packet_lsn raw) s t
  unfolding wal_message
  wal_Follows answers raw position s t at size e =
      let (h, l) = packet_lsn raw in
      let u : PostgresqlReplicator = record s { stats = received_at h l s.stats } in
      let e₁ = rw (receive_lsn_lem raw s size) at e in
      let ((m, relations), _, e₂) = >>=-eq-ok (parse_message host u.relations (drop 25 raw)) _ e₁ in
      let w : PostgresqlReplicator = record u { relations = relations } in
      let (v, e₃, e₄) = >>=-eq-ok (handle_message json m answers w) _ e₂ in
      let same : SameStream w v = subst (Keeps w) e₃ (handle_message-Keeps json m answers w) in
      let done : apply_lsn answers v ≡ t = cc (e₄) in
      subst (Follows flag true answers (h, l) s) done
        (applied_Follows answers position s w v at h l refl refl refl refl same)

  wal-ne-throw :
      (answers : Answers) (raw : Bytes) (s : PostgresqlReplicator) (x : Error)
      → 25 ≤ length raw
      → wal_message host json answers raw s ≢ throw x
  unfolding wal_message
  wal-ne-throw answers raw s x size e =
      after (parse_message host s.relations (drop 25 raw))
        (parse_message-ne-throw host s.relations (drop 25 raw))
        (rw (receive_lsn_lem raw s size) at e)
    where
      u : PostgresqlReplicator
      u = record s { stats = received_at (packet_lsn raw).0 (packet_lsn raw).1 s.stats }

      handled :
          (w : PostgresqlReplicator) (r : Outcome PostgresqlReplicator)
          → Keeps w r
          → (r >>= λ v. ok (apply_lsn answers v)) ≢ throw x
      handled w (ok v) k e' = cc
      handled w (throw y) k e' = k
      handled w fault k e' = cc

      after :
          (r : Outcome Parsed)
          → ((y : Error) → r ≢ throw y)
          → (r >>= λ (m, relations).
              handle_message json m answers (record u { relations = relations }) >>= λ v.
              ok (apply_lsn answers v))
            ≢ throw x
      after (ok (m, relations)) n =
          handled (record u { relations = relations }) _ (handle_message-Keeps json m answers _)
      after (throw y) n = absurd (n y refl)
      after fault n = λ e'. cc

  catch_packet-eq-ok :
      (s t : PostgresqlReplicator) (r : Outcome PostgresqlReplicator)
      → ((x : Error) → r ≢ throw x)
      → catch_packet s r ≡ ok t
      → r ≡ ok t
  unfolding catch_packet
  catch_packet-eq-ok s t (ok v) n e = e
  catch_packet-eq-ok s t (throw x) n e = absurd (n x refl)
  catch_packet-eq-ok s t fault n e = cc

  asked :
      (answers : Answers) (position : ℕ × ℕ) (s t : PostgresqlReplicator)
      → IsAt flag position s
      → ok (send_standby_status_update answers s) ≡ ok t
      → Follows flag true answers position s t
  asked answers position s t at e =
      let done : send_standby_status_update answers s ≡ t = cc (e) in
      subst (Follows flag true answers position s) done (send_Follows flag answers position s at)

  unmoved :
      (answers : Answers) (position : ℕ × ℕ) (s t : PostgresqlReplicator)
      → IsAt flag position s
      → ◌≡◌ {A = Outcome PostgresqlReplicator} (ok s) (ok t)
      → Follows flag false answers position s t
  unmoved answers position s t at e =
      let done : s ≡ t = cc (e) in
      subst (Follows flag false answers position s) done
        (record { at = at; replies = rw append-nil })

  step_rows :
      (b : ℕ) (bs : Bytes) (answers : Answers) (position : ℕ × ℕ) (s t : PostgresqlReplicator)
      → IsAt flag position s
      → parse_packet host json answers (b ∷ bs) s ≡ ok t
      → let copied = copy_row b bs in
        Follows flag (asks copied) answers (position_after copied position) s t
  unfolding parse_packet packet_switch catch_packet
  step_rows b bs answers position s t at e = elim (Bool-cases (b == b'w')) [
    | inl wal ↦
        let not_k : (b == b'k') ≡ false = ground arith in
        elim (Bool-cases (ltb (length (b ∷ bs)) 25)) [
          | inl short ↦
              rw (wal, short, not_k)
                (unmoved answers position s t at (rw (wal, short, catch_packet) at e))
          | inr long ↦
              let size : 25 ≤ length (b ∷ bs) = ground arith in
              rw (wal, long)
                (wal_Follows answers (b ∷ bs) position s t at size (
                  catch_packet-eq-ok s t _ (λ x. wal-ne-throw answers (b ∷ bs) s x size)
                    (rw (wal, long) at e)))
        ]
    | inr other ↦ elim (Bool-cases (b == b'k')) [
      | inl keepalive ↦
          rw (other, keepalive)
            (asked answers position s t at (rw (other, keepalive, catch_packet) at e))
      | inr neither ↦
          rw (other, neither)
            (unmoved answers position s t at (rw (other, neither, catch_packet) at e))
    ]
  ]

  read_step-Follows :
      (copied : CopyData) (answers : Answers) (position : ℕ × ℕ) (s t : PostgresqlReplicator)
      → IsAt flag position s
      → read_step host json copied answers s ≡ ok t
      → Follows flag (asks copied) answers (position_after copied position) s t
  unfolding read_step process_replication_message
  read_step-Follows copy_done answers position s t at e = asked answers position s t at e
  read_step-Follows copy_error answers position s t at e = cc
  read_step-Follows copy_nothing answers position s t at e = unmoved answers position s t at e
  read_step-Follows (copy_row b bs) answers position s t at e =
      step_rows b bs answers position s t at e

  -- From a state in which all is received and applied up to one position, and as long as no
  -- exception and no undefined behaviour ends the loop, the replies that it sends are those of the
  -- abstract acknowledger, one for one: each names the position of the last WAL packet of full
  -- length, or the first position, and nothing else of a packet plays a part.
  pub read_loop-acknowledge :
      (copied : List (CopyData × Answers)) (position : ℕ × ℕ) (s t : PostgresqlReplicator)
      → IsAt flag position s
      → read_loop host json copied s ≡ ok t
      → t.replies ≡ s.replies ++ acknowledge flag copied position
  unfolding read_loop acknowledge
  read_loop-acknowledge [] position s t at e = ground (arith, append-nil s.replies)
  read_loop-acknowledge ((c, answers) ∷ rest) position s t at e =
      let go = λ (b : Bool).
        if b then (read_step host json c answers s >>= read_loop host json rest) else ok s in
      let e₁ : go true ≡ ok t = ap go (sym at.running) ∙ e in
      let (u, e₂, e₃) = >>=-eq-ok (read_step host json c answers s) _ e₁ in
      let one = read_step-Follows c answers position s u at e₂ in
      let more = read_loop-acknowledge rest (position_after c position) u t one.at e₃ in
      more ∙ rw (one.replies, append_assoc)
