-- ===== src/Programs/Producer.antt =====
-- producer_azs/main.cpp: the start and the stream together.
use kafka_replication.Base.{
  ◌≡◌, sym, ap, ◌∙◌, inl, inr, Bool, true, ◌&&◌, List, arith, if◌then◌else◌, Bool-cases, All,
  not_replicating, ok, throw, >>=-eq-ok,
}
use kafka_replication.Base.Word.{IsByte}
use kafka_replication.Message.Parse.{Host}
use kafka_replication.Json.{JsonLib}
use kafka_replication.Replicator.{PostgresqlReplicator, Answers}
use kafka_replication.Replicator.Packets.{CopyData, read_loop, start_read_replication_messages}
use kafka_replication.Replicator.Refinement.{acknowledge, read_loop-acknowledge, row}
use kafka_replication.Replicator.Invariant.{read_loop-IsReplicator}
use kafka_replication.Replicator.Words.{IsReplicator}
use kafka_replication.Startup.{new_replicator}
use kafka_replication.Programs.{Surroundings, producer_run}
use kafka_replication.Startup.Fresh.{IsFresh, new_replicator-IsFresh}

module _ (host : Host) (json : JsonLib) (around : Surroundings) where
  -- A run that comes to its end has been started and has read.
  run_lem :
      (copied : List (CopyData × Answers)) (t : PostgresqlReplicator)
      → producer_run host json around copied ≡ ok t
      → (r : PostgresqlReplicator) × IsFresh r
        × (r.replicating ≡ true)
        × (r.repl_conn ≡ true)
        × (read_loop host json copied r ≡ ok t)
  unfolding producer_run start_read_replication_messages
  run_lem copied t e =
      let (s, started, e₁) =
        >>=-eq-ok
          (new_replicator around.pg around.getenv around.files around.create around.microseconds) _
          e in
      let r = s.replicator in
      let go = λ (b : Bool). if b then read_loop host json copied r else throw not_replicating in
      let fresh =
        new_replicator-IsFresh around.pg around.getenv around.files around.create
          around.microseconds s started in
      elim (Bool-cases (r.replicating && r.repl_conn)) [
        | inl both ↦ (r, fresh, ground (arith, both), ground (arith, both), sym (ap go both) ∙ e₁)
        | inr down ↦ cc (sym (ap go down) ∙ e₁)
      ]

  -- The producer as a whole: whatever its surroundings, as long as no exception and no undefined
  -- behaviour ends it, the replies that it has sent since the program started are those of the
  -- abstract acknowledger, one for one, from the position 0/0 on: what it read from the configuration
  -- file, it only asks the stream to start from.
  pub producer_run-acknowledge :
      (copied : List (CopyData × Answers)) (t : PostgresqlReplicator)
      → producer_run host json around copied ≡ ok t
      → t.replies ≡ acknowledge 0 copied (0, 0)
  producer_run-acknowledge copied t e =
      let (r, fresh, running, connected, looped) = run_lem copied t e in
      read_loop-acknowledge host json 0 copied (0, 0) r t
        (record {
          received_high = fresh.received_high;
          received_low = fresh.received_low;
          applied_high = fresh.applied_high;
          applied_low = fresh.applied_low;
          same_flag = fresh.same_flag;
          connected = connected;
          running = running;
        })
        looped
      ∙ rw fresh.replies

  -- And whatever bytes the server sends, its state is well formed at the end: positions of 32-bit
  -- words, a cache with one entry for each id and the relation with this id in it, and status
  -- updates on words of 32 bits.
  pub producer_run-IsReplicator :
      (copied : List (CopyData × Answers)) (t : PostgresqlReplicator)
      → All (λ (c : CopyData × Answers). All IsByte (row c.0)) copied
      → producer_run host json around copied ≡ ok t
      → IsReplicator t
  producer_run-IsReplicator copied t bytes e =
      let (r, fresh, running, connected, looped) = run_lem copied t e in
      read_loop-IsReplicator host json copied r t bytes
        (record {
          sent = record {
            restart_high = fresh.restart_high;
            restart_low = fresh.restart_low;
            applied_high = rw fresh.applied_high (omega arith);
            applied_low = rw fresh.applied_low (omega arith);
          };
          received_high = rw fresh.received_high (omega arith);
          received_low = rw fresh.received_low (omega arith);
          cache = rw fresh.relations tt;
          replies = rw fresh.replies tt;
        })
        looped
