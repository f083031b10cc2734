-- ===== src/Service/Threads/Order.antt =====
-- Every interleaving of the two threads does what one thread would do that handles the messages one
-- after the other.
use kafka_replication.Base.{
  ◌≡◌, refl, sym, ap, ◌∙◌, List, [], ◌∷◌, ◌++◌, append-nil, append_assoc, ok, ◌>>=◌,
}
use kafka_replication.Json.{JsonLib}
use kafka_replication.Queue.Order.{push_cases, pop_cases}
use kafka_replication.Consumer.{JsonReader, Consumed, start_consuming}
use kafka_replication.Consumer.Callback.{replication_callbacks}
use kafka_replication.Consumer.Messages.{consume_all}
use kafka_replication.Writer.{JsonPrinter, Server}
use kafka_replication.Service.{write_all}
use kafka_replication.Service.Threads.{
  IsDone, Threads, Step, consume, hand_over, sleep_push, take_out, sleep_pop, write, Reach, here,
  next,
}
use kafka_replication.Service.Threads.Rounds.{
  Messages, start_consuming_pending, consume_all_snoc, write_all_snoc,
}

module _ (json : JsonLib) (reader : JsonReader json) (printer : JsonPrinter json)
    (server : Server) where
  open json use {Value}

  -- What the threads have done from `s` to `t` is what one thread would have done: it has handled
  -- the answers read so far, written the messages of `written`, and has the rest in hand.
  pub record IsSequential (s t : Threads Value) : Type 0 where
    pub answers : List Consumed
    pub written : Messages json reader
    pub read : answers ++ t.input ≡ s.input
    pub consumed :
        consume_all json reader (replication_callbacks json reader) answers s.consumer []
        ≡ ok (t.consumer, written ++ (t.in_hand ++ (t.queue.queue_to_save ++ t.pending)))
    pub saved : write_all json reader printer server written s.writer ≡ ok t.writer

  step_lem :
      (s t : Threads Value) {u : Threads Value}
      → IsSequential s t
      → Step json reader printer server t u
      → IsSequential s u
  step_lem s t seq (consume {x} {xs} {c} {ms} runs none_left front e) = record {
    answers = seq.answers ++ x ∷ [];
    written = seq.written;
    read =
        append_assoc seq.answers (x ∷ []) xs
        ∙ ap (λ rest. seq.answers ++ rest) (sym front)
        ∙ seq.read;
    consumed =
        consume_all_snoc json reader seq.answers x s.consumer []
        ∙ ap
            (λ r. r >>= λ (c', ms').
              start_consuming json reader (replication_callbacks json reader) x c' ms')
            seq.consumed
        ∙ start_consuming_pending json reader x t.consumer
            (seq.written ++ (t.in_hand ++ (t.queue.queue_to_save ++ t.pending)))
        ∙ rw (e, none_left, append-nil, append_assoc, append_assoc);
    saved = seq.saved;
  }
  step_lem s t seq (hand_over {m} {ms} {q} awake front e) =
      let (put, _, _) = push_cases m t.queue q e in
      record {
        answers = seq.answers;
        written = seq.written;
        read = seq.read;
        consumed = seq.consumed ∙ rw (put, front, append_assoc);
        saved = seq.saved;
      }
  step_lem s t seq (sleep_push awake front e) = record {
    answers = seq.answers;
    written = seq.written;
    read = seq.read;
    consumed = seq.consumed;
    saved = seq.saved;
  }
  step_lem s t seq (take_out {m} {q} runs awake none_there e) =
      let (front, _) = pop_cases m t.queue q e in
      record {
        answers = seq.answers;
        written = seq.written;
        read = seq.read;
        consumed = seq.consumed ∙ rw (none_there, front);
        saved = seq.saved;
      }
  step_lem s t seq (sleep_pop runs awake none_there e) = record {
    answers = seq.answers;
    written = seq.written;
    read = seq.read;
    consumed = seq.consumed;
    saved = seq.saved;
  }
  step_lem s t seq (write {m} {ms} {w} {result} front e) = record {
    answers = seq.answers;
    written = seq.written ++ m ∷ [];
    read = seq.read;
    consumed = seq.consumed ∙ rw (front, append_assoc);
    saved = write_all_snoc json reader printer server seq.written m s.writer ∙ rw (seq.saved, e);
  }

  -- Whatever the order in which the two threads take their steps, from an empty queue: what has been
  -- done is what one thread would have done that reads the answers of the broker one after the other
  -- and writes their messages one after the other. No message is lost, doubled or overtaken: those
  -- that are built and not yet written are in the writing thread's hands, in the queue and in the
  -- consuming thread's hands.
  pub threads-IsSequential :
      (s : Threads Value) {t : Threads Value}
      → s.queue.queue_to_save ≡ []
      → s.pending ≡ []
      → s.in_hand ≡ []
      → Reach json reader printer server s t
      → IsSequential s t
  unfolding consume_all write_all
  threads-IsSequential s empty idle none_there here = record {
    answers = [];
    written = [];
    read = refl;
    consumed = rw (empty, idle, none_there);
    saved = refl;
  }
  threads-IsSequential s empty idle none_there (next {t} steps step) =
      step_lem s t (threads-IsSequential s empty idle none_there steps) step

  pub done_lem :
      (s t : Threads Value)
      → IsSequential s t
      → IsDone t
      → (written : Messages json reader) × (consume_all json reader
            (replication_callbacks json reader)
            s.input
            s.consumer
            []
          ≡ ok (t.consumer, written))
        × (write_all json reader printer server written s.writer ≡ ok t.writer)
  done_lem s t seq done =
      let all : seq.answers ≡ s.input =
        sym (append-nil seq.answers)
        ∙ ap (λ rest. seq.answers ++ rest) (sym done.silent)
        ∙ seq.read in
      (
        seq.written,
        ap (λ xs. consume_all json reader (replication_callbacks json reader) xs s.consumer [])
              (sym all)
            ∙ seq.consumed
            ∙ rw (done.empty, done.idle, done.none_in_hand, append-nil),
        seq.saved,
      )
