-- ===== src/Service/Threads/Progress.antt =====
-- consumer_bo/replication_consumer.h: the two threads neither block each other nor end.
use kafka_replication.Base.{
  ℕ, suc, ◌+◌, ◌*◌, ◌≤◌, ◌<◌, ◌≡◌, refl, sym, ap, ◌∙◌, subst, ◌≢◌, ◌⊎◌, inl, inr, true, some, List,
  [], ◌∷◌, arith, Option-cases, length, length-append, Outcome-cases, Bool-cases, none, ◌-◌, ◌==◌,
  Bool, false,
}
use kafka_replication.Json.{JsonLib}
use kafka_replication.Queue.{SafeQueue, push, pop, wait_push, wait_pop}
use kafka_replication.Queue.Order.{
  push_cases, pop_cases, push_wakes, pop_wakes, push_waits, pop_waits,
}
use kafka_replication.Consumer.{JsonReader, ConsumerMessage, Consumed, start_consuming}
use kafka_replication.Consumer.Callback.{replication_callbacks}
use kafka_replication.Writer.{JsonPrinter, Server}
use kafka_replication.Writer.Rows.{handler_incoming_data}
use kafka_replication.Service.Drain.{handler_incoming_data-Keeps}
use kafka_replication.Service.Threads.{
  Threads, IsDone, Step, consume, hand_over, sleep_push, take_out, sleep_pop, write, Dies,
  consumer_dies, writer_dies, Reach, here, next,
}
use kafka_replication.Service.Threads.Rounds.{Messages, start_consuming_one}

-- Who sleeps in the queue: one thread at most on each condition variable, in a pop only as long as
-- the queue is empty, and in a push only as long as it is full.
pub record IsWoken {T : Type 0} (q : SafeQueue T) : Type 0 where
  pub one_push : q.cond_push ≤ 1
  pub one_pop : q.cond_pop ≤ 1
  pub full : 1 ≤ q.cond_push → q.max_queue_size ≤ length q.queue_to_save
  pub empty : 1 ≤ q.cond_pop → q.queue_to_save ≡ []

Nat-cases : (n : ℕ) → (n ≡ 0) ⊎ (1 ≤ n)
Nat-cases n = elim (Bool-cases (n == 0)) [
  | inl zero_there ↦ inl (ground (arith, zero_there))
  | inr more ↦ inr (ground (arith, more))
]

module _ {T : Type 0} where
  push-IsWoken :
      (x : T) (q r : SafeQueue T) → q.cond_push ≡ 0 → push x q ≡ some r → IsWoken q → IsWoken r
  push-IsWoken x q r awake e h =
      let (pop_side, push_side) = push_wakes x q r e in
      record {
        one_push = omega (arith, push_side, h.one_push);
        one_pop = omega (arith, pop_side, h.one_pop);
        full = λ sleeps. absurd (omega (arith, push_side, awake, sleeps));
        empty = λ sleeps. absurd (omega (arith, pop_side, h.one_pop, sleeps));
      }

  pop-IsWoken :
      (x : T) (q r : SafeQueue T) → q.cond_pop ≡ 0 → pop q ≡ some (x, r) → IsWoken q → IsWoken r
  pop-IsWoken x q r awake e h =
      let (push_side, pop_side) = pop_wakes x q r e in
      record {
        one_push = omega (arith, push_side, h.one_push);
        one_pop = omega (arith, pop_side, h.one_pop);
        full = λ sleeps. absurd (omega (arith, push_side, h.one_push, sleeps));
        empty = λ sleeps. absurd (omega (arith, pop_side, awake, sleeps));
      }

  wait_push-IsWoken :
      (x : T) (q : SafeQueue T)
      → q.cond_push ≡ 0
      → push x q ≡ none
      → IsWoken q
      → IsWoken (wait_push q)
  wait_push-IsWoken x q awake e h = record {
    one_push = omega (arith, awake);
    one_pop = h.one_pop;
    full = λ sleeps. push_waits x q e;
    empty = h.empty;
  }

  wait_pop-IsWoken :
      (q : SafeQueue T) → q.cond_pop ≡ 0 → pop q ≡ none → IsWoken q → IsWoken (wait_pop q)
  wait_pop-IsWoken q awake e h = record {
    one_push = h.one_push;
    one_pop = omega (arith, awake);
    full = h.full;
    empty = λ sleeps. pop_waits q e;
  }

module _ (json : JsonLib) (reader : JsonReader json) (printer : JsonPrinter json)
    (server : Server) where
  open json use {Value}

  -- What is left to do: an answer is read, its message is pushed, popped and written, and each thread
  -- that is awake may go to sleep.
  abbrev pub work : Threads Value → ℕ
  work t =
      6 * length t.input
      + 5 * length t.pending
      + 3 * length t.queue.queue_to_save
      + length t.in_hand
      + (1 - t.queue.cond_push)
      + (1 - t.queue.cond_pop)

  abbrev pub steps : {s t : Threads Value} → Reach json reader printer server s t → ℕ
  steps here = 0
  steps (next before step) = suc (steps before)

  work_decreases : {t u : Threads Value} → Step json reader printer server t u → work u < work t
  work_decreases {t} (consume {x} {xs} {c} {ms} runs idle front e) =
      let (one, _) = start_consuming_one json reader x t.consumer c ms e in
      omega (arith, one, ap length idle, ap length front)
  work_decreases {t} (hand_over {m} {ms} {q} awake front e) =
      let (put, _, _) = push_cases m t.queue q e in
      omega (
        arith,
        ap length put,
        length-append t.queue.queue_to_save (m ∷ []),
        ap length front,
        (push_wakes m t.queue q e).1,
      )
  work_decreases {t} (sleep_push awake front e) = omega (arith, awake)
  work_decreases {t} (take_out {m} {q} runs awake none_there e) =
      let (front, _) = pop_cases m t.queue q e in
      omega (arith, ap length front, ap length none_there, (pop_wakes m t.queue q e).1)
  work_decreases {t} (sleep_pop runs awake none_there e) = omega (arith, awake)
  work_decreases {t} (write {m} {ms} {w} {result} front e) = omega (arith, ap length front)

  -- The threads take no more steps than six for each answer of the broker, those for what is already
  -- in hand, and two: they do not run on by themselves.
  pub steps_bounded :
      {s t : Threads Value} (run : Reach json reader printer server s t)
      → steps run + work t ≤ work s
  steps_bounded here = omega arith
  steps_bounded (next before step) = omega (arith, steps_bounded before, work_decreases step)

  -- Both loops go on, the queue is made for a message at least, and nobody sleeps without a reason.
  pub record IsRunning (t : Threads Value) : Type 0 where
    pub consumes : t.consumer.running ≡ true
    pub writes : t.writer.running ≡ true
    pub has_room : t.queue.max_queue_size ≢ 0
    pub woken : IsWoken t.queue

  running_step :
      {t u : Threads Value} → Step json reader printer server t u → IsRunning t → IsRunning u
  running_step {t} (consume {x} {xs} {c} {ms} runs idle front e) h =
      let (_, same) = start_consuming_one json reader x t.consumer c ms e in
      record { consumes = same ∙ runs; writes = h.writes; has_room = h.has_room; woken = h.woken }
  running_step {t} (hand_over {m} {ms} {q} awake front e) h =
      let (_, same, _) = push_cases m t.queue q e in
      record {
        consumes = h.consumes;
        writes = h.writes;
        has_room = subst (λ n. n ≢ 0) (sym same) h.has_room;
        woken = push-IsWoken m t.queue q awake e h.woken;
      }
  running_step {t} (sleep_push {m} awake front e) h = record {
    consumes = h.consumes;
    writes = h.writes;
    has_room = h.has_room;
    woken = wait_push-IsWoken m t.queue awake e h.woken;
  }
  running_step {t} (take_out {m} {q} runs awake none_there e) h =
      let (_, same) = pop_cases m t.queue q e in
      record {
        consumes = h.consumes;
        writes = h.writes;
        has_room = subst (λ n. n ≢ 0) (sym same) h.has_room;
        woken = pop-IsWoken m t.queue q awake e h.woken;
      }
  running_step {t} (sleep_pop runs awake none_there e) h = record {
    consumes = h.consumes;
    writes = h.writes;
    has_room = h.has_room;
    woken = wait_pop-IsWoken t.queue awake e h.woken;
  }
  running_step {t} (write {m} {ms} {w} {result} front e) h = record {
    consumes = h.consumes;
    has_room = h.has_room;
    woken = h.woken;
    writes =
        handler_incoming_data-Keeps json reader printer server true m t.writer h.writes w result e;
  }

  pub threads_run_on :
      {s t : Threads Value} → Reach json reader printer server s t → IsRunning s → IsRunning t
  threads_run_on here h = h
  threads_run_on (next before step) h = running_step step (threads_run_on before h)

  -- Whether a step does more than to go to sleep.
  abbrev pub acts : {t u : Threads Value} → Step json reader printer server t u → Bool
  acts (consume runs idle front e) = true
  acts (hand_over awake front e) = true
  acts (sleep_push awake front e) = false
  acts (take_out runs awake none_there e) = true
  acts (sleep_pop runs awake none_there e) = false
  acts (write front e) = true

  -- What comes after a state.
  pub data Continues (t : Threads Value) : Type 0 where
    steps_on :
        {u : Threads Value} (step : Step json reader printer server t u)
        → acts step ≡ true
        → Continues t
    waits : IsDone t → Continues t
    dies : Dies json reader printer server t → Continues t

  writing-Continues :
      (t : Threads Value) (m : ConsumerMessage Value) (ms : Messages json reader)
      → t.in_hand ≡ m ∷ ms
      → Continues t
  writing-Continues t m ms front =
      elim (Outcome-cases (handler_incoming_data json reader printer server m t.writer)) [
        | inl ((w, result), e) ↦ steps_on (write {w = w} {result = result} front e) refl
        | inr ends ↦ dies (writer_dies front ends)
      ]

  taking-Continues :
      (t : Threads Value) (m : ConsumerMessage Value) (ms : Messages json reader)
      → IsRunning t
      → t.in_hand ≡ []
      → t.queue.queue_to_save ≡ m ∷ ms
      → Continues t
  taking-Continues t m ms h none_there front = elim (Option-cases (pop t.queue)) [
    | inl nothing ↦ cc (sym front ∙ pop_waits t.queue nothing)
    | inr ((m', q), e) ↦ elim (Nat-cases t.queue.cond_pop) [
      | inl awake ↦ steps_on (take_out {m = m'} {q = q} h.writes awake none_there e) refl
      | inr sleeps ↦ cc (sym front ∙ h.woken.empty sleeps)
    ]
  ]

  handing-Continues :
      (t : Threads Value) (m : ConsumerMessage Value) (ms : Messages json reader)
      → IsRunning t
      → t.in_hand ≡ []
      → t.queue.queue_to_save ≡ []
      → t.pending ≡ m ∷ ms
      → Continues t
  handing-Continues t m ms h none_there empty front = elim (Option-cases (push m t.queue)) [
    | inr (q, e) ↦ elim (Nat-cases t.queue.cond_push) [
      | inl awake ↦ steps_on (hand_over awake front e) refl
      | inr sleeps ↦ absurd (h.has_room (omega (arith, h.woken.full sleeps, ap length empty)))
    ]
    | inl full ↦ absurd (h.has_room (omega (arith, push_waits m t.queue full, ap length empty)))
  ]

  reading-Continues :
      (t : Threads Value) (x : Consumed) (xs : List Consumed)
      → t.consumer.running ≡ true
      → t.pending ≡ []
      → t.input ≡ x ∷ xs
      → Continues t
  reading-Continues t x xs runs idle front =
      elim (Outcome-cases
        (start_consuming json reader (replication_callbacks json reader) x t.consumer [])) [
          | inl ((c, ms), e) ↦
              steps_on (consume {x = x} {xs = xs} {c = c} {ms = ms} runs idle front e) refl
          | inr ends ↦ dies (consumer_dies {x = x} {xs = xs} runs idle front ends)
        ]

  -- The two threads never block each other, and no notification is missed: from running threads on a
  -- queue that has room for a message and in which nobody sleeps without a reason, whatever they have
  -- done, one of them can read, push, pop or write; or the broker is silent and nothing is in hand,
  -- so that both wait for the next message; or what a thread does next throws or is undefined, which
  -- ends the process.
  pub threads_continue :
      {s t : Threads Value} → IsRunning s → Reach json reader printer server s t → Continues t
  threads_continue {s} {t} running run =
      go t.in_hand t.queue.queue_to_save t.pending t.input refl refl refl refl
    where
      h : IsRunning t
      h = threads_run_on run running

      go :
          (ws qs ms : Messages json reader) (xs : List Consumed)
          → t.in_hand ≡ ws
          → t.queue.queue_to_save ≡ qs
          → t.pending ≡ ms
          → t.input ≡ xs
          → Continues t
      go (w ∷ ws) qs ms xs e e₁ e₂ e₃ = writing-Continues t w ws e
      go [] (q ∷ qs) ms xs e e₁ e₂ e₃ = taking-Continues t q qs h e e₁
      go [] [] (m ∷ ms) xs e e₁ e₂ e₃ = handing-Continues t m ms h e e₁ e₂
      go [] [] [] (x ∷ xs) e e₁ e₂ e₃ = reading-Continues t x xs h.consumes e₂ e₃
      go [] [] [] [] e e₁ e₂ e₃ =
          waits (record { silent = e₃; idle = e₂; empty = e₁; none_in_hand = e })
