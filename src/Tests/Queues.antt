-- ===== src/Tests/Queues.antt =====
-- Two pushes and a pop on a queue of two places.
use kafka_replication.Base.{ℕ, ◌≤◌, ◌≡◌, refl, List, [], ◌∷◌, ◌++◌, arith, length}
use kafka_replication.Queue.{SafeQueue, push, pop}
use kafka_replication.Queue.Order.{
  Call, pushed, popped, Runs, idle, pushes, pops, all_popped, first_in_first_out, stays_bounded,
}

abbrev empty_queue : SafeQueue ℕ
empty_queue = record { queue_to_save = []; max_queue_size = 2; cond_push = 0; cond_pop = 0 }

abbrev left_over : SafeQueue ℕ
left_over = record { queue_to_save = 6 ∷ []; max_queue_size = 2; cond_push = 0; cond_pop = 0 }

abbrev calls : List (Call ℕ)
calls = pushed 5 ∷ pushed 6 ∷ popped 5 ∷ []

calls_run : Runs empty_queue calls left_over
unfolding push pop
calls_run = pushes 5 refl (pushes 6 refl (pops 5 refl idle))

first_in_first_out_example : all_popped calls ++ left_over.queue_to_save ≡ 5 ∷ 6 ∷ []
first_in_first_out_example = first_in_first_out calls_run

stays_bounded_example :
    (length left_over.queue_to_save ≤ left_over.max_queue_size)
    × (left_over.max_queue_size ≡ empty_queue.max_queue_size)
stays_bounded_example = stays_bounded calls_run (omega arith)
