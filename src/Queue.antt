-- ===== src/Queue.antt =====
-- consumer_bo/safe_queue.h: SafeQueue, between the thread that consumes and the one that writes. Each
-- operation holds the mutex from its test to its end, so that it is one step. Where its condition is
-- false the caller goes to sleep on a condition variable, until the other operation notifies it.
pub mod Order
use kafka_replication.Base.{
  ℕ, zero, suc, ◌+◌, ◌-◌, ◌*◌, ◌/◌, ◌%◌, ◌^◌, ◌≤◌, ◌<◌, bit_and, ◌≡◌, refl, sym, ap, ◌∙◌, subst,
  ◌≢◌, ◌↔◌, ◌⊎◌, inl, inr, Bool, true, false, ◌&&◌, ◌||◌, not, Option, none, some, List, [], ◌∷◌,
  ◌++◌, map, append-nil, append_assoc, arith, ltb, leb, ◌==◌, if◌then◌else◌, ltb→lt, lt→ltb, le→ltb,
  leb→le, le→leb, lt→leb, ==_iff, ==_self, ==_ne, Bool-cases, Option-cases, Bytes, codes, length,
  get_elem?, take, drop, replicate, All, length-append, length-drop, get_elem?-drop, drop-suc,
  drop-append, take-append, drop-append_at, get_elem?-lt, length-map, bytes_eq, bytes_eq_iff,
  bytes_eq_self, bytes_eq_ne, Error, buffer_underflow, string_underflow, not_null_terminated,
  bad_alloc, invalid_argument, out_of_range, logic_error, wal_too_short, config_path_not_set,
  not_replicating, read_failed, start_failed, Outcome, ok, throw, fault, ◌>>=◌, >>=-eq-ok,
  Outcome-cases,
}

pub record SafeQueue {ℓ} (T : Type ℓ) : Type ℓ where
  pub queue_to_save : List T
  pub max_queue_size : ℕ
  -- The condition variables: how many threads sleep in `push`, and how many in `pop`.
  pub cond_push : ℕ
  pub cond_pop : ℕ

abbrev pub new_queue {ℓ} : {T : Type ℓ} → ℕ → SafeQueue T
new_queue max_size = record {
  queue_to_save = [];
  max_queue_size = max_size;
  cond_push = 0;
  cond_pop = 0;
}

-- `notify_one` wakes one of the sleepers, if there is one.
abbrev pub notify_one : ℕ → ℕ
notify_one sleepers = sleepers - 1

-- `none` where the condition is false, so that the caller goes to sleep.
unfoldable pub push {ℓ} : {T : Type ℓ} → T → SafeQueue T → Option (SafeQueue T)
push x q =
    if ltb (length q.queue_to_save) q.max_queue_size
    then some
        (record q { queue_to_save = q.queue_to_save ++ x ∷ []; cond_pop = notify_one q.cond_pop })
    else none

abbrev pub take_front {ℓ} : {T : Type ℓ} → List T → SafeQueue T → Option (T × SafeQueue T)
take_front [] q = none
take_front (x ∷ xs) q =
    some (x, record q { queue_to_save = xs; cond_push = notify_one q.cond_push })

unfoldable pub pop {ℓ} : {T : Type ℓ} → SafeQueue T → Option (T × SafeQueue T)
pop q = take_front q.queue_to_save q

-- `cond_push_.wait` and `cond_pop_.wait` with a condition that is false.
abbrev pub wait_push {ℓ} : {T : Type ℓ} → SafeQueue T → SafeQueue T
wait_push q = record q { cond_push = q.cond_push + 1 }

abbrev pub wait_pop {ℓ} : {T : Type ℓ} → SafeQueue T → SafeQueue T
wait_pop q = record q { cond_pop = q.cond_pop + 1 }
