-- ===== src/Queue/Order.antt =====
-- Every interleaving of pushes and pops.
use kafka_replication.Base.{
  ◌≤◌, ◌<◌, ◌≡◌, refl, ap, ◌∙◌, inl, inr, none, some, List, [], ◌∷◌, ◌++◌, append-nil, append_assoc,
  arith, ltb, ltb→lt, Bool-cases, length, length-append, subst,
}
use kafka_replication.Queue.{SafeQueue, push, pop, take_front, notify_one}

-- The calls that have returned, oldest first.
pub data Call {ℓ} (T : Type ℓ) : Type ℓ where
  pushed popped : T → Call T

pub data Runs {ℓ} {T : Type ℓ} : SafeQueue T → List (Call T) → SafeQueue T → Type ℓ where
  idle : {q : SafeQueue T} → Runs q [] q
  pushes :
      {q r s : SafeQueue T} {cs : List (Call T)} (x : T)
      → push x q ≡ some r
      → Runs r cs s
      → Runs q (pushed x ∷ cs) s
  pops :
      {q r s : SafeQueue T} {cs : List (Call T)} (x : T)
      → pop q ≡ some (x, r)
      → Runs r cs s
      → Runs q (popped x ∷ cs) s

abbrev pub all_pushed {ℓ} : {T : Type ℓ} → List (Call T) → List T
all_pushed [] = []
all_pushed (pushed x ∷ cs) = x ∷ all_pushed cs
all_pushed (popped x ∷ cs) = all_pushed cs

abbrev pub all_popped {ℓ} : {T : Type ℓ} → List (Call T) → List T
all_popped [] = []
all_popped (pushed x ∷ cs) = all_popped cs
all_popped (popped x ∷ cs) = x ∷ all_popped cs

module _ {ℓ} {T : Type ℓ} where
  pub push_cases :
      (x : T) (q r : SafeQueue T)
      → push x q ≡ some r
      → (r.queue_to_save ≡ q.queue_to_save ++ x ∷ [])
        × (r.max_queue_size ≡ q.max_queue_size)
        × (length q.queue_to_save < q.max_queue_size)
  unfolding push
  push_cases x q r e = elim (Bool-cases (ltb (length q.queue_to_save) q.max_queue_size)) [
    | inl room ↦
        let same : r ≡ record q {
          queue_to_save = q.queue_to_save ++ x ∷ [];
          cond_pop = notify_one q.cond_pop;
        } =
          cc (rw room at e) in
        rw same (refl, refl, ltb→lt _ _ room)
    | inr full ↦ cc (rw full at e)
  ]

  pub pop_cases :
      (x : T) (q r : SafeQueue T)
      → pop q ≡ some (x, r)
      → (q.queue_to_save ≡ x ∷ r.queue_to_save) × (r.max_queue_size ≡ q.max_queue_size)
  unfolding pop
  pop_cases x q r e = front q.queue_to_save refl e
    where
      front :
          (xs : List T)
          → q.queue_to_save ≡ xs
          → take_front xs q ≡ some (x, r)
          → (q.queue_to_save ≡ x ∷ r.queue_to_save) × (r.max_queue_size ≡ q.max_queue_size)
      front [] same e' = cc
      front (y ∷ ys) same e' = ground (arith, same, e')

  pub push_wakes :
      (x : T) (q r : SafeQueue T)
      → push x q ≡ some r
      → (r.cond_pop ≡ notify_one q.cond_pop) × (r.cond_push ≡ q.cond_push)
  unfolding push
  push_wakes x q r e = elim (Bool-cases (ltb (length q.queue_to_save) q.max_queue_size)) [
    | inl room ↦
        let same : r ≡ record q {
          queue_to_save = q.queue_to_save ++ x ∷ [];
          cond_pop = notify_one q.cond_pop;
        } =
          cc (rw room at e) in
        rw same (refl, refl)
    | inr full ↦ cc (rw full at e)
  ]

  pub pop_wakes :
      (x : T) (q r : SafeQueue T)
      → pop q ≡ some (x, r)
      → (r.cond_push ≡ notify_one q.cond_push) × (r.cond_pop ≡ q.cond_pop)
  unfolding pop
  pop_wakes x q r e = front q.queue_to_save e
    where
      front :
          (xs : List T)
          → take_front xs q ≡ some (x, r)
          → (r.cond_push ≡ notify_one q.cond_push) × (r.cond_pop ≡ q.cond_pop)
      front [] e' = cc
      front (y ∷ ys) e' =
          let same : record q { queue_to_save = ys; cond_push = notify_one q.cond_push } ≡ r = cc in
          subst
            (λ (t : SafeQueue T).
              (t.cond_push ≡ notify_one q.cond_push) × (t.cond_pop ≡ q.cond_pop))
            same (refl, refl)

  -- A push waits on a full queue, a pop on an empty one.
  pub push_waits :
      (x : T) (q : SafeQueue T) → push x q ≡ none → q.max_queue_size ≤ length q.queue_to_save
  unfolding push
  push_waits x q e = elim (Bool-cases (ltb (length q.queue_to_save) q.max_queue_size)) [
    | inl room ↦ cc (rw room at e)
    | inr full ↦ ground (arith, full)
  ]

  pub pop_waits : (q : SafeQueue T) → pop q ≡ none → q.queue_to_save ≡ []
  unfolding pop
  pop_waits q e = empty q.queue_to_save refl e
    where
      empty : (xs : List T) → q.queue_to_save ≡ xs → take_front xs q ≡ none → q.queue_to_save ≡ []
      empty [] same wait = same
      empty (y ∷ ys) same wait = cc

  -- In every interleaving the queue hands out what was put in, first in, first out: what has been
  -- popped, followed by what is left, is what was there, followed by what has been pushed.
  pub first_in_first_out :
      {q s : SafeQueue T} {cs : List (Call T)}
      → Runs q cs s
      → all_popped cs ++ s.queue_to_save ≡ q.queue_to_save ++ all_pushed cs
  first_in_first_out (idle {q}) = rw append-nil
  first_in_first_out {q} {s} (pushes {r} {cs} x e runs) =
      let (put, _, _) = push_cases x q r e in first_in_first_out runs ∙ rw (put, append_assoc)
  first_in_first_out {q} {s} (pops {r} {cs} x e runs) =
      let (front, _) = pop_cases x q r e in rw front (ap (λ xs. x ∷ xs) (first_in_first_out runs))

  -- The queue never holds more than its bound, if it does not to begin with.
  pub stays_bounded :
      {q s : SafeQueue T} {cs : List (Call T)}
      → Runs q cs s
      → length q.queue_to_save ≤ q.max_queue_size
      → (length s.queue_to_save ≤ s.max_queue_size) × (s.max_queue_size ≡ q.max_queue_size)
  stays_bounded idle h = (h, refl)
  stays_bounded {q} {s} (pushes {r} {cs} x e runs) h =
      let (put, same, room) = push_cases x q r e in
      let (bound, more) =
        stays_bounded runs
          (omega (arith, ap length put, length-append q.queue_to_save (x ∷ []), same, room)) in
      (bound, more ∙ same)
  stays_bounded {q} {s} (pops {r} {cs} x e runs) h =
      let (front, same) = pop_cases x q r e in
      let (bound, more) = stays_bounded runs (omega (arith, ap length front, same, h)) in
      (bound, more ∙ same)
