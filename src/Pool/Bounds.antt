-- ===== src/Pool/Bounds.antt =====
-- What bounds the pool of internal/worker/pool.go on every interleaving.
use iot_api.Common.{
  ℕ, ◌+◌, ◌-◌, ◌≤◌, ◌<◌, ◌≡◌, refl, ap, inl, inr, Bool, true, false, List, [], ◌∷◌, ◌++◌, arith,
  if◌then◌else◌, ltb, length, length-append, In, In-append, ◌⊎◌, Bool-cases,
}
use iot_api.Common.Int.{ℤ}
use iot_api.Pool.{
  Pool, new_pool, start, enqueue, ready, submit, try_submit, worker_select, stop, Step, starts,
  submits, tries, selects, finishes, stops, Reach, here, next, or_drop, take_job,
}

ltb_lem : {a b : ℕ} → ltb a b ≡ true → a < b
ltb_lem h = ground arith

ltb-false : {a b : ℕ} → ltb a b ≡ false → b ≤ a
ltb-false h = ground arith

pub In-if :
    {A : Type 0} (b : Bool) (c x : A) → In c (if b then x ∷ [] else []) → (b ≡ true) × (c ≡ x)
In-if true c x (inl e) = (refl, e)
In-if true c x (inr i) = absurd i
In-if false c x i = absurd i

module _ {J : Type 0} where
  -- The queue is within its capacity, each running job has its worker, and there are no more
  -- workers than configured, and none before `Start`.
  pub record IsBounded (p : Pool J) : Type 0 where
    pub queue : length p.queue ≤ p.capacity
    pub running : length p.running ≤ p.alive
    pub alive : p.alive ≤ p.workers
    pub idle : p.started ≡ false → p.alive ≡ 0

  -- What a select of `Submit` can do.
  abbrev pub Chosen : J → Pool J → Bool → Pool J → Type 0
  Chosen job p done q =
      ((done ≡ false) × (p.cancelled ≡ true) × (q ≡ p))
      ⊎ ((done ≡ true) × (length p.queue < p.capacity) × (q ≡ enqueue job p))

  -- What `Submit` did: it refused because the pool is cancelled, or it put the job into a queue
  -- with room.
  pub submit-Chosen :
      (job : J) (p q : Pool J) (done : Bool) → In (done, q) (submit job p) → Chosen job p done q
  unfolding submit ready
  submit-Chosen job p q done i =
      let stopped = if p.cancelled then (false, p) ∷ [] else [] in
      let room = ltb (length p.queue) p.capacity in
      let sent = if room then (true, enqueue job p) ∷ [] else [] in
      elim (In-append (done, q) stopped sent i) [
        | inl a ↦
            let r = In-if p.cancelled (done, q) (false, p) a in
            inl (ap (λ c. c.0) r.1, r.0, ap (λ c. c.1) r.1)
        | inr a ↦
            let r = In-if room (done, q) (true, enqueue job p) a in
            inr (ap (λ c. c.0) r.1, ltb_lem r.0, ap (λ c. c.1) r.1)
      ]

  or_drop-cases :
      (job : J) (p : Pool J) (b r : Bool) (c : Bool × Pool J)
      → let cs : List (Bool × Pool J) =
          (if b then (false, p) ∷ [] else []) ++ (if r then (true, enqueue job p) ∷ [] else []) in
        In c (or_drop p cs)
        → In c cs
          ⊎ ((b ≡ false)
              × (r ≡ false)
              × Path (Bool × Pool J) c (false, record p { dropped = p.dropped + 1 }))
  or_drop-cases job p true r c i = inl i
  or_drop-cases job p false true c i = inl i
  or_drop-cases job p false false c (inl e) = inr (refl, refl, e)
  or_drop-cases job p false false c (inr i) = absurd i

  -- `TrySubmit` does what `Submit` can do; or neither case is ready, and it drops the job.
  pub try_submit-Chosen :
      (job : J) (p q : Pool J) (done : Bool)
      → In (done, q) (try_submit job p)
      → Chosen job p done q
        ⊎ ((done ≡ false)
            × (p.cancelled ≡ false)
            × (p.capacity ≤ length p.queue)
            × (q ≡ record p { dropped = p.dropped + 1 }))
  unfolding try_submit submit ready
  try_submit-Chosen job p q done i =
      let room = ltb (length p.queue) p.capacity in
      elim (or_drop-cases job p p.cancelled room (done, q) i) [
        | inl a ↦ inl (submit-Chosen job p q done a)
        | inr (b, r, e) ↦ inr (ap (λ c. c.0) e, b, ltb-false r, ap (λ c. c.1) e)
      ]

  Chosen-IsBounded :
      (job : J) (p q : Pool J) (done : Bool) → IsBounded p → Chosen job p done q → IsBounded q
  Chosen-IsBounded job p q done v (inl h) = rw h.2 v
  Chosen-IsBounded job p q done v (inr h) = rw h.2 record {
    queue = omega (arith, length-append p.queue (job ∷ []), h.1);
    running = v.running;
    alive = v.alive;
    idle = v.idle;
  }

  take_job-IsBounded :
      (p q : Pool J) (queue : List J)
      → IsBounded p
      → p.queue ≡ queue
      → length p.running < p.alive
      → In q (take_job p queue)
      → IsBounded q
  take_job-IsBounded p q [] v e l i = absurd i
  take_job-IsBounded p q (job ∷ queue) v e l (inr i) = absurd i
  take_job-IsBounded p q (job ∷ queue) v e l (inl s) = rw s record {
    queue = omega (arith, v.queue, ap length e);
    running = l;
    alive = v.alive;
    idle = v.idle;
  }

  worker_select-IsBounded :
      (p q : Pool J)
      → IsBounded p
      → length p.running < p.alive
      → In q (worker_select p)
      → IsBounded q
  unfolding worker_select
  worker_select-IsBounded p q v l i =
      let leave = if p.cancelled then record p { alive = p.alive - 1 } ∷ [] else [] in
      elim (In-append q leave (take_job p p.queue) i) [
        | inr a ↦ take_job-IsBounded p q p.queue v refl l a
        | inl a ↦ rw ((In-if p.cancelled q (record p { alive = p.alive - 1 }) a).1) record {
          queue = v.queue;
          running = omega (arith, l);
          alive = omega (arith, v.alive);
          idle = λ s. omega (arith, v.idle s);
        }
      ]

  start-IsBounded : (p : Pool J) → IsBounded p → IsBounded (start p)
  unfolding start
  start-IsBounded p v = elim (Bool-cases p.started) [
    | inl e ↦ simp (e) v
    | inr e ↦ simp (e) record {
      queue = v.queue;
      running = omega (arith, v.running, v.idle e, v.alive);
      alive = omega arith;
      idle = λ s. ground (arith, s);
    }
  ]

  pub stop-IsBounded : (p : Pool J) → IsBounded p → IsBounded (stop p)
  unfolding stop
  stop-IsBounded p v = record {
    queue = v.queue;
    running = v.running;
    alive = v.alive;
    idle = v.idle;
  }

  new_pool-IsBounded : (workers queue_size : ℤ) → IsBounded (new_pool workers queue_size)
  unfolding new_pool
  new_pool-IsBounded workers queue_size = record {
    queue = omega arith;
    running = omega arith;
    alive = omega arith;
    idle = λ s. refl;
  }

  pub Step-IsBounded : (p q : Pool J) → Step p q → IsBounded p → IsBounded q
  Step-IsBounded p q starts v = start-IsBounded p v
  Step-IsBounded p q (submits job done i) v =
      Chosen-IsBounded job p q done v (submit-Chosen job p q done i)
  Step-IsBounded p q (tries job done i) v = elim (try_submit-Chosen job p q done i) [
    | inl c ↦ Chosen-IsBounded job p q done v c
    | inr d ↦ rw d.3 record { queue = v.queue; running = v.running; alive = v.alive; idle = v.idle }
  ]
  Step-IsBounded p q (selects l i) v = worker_select-IsBounded p q v l i
  Step-IsBounded p q (finishes before rest job e) v = record {
    queue = v.queue;
    running = omega (
      arith,
      v.running,
      ap length e,
      length-append before (job ∷ rest),
      length-append before rest,
    );
    alive = v.alive;
    idle = v.idle;
  }
  Step-IsBounded p q stops v = stop-IsBounded p v

  -- However the callers and the workers of a new pool interleave, its queue stays within its
  -- capacity, no more jobs run at once than workers are alive, and no more workers are alive than
  -- were configured; before `Start` none is.
  pub Reach-IsBounded :
      (workers queue_size : ℤ) (p : Pool J) → Reach (new_pool workers queue_size) p → IsBounded p
  Reach-IsBounded workers queue_size p here = new_pool-IsBounded workers queue_size
  Reach-IsBounded workers queue_size p (next {q} r s) =
      Step-IsBounded q p s (Reach-IsBounded workers queue_size q r)
