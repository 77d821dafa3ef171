-- ===== src/Pool/Drain.antt =====
-- What the workers of the pool of internal/worker/pool.go do when they are left alone: `Stop` waits
-- for them to return.
use iot_api.Common.{
  ℕ, zero, suc, ◌+◌, ◌*◌, ◌-◌, ◌≤◌, ◌<◌, ◌≡◌, refl, ap, inl, inr, ◌⊎◌, Bool, true, false, List, [],
  ◌∷◌, ◌++◌, ◌∙◌, arith, if◌then◌else◌, length, length-append, In, In-append,
}
use iot_api.Pool.{
  Pool, worker_select, take_job, finish, stop, Step, starts, submits, tries, selects, finishes,
  stops, Reach, here, next,
}
use iot_api.Pool.Bounds.{IsBounded, In-if, Step-IsBounded, stop-IsBounded}
use iot_api.Pool.Jobs.{held, Step-held, accepts}

pub zero_or_positive : (n : ℕ) → (n ≡ 0) ⊎ (0 < n)
zero_or_positive zero = inl refl
zero_or_positive (suc n) = inr (omega arith)

module _ {J : Type 0} where
  -- A worker makes the step: it selects, or its job returns.
  abbrev pub by_worker : {p q : Pool J} → Step p q → Bool
  by_worker starts = false
  by_worker (submits job done i) = false
  by_worker (tries job done i) = false
  by_worker (selects l i) = true
  by_worker (finishes before rest job e) = true
  by_worker stops = false

  -- Only workers move in the run.
  abbrev pub ByWorkers : {p q : Pool J} → Reach p q → Type 0
  ByWorkers here = Unit
  ByWorkers (next r s) = ByWorkers r × (by_worker s ≡ true)

  abbrev pub steps : {p q : Pool J} → Reach p q → ℕ
  steps here = 0
  steps (next r s) = steps r + 1

  -- A step that some worker can make.
  abbrev pub Moves : Pool J → Type 0
  Moves p = (q : Pool J) × (s : Step p q) × (by_worker s ≡ true)

  -- What the workers have left to do: a waiting job is taken and finished, a running one finished,
  -- and each worker may return.
  abbrev pub left : Pool J → ℕ
  left p = 2 * length p.queue + length p.running + p.alive

  take_job-left :
      (p q : Pool J) (queue : List J)
      → p.queue ≡ queue
      → In q (take_job p queue)
      → (left q < left p) × (q.cancelled ≡ p.cancelled) × (q.alive ≡ p.alive)
  take_job-left p q [] e i = absurd i
  take_job-left p q (job ∷ queue) e (inl s) = rw s (omega (arith, ap length e), refl, refl)
  take_job-left p q (job ∷ queue) e (inr i) = absurd i

  -- A select of a worker takes a job, or the pool is cancelled and the worker returns.
  worker_select-left :
      (p q : Pool J)
      → length p.running < p.alive
      → In q (worker_select p)
      → (left q < left p)
        × (q.cancelled ≡ p.cancelled)
        × ((p.cancelled ≡ false) → q.alive ≡ p.alive)
  unfolding worker_select
  worker_select-left p q l i =
      let gone = record p { alive = p.alive - 1 } in
      elim (In-append q (if p.cancelled then gone ∷ [] else []) (take_job p p.queue) i) [
        | inl a ↦
            let (c, e) = In-if p.cancelled q gone a in
            rw e (omega (arith, l), refl, λ f. absurd (ground arith))
        | inr a ↦ let (m, c, n) = take_job-left p q p.queue refl a in (m, c, λ _. n)
      ]

  finish-left :
      (p : Pool J) (before rest : List J) (job : J)
      → p.running ≡ before ++ job ∷ rest
      → left (finish (before ++ rest) p) < left p
  finish-left p before rest job e =
      omega (arith, ap length e, length-append before (job ∷ rest), length-append before rest)

  pub Step-left :
      (p q : Pool J) (s : Step p q)
      → by_worker s ≡ true
      → (left q < left p)
        × (q.cancelled ≡ p.cancelled)
        × ((p.cancelled ≡ false) → q.alive ≡ p.alive)
  Step-left p q starts w = absurd (ground arith)
  Step-left p q (submits job done i) w = absurd (ground arith)
  Step-left p q (tries job done i) w = absurd (ground arith)
  Step-left p q (selects l i) w = worker_select-left p q l i
  Step-left p q (finishes before rest job e) w = (finish-left p before rest job e, refl, λ _. refl)
  Step-left p q stops w = absurd (ground arith)

  by_worker-accepts : (p q : Pool J) (s : Step p q) → by_worker s ≡ true → accepts s ≡ 0
  by_worker-accepts p q starts w = refl
  by_worker-accepts p q (submits job done i) w = absurd (ground arith)
  by_worker-accepts p q (tries job done i) w = absurd (ground arith)
  by_worker-accepts p q (selects l i) w = refl
  by_worker-accepts p q (finishes before rest job e) w = refl
  by_worker-accepts p q stops w = refl

  -- What a run of the workers alone makes of the pool.
  record Worked (p q : Pool J) (n : ℕ) : Type 0 where
    fewer : left q + n ≤ left p
    cancelled : q.cancelled ≡ p.cancelled
    alive : (p.cancelled ≡ false) → q.alive ≡ p.alive
    held_same : held q ≡ held p
    bounded : IsBounded q

  run-Worked :
      (p q : Pool J) (run : Reach p q) → ByWorkers run → IsBounded p → Worked p q (steps run)
  run-Worked p q here w v = record {
    fewer = omega arith;
    cancelled = refl;
    alive = λ _. refl;
    held_same = refl;
    bounded = v;
  }
  run-Worked p q (next {q = r} run s) (w, ws) v =
      let before = run-Worked p r run w v in
      let (fewer, cancelled, alive) = Step-left r q s ws in
      record {
        fewer = omega (arith, before.fewer, fewer);
        cancelled = cancelled ∙ before.cancelled;
        alive = λ c. alive (before.cancelled ∙ c) ∙ before.alive c;
        held_same = omega (arith, before.held_same, Step-held r q s, by_worker-accepts r q s ws);
        bounded = Step-IsBounded r q s before.bounded;
      }

  -- A running job returns; a worker of a cancelled pool returns, and one of another takes a job.
  running-Moves : (p : Pool J) (job : J) (rest : List J) → p.running ≡ job ∷ rest → Moves p
  running-Moves p job rest e = (finish rest p, finishes [] rest job e, refl)

  cancelled-Moves : (p : Pool J) → p.running ≡ [] → 0 < p.alive → p.cancelled ≡ true → Moves p
  unfolding worker_select
  cancelled-Moves p e a c = (
    record p { alive = p.alive - 1 },
    selects (omega (arith, a, ap length e)) (rw c (inl refl)),
    refl,
  )

  waiting-Moves :
      (p : Pool J) (job : J) (queue : List J)
      → p.running ≡ []
      → 0 < p.alive
      → p.cancelled ≡ false
      → p.queue ≡ job ∷ queue
      → Moves p
  unfolding worker_select
  waiting-Moves p job queue e a c q = (
    record p { queue = queue; running = job ∷ p.running },
    selects (omega (arith, a, ap length e)) (rw (c, q) (inl refl)),
    refl,
  )

  -- A worker that is alive can move in a cancelled pool.
  pub alive-Moves :
      (p : Pool J) (running : List J)
      → p.running ≡ running
      → 0 < p.alive
      → p.cancelled ≡ true
      → Moves p
  alive-Moves p [] e a c = cancelled-Moves p e a c
  alive-Moves p (job ∷ rest) e a c = running-Moves p job rest e

  -- So it can in one that is not, unless there is nothing to do.
  working-Moves :
      (p : Pool J) (running queue : List J)
      → p.running ≡ running
      → p.queue ≡ queue
      → 0 < p.alive
      → p.cancelled ≡ false
      → ((running ≡ []) × (queue ≡ [])) ⊎ Moves p
  working-Moves p (job ∷ rest) queue e f a c = inr (running-Moves p job rest e)
  working-Moves p [] [] e f a c = inl (refl, refl)
  working-Moves p [] (job ∷ queue) e f a c = inr (waiting-Moves p job queue e a c f)

  -- `Stop` returns: once it has cancelled the context of a bounded pool and nobody else moves, the
  -- workers make at most `left p` moves, whichever they choose. While one of them is alive, one of
  -- them can move; when none is, no job is running, and every job that the pool held before is
  -- counted as processed or is still in the queue.
  pub stop-Returns :
      (p q : Pool J) (run : Reach (stop p) q)
      → IsBounded p
      → ByWorkers run
      → (steps run ≤ left p)
        × (((q.alive ≡ 0)
              × (length q.running ≡ 0)
              × (q.processed + length q.queue ≡ p.processed + length p.running + length p.queue))
            ⊎ Moves q)
  unfolding stop
  stop-Returns p q run v w =
      let r = run-Worked (stop p) q run w (stop-IsBounded p v) in
      (
        omega (arith, r.fewer),
        elim (zero_or_positive q.alive) [
          | inl z ↦ inl (
            z,
            omega (arith, z, r.bounded.running),
            omega (arith, z, r.bounded.running, r.held_same),
          )
          | inr a ↦ inr (alive-Moves q q.running refl a r.cancelled)
        ],
      )

  -- No accepted job waits forever: while a bounded pool with a worker is not stopped and nobody else
  -- moves, the workers make at most `left p` moves, whichever they choose. As long as a job is
  -- waiting or running, one of them can move; when none is, every job that the pool held before is
  -- counted as processed.
  pub work-Drains :
      (p q : Pool J) (run : Reach p q)
      → IsBounded p
      → p.cancelled ≡ false
      → 0 < p.alive
      → ByWorkers run
      → (steps run ≤ left p)
        × (((q.queue ≡ [])
              × (q.running ≡ [])
              × (q.processed ≡ p.processed + length p.running + length p.queue))
            ⊎ Moves q)
  work-Drains p q run v c a w =
      let r = run-Worked p q run w v in
      (
        omega (arith, r.fewer),
        elim (working-Moves q q.running q.queue refl refl (omega (arith, a, r.alive c))
            (r.cancelled ∙ c)) [
              | inl (e, f) ↦ inl (f, e, omega (arith, r.held_same, ap length e, ap length f))
              | inr m ↦ inr m
            ],
      )
