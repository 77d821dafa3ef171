-- ===== src/Pool/Jobs.antt =====
-- What becomes of the jobs given to the pool of internal/worker/pool.go.
use iot_api.Common.{
  ℕ, ◌+◌, ◌-◌, ◌≡◌, refl, ap, inl, inr, Bool, List, [], ◌∷◌, arith, if◌then◌else◌, length,
  length-append, In, In-append,
}
use iot_api.Common.Int.{ℤ}
use iot_api.Pool.{
  Pool, new_pool, start, worker_select, stop, Step, starts, submits, tries, selects, finishes,
  stops, Reach, here, next, take_job,
}
use iot_api.Pool.Bounds.{Chosen, submit-Chosen, try_submit-Chosen, In-if}

-- The jobs that the pool has and had: counted, running and waiting.
abbrev pub held : {J : Type 0} → Pool J → ℕ
held p = p.processed + length p.running + length p.queue

abbrev one_if : Bool → ℕ
one_if b = if b then 1 else 0

new_pool-held :
    (J : Type 0) (workers queue_size : ℤ) → held {J = J} (new_pool workers queue_size) ≡ 0
unfolding new_pool
new_pool-held J workers queue_size = refl

module _ {J : Type 0} where
  -- The answers `true` of a step, and of a run.
  abbrev pub accepts : {p q : Pool J} → Step p q → ℕ
  accepts starts = 0
  accepts (submits job done i) = one_if done
  accepts (tries job done i) = one_if done
  accepts (selects l i) = 0
  accepts (finishes before rest job e) = 0
  accepts stops = 0

  abbrev pub accepted : {p q : Pool J} → Reach p q → ℕ
  accepted here = 0
  accepted (next r s) = accepted r + accepts s

  Chosen-held :
      (job : J) (p q : Pool J) (done : Bool) → Chosen job p done q → held q ≡ held p + one_if done
  Chosen-held job p q done (inl h) = rw (h.0, h.2) (omega arith)
  Chosen-held job p q done (inr h) = rw (h.0, h.2) (omega (arith, length-append p.queue (job ∷ [])))

  take_job-held :
      (p q : Pool J) (queue : List J) → p.queue ≡ queue → In q (take_job p queue) → held q ≡ held p
  take_job-held p q [] e i = absurd i
  take_job-held p q (job ∷ queue) e (inl s) = rw s (omega (arith, ap length e))
  take_job-held p q (job ∷ queue) e (inr i) = absurd i

  worker_select-held : (p q : Pool J) → In q (worker_select p) → held q ≡ held p
  unfolding worker_select
  worker_select-held p q i =
      let leave = if p.cancelled then record p { alive = p.alive - 1 } ∷ [] else [] in
      elim (In-append q leave (take_job p p.queue) i) [
        | inl a ↦ rw ((In-if p.cancelled q (record p { alive = p.alive - 1 }) a).1) refl
        | inr a ↦ take_job-held p q p.queue refl a
      ]

  start-held : (p : Pool J) → held (start p) ≡ held p
  unfolding start
  start-held p = ground arith

  stop-held : (p : Pool J) → held (stop p) ≡ held p
  unfolding stop
  stop-held p = refl

  pub Step-held : (p q : Pool J) (s : Step p q) → held q ≡ held p + accepts s
  Step-held p q starts = omega (arith, start-held p)
  Step-held p q (submits job done i) = Chosen-held job p q done (submit-Chosen job p q done i)
  Step-held p q (tries job done i) = elim (try_submit-Chosen job p q done i) [
    | inl c ↦ Chosen-held job p q done c
    | inr d ↦ rw (d.0, d.3) (omega arith)
  ]
  Step-held p q (selects l i) = omega (arith, worker_select-held p q i)
  Step-held p q (finishes before rest job e) =
      omega (arith, ap length e, length-append before (job ∷ rest), length-append before rest)
  Step-held p q stops = omega (arith, stop-held p)

  -- No job is lost and none is counted twice: however the callers and the workers of a new pool
  -- interleave, the jobs counted as processed, those running and those in the queue are together as
  -- many as the calls of `Submit` and `TrySubmit` that returned true.
  pub accepted_lem :
      (workers queue_size : ℤ) (p : Pool J) (r : Reach (new_pool workers queue_size) p)
      → p.processed + length p.running + length p.queue ≡ accepted r
  accepted_lem workers queue_size p here = new_pool-held J workers queue_size
  accepted_lem workers queue_size p (next {q} r s) =
      omega (arith, accepted_lem workers queue_size q r, Step-held q p s)
