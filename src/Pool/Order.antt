-- ===== src/Pool/Order.antt =====
-- The order in which the pool of internal/worker/pool.go takes and finishes its jobs.
use mathlib.Core.List.{append-nil, append_assoc}
use iot_api.Common.{
  ◌-◌, ◌≤◌, ◌≡◌, refl, sym, ap, ◌∙◌, inl, inr, Bool, true, false, List, [], ◌∷◌, ◌++◌, arith,
  if◌then◌else◌, length, length-append, In, In-append, Bool-cases,
}
use iot_api.Common.Int.{ℤ}
use iot_api.Pool.{
  Pool, new_pool, positive_or, start, worker_select, take_job, stop, Step, starts, submits, tries,
  selects, finishes, stops, Reach, here, next,
}
use iot_api.Pool.Bounds.{
  IsBounded, Chosen, submit-Chosen, try_submit-Chosen, In-if, Reach-IsBounded,
}

module _ {J : Type 0} where
  -- The job that was accepted, as a list.
  abbrev sent : Bool → J → List J
  sent true job = job ∷ []
  sent false job = []

  abbrev accepted_by : {p q : Pool J} → Step p q → List J
  accepted_by starts = []
  accepted_by (submits job done i) = sent done job
  accepted_by (tries job done i) = sent done job
  accepted_by (selects l i) = []
  accepted_by (finishes before rest job e) = []
  accepted_by stops = []

  -- The jobs that `Submit` and `TrySubmit` answered with true, in this order.
  abbrev pub accepted_jobs : {p q : Pool J} → Reach p q → List J
  accepted_jobs here = []
  accepted_jobs (next r s) = accepted_jobs r ++ accepted_by s

  abbrev finished_by : {p q : Pool J} → Step p q → List J
  finished_by starts = []
  finished_by (submits job done i) = []
  finished_by (tries job done i) = []
  finished_by (selects l i) = []
  finished_by (finishes before rest job e) = job ∷ []
  finished_by stops = []

  -- The jobs that have returned, in this order.
  abbrev pub finished_jobs : {p q : Pool J} → Reach p q → List J
  finished_jobs here = []
  finished_jobs (next r s) = finished_jobs r ++ finished_by s

  -- The jobs that are running and waiting.
  abbrev line : Pool J → List J
  line p = p.running ++ p.queue

  Chosen-line :
      (job : J) (p q : Pool J) (done : Bool)
      → Chosen job p done q
      → (line q ≡ line p ++ sent done job) × (q.workers ≡ p.workers)
  Chosen-line job p q done (inl (d, _, e)) = rw (d, e) (sym (append-nil (line p)), refl)
  Chosen-line job p q done (inr (d, _, e)) =
      rw (d, e) (sym (append_assoc p.running p.queue (job ∷ [])), refl)

  take_job-line :
      (p q : Pool J) (queue : List J)
      → p.queue ≡ queue
      → p.running ≡ []
      → In q (take_job p queue)
      → (line q ≡ line p) × (q.workers ≡ p.workers)
  take_job-line p q [] e n i = absurd i
  take_job-line p q (job ∷ queue) e n (inl s) = rw (s, n, e) (refl, refl)
  take_job-line p q (job ∷ queue) e n (inr i) = absurd i

  worker_select-line :
      (p q : Pool J)
      → p.running ≡ []
      → In q (worker_select p)
      → (line q ≡ line p) × (q.workers ≡ p.workers)
  unfolding worker_select
  worker_select-line p q n i =
      let gone = record p { alive = p.alive - 1 } in
      elim (In-append q (if p.cancelled then gone ∷ [] else []) (take_job p p.queue) i) [
        | inl a ↦ rw (In-if p.cancelled q gone a).1 (refl, refl)
        | inr a ↦ take_job-line p q p.queue refl n a
      ]

  nil_of_length : (xs : List J) → length xs ≤ 0 → xs ≡ []
  nil_of_length [] h = refl
  nil_of_length (x ∷ xs) h = absurd (omega arith)

  nil_of_single : (before rest : List J) (job : J) → length (before ++ job ∷ rest) ≤ 1 → before ≡ []
  nil_of_single before rest job h =
      nil_of_length before (omega (arith, length-append before (job ∷ rest), h))

  -- What a step of a pool with one worker does with the jobs.
  abbrev Moved : (p q : Pool J) → Step p q → Type 0
  Moved p q s = (finished_by s ++ line q ≡ line p ++ accepted_by s) × (q.workers ≡ p.workers)

  Step-Moved : (p q : Pool J) (s : Step p q) → IsBounded p → p.workers ≡ 1 → Moved p q s
  unfolding start stop
  Step-Moved p q starts v w = elim (Bool-cases p.started) [
    | inl e ↦ rw e (sym (append-nil (line p)), refl)
    | inr e ↦ rw e (sym (append-nil (line p)), refl)
  ]
  Step-Moved p q (submits job done i) v w = Chosen-line job p q done (submit-Chosen job p q done i)
  Step-Moved p q (tries job done i) v w = elim (try_submit-Chosen job p q done i) [
    | inl c ↦ Chosen-line job p q done c
    | inr (d, _, _, e) ↦ rw (d, e) (sym (append-nil (line p)), refl)
  ]
  Step-Moved p q (selects l i) v w =
      let (same, kept) =
        worker_select-line p q (nil_of_length p.running (omega (arith, l, v.alive, w))) i in
      (same ∙ sym (append-nil (line p)), kept)
  Step-Moved p q (finishes before rest job e) v w =
      let alone : before ≡ [] =
        nil_of_single before rest job (omega (arith, ap length e, v.running, v.alive, w)) in
      (
        ap (λ b. (job ∷ (b ++ rest)) ++ p.queue) alone
            ∙ ap (λ r. r ++ p.queue) (sym (e ∙ ap (λ b. b ++ job ∷ rest) alone))
            ∙ sym (append-nil (line p)),
        refl,
      )
  Step-Moved p q stops v w = (sym (append-nil (line p)), refl)

  module _ (workers queue_size : ℤ) (single : positive_or 1 workers ≡ 1) where
    Reach-workers : (p : Pool J) → Reach (new_pool workers queue_size) p → p.workers ≡ 1
    unfolding new_pool
    Reach-workers p here = single
    Reach-workers p (next {q = r} run s) =
        let before = Reach-workers r run in
        (Step-Moved r p s (Reach-IsBounded workers queue_size r run) before).1 ∙ before

    -- A pool that is configured with one worker, or with fewer, is first in, first out: however its
    -- callers and its worker interleave, the jobs that have returned, in their order, then the job
    -- that is running, if any, and then those waiting are exactly the accepted jobs in the order in
    -- which they were accepted.
    pub finished-accepted :
        (p : Pool J) (run : Reach (new_pool workers queue_size) p)
        → finished_jobs run ++ (p.running ++ p.queue) ≡ accepted_jobs run
    unfolding new_pool
    finished-accepted p here = refl
    finished-accepted p (next {q = r} run s) =
        let (moved, _) =
          Step-Moved r p s (Reach-IsBounded workers queue_size r run) (Reach-workers r run) in
        append_assoc (finished_jobs run) (finished_by s) (line p)
        ∙ ap (λ l. finished_jobs run ++ l) moved
        ∙ sym (append_assoc (finished_jobs run) (line r) (accepted_by s))
        ∙ ap (λ l. l ++ accepted_by s) (finished-accepted r run)
