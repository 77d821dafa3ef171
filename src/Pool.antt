-- ===== src/Pool.antt =====
-- internal/worker/pool.go: the worker pool. A `select` with several ready cases takes any of them,
-- so a method that selects returns the list of its possible outcomes; no outcome means that it
-- blocks. The workers and the callers interleave: `Step` is one move of any of them.
pub mod Bounds
pub mod Jobs
pub mod Drain
pub mod Alive
mod Order
mod Tests
use iot_api.Common.{
  ℕ, zero, suc, ◌+◌, ◌-◌, ◌≤◌, ◌<◌, ◌≡◌, Bool, true, false, List, [], ◌∷◌, ◌++◌, if◌then◌else◌, ltb,
  length, In,
}
use iot_api.Common.Int.{ℤ, pos, negsuc}

-- `J` is the type of jobs. What a job does to the rest of the program is its own.
pub record Pool (J : Type 0) : Type 0 where
  pub workers : ℕ
  pub queue : List J
  pub capacity : ℕ
  -- The worker goroutines that have not returned, and the jobs that some of them are running.
  pub alive : ℕ
  pub running : List J
  -- `ctx` is done.
  pub cancelled : Bool
  -- `Start` has been called.
  pub started : Bool
  pub processed : ℕ
  pub dropped : ℕ

-- `if n <= 0 { n = d }`.
unfoldable pub positive_or : ℕ → ℤ → ℕ
positive_or d (pos zero) = d
positive_or d (pos (suc n)) = suc n
positive_or d (negsuc n) = d

module _ {J : Type 0} where
  unfoldable pub new_pool : ℤ → ℤ → Pool J
  unfolding positive_or
  new_pool workers queue_size = record {
    workers = positive_or 1 workers;
    queue = [];
    capacity = positive_or (positive_or 1 workers) queue_size;
    alive = 0;
    running = [];
    cancelled = false;
    started = false;
    processed = 0;
    dropped = 0;
  }

  -- `once.Do` launches the workers on the first call only.
  unfoldable pub start : Pool J → Pool J
  start p = if p.started then p else record p { started = true; alive = p.workers }

  abbrev pub enqueue : J → Pool J → Pool J
  enqueue job p = record p { queue = p.queue ++ job ∷ [] }

  -- The ready cases of the `select` in `Submit` and `TrySubmit`, in the order of the source.
  unfoldable pub ready : J → Pool J → List (Bool × Pool J)
  ready job p =
      (if p.cancelled then (false, p) ∷ [] else [])
      ++ (if ltb (length p.queue) p.capacity then (true, enqueue job p) ∷ [] else [])

  unfoldable pub submit : J → Pool J → List (Bool × Pool J)
  submit = ready

  -- The default case, where no other is ready.
  abbrev pub or_drop : Pool J → List (Bool × Pool J) → List (Bool × Pool J)
  or_drop p [] = (false, record p { dropped = p.dropped + 1 }) ∷ []
  or_drop p (c ∷ cs) = c ∷ cs

  unfoldable pub try_submit : J → Pool J → List (Bool × Pool J)
  try_submit job p = or_drop p (ready job p)

  -- The ready cases of the `select` in `run`, of a worker that is not running a job: it returns, or
  -- takes the oldest job.
  abbrev pub take_job : Pool J → List J → List (Pool J)
  take_job p [] = []
  take_job p (job ∷ queue) = record p { queue = queue; running = job ∷ p.running } ∷ []

  unfoldable pub worker_select : Pool J → List (Pool J)
  worker_select p =
      (if p.cancelled then record p { alive = p.alive - 1 } ∷ [] else []) ++ take_job p p.queue

  -- A worker whose job has returned counts it.
  abbrev pub finish : List J → Pool J → Pool J
  finish rest p = record p { running = rest; processed = p.processed + 1 }

  -- `Stop` cancels the context; then it waits until no worker is alive.
  unfoldable pub stop : Pool J → Pool J
  stop p = record p { cancelled = true }

  pub data Step (p : Pool J) : Pool J → Type 0 where
    starts : Step p (start p)
    submits : {q : Pool J} (job : J) (done : Bool) → In (done, q) (submit job p) → Step p q
    tries : {q : Pool J} (job : J) (done : Bool) → In (done, q) (try_submit job p) → Step p q
    selects : {q : Pool J} → length p.running < p.alive → In q (worker_select p) → Step p q
    finishes :
        (before rest : List J) (job : J)
        → p.running ≡ before ++ job ∷ rest
        → Step p (finish (before ++ rest) p)
    stops : Step p (stop p)

  pub data Reach (p : Pool J) : Pool J → Type 0 where
    here : Reach p p
    next : {q r : Pool J} → Reach p q → Step q r → Reach p r
