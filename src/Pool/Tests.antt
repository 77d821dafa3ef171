-- ===== src/Pool/Tests.antt =====
-- Runs of the worker pool of internal/worker/pool.go on small examples. A job is a number.
use iot_api.Common.{ℕ, ◌+◌, ◌≡◌, ◌≤◌, ◌⊎◌, refl, inl, true, false, [], ◌∷◌, ◌++◌, length, In, arith}
use iot_api.Common.Int.{pos, negsuc}
use iot_api.Pool.{
  Pool, new_pool, positive_or, start, submit, try_submit, ready, enqueue, Reach, here, next, starts,
  submits, tries, worker_select, selects, finishes, stop,
}
use iot_api.Pool.Bounds.{IsBounded, Reach-IsBounded}
use iot_api.Pool.Jobs.{accepted, accepted_lem}
use iot_api.Pool.Order.{finished_jobs, accepted_jobs, finished-accepted}
use iot_api.Pool.Drain.{Moves, left, steps, stop-Returns, work-Drains}

-- One worker and room for one job: `NewPool(0, -1)`.
abbrev fresh : Pool ℕ
fresh = new_pool (pos 0) (negsuc 0)

abbrev started : Pool ℕ
started = start fresh

abbrev waiting : Pool ℕ
waiting = enqueue 7 started

sent : In (true, waiting) (submit 7 started)
unfolding submit ready start new_pool positive_or
sent = inl refl

abbrev full : Pool ℕ
full = record waiting { dropped = 1 }

refused : In (false, full) (try_submit 8 waiting)
unfolding try_submit ready start new_pool positive_or
refused = inl refl

run_once : Reach fresh full
run_once = next (next (next here starts) (submits 7 true sent)) (tries 8 false refused)

Reach-IsBounded_example : IsBounded full
Reach-IsBounded_example = Reach-IsBounded (pos 0) (negsuc 0) full run_once

accepted_lem_example : full.processed + length full.running + length full.queue ≡ accepted run_once
accepted_lem_example = accepted_lem (pos 0) (negsuc 0) full run_once

-- The worker takes the job that waits, and finishes it.
abbrev busy : Pool ℕ
busy = record full { queue = []; running = 7 ∷ [] }

abbrev idle : Pool ℕ
idle = record full { queue = []; processed = 1 }

works : Reach full idle
unfolding worker_select start new_pool positive_or
works = next (next here (selects {q = busy} (omega arith) (inl refl))) (finishes [] [] 7 refl)

work-Drains_example :
    (steps works ≤ left full)
    × (((idle.queue ≡ [])
          × (idle.running ≡ [])
          × (idle.processed ≡ full.processed + length full.running + length full.queue))
        ⊎ Moves idle)
unfolding works start new_pool positive_or
work-Drains_example =
    work-Drains full idle works Reach-IsBounded_example refl (omega arith) ((tt, refl), refl)

-- The pool is stopped while its job runs: the job returns, and then the worker.
abbrev over : Pool ℕ
over = record idle { cancelled = true; alive = 0 }

stopped : Reach (stop busy) over
unfolding stop worker_select start new_pool positive_or
stopped = next (next here (finishes [] [] 7 refl)) (selects (omega arith) (inl refl))

busy-IsBounded : IsBounded busy
unfolding worker_select start new_pool positive_or
busy-IsBounded =
    Reach-IsBounded (pos 0) (negsuc 0) busy (next run_once (selects (omega arith) (inl refl)))

stop-Returns_example :
    (steps stopped ≤ left busy)
    × (((over.alive ≡ 0)
          × (length over.running ≡ 0)
          × (over.processed + length over.queue
              ≡ busy.processed + length busy.running + length busy.queue))
        ⊎ Moves over)
unfolding stopped
stop-Returns_example = stop-Returns busy over stopped busy-IsBounded ((tt, refl), refl)

run_all : Reach fresh idle
unfolding worker_select start new_pool positive_or
run_all = next (next run_once (selects {q = busy} (omega arith) (inl refl))) (finishes [] [] 7 refl)

finished-accepted_example :
    finished_jobs run_all ++ (idle.running ++ idle.queue) ≡ accepted_jobs run_all
unfolding positive_or
finished-accepted_example = finished-accepted (pos 0) (negsuc 0) refl idle run_all
