-- ===== src/Pool/Alive.antt =====
-- The workers that are alive in the pool of internal/worker/pool.go.
use iot_api.Common.{
  ℕ, zero, suc, ◌-◌, ◌≤◌, ◌<◌, ◌≡◌, refl, inl, inr, Bool, true, List, [], ◌∷◌, arith, In, In-append,
  if◌then◌else◌, ◌∙◌,
}
use iot_api.Pool.{
  Pool, start, worker_select, take_job, stop, Step, starts, submits, tries, selects, finishes,
  stops,
}
use iot_api.Pool.Bounds.{Chosen, submit-Chosen, try_submit-Chosen, In-if}
use iot_api.Pool.Drain.{left, zero_or_positive, Step-left, alive-Moves, by_worker}

module _ {J : Type 0} where
  abbrev Fewer : Pool J → Pool J → Type 0
  Fewer p q = (q.started ≡ p.started) × (q.alive ≤ p.alive)

  Chosen-Fewer : (job : J) (p q : Pool J) (done : Bool) → Chosen job p done q → Fewer p q
  Chosen-Fewer job p q done (inl h) = rw h.2 (refl, omega arith)
  Chosen-Fewer job p q done (inr h) = rw h.2 (refl, omega arith)

  take_job-Fewer : (p q : Pool J) (queue : List J) → In q (take_job p queue) → Fewer p q
  take_job-Fewer p q [] i = absurd i
  take_job-Fewer p q (job ∷ queue) (inl s) = rw s (refl, omega arith)
  take_job-Fewer p q (job ∷ queue) (inr i) = absurd i

  worker_select-Fewer : (p q : Pool J) → In q (worker_select p) → Fewer p q
  unfolding worker_select
  worker_select-Fewer p q i =
      let gone = record p { alive = p.alive - 1 } in
      elim (In-append q (if p.cancelled then gone ∷ [] else []) (take_job p p.queue) i) [
        | inl a ↦ rw (In-if p.cancelled q gone a).1 (refl, omega arith)
        | inr a ↦ take_job-Fewer p q p.queue a
      ]

  -- Once the pool is started, no step launches a worker.
  pub Step-Fewer :
      (p q : Pool J) → Step p q → p.started ≡ true → (q.started ≡ true) × (q.alive ≤ p.alive)
  unfolding start stop
  Step-Fewer p q starts e = rw e (refl, omega arith)
  Step-Fewer p q (submits job done i) e =
      let f = Chosen-Fewer job p q done (submit-Chosen job p q done i) in (f.0 ∙ e, f.1)
  Step-Fewer p q (tries job done i) e = elim (try_submit-Chosen job p q done i) [
    | inl c ↦ let f = Chosen-Fewer job p q done c in (f.0 ∙ e, f.1)
    | inr d ↦ rw d.3 (e, omega arith)
  ]
  Step-Fewer p q (selects l i) e = let f = worker_select-Fewer p q i in (f.0 ∙ e, f.1)
  Step-Fewer p q (finishes before rest job h) e = (e, omega arith)
  Step-Fewer p q stops e = (e, omega arith)

  -- A predicate that each step of a worker keeps holds at some state of a cancelled pool in which
  -- no worker is alive.
  pub alive-zero_eventually :
      (P : Pool J → Type 0)
      → ((q r : Pool J) (s : Step q r) → by_worker s ≡ true → P q → P r)
      → (fuel : ℕ) (p : Pool J) → left p < fuel
      → p.cancelled ≡ true
      → P p
      → (q : Pool J) × P q × (q.alive ≡ 0)
  alive-zero_eventually P keep zero p h c start = absurd (omega arith)
  alive-zero_eventually P keep (suc fuel) p h c start = elim (zero_or_positive p.alive) [
    | inl z ↦ (p, start, z)
    | inr a ↦
        let (q, s, w) = alive-Moves p p.running refl a c in
        let (fewer, same, _) = Step-left p q s w in
        alive-zero_eventually P keep fuel q (omega (arith, fewer, h)) (same ∙ c)
          (keep p q s w start)
  ]
