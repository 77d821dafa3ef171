-- ===== src/Service/Workers/Ends.antt =====
-- That the workers of internal/service/service.go come to the end of their samples.
use iot_api.Common.{
  ℕ, ◌+◌, ◌*◌, ◌≤◌, ◌<◌, ◌≡◌, ◌≢◌, refl, ◌⊎◌, inl, inr, String, List, [], ◌∷◌, ◌++◌, All, arith,
  length, Result-cases, ap,
}
use iot_api.Float64.{Float64}
use iot_api.Store.{Store}
use iot_api.Alerts.{evaluate}
use iot_api.Service.{Service, State}
use iot_api.Service.Workers.{
  Work, Stage, received, stored, marked, cached, alerting, raised, returned, move, System, Step,
  moved, Run, over, first,
}

abbrev pub Returned : Stage → Type 0
Returned s = s ≡ returned

∷-middle-ne-nil : (before after : List Stage) (s : Stage) → before ++ s ∷ after ≢ []
∷-middle-ne-nil [] after s h = cc
∷-middle-ne-nil (x ∷ before) after s h = cc

-- Everybody has returned, or somebody has not.
All_or_some :
    (stages : List Stage)
    → All Returned stages
      ⊎ ((before : List Stage) × (s : Stage) × (after : List Stage) × (s ≢ returned)
          × (stages ≡ before ++ s ∷ after))
All_or_some [] = inl tt
All_or_some (returned ∷ stages) = elim (All_or_some stages) [
  | inl all ↦ inl (refl, all)
  | inr (before, s, after, n, e) ↦ inr (returned ∷ before, s, after, n, ap (◌∷◌ returned) e)
]
All_or_some (received w ∷ stages) = inr ([], received w, stages, λ h. cc, refl)
All_or_some (stored w ∷ stages) = inr ([], stored w, stages, λ h. cc, refl)
All_or_some (marked w ∷ stages) = inr ([], marked w, stages, λ h. cc, refl)
All_or_some (cached w ∷ stages) = inr ([], cached w, stages, λ h. cc, refl)
All_or_some (alerting l ∷ stages) = inr ([], alerting l, stages, λ h. cc, refl)
All_or_some (raised a l ∷ stages) = inr ([], raised a l, stages, λ h. cc, refl)

module _ {S P C : Type 0} (o : Store S) (svc : Service P C)
    (sprintf : String → Float64 → String → Float64 → String) where
  abbrev alerts : Work → ℕ
  alerts w = length (evaluate sprintf w.draws w.sample svc.alerts)

  -- The moves that a worker has left, at most.
  abbrev pub cost : Stage → ℕ
  cost (received w) = 2 * alerts w + 5
  cost (stored w) = 2 * alerts w + 4
  cost (marked w) = 2 * alerts w + 3
  cost (cached w) = 2 * alerts w + 2
  cost (alerting l) = 2 * length l + 1
  cost (raised a l) = 2 * length l + 2
  cost returned = 0

  abbrev pub total_cost : List Stage → ℕ
  total_cost [] = 0
  total_cost (s ∷ stages) = cost s + total_cost stages

  abbrev pub run_length : {last x : System o svc sprintf} → Run o svc sprintf last x → ℕ
  run_length over = 0
  run_length (first s r) = run_length r + 1

  total_cost-append : (xs ys : List Stage) → total_cost (xs ++ ys) ≡ total_cost xs + total_cost ys
  total_cost-append [] ys = omega arith
  total_cost-append (x ∷ xs) ys = omega (arith, total_cost-append xs ys)

  cost-move :
      (s : Stage) (st : State S P C) → s ≢ returned → cost (move o svc sprintf s st).0 < cost s
  unfolding move
  cost-move (received w) st n = elim (Result-cases (o.add_telemetry w.sample st.store).0) [
    | inl (_, e) ↦ rw e (omega arith)
    | inr (_, e) ↦ rw e (omega arith)
  ]
  cost-move (stored w) st n = omega arith
  cost-move (marked w) st n = omega arith
  cost-move (cached w) st n = omega arith
  cost-move (alerting []) st n = omega arith
  cost-move (alerting (a ∷ l)) st n = elim (Result-cases (o.add_alert a st.store).0) [
    | inl (_, e) ↦ rw e (omega arith)
    | inr (_, e) ↦ rw e (omega arith)
  ]
  cost-move (raised a l) st n = omega arith
  cost-move returned st n = absurd (n refl)

  Step-cost :
      (x y : System o svc sprintf)
      → Step o svc sprintf x y
      → total_cost y.stages < total_cost x.stages
  Step-cost x y (moved before s after n e) = omega (
    arith,
    ap total_cost e,
    total_cost-append before (s ∷ after),
    total_cost-append before ((move o svc sprintf s x.state).0 ∷ after),
    cost-move s x.state n,
  )

  run_length-le :
      (last x : System o svc sprintf) (run : Run o svc sprintf last x)
      → run_length run + total_cost last.stages ≤ total_cost x.stages
  run_length-le last x over = omega arith
  run_length-le last x (first {y} s r) = omega (arith, run_length-le last y r, Step-cost x y s)

  -- However the workers interleave over whatever store, together they make no more moves than their
  -- stages cost, five for each sample and two for each alert that it raises; and until all of them
  -- have returned, one can move.
  pub run-Returns :
      (last x : System o svc sprintf) (run : Run o svc sprintf last x)
      → (run_length run ≤ total_cost x.stages)
        × (All Returned last.stages ⊎ ((y : System o svc sprintf) × Step o svc sprintf last y))
  run-Returns last x run = (
    omega (arith, run_length-le last x run),
    elim (All_or_some last.stages) [
      | inl all ↦ inl all
      | inr (before, s, after, n, e) ↦ inr (_, moved before s after n e)
    ],
  )
