-- ===== src/Service/Workers/Merged.antt =====
-- The events that the workers of internal/service/service.go publish together.
use mathlib.Core.Path.{subst}
use mathlib.Core.List.{map-append}
use iot_api.Common.{
  ◌≡◌, refl, sym, ap, ◌∙◌, inl, inr, String, List, [], ◌∷◌, ◌++◌, map, All, All-append, All-middle,
}
use iot_api.Float64.{Float64}
use iot_api.Models.{Event}
use iot_api.Store.{Store}
use iot_api.Store.Laws.{StoreLaws}
use iot_api.Service.{Service, State}
use iot_api.Service.Ingestion.{publish_all}
use iot_api.Service.Workers.{Work, Stage, received, move, System, moved, Run, over, first}
use iot_api.Service.Workers.Ends.{Returned}
use iot_api.Service.Workers.Calls.{
  events, pending, IsRegistered, Ready, Ready-move, Publishes, move-Publishes, Ready-moved,
}

-- A list that merges several: it takes the first element of any of them, until all are empty.
pub data Merge {A : Type 0} : List (List A) → List A → Type 0 where
  none_left : {lists : List (List A)} → All (λ l. l ≡ []) lists → Merge lists []
  pick :
      {lists : List (List A)} {merged : List A} (before after : List (List A)) (x : A) (xs : List A)
      → lists ≡ before ++ (x ∷ xs) ∷ after
      → Merge (before ++ xs ∷ after) merged
      → Merge lists (x ∷ merged)

module _ {S P C : Type 0} (o : Store S) (laws : StoreLaws o) (svc : Service P C)
    (sprintf : String → Float64 → String → Float64 → String) where
  All-Ready-move :
      (s : Stage) (st : State S P C) (stages : List Stage)
      → All (Ready o st.store) stages
      → All (Ready o (move o svc sprintf s st).1.store) stages
  All-Ready-move s st [] h = tt
  All-Ready-move s st (r ∷ stages) h =
      (Ready-move o laws svc sprintf s st r h.0, All-Ready-move s st stages h.1)

  pending-Returned :
      (stages : List Stage)
      → All Returned stages
      → All (λ l. l ≡ []) (map (pending svc sprintf) stages)
  pending-Returned [] h = tt
  pending-Returned (s ∷ stages) h = (ap (pending svc sprintf) h.0, pending-Returned stages h.1)

  -- What is published from `x` to `last`.
  abbrev Published : (last x : System o svc sprintf) → Type 0
  Published last x =
      (es : List Event) × Merge (map (pending svc sprintf) x.stages) es
      × (last.state.published ≡ publish_all svc.publisher es x.state.published)

  module _ (last x : System o svc sprintf) (before after : List Stage) (s : Stage)
      (here : x.stages ≡ before ++ s ∷ after) where
    abbrev next_system : System o svc sprintf
    next_system = record {
      stages = before ++ (move o svc sprintf s x.state).0 ∷ after;
      state = (move o svc sprintf s x.state).1;
    }

    around :
        (r : Stage)
        → map (pending svc sprintf) (before ++ r ∷ after)
          ≡ map (pending svc sprintf) before
            ++ pending svc sprintf r ∷ map (pending svc sprintf) after
    around r = map-append (pending svc sprintf) before (r ∷ after)

    step-Published :
        Publishes o laws svc sprintf s x.state → Published last next_system → Published last x
    step-Published (inl (same, silent)) (es, merged, e) = (
      es,
      subst (λ ls. Merge ls es)
          (around (move o svc sprintf s x.state).0
            ∙ ap (λ l. map (pending svc sprintf) before ++ l ∷ map (pending svc sprintf) after) same
            ∙ sym (around s)
            ∙ ap (map (pending svc sprintf)) (sym here))
          merged,
      e ∙ ap (publish_all svc.publisher es) silent,
    )
    step-Published (inr (event, split, told)) (es, merged, e) = (
      event ∷ es,
      pick (map (pending svc sprintf) before) (map (pending svc sprintf) after) event
          (pending svc sprintf (move o svc sprintf s x.state).0)
          (ap (map (pending svc sprintf)) here
            ∙ around s
            ∙ ap (λ l. map (pending svc sprintf) before ++ l ∷ map (pending svc sprintf) after)
                split)
          (subst (λ ls. Merge ls es) (around (move o svc sprintf s x.state).0) merged),
      e ∙ ap (publish_all svc.publisher es) told,
    )

  run-Published :
      (last x : System o svc sprintf)
      → Run o svc sprintf last x
      → All Returned last.stages
      → All (Ready o x.state.store) x.stages
      → Published last x
  run-Published last x over done ready = ([], none_left (pending-Returned last.stages done), refl)
  run-Published last x (first (moved before s after n e) run) done ready =
      let (left, own, right) =
        All-middle (Ready o x.state.store) before s after (subst (All _) e ready) in
      step-Published last x before after s e (move-Publishes o laws svc sprintf s x.state own) (
        run-Published last (next_system last x before after s e) run done (
          All-append (Ready o _) before _ (All-Ready-move s x.state before left)
            (Ready-moved o laws svc sprintf s x.state _, All-Ready-move s x.state after right)))

  All-received :
      (s : S) (works : List Work)
      → All (IsRegistered o s) works
      → All (Ready o s) (map received works)
  All-received s [] h = tt
  All-received s (w ∷ works) h = (h.0, All-received s works h.1)

  pending-received :
      (works : List Work)
      → map (pending svc sprintf) (map received works) ≡ map (events svc sprintf) works
  pending-received [] = refl
  pending-received (w ∷ works) = ap (◌∷◌ (events svc sprintf w)) (pending-received works)

  -- Over a store that keeps its contract, let workers process samples of registered devices,
  -- interleaved in whatever way, until all have returned. Then what was published is a merge of the
  -- lists that each sample has, its own event and then its alerts in the order of the rules: no
  -- event is lost or published twice, and those of one sample keep their order.
  pub run-Merge :
      (works : List Work) (st : State S P C) (last : System o svc sprintf)
      → Run o svc sprintf last (record { stages = map received works; state = st })
      → All (IsRegistered o st.store) works
      → All Returned last.stages
      → (es : List Event) × Merge (map (events svc sprintf) works) es
        × (last.state.published ≡ publish_all svc.publisher es st.published)
  run-Merge works st last run registered done =
      let (es, merged, e) =
        run-Published last (record { stages = map received works; state = st }) run done
          (All-received st.store works registered) in
      (es, subst (λ ls. Merge ls es) (pending-received works) merged, e)
