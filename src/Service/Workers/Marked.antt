-- ===== src/Service/Workers/Marked.antt =====
-- How one call of a worker of internal/service/service.go marks a device.
use mathlib.Core.Path.{subst}
use iot_api.Common.{
  ◌≡◌, refl, sym, ap, ◌∙◌, ◌⊎◌, inl, inr, String, false, List, [], ◌∷◌, ◌++◌, All, In, In-append,
  In-append_left, In-append_right, In-All, ok, ◌==◌, eq_iff, Result-cases, Bool-cases,
}
use iot_api.Float64.{Float64}
use iot_api.Models.{Device, status_online}
use iot_api.GoTime.{is_zero}
use iot_api.Store.{Store}
use iot_api.Store.Changes.{with_status}
use iot_api.Store.Laws.{StoreLaws, needs, map_ok}
use iot_api.Service.{Service, State}
use iot_api.Service.Workers.{
  Work, Stage, received, stored, marked, cached, alerting, raised, returned, move,
}

-- What the worker has in hand in front of the two calls of the store comes from the list.
abbrev pub From : List Work → Stage → Type 0
From works (received w) = In w works
From works (stored w) = In w works
From works _ = Unit

abbrev pub IsTimed : Work → Type 0
IsTimed w = is_zero w.sample.timestamp ≡ false

-- The works for a device, if there are any.
pub works_of :
    (j : String) (works : List Work)
    → ((w : Work) × In w works × (w.sample.device_id ≡ j))
      ⊎ All (λ w. (w.sample.device_id == j) ≡ false) works
works_of j [] = inr tt
works_of j (w ∷ works) = elim (Bool-cases (w.sample.device_id == j)) [
  | inl e ↦ inl (w, inl refl, (eq_iff w.sample.device_id j).0 e)
  | inr e ↦ elim (works_of j works) [
    | inl (v, i, f) ↦ inl (v, inr i, f)
    | inr none_of ↦ inr (e, none_of)
  ]
]

module _ {S P C : Type 0} (o : Store S) (laws : StoreLaws o) (svc : Service P C)
    (sprintf : String → Float64 → String → Float64 → String) (works : List Work) where
  pub From-moved :
      (s : Stage) (st : State S P C) → From works s → From works (move o svc sprintf s st).0
  unfolding move
  From-moved (received w) st i = elim (Result-cases (o.add_telemetry w.sample st.store).0) [
    | inl (_, e) ↦ rw e i
    | inr (_, e) ↦ rw e tt
  ]
  From-moved (stored w) st i = tt
  From-moved (marked w) st i = tt
  From-moved (cached w) st i = tt
  From-moved (alerting []) st i = tt
  From-moved (alerting (a ∷ l)) st i = elim (Result-cases (o.add_alert a st.store).0) [
    | inl (_, e) ↦ rw e tt
    | inr (_, e) ↦ rw e tt
  ]
  From-moved (raised a l) st i = tt
  From-moved returned st i = tt

  module _ (j : String) (d : Device) where
    abbrev pub Same : S → Type 0
    Same s = o.get_device j s ≡ ok d

    -- The device was marked by the sample of one of the works.
    abbrev pub IsMarked : S → Type 0
    IsMarked s =
        (w : Work) × In w works
        × (w.sample.device_id ≡ j)
        × (o.get_device j s ≡ ok (with_status status_online w.sample.timestamp d))

    -- The moves that do not write the status keep the device; the other writes that of its sample.
    pub get-moved :
        (s : Stage) (st : State S P C)
        → (o.get_device j (move o svc sprintf s st).1.store ≡ o.get_device j st.store)
          ⊎ ((w : Work) × (s ≡ stored w)
              × (w.sample.device_id ≡ j)
              × (o.get_device j (move o svc sprintf s st).1.store
                  ≡ map_ok
                      (with_status status_online w.sample.timestamp)
                      (o.get_device j st.store)))
    unfolding move
    get-moved (received w) st = inl (laws.get-telemetry w.sample j st.store)
    get-moved (stored w) st =
        let t = w.sample in
        let law = laws.get-status t.device_id status_online t.timestamp j st.store in
        elim (Bool-cases (t.device_id == j)) [
          | inl e ↦ inr (w, refl, (eq_iff t.device_id j).0 e, law ∙ rw e refl)
          | inr e ↦ inl (law ∙ rw e refl)
        ]
    get-moved (marked w) st = inl refl
    get-moved (cached w) st = inl refl
    get-moved (alerting []) st = inl refl
    get-moved (alerting (a ∷ l)) st = inl (laws.get-alert a j st.store)
    get-moved (raised a l) st = inl refl
    get-moved returned st = inl refl

    -- A later mark replaces an earlier one.
    marks :
        (w : Work) (s t : S)
        → IsTimed w
        → Same s ⊎ IsMarked s
        → o.get_device j t
          ≡ map_ok (with_status status_online w.sample.timestamp) (o.get_device j s)
        → o.get_device j t ≡ ok (with_status status_online w.sample.timestamp d)
    marks w s t set (inl e) h = h ∙ ap (map_ok _) e
    marks w s t set (inr (v, i, f, e)) h = h ∙ ap (map_ok _) e ∙ rw set refl

    -- The work is not marked yet.
    abbrev pub Waits : Work → List Stage → Type 0
    Waits w stages = In (received w) stages ⊎ In (stored w) stages

    abbrev pub IsOpen : Work → List Stage → S → Type 0
    IsOpen w stages s = IsMarked s ⊎ (Same s × Waits w stages)

    In-middle :
        (a s r : Stage) (before after : List Stage)
        → In a (before ++ s ∷ after)
        → (a ≡ s) ⊎ In a (before ++ r ∷ after)
    In-middle a s r before after i = elim (In-append a before (s ∷ after) i) [
      | inl b ↦ inr (In-append_left a before (r ∷ after) b)
      | inr (inl e) ↦ inl e
      | inr (inr c) ↦ inr (In-append_right a before (r ∷ after) (inr c))
    ]

    In-own : (r : Stage) (before after : List Stage) → In r (before ++ r ∷ after)
    In-own r before after = In-append_right r before (r ∷ after) (inl refl)

    module _ (set : All IsTimed works) (w : Work) (listed : In w works)
        (its : w.sample.device_id ≡ j) where
      -- The sample of a registered device is stored.
      received-moved :
          (st : State S P C) → Same st.store → (move o svc sprintf (received w) st).0 ≡ stored w
      unfolding move
      received-moved st e =
          let accepted : (o.add_telemetry w.sample st.store).0 ≡ ok tt =
            laws.telemetry_result w.sample st.store
            ∙ ap (λ i. needs (o.get_device i st.store)) its
            ∙ ap needs e in
          rw accepted refl

      stored-moved :
          (st : State S P C) → Same st.store → IsMarked (move o svc sprintf (stored w) st).1.store
      unfolding move
      stored-moved st e =
          let t = w.sample in
          let st' = (move o svc sprintf (stored w) st).1.store in
          (
            w,
            listed,
            its,
            marks w st.store st' (In-All IsTimed w works set listed) (inl e) (
                laws.get-status t.device_id status_online t.timestamp j st.store
                ∙ rw ((eq_iff t.device_id j).1 its) refl),
          )

      move-IsMarked :
          (s : Stage) (st : State S P C)
          → From works s
          → IsMarked st.store
          → IsMarked (move o svc sprintf s st).1.store
      move-IsMarked s st from (v, i, f, e) = elim (get-moved s st) [
        | inl h ↦ (v, i, f, h ∙ e)
        | inr (u, same, g, h) ↦
            let k = subst (From works) same from in
            (u, k, g, marks u st.store _ (In-All IsTimed u works set k) (inr (v, i, f, e)) h)
      ]

      -- The device as it was, with a work that still waits behind the move.
      move-Same :
          (s : Stage) (st : State S P C) (stages : List Stage)
          → From works s
          → Same st.store
          → Waits w stages
          → IsOpen w stages (move o svc sprintf s st).1.store
      move-Same s st stages from e waits = elim (get-moved s st) [
        | inl h ↦ inr (h ∙ e, waits)
        | inr (u, same, g, h) ↦
            let k = subst (From works) same from in
            inl (u, k, g, marks u st.store _ (In-All IsTimed u works set k) (inl e) h)
      ]

      pub move-IsOpen :
          (before after : List Stage) (s : Stage) (st : State S P C)
          → From works s
          → IsOpen w (before ++ s ∷ after) st.store
          → let r = move o svc sprintf s st in IsOpen w (before ++ r.0 ∷ after) r.1.store
      move-IsOpen before after s st from (inl m) = inl (move-IsMarked s st from m)
      move-IsOpen before after s st from (inr (e, inl i)) =
          let r = move o svc sprintf s st in
          elim (In-middle (received w) s r.0 before after i) [
            | inr k ↦ move-Same s st (before ++ r.0 ∷ after) from e (inl k)
            | inl same ↦
                let there : r.0 ≡ stored w =
                  ap (λ x. (move o svc sprintf x st).0) (sym same) ∙ received-moved st e in
                move-Same s st (before ++ r.0 ∷ after) from e
                  (inr (subst (λ x. In x (before ++ r.0 ∷ after)) there (In-own r.0 before after)))
          ]
      move-IsOpen before after s st from (inr (e, inr i)) =
          let r = move o svc sprintf s st in
          elim (In-middle (stored w) s r.0 before after i) [
            | inr k ↦ move-Same s st (before ++ r.0 ∷ after) from e (inr k)
            | inl same ↦
                inl
                  (subst (λ x. IsMarked (move o svc sprintf x st).1.store) same (stored-moved st e))
          ]
