-- ===== src/Service/Workers/Calls.antt =====
-- What one call of a worker of internal/service/service.go does to the devices and to the events that
-- are left to publish.

use iot_api.Common.{
  ◌≡◌, refl, ap, ◌∙◌, ◌⊎◌, inl, inr, String, List, [], ◌∷◌, map, arith, ok, ◌==◌, if◌then◌else◌,
  eq_iff, Result-cases,
}
use iot_api.Float64.{Float64}
use iot_api.Models.{Device, Event, status_online}
use iot_api.Store.{Store}
use iot_api.Store.Changes.{with_status}
use iot_api.Store.Laws.{StoreLaws, needs}
use iot_api.Alerts.{evaluate}
use iot_api.Service.{Service, State, telemetry_event, alert_event}
use iot_api.Service.Workers.{
  Work, Stage, received, stored, marked, cached, alerting, raised, returned, move,
}

module _ {P C : Type 0} (svc : Service P C)
    (sprintf : String → Float64 → String → Float64 → String) where
  -- The events of a sample: its own, and one for each alert that it raises.
  abbrev pub events : Work → List Event
  events w =
      telemetry_event w.sample ∷ map alert_event (evaluate sprintf w.draws w.sample svc.alerts)

  -- The events that are left to a worker whose device is registered.
  abbrev pub pending : Stage → List Event
  pending (received w) = events w
  pending (stored w) = events w
  pending (marked w) = events w
  pending (cached w) = events w
  pending (alerting l) = map alert_event l
  pending (raised a l) = alert_event a ∷ map alert_event l
  pending returned = []

-- What a worker in front of `AddTelemetry` relies on: the device of its sample is registered.
module _ {S : Type 0} (o : Store S) where
  abbrev pub IsRegistered : S → Work → Type 0
  IsRegistered s w = (d : Device) × (o.get_device w.sample.device_id s ≡ ok d)

  abbrev pub Ready : S → Stage → Type 0
  Ready s (received w) = IsRegistered s w
  Ready s _ = Unit

module _ {S P C : Type 0} (o : Store S) (laws : StoreLaws o) (svc : Service P C)
    (sprintf : String → Float64 → String → Float64 → String) where
  get-move :
      (s : Stage) (st : State S P C) (j : String) (d : Device)
      → o.get_device j st.store ≡ ok d
      → (d' : Device) × (o.get_device j (move o svc sprintf s st).1.store ≡ ok d')
  unfolding move
  get-move (received w) st j d h = (d, laws.get-telemetry w.sample j st.store ∙ h)
  get-move (stored w) st j d h =
      let t = w.sample in
      (
        if t.device_id == j then with_status status_online t.timestamp d else d,
        laws.get-status t.device_id status_online t.timestamp j st.store
            ∙ ground (arith, h, eq_iff t.device_id j),
      )
  get-move (marked w) st j d h = (d, h)
  get-move (cached w) st j d h = (d, h)
  get-move (alerting []) st j d h = (d, h)
  get-move (alerting (a ∷ l)) st j d h = (d, laws.get-alert a j st.store ∙ h)
  get-move (raised a l) st j d h = (d, h)
  get-move returned st j d h = (d, h)

  pub Ready-move :
      (s : Stage) (st : State S P C) (r : Stage)
      → Ready o st.store r
      → Ready o (move o svc sprintf s st).1.store r
  Ready-move s st (received w) h = get-move s st w.sample.device_id h.0 h.1
  Ready-move s st (stored w) h = tt
  Ready-move s st (marked w) h = tt
  Ready-move s st (cached w) h = tt
  Ready-move s st (alerting l) h = tt
  Ready-move s st (raised a l) h = tt
  Ready-move s st returned h = tt

  -- What a move does with the events that are left: it publishes none or the first.
  abbrev pub Publishes : Stage → State S P C → Type 0
  Publishes s st =
      let r = move o svc sprintf s st in
      ((pending svc sprintf r.0 ≡ pending svc sprintf s) × (r.1.published ≡ st.published))
      ⊎ ((e : Event) × (pending svc sprintf s ≡ e ∷ pending svc sprintf r.0)
          × (r.1.published ≡ svc.publisher.broadcast e st.published))

  pub move-Publishes : (s : Stage) (st : State S P C) → Ready o st.store s → Publishes s st
  unfolding move
  move-Publishes (received w) st h =
      let accepted : (o.add_telemetry w.sample st.store).0 ≡ ok tt =
        laws.telemetry_result w.sample st.store ∙ ap needs h.1 in
      rw accepted (inl (refl, refl))
  move-Publishes (stored w) st h = inl (refl, refl)
  move-Publishes (marked w) st h = inl (refl, refl)
  move-Publishes (cached w) st h = inr (telemetry_event w.sample, refl, refl)
  move-Publishes (alerting []) st h = inl (refl, refl)
  move-Publishes (alerting (a ∷ l)) st h = rw (laws.alert_result a st.store) (inl (refl, refl))
  move-Publishes (raised a l) st h = inr (alert_event a, refl, refl)
  move-Publishes returned st h = inl (refl, refl)

  pub Ready-moved : (s : Stage) (st : State S P C) (t : S) → Ready o t (move o svc sprintf s st).0
  unfolding move
  Ready-moved (received w) st t = elim (Result-cases (o.add_telemetry w.sample st.store).0) [
    | inl (_, e) ↦ rw e tt
    | inr (_, e) ↦ rw e tt
  ]
  Ready-moved (stored w) st t = tt
  Ready-moved (marked w) st t = tt
  Ready-moved (cached w) st t = tt
  Ready-moved (alerting []) st t = tt
  Ready-moved (alerting (a ∷ l)) st t = elim (Result-cases (o.add_alert a st.store).0) [
    | inl (_, e) ↦ rw e tt
    | inr (_, e) ↦ rw e tt
  ]
  Ready-moved (raised a l) st t = tt
  Ready-moved returned st t = tt
