-- ===== src/Service/Ingestion.antt =====
-- What `processTelemetry` of internal/service/service.go does, over any store that keeps its
-- contract.
use iot_api.Common.{
  ℕ, String, ◌≡◌, refl, ap, ◌∙◌, List, [], ◌∷◌, map, arith, if◌then◌else◌, ◌==◌, eq_iff, ok, err,
  Error,
}
use iot_api.Float64.{Float64}
use iot_api.Models.{Device, Telemetry, Alert, Event, status_online}
use iot_api.Store.{Store}
use iot_api.Store.Changes.{with_status}
use iot_api.Store.Laws.{StoreLaws, needs}
use iot_api.Alerts.{AlertDraw, evaluate}
use iot_api.Service.{
  Service, Publisher, State, telemetry_event, alert_event, raise_alert, raise_alerts, announce,
  process_telemetry,
}

-- Events given to a publisher one after the other.
abbrev pub publish_all : {P : Type 0} → Publisher P → List Event → P → P
publish_all p [] s = s
publish_all p (e ∷ es) s = publish_all p es (p.broadcast e s)

module _ {S P C : Type 0} (o : Store S) (laws : StoreLaws o) (svc : Service P C) where
  raise_alerts-published :
      (list : List Alert) (st : State S P C)
      → (raise_alerts o svc list st).published
        ≡ publish_all svc.publisher (map alert_event list) st.published
  unfolding raise_alerts raise_alert
  raise_alerts-published [] st = refl
  raise_alerts-published (a ∷ list) st =
      raise_alerts-published list (raise_alert o svc a st) ∙ rw (laws.alert_result a st.store) refl

  get-raise_alerts :
      (j : String) (list : List Alert) (st : State S P C)
      → o.get_device j (raise_alerts o svc list st).store ≡ o.get_device j st.store
  unfolding raise_alerts raise_alert
  get-raise_alerts j [] st = refl
  get-raise_alerts j (a ∷ list) st =
      get-raise_alerts j list (raise_alert o svc a st)
      ∙ rw (laws.alert_result a st.store) (laws.get-alert a j st.store)

  module _ (sprintf : String → Float64 → String → Float64 → String) (draws : ℕ → AlertDraw)
      (t : Telemetry) (st : State S P C) where
    -- Over a store that keeps its contract, a sample of a device that is not registered is dropped:
    -- no event is published, the cache is not written, and every device stays as it was.
    pub process_telemetry-refused :
        (e : Error)
        → o.get_device t.device_id st.store ≡ err e
        → let st' = process_telemetry o svc sprintf draws t st in
          (st'.published ≡ st.published)
          × (st'.cached ≡ st.cached)
          × ((j : String) → o.get_device j st'.store ≡ o.get_device j st.store)
    unfolding process_telemetry
    process_telemetry-refused e h =
        let refused : (o.add_telemetry t st.store).0 ≡ err e =
          laws.telemetry_result t st.store ∙ ap needs h in
        rw (refused) (refl, refl, λ j. laws.get-telemetry t j st.store)

    -- Over a store that keeps its contract, a sample of a registered device marks this device
    -- online, seen at the time of the sample if that is set, and changes no other device. The
    -- sample is published, and then each alert that it raises, in the order of the rules, and
    -- nothing else.
    pub process_telemetry_lem :
        (d : Device)
        → o.get_device t.device_id st.store ≡ ok d
        → let st' = process_telemetry o svc sprintf draws t st in
          ((j : String)
            → o.get_device j st'.store ≡ (
                if t.device_id == j
                then ok (with_status status_online t.timestamp d)
                else o.get_device j st.store))
          × (st'.published
              ≡ publish_all svc.publisher
                  (telemetry_event t ∷ map alert_event (evaluate sprintf draws t svc.alerts))
                  st.published)
    unfolding process_telemetry announce
    process_telemetry_lem d h =
        let stored : (o.add_telemetry t st.store).0 ≡ ok tt =
          laws.telemetry_result t st.store ∙ ap needs h in
        let st1 : State S P C = record st { store = (o.add_telemetry t st.store).1 } in
        let st2 = announce o svc t st1 in
        let alerts = evaluate sprintf draws t svc.alerts in
        rw stored (
          λ j.
              get-raise_alerts j alerts st2
              ∙ laws.get-status t.device_id status_online t.timestamp j st1.store
              ∙ ground (
                arith,
                h,
                eq_iff t.device_id j,
                laws.get-telemetry t j st.store,
                laws.get-telemetry t t.device_id st.store,
              ),
          raise_alerts-published alerts st2,
        )
