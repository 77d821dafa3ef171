-- ===== src/Api/Reports.antt =====
-- A sample on its way from the ingestion of internal/api/handlers.go through the pool and the service to
-- the next request for its device.
use mathlib.Core.Path.{ap₂}
use iot_api.Common.{
  Option-cases, Bool-cases, inl, inr, some, ℕ, String, ◌≡◌, ◌≢◌, refl, ap, ◌∙◌, false, Option, none,
  [], ◌∷◌, ◌++◌, In, eq_refl, ok, arith,
}
use iot_api.Float64.{Float64}
use iot_api.GoTime.{zero_time, is_zero}
use iot_api.Http.{Request, Response}
use iot_api.Models.{Device, Telemetry, status_online}
use iot_api.Store.{Store}
use iot_api.Store.Changes.{with_status}
use iot_api.Store.Laws.{StoreLaws}
use iot_api.Auth.{Claims}
use iot_api.Pool.{Pool, submit}
use iot_api.Alerts.{AlertDraw}
use iot_api.Service
use iot_api.Service.{State, process_telemetry}
use iot_api.Service.Ingestion.{process_telemetry_lem}
use iot_api.Api.{device, Body, TelemetryRequest, Environment, Draw, World, Handler}
use iot_api.Api.Devices.{get_device}
use iot_api.Api.Readings.{ingest_telemetry}
use iot_api.Api.Ingestion.{
  Sampled, Submission, queued, stopped, no_device, malformed, empty, ingest_telemetry-Submission,
}

module _ {S P C : Type 0} (o : Store S) (laws : StoreLaws o) (env : Environment) (h : Handler P C)
    (uncached : h.svc.cache ≡ none) (draw : Draw) (id : String) (r : Request)
    (w : World S P C) where
  -- The sample that a request was answered with 202 for. It stands last in the queue.
  abbrev Accepted : World S P C → Type 0
  Accepted w' =
      (body : TelemetryRequest) × (t : Telemetry) × (env.telemetry_request r.body ≡ ok body)
      × Sampled o env h draw id r w body t
      × (w' ≡ record { state = w.state; pool = record w.pool { queue = w.pool.queue ++ t ∷ [] } })

  Submission-Accepted :
      (out : Response Body × World S P C)
      → Submission o env h draw id r w out
      → out.0.status ≡ 202
      → Accepted out.1
  Submission-Accepted out (queued body t q n sampled room s pool state) a =
      (body, t, q, sampled, ap₂ (λ st p. record { state = st; pool = p }) state pool)
  Submission-Accepted out (stopped c s e) a = absurd (omega (arith, s, a))
  Submission-Accepted out (no_device e p s f) a = absurd (omega (arith, s, a))
  Submission-Accepted out (malformed e p s f) a = absurd (omega (arith, s, a))
  Submission-Accepted out (empty body p n s f) a = absurd (omega (arith, s, a))

  Sampled-timed :
      (body : TelemetryRequest) (t : Telemetry)
      → draw.now ≢ zero_time
      → Sampled o env h draw id r w body t
      → is_zero t.timestamp ≡ false
  unfolding is_zero
  Sampled-timed body t set sampled = elim (Option-cases body.timestamp) [
    | inl e ↦ ground (arith, set, sampled.now (inl e))
    | inr (at, e) ↦ elim (Bool-cases (is_zero at)) [
      | inl z ↦
          let z' : at ≡ zero_time = ground (arith, z) in
          ground (arith, set, sampled.now (inr (e ∙ ap some z')))
      | inr n ↦
          let n' : at ≢ zero_time = λ z. ground (arith, n, z) in
          ground (arith, n', sampled.given at e n')
    ]
  ]

  -- The device as its next reader sees it.
  shown :
      (sprintf : String → Float64 → String → Float64 → String) (draws : ℕ → AlertDraw)
      (later : Draw) (s : Request) (b : Option Claims) (t : Telemetry) (d : Device)
      (st : State S P C) (pool : Pool Telemetry)
      → t.device_id ≡ id
      → is_zero t.timestamp ≡ false
      → o.get_device id st.store ≡ ok d
      → let after : World S P C = record {
        state = process_telemetry o h.svc sprintf draws t st;
        pool = pool;
      } in
        get_device o env h later id s b after ≡ (
          record {
            status = 200;
            body = device (record d { status = status_online; last_seen_at = t.timestamp });
          },
          after,
        )
  unfolding get_device Service.get_device
  shown sprintf draws later s b t d st pool own timed found =
      let st' = process_telemetry o h.svc sprintf draws t st in
      let found' : o.get_device t.device_id st.store ≡ ok d =
        ap (λ j. o.get_device j st.store) own ∙ found in
      let marked : o.get_device id st'.store ≡ ok (with_status status_online t.timestamp d) =
        (process_telemetry_lem o laws h.svc sprintf draws t st d found').0 id
        ∙ rw (own, eq_refl id) refl in
      rw (marked, Service.get_device) (rw (uncached, Service.get_device) (rw timed refl))

  -- Over a store that keeps its contract, without a cache, with a clock that does not read the zero
  -- time, and where the select of a submission, for whatever sample, takes one of its ready cases: if
  -- a sample sent to the API is answered with 202, then a sample of the device of the path, with the
  -- metrics of the body and its time, or the time of the ingestion where the body has none or the zero
  -- time, was put at the end of the queue, and nothing else has changed. Once it is processed, in
  -- whatever state in which the device is registered, a request for the device is answered with 200
  -- and the device, online and last seen at the time of the sample, and changes nothing.
  pub ingest_telemetry-get_device :
      (c : Option Claims)
      → draw.now ≢ zero_time
      → ((t : Telemetry) → In (draw.choose (submit t w.pool)) (submit t w.pool))
      → let out = ingest_telemetry o env h draw id r c w in
        out.0.status ≡ 202
        → (body : TelemetryRequest) × (t : Telemetry) × (env.telemetry_request r.body ≡ ok body)
          × Sampled o env h draw id r w body t
          × (out.1
              ≡ record { state = w.state; pool = record w.pool { queue = w.pool.queue ++ t ∷ [] } })
          × ((sprintf : String → Float64 → String → Float64 → String) (draws : ℕ → AlertDraw)
                (later : Draw) (s : Request) (b : Option Claims) (d : Device) (st : State S P C)
                (pool : Pool Telemetry)
              → o.get_device id st.store ≡ ok d
              → let after : World S P C = record {
                state = process_telemetry o h.svc sprintf draws t st;
                pool = pool;
              } in
                get_device o env h later id s b after ≡ (
                  record {
                    status = 200;
                    body = device (record d { status = status_online; last_seen_at = t.timestamp });
                  },
                  after,
                ))
  ingest_telemetry-get_device c set takes accepted =
      let out = ingest_telemetry o env h draw id r c w in
      let (body, t, decodes, sampled, same) =
        Submission-Accepted out (ingest_telemetry-Submission o env h draw id r w c takes)
          accepted in
      (
        body,
        t,
        decodes,
        sampled,
        same,
        λ sprintf draws later s b d st pool found.
            shown sprintf draws later s b t d st pool sampled.device
              (Sampled-timed body t set sampled) found,
      )
