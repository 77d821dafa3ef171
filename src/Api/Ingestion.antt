-- ===== src/Api/Ingestion.antt =====
-- What the ingestion of internal/api/handlers.go answers.
use iot_api.Common.{
  String, ◌≡◌, ◌≢◌, refl, ap, ◌<◌, ◌⊎◌, inl, inr, Bool, true, false, Option, some, none, [], ◌∷◌,
  ◌++◌, In, Result-cases, Error, ok, err, arith, length,
}
use iot_api.Common.GoMap.{GoMap}
use iot_api.Float64.{Float64}
use iot_api.GoTime.{Time, zero_time, is_zero}
use iot_api.Http.{Request, Response}
use iot_api.Models.{Telemetry}
use iot_api.Store.{Store}
use iot_api.Auth.{Claims}
use iot_api.Pool.{Pool, submit, enqueue, ready}
use iot_api.Service
use iot_api.Service.{stamped}
use iot_api.Api.{Body, TelemetryRequest, Environment, Draw, World, Handler}
use iot_api.Api.Readings.{no_metrics, time_of, sample_of, ingest_telemetry}

submit-cases :
    (t : Telemetry) (p : Pool Telemetry) (c : Bool × Pool Telemetry)
    → In c (submit t p)
    → ((p.cancelled ≡ true) × (c ≡ (false, p)))
      ⊎ ((length p.queue < p.capacity) × (c ≡ (true, enqueue t p)))
unfolding submit ready
submit-cases t p c i = ground (arith, i)

no_metrics-cases :
    (metrics : GoMap Float64) → (metrics ≡ []) ⊎ ((metrics ≢ []) × (no_metrics metrics ≡ false))
no_metrics-cases [] = inl refl
no_metrics-cases (m ∷ metrics) = inr (λ e. ground (arith, ap no_metrics e), refl)

module _ {S P C : Type 0} (o : Store S) (env : Environment) (h : Handler P C) (draw : Draw)
    (id : String) (r : Request) (w : World S P C) where
  -- A sample of a body: of the device of the path, with the metrics of the body, and at the time of the
  -- body, or of its ingestion where the body has none or the zero time.
  pub record Sampled (body : TelemetryRequest) (t : Telemetry) : Type 0 where
    pub device : t.device_id ≡ id
    pub metrics : t.metrics ≡ body.metrics
    pub given : (at : Time) → body.timestamp ≡ some at → at ≢ zero_time → t.timestamp ≡ at
    pub now : (body.timestamp ≡ none) ⊎ (body.timestamp ≡ some zero_time) → t.timestamp ≡ draw.now

  stamped-Sampled : (body : TelemetryRequest) → Sampled body (stamped draw.now (sample_of id body))
  unfolding stamped is_zero
  stamped-Sampled body = record {
    device = ground arith;
    metrics = ground arith;
    given = λ at e n. ground (arith, ap time_of e, n);
    now = λ e. ground (arith, e);
  }

  -- How a submission of telemetry ends: the sample is at the end of the queue (202), or nothing has
  -- changed, for one of the reasons.
  pub data Submission (out : Response Body × World S P C) : Type 0 where
    queued :
        (body : TelemetryRequest) (t : Telemetry)
        → env.telemetry_request r.body ≡ ok body
        → body.metrics ≢ []
        → Sampled body t
        → length w.pool.queue < w.pool.capacity
        → out.0.status ≡ 202
        → out.1.pool ≡ record w.pool { queue = w.pool.queue ++ t ∷ [] }
        → out.1.state ≡ w.state
        → Submission out
    stopped : w.pool.cancelled ≡ true → out.0.status ≡ 503 → out.1 ≡ w → Submission out
    no_device :
        (e : Error)
        → Service.get_device o h.svc id w.state ≡ err e
        → out.0.status ≡ 404
        → out.1 ≡ w
        → Submission out
    malformed :
        (e : Error)
        → env.telemetry_request r.body ≡ err e
        → out.0.status ≡ 400
        → out.1 ≡ w
        → Submission out
    empty :
        (body : TelemetryRequest)
        → env.telemetry_request r.body ≡ ok body
        → body.metrics ≡ []
        → out.0.status ≡ 400
        → out.1 ≡ w
        → Submission out

  -- Where the select of a submission, for whatever sample, takes one of its ready cases, a request to
  -- ingest telemetry is answered with 202 only if a sample was put at the end of a queue with room for
  -- it, and nothing else has changed: a sample of the device of the path, with the metrics of the body
  -- and its time, or the time of the ingestion where the body has none or the zero time. The answer 503
  -- means that the pool is stopped, 404 that looking the device up failed, with whatever error, 400
  -- that the body is not valid or has no metrics, and these change nothing.
  pub ingest_telemetry-Submission :
      (c : Option Claims)
      → ((t : Telemetry) → In (draw.choose (submit t w.pool)) (submit t w.pool))
      → Submission (ingest_telemetry o env h draw id r c w)
  unfolding ingest_telemetry Service.ingest_telemetry
  ingest_telemetry-Submission c takes =
      elim (Result-cases (Service.get_device o h.svc id w.state)) [
        | inr (e, p) ↦ rw (p, ingest_telemetry) (no_device e p refl refl)
        | inl (d, p) ↦
            rw (p, ingest_telemetry)
              (elim (Result-cases (env.telemetry_request r.body)) [
                | inr (e, q) ↦ rw q (malformed e q refl refl)
                | inl (body, q) ↦ rw q (elim (no_metrics-cases body.metrics) [
                  | inl none_there ↦ rw none_there (empty body q none_there refl refl)
                  | inr (some_there, filled) ↦
                      rw filled
                        (elim (submit-cases (stamped draw.now (sample_of id body)) w.pool _
                          (takes (stamped draw.now (sample_of id body)))) [
                            | inl (cancelled, e) ↦ rw e (stopped cancelled refl refl)
                            | inr (room, e) ↦ rw e (
                                queued body (stamped draw.now (sample_of id body)) q some_there
                                  (stamped-Sampled body) room refl refl refl)
                          ])
                ])
              ])
      ]
