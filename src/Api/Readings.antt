-- ===== src/Api/Readings.antt =====
-- internal/api/handlers.go: the ingestion of telemetry, and the reading of telemetry, statistics and
-- alerts.
use iot_api.Common.{
  String, Bool, true, false, ◌==◌, if◌then◌else◌, Option, none, some, List, [], ◌∷◌, Result, ok,
  err,
}
use iot_api.Common.Int.{ℤ, pos, negsuc}
use iot_api.Common.GoMap.{GoMap}
use iot_api.GoTime.{Time, zero_time, negate, add}
use iot_api.Float64.{Float64}
use iot_api.Http.{
  Request, query_get, Response, status_ok, status_accepted, status_bad_request, status_not_found,
  status_service_unavailable,
}
use iot_api.Models.{Telemetry}
use iot_api.Store.{Store}
use iot_api.Analytics.{Point, aggregate, time_series}
use iot_api.Pool.{Pool}
use iot_api.Service
use iot_api.Service.Queries as Queries
use iot_api.Api.{
  Body, strings, telemetry, alerts, analytics, TelemetryRequest, Environment, Draw, World, Handler,
  Endpoint, write_json, write_error, decoded,
}

abbrev pub no_metrics : GoMap Float64 → Bool
no_metrics [] = true
no_metrics (_ ∷ _) = false

abbrev pub time_of : Option Time → Time
time_of none = zero_time
time_of (some t) = t

-- The sample of a decoded body; without a time it has the zero time.
abbrev pub sample_of : String → TelemetryRequest → Telemetry
sample_of id body = record {
  device_id = id;
  timestamp = time_of body.timestamp;
  metrics = body.metrics;
}

module _ (env : Environment) where
  abbrev pub relative : Time → Result ℤ → Time
  relative now (ok d) = add now (negate d)
  relative now (err _) = zero_time

  abbrev pub absolute_or : Result Time → Time → Time
  absolute_or (ok t) other = t
  absolute_or (err _) other = other

  unfoldable pub parse_since : Time → Request → Time
  parse_since now r =
      let raw = query_get "since" r in
      if raw == ""
      then zero_time
      else absolute_or (env.parse_rfc3339 raw) (relative now (env.parse_duration raw))

  abbrev pub not_negative : Result ℤ → ℤ
  not_negative (ok (pos n)) = pos n
  not_negative (ok (negsuc _)) = pos 0
  not_negative (err _) = pos 0

  unfoldable pub parse_limit : Request → ℤ
  parse_limit r =
      let raw = query_get "limit" r in if raw == "" then pos 0 else not_negative (env.atoi raw)

module _ {S P C : Type 0} (o : Store S) (env : Environment) (h : Handler P C) (draw : Draw) where
  -- What the submission of a sample came to.
  abbrev pub answer_submission : Bool × Pool Telemetry → World S P C → Response Body × World S P C
  answer_submission (true, pool) w =
      write_json status_accepted (strings (("status", "accepted") ∷ [])) (record w { pool = pool })
  answer_submission (false, pool) w =
      write_error status_service_unavailable "ingestion queue unavailable"
        (record w { pool = pool })

  unfoldable pub ingest_telemetry : Endpoint S P C
  ingest_telemetry id r c w = elim (Service.get_device o h.svc id w.state) [
    | err _ ↦ write_error status_not_found "device not found" w
    | ok _ ↦
        decoded (env.telemetry_request r.body)
          (λ body w'.
            if no_metrics body.metrics
            then write_error status_bad_request "metrics are required" w'
            else answer_submission
                (draw.choose (Service.ingest_telemetry draw.now (sample_of id body) w'.pool)) w')
          w
  ]

  unfoldable pub get_telemetry : Endpoint S P C
  get_telemetry id r c w =
      write_json status_ok
        (telemetry
          (Queries.get_telemetry o id (parse_since env draw.now r) (parse_limit env r) w.state))
        w

  -- `if metric != ""`.
  abbrev pub series_of : String → List Telemetry → Option (List Point)
  series_of metric points = if metric == "" then none else some (time_series points metric)

  -- The field window is put into the answer and taken out again.
  unfoldable pub get_analytics : Endpoint S P C
  get_analytics id r c w =
      let points = Queries.get_telemetry_since o id (parse_since env draw.now r) w.state in
      write_json status_ok
        (analytics id (aggregate env.arithmetic points) (series_of (query_get "metric" r) points)) w

  unfoldable pub list_alerts : Endpoint S P C
  list_alerts id r c w =
      write_json status_ok (alerts (Queries.list_alerts o (query_get "device_id" r) w.state)) w
