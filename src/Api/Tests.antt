-- ===== src/Api/Tests.antt =====
-- Runs of internal/api/handlers.go on the example.
use iot_api.Common.{
  ℕ, ◌≡◌, refl, ◌⊎◌, inl, inr, String, true, eq_iff, Option, none, [], ◌∷◌, ◌++◌, In, ok, err,
  invalid_token, arith,
}
use iot_api.Common.Int.{pos}
use iot_api.Common.GoMap.{lookup, insert}
use iot_api.Float64.{Float64}
use iot_api.GoStrings.{cut_prefix, trim_space}
use iot_api.Models.{Event, status_payload, Device, Telemetry, status_online}
use iot_api.Http.{Request}
use iot_api.Store.Memory.{MemoryStore, memory_store, create_device}
use iot_api.Store.Memory as Memory
use iot_api.Store.Memory.Users.{memory_user_store}
use iot_api.Store.Memory.Lifecycle.{memory_store-StoreLaws}
use iot_api.Auth.{Claims, parse}
use iot_api.Auth.Middleware.{is_public, extract_token}
use iot_api.Hub.{Hub, new_hub, subscribe}
use iot_api.Hub.Invariant.{IsOpen, subscribe-IsOpen}
use iot_api.Hub.Delivery.{broadcasts, subscribes}
use iot_api.Alerts.{AlertDraw}
use iot_api.Pool.{Pool, new_pool, submit, ready}
use iot_api.Service
use iot_api.Service.{State, process_telemetry}
use iot_api.Api.{device, TelemetryRequest, Draw, World}
use iot_api.Api.Readings.{ingest_telemetry}
use iot_api.Api.Devices.{register_device, get_device}
use iot_api.Api.Routes.{serve}
use iot_api.Api.Access.{serve-unauthenticated, serve-not_admin}
use iot_api.Api.Ingestion.{Sampled, Submission, ingest_telemetry-Submission}
use iot_api.Api.Reports.{ingest_telemetry-get_device}
use iot_api.Api.Websocket.{elsewhere, client_closed, takes, stream}
use iot_api.Api.Websocket.Streams.{Returns, stream-Returns}
use iot_api.Api.Example.{
  viewer, jwt, environment, manager, access, handler, first, draw, no_channel, world, mux,
  mux-MuxLaws,
}

abbrev request : String → String → String → Request
request method path authorization = record {
  method = method;
  path = path;
  authorization = authorization;
  query = [];
  body = "Fan";
}

abbrev anonymous : Request
anonymous = request "POST" "/api/devices" ""

refused : parse jwt manager 9 (extract_token anonymous) ≡ err invalid_token
unfolding parse extract_token lookup
refused = refl

-- Registering a device without a token.
serve-unauthenticated_example :
    let out =
      serve memory_store memory_user_store access environment handler draw mux anonymous world in
    (out.1 ≡ world)
    × ((out.0.status ≡ 401) ⊎ (out.0.status ≡ 301) ⊎ (out.0.status ≡ 404) ⊎ (out.0.status ≡ 405))
unfolding is_public
serve-unauthenticated_example =
    serve-unauthenticated memory_store memory_user_store access environment handler draw manager
      refl mux anonymous world refl invalid_token refused

abbrev by_viewer : Request
by_viewer = request "POST" "/api/devices" "Bearer ann's"

accepted : parse jwt manager 9 (extract_token by_viewer) ≡ ok viewer
unfolding parse extract_token cut_prefix trim_space
accepted = refl

lacks_admin : ¬ In "admin" viewer.roles
lacks_admin (inl e) = ground (arith, (eq_iff "admin" "viewer").1 e)
lacks_admin (inr i) = i

-- Registering a device as a viewer.
serve-not_admin_example :
    (serve memory_store memory_user_store access environment handler draw mux by_viewer
      world).1.state.store
    ≡ world.state.store
unfolding is_public
serve-not_admin_example =
    serve-not_admin memory_store memory_user_store access environment handler draw manager refl mux
      by_viewer world refl mux-MuxLaws viewer accepted lacks_admin

chosen : (t : Telemetry) → In (first (submit t world.pool)) (submit t world.pool)
unfolding submit ready new_pool
chosen t = inl refl

ingest_telemetry-Submission_example :
    Submission memory_store environment handler draw "pump" by_viewer world
      (ingest_telemetry memory_store environment handler draw "pump" by_viewer none world)
ingest_telemetry-Submission_example =
    ingest_telemetry-Submission memory_store environment handler draw "pump" by_viewer world none
      chosen

abbrev event : Event
event = record {
  event_type = "status";
  device_id = "fan";
  payload = status_payload [];
  timestamp = 9;
}

-- A hub with one subscriber.
abbrev hub : Hub
hub = (subscribe (new_hub (pos 1) no_channel)).0

hub-IsOpen : IsOpen hub
unfolding new_hub
hub-IsOpen = subscribe-IsOpen _ (record {
  distinct = tt;
  open_channel = λ ch i. absurd i;
  made = λ ch i. absurd i;
  bounded = λ ch l. absurd (omega arith);
})

stream-Returns_example : Returns 0 (
    stream
      (elsewhere (broadcasts event) ∷ takes true ∷ elsewhere subscribes ∷ client_closed ∷ [])
      0
      hub)
unfolding subscribe new_hub
stream-Returns_example =
    stream-Returns
      (elsewhere (broadcasts event) ∷ takes true ∷ elsewhere subscribes ∷ client_closed ∷ []) 0 hub
      hub-IsOpen (inl refl) (tt, (tt, (tt, (tt, tt)))) (inr (inr (inr (inl refl))))

abbrev with_fan : World MemoryStore Hub (Unit {0})
with_fan = (register_device memory_store environment handler draw "" by_viewer none world).1

chosen_then : (t : Telemetry) → In (first (submit t with_fan.pool)) (submit t with_fan.pool)
unfolding submit ready new_pool register_device Service.register_device Memory.create_device lookup
    insert
chosen_then t = inl refl

reports :
    (ingest_telemetry memory_store environment handler draw "fan" by_viewer none with_fan).0.status
    ≡ 202
unfolding ingest_telemetry Service.ingest_telemetry Service.get_device submit ready new_pool
    register_device Service.register_device Memory.create_device Memory.get_device lookup insert
reports = refl

ingest_telemetry-get_device_example :
    let out =
      ingest_telemetry memory_store environment handler draw "fan" by_viewer none with_fan in
    (body : TelemetryRequest) × (t : Telemetry) × (environment.telemetry_request by_viewer.body
      ≡ ok body)
    × Sampled memory_store environment handler draw "fan" by_viewer with_fan body t
    × (out.1 ≡ record {
      state = with_fan.state;
      pool = record with_fan.pool { queue = with_fan.pool.queue ++ t ∷ [] };
    })
    × ((sprintf : String → Float64 → String → Float64 → String) (draws : ℕ → AlertDraw)
          (later : Draw) (s : Request) (b : Option Claims) (d : Device)
          (st : State MemoryStore Hub (Unit {0})) (pool : Pool Telemetry)
        → Memory.get_device "fan" st.store ≡ ok d
        → let after : World MemoryStore Hub (Unit {0}) = record {
          state = process_telemetry memory_store handler.svc sprintf draws t st;
          pool = pool;
        } in
          get_device memory_store environment handler later "fan" s b after ≡ (
            record {
              status = 200;
              body = device (record d { status = status_online; last_seen_at = t.timestamp });
            },
            after,
          ))
ingest_telemetry-get_device_example =
    ingest_telemetry-get_device memory_store memory_store-StoreLaws environment handler refl draw
      "fan" by_viewer with_fan none (λ e. absurd (omega (arith, e))) chosen_then reports
