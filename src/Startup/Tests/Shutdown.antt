-- ===== src/Startup/Tests/Shutdown.antt =====
-- A shutdown of cmd/server/main.go while a sample is being processed.
use iot_api.Common.{◌≡◌, refl, inl, true, false, arith, [], ◌∷◌}
use iot_api.Common.Int.{pos}
use iot_api.Models.{Telemetry}
use iot_api.Configuration.{Config, load}
use iot_api.Pool as Workers
use iot_api.Pool.{Pool, new_pool, positive_or}
use iot_api.Startup.{started_pool}
use iot_api.Startup.Process.{
  Process, stopping, exited, Reach, here, next, cancel_context, close_mongo, stop_pool, close_redis,
  disconnect_bridge, cancel_shutdown, deferred, serving, shut_down, run_deferred, pool_moves,
  signalled, returns,
}
use iot_api.Startup.Shutdown.{alive-open}
use iot_api.Startup.Exit.{serving-Exits}
use iot_api.Startup.Tests.{config}

-- The server with Redis, MongoDB and a bridge, one worker and room for one sample.
abbrev full_config : Config
full_config = record config {
  redis_addr = "redis";
  mongo_uri = "mongo";
  mqtt_broker_url = "mqtt";
  workers = pos 1;
  queue_size = pos 1;
}

abbrev stored : Telemetry
stored = record { device_id = "pump"; timestamp = 8; metrics = [] }

-- A sample is submitted and taken, the signal comes, the bridge and Redis are closed, and `Stop`
-- waits for the worker.
abbrev busy_pool : Pool Telemetry
busy_pool = record (started_pool full_config) { running = stored ∷ [] }

abbrev waits : Process
waits = record (serving full_config) {
  phase = stopping;
  pool = Workers.stop busy_pool;
  deferred = close_mongo ∷ cancel_context ∷ [];
  listening = false;
  bridge_open = false;
  redis_open = false;
}

waits-Reach : Reach (serving full_config) waits
unfolding serving deferred shut_down run_deferred started_pool new_pool positive_or Workers.start
    Workers.submit Workers.ready Workers.worker_select load
waits-Reach =
    next
      (next
        (next
          (next
            (next
              (next
                (next here (
                  pool_moves {q = Workers.enqueue stored (started_pool full_config)} (λ e. cc)
                    (λ e. cc) (Workers.submits stored true (inl refl)) refl))
                (pool_moves {q = busy_pool} (λ e. cc) (λ e. cc)
                  (Workers.selects (omega arith) (inl refl)) refl))
              (signalled refl))
            (returns cancel_shutdown _ refl refl))
          (returns disconnect_bridge _ refl refl))
        (returns close_redis _ refl refl))
      (returns stop_pool _ refl refl)

alive-open_example : (waits.mongo_open ≡ true) × (waits.context_done ≡ false)
unfolding serving started_pool new_pool Workers.stop Workers.start positive_or
alive-open_example = alive-open full_config waits waits-Reach (omega arith)

serving-Exits_example : (q : Process) × Reach waits q × (q.phase ≡ exited)
serving-Exits_example = serving-Exits full_config waits waits-Reach (λ e. cc)
