-- ===== src/Startup/Process.antt =====
-- cmd/server/main.go from the start of the server to the end of the program: the calls that `main`
-- defers and the order in which they run, with the workers of the pool and its callers moving in
-- between.
use iot_api.Common.{
  ◌*◌, String, Bool, true, false, ◌==◌, ◌≡◌, ◌≢◌, if◌then◌else◌, List, [], ◌∷◌, ◌++◌,
}
use iot_api.Common.Int.{pos}
use iot_api.GoTime.{Duration, second}
use iot_api.Models.{Telemetry}
use iot_api.Pool as Workers
use iot_api.Pool.{Pool, stop}
use iot_api.Configuration.{Config}
use iot_api.Startup.{started_pool}

pub data Deferred : Type 0 where
  -- `cancel`, of the context of the reconciler and of the subscription to Redis.
  cancel_context : Deferred
  close_mongo : Deferred
  stop_pool : Deferred
  close_redis : Deferred
  disconnect_bridge : Deferred
  -- `shutdownCancel`.
  cancel_shutdown : Deferred

-- The calls deferred behind `defer pool.Stop()` are run before it, those in front of it after it.
abbrev pub before_stop : Config → List Deferred
before_stop cfg =
    (if cfg.mqtt_broker_url == "" then [] else disconnect_bridge ∷ [])
    ++ (if cfg.redis_addr == "" then [] else close_redis ∷ [])

abbrev pub after_stop : Config → List Deferred
after_stop cfg = (if cfg.mongo_uri == "" then [] else close_mongo ∷ []) ++ cancel_context ∷ []

-- What is deferred when the server is started, the last call first.
unfoldable pub deferred : Config → List Deferred
deferred cfg = before_stop cfg ++ stop_pool ∷ after_stop cfg

pub record HttpServer : Type 0 where
  pub addr : String
  pub read_timeout : Duration
  pub write_timeout : Duration
  pub idle_timeout : Duration

-- `http.Server`; its handler is that of Startup and Api/Routes.
unfoldable pub build_server : Config → HttpServer
build_server cfg = record {
  addr = cfg.http_addr;
  read_timeout = pos (15 * second);
  write_timeout = pos 0;
  idle_timeout = pos (60 * second);
}

-- Where `main` stands.
pub data Phase : Type 0 where
  -- It waits for a signal.
  waiting : Phase
  -- It has returned from `Shutdown`, and its deferred calls are run.
  returning : Phase
  -- `Stop` waits for the workers.
  stopping : Phase
  exited : Phase
  -- The program was ended by `log.Fatalf`.
  killed : Phase

pub record Process : Type 0 where
  pub phase : Phase
  -- The deferred calls that are not made yet.
  pub deferred : List Deferred
  pub pool : Pool Telemetry
  pub listening : Bool
  pub bridge_open : Bool
  pub redis_open : Bool
  pub mongo_open : Bool
  pub context_done : Bool

-- The state in which `main` begins to wait for a signal; what is not configured counts as open.
unfoldable pub serving : Config → Process
unfolding deferred
serving cfg = record {
  phase = waiting;
  deferred = deferred cfg;
  pool = started_pool cfg;
  listening = true;
  bridge_open = true;
  redis_open = true;
  mongo_open = true;
  context_done = false;
}

-- The signal arrives: `srv.Shutdown` closes the listener, with whatever result, and `main` returns.
unfoldable pub shut_down : Process → Process
shut_down p = record p {
  phase = returning;
  listening = false;
  deferred = cancel_shutdown ∷ p.deferred;
}

-- One deferred call, with those that remain. `Stop` cancels the pool, and then waits.
unfoldable pub run_deferred : Deferred → List Deferred → Process → Process
run_deferred cancel_context rest p = record p { deferred = rest; context_done = true }
run_deferred close_mongo rest p = record p { deferred = rest; mongo_open = false }
run_deferred stop_pool rest p = record p { deferred = rest; pool = stop p.pool; phase = stopping }
run_deferred close_redis rest p = record p { deferred = rest; redis_open = false }
run_deferred disconnect_bridge rest p = record p { deferred = rest; bridge_open = false }
run_deferred cancel_shutdown rest p = record p { deferred = rest }

pub data Step (p : Process) : Process → Type 0 where
  -- A worker moves, or a handler or the bridge submits a sample. Only `main` stops the pool.
  pool_moves :
      {q : Pool Telemetry}
      → p.phase ≢ exited
      → p.phase ≢ killed
      → Workers.Step p.pool q
      → q.cancelled ≡ p.pool.cancelled
      → Step p (record p { pool = q })
  signalled : p.phase ≡ waiting → Step p (shut_down p)
  returns :
      (call : Deferred) (rest : List Deferred)
      → p.phase ≡ returning
      → p.deferred ≡ call ∷ rest
      → Step p (run_deferred call rest p)
  -- The wait in `Stop` ends when no worker is alive.
  waited : p.phase ≡ stopping → p.pool.alive ≡ 0 → Step p (record p { phase = returning })
  exits : p.phase ≡ returning → p.deferred ≡ [] → Step p (record p { phase = exited })
  -- The server fails while it listens: `log.Fatalf` makes no deferred call.
  fails : p.phase ≡ waiting → p.listening ≡ true → Step p (record p { phase = killed })

pub data Reach (p : Process) : Process → Type 0 where
  here : Reach p p
  next : {q r : Process} → Reach p q → Step q r → Reach p r
