-- ===== src/Startup/Shutdown.antt =====
-- The order in which the shutdown of cmd/server/main.go ends the parts of the server.

use iot_api.Common.{
  ◌+◌, ◌<◌, ◌≡◌, refl, Bool, true, false, List, [], ◌∷◌, arith, length, All, All-append, ◌==◌,
  if◌then◌else◌,
}
use iot_api.Pool as Workers
use iot_api.Pool.{Pool, new_pool, start, stop}
use iot_api.Pool.Bounds.{IsBounded, Step-IsBounded, stop-IsBounded, Reach-IsBounded}
use iot_api.Pool.Alive.{Step-Fewer}
use iot_api.Configuration.{Config}
use iot_api.Startup.{started_pool}
use iot_api.Startup.Process.{
  Deferred, cancel_context, close_mongo, stop_pool, close_redis, disconnect_bridge, cancel_shutdown,
  before_stop, after_stop, deferred, Process, serving, shut_down, run_deferred, Step, pool_moves,
  signalled, returns, waited, exits, fails, Reach, here, next,
}
use iot_api.Startup.Stages.{
  Early, Late, Untouched, Stage, working, halting, ending, IsOrderly, returns-stage,
  pool_moves-stage, signalled-stage, waited-stage, exits-stage, fails-stage,
}

run_deferred-IsBounded :
    (p : Process) (call : Deferred) (rest : List Deferred)
    → IsBounded p.pool
    → IsBounded (run_deferred call rest p).pool
unfolding run_deferred
run_deferred-IsBounded p stop_pool rest v = stop-IsBounded p.pool v
run_deferred-IsBounded p cancel_context rest v = v
run_deferred-IsBounded p close_mongo rest v = v
run_deferred-IsBounded p close_redis rest v = v
run_deferred-IsBounded p disconnect_bridge rest v = v
run_deferred-IsBounded p cancel_shutdown rest v = v

run_deferred-started :
    (p : Process) (call : Deferred) (rest : List Deferred)
    → p.pool.started ≡ true
    → (run_deferred call rest p).pool.started ≡ true
unfolding run_deferred stop
run_deferred-started p stop_pool rest v = v
run_deferred-started p cancel_context rest v = v
run_deferred-started p close_mongo rest v = v
run_deferred-started p close_redis rest v = v
run_deferred-started p disconnect_bridge rest v = v
run_deferred-started p cancel_shutdown rest v = v

stage-open : (p : Process) → Stage p → 0 < p.pool.alive → Untouched p
stage-open p (working early late e a l n u) z = u
stage-open p (halting h c l u) z = u
stage-open p (ending n m c a l) z = absurd (omega (arith, a, z))

Step-IsOrderly : (p q : Process) → Step p q → IsOrderly p → IsOrderly q
unfolding shut_down run_deferred
Step-IsOrderly p q (pool_moves {q = r} x k s same) v = record {
  bounded = Step-IsBounded p.pool r s v.bounded;
  started = (Step-Fewer p.pool r s v.started).0;
  stage = pool_moves-stage p r s v.started same v.stage;
}
Step-IsOrderly p q (signalled w) v = record {
  bounded = v.bounded;
  started = v.started;
  stage = signalled-stage p w v.stage;
}
Step-IsOrderly p q (returns call rest r e) v = record {
  bounded = run_deferred-IsBounded p call rest v.bounded;
  started = run_deferred-started p call rest v.started;
  stage = returns-stage p call rest r e v.stage;
}
Step-IsOrderly p q (waited w z) v = record {
  bounded = v.bounded;
  started = v.started;
  stage = waited-stage p w z v.stage;
}
Step-IsOrderly p q (exits r d) v = record {
  bounded = v.bounded;
  started = v.started;
  stage = exits-stage p d r v.stage;
}
Step-IsOrderly p q (fails w l) v = record {
  bounded = v.bounded;
  started = v.started;
  stage = fails-stage p w v.stage;
}

All-if : (P : Deferred → Type 0) (b : Bool) (d : Deferred) → P d → All P (if b then [] else d ∷ [])
All-if P true d h = tt
All-if P false d h = (h, tt)

serving-IsOrderly : (cfg : Config) → IsOrderly (serving cfg)
unfolding serving deferred started_pool start new_pool
serving-IsOrderly cfg = record {
  bounded =
      Reach-IsBounded cfg.workers cfg.queue_size (started_pool cfg)
        (Workers.next Workers.here Workers.starts);
  started = refl;
  stage =
      working (before_stop cfg) (after_stop cfg) refl
        (All-append Early _ _ (All-if Early (cfg.mqtt_broker_url == "") disconnect_bridge tt)
          (All-if Early (cfg.redis_addr == "") close_redis tt))
        (All-append Late _ _ (All-if Late (cfg.mongo_uri == "") close_mongo tt) (tt, tt)) (λ h. cc)
        (refl, refl);
}

pub Reach-IsOrderly : (cfg : Config) (p : Process) → Reach (serving cfg) p → IsOrderly p
Reach-IsOrderly cfg p here = serving-IsOrderly cfg
Reach-IsOrderly cfg p (next {q = r} run s) = Step-IsOrderly r p s (Reach-IsOrderly cfg r run)

-- Whatever is configured, whenever the signal comes, and however the workers and those who submit
-- samples move in between: while a worker is alive or a sample is being processed, the connection to
-- MongoDB is open and the context of the goroutines of the service is not cancelled.
pub alive-open :
    (cfg : Config) (p : Process)
    → Reach (serving cfg) p
    → 0 < p.pool.alive + length p.pool.running
    → (p.mongo_open ≡ true) × (p.context_done ≡ false)
alive-open cfg p run a =
    let v = Reach-IsOrderly cfg p run in stage-open p v.stage (omega (arith, a, v.bounded.running))
