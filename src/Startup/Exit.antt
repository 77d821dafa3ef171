-- ===== src/Startup/Exit.antt =====
-- That the shutdown of cmd/server/main.go comes to its end.

use iot_api.Common.{suc, ◌≡◌, ◌≢◌, refl, ap, List, [], ◌∷◌, ◌++◌, All, true, false, arith}
use iot_api.Models.{Telemetry}
use iot_api.Pool as Workers
use iot_api.Pool.{Pool, stop}
use iot_api.Pool.Drain.{left, Step-left, by_worker}
use iot_api.Pool.Alive.{alive-zero_eventually}
use iot_api.Configuration.{Config}
use iot_api.Startup.Process.{
  Deferred, cancel_context, close_mongo, stop_pool, close_redis, disconnect_bridge, cancel_shutdown,
  Phase, waiting, returning, stopping, exited, killed, Process, serving, shut_down, run_deferred,
  Step, pool_moves, signalled, returns, waited, exits, Reach, here, next,
}
use iot_api.Startup.Stages.{Early, Late, Stage, working, halting, ending}
use iot_api.Startup.Shutdown.{Reach-IsOrderly}

trans : {p q r : Process} → Reach p q → Reach q r → Reach p r
trans run here = run
trans run (next more s) = next (trans run more) s

-- The program can end from here.
abbrev Ends : Process → Type 0
Ends p = (q : Process) × Reach p q × (q.phase ≡ exited)

after : {p q : Process} → Step p q → Ends q → Ends p
after s (q, run, e) = (q, trans (next here s) run, e)

late-Ends :
    (p : Process) (calls : List Deferred)
    → p.phase ≡ returning
    → p.deferred ≡ calls
    → All Late calls
    → Ends p
unfolding run_deferred
late-Ends p [] r e l = (record p { phase = exited }, next here (exits r e), refl)
late-Ends p (cancel_context ∷ rest) r e l =
    after (returns cancel_context rest r e)
      (late-Ends (record p { deferred = rest; context_done = true }) rest r refl l.1)
late-Ends p (close_mongo ∷ rest) r e l =
    after (returns close_mongo rest r e)
      (late-Ends (record p { deferred = rest; mongo_open = false }) rest r refl l.1)
late-Ends p (stop_pool ∷ rest) r e l = absurd l.0
late-Ends p (close_redis ∷ rest) r e l = absurd l.0
late-Ends p (disconnect_bridge ∷ rest) r e l = absurd l.0
late-Ends p (cancel_shutdown ∷ rest) r e l = absurd l.0

-- The moves of the workers of a cancelled pool are moves of the program.
worker-Reach :
    (p : Process)
    → p.phase ≡ stopping
    → p.pool.cancelled ≡ true
    → (q r : Pool Telemetry) (s : Workers.Step q r) → by_worker s ≡ true
    → Reach p (record p { pool = q })
    → Reach p (record p { pool = r })
worker-Reach p h c q r s w run =
    next run (pool_moves (rw h (λ e. cc)) (rw h (λ e. cc)) s (Step-left q r s w).1)

halting-Ends :
    (p : Process) → p.phase ≡ stopping → p.pool.cancelled ≡ true → All Late p.deferred → Ends p
halting-Ends p h c l =
    let (pool, run, z) =
      alive-zero_eventually (λ q. Reach p (record p { pool = q })) (worker-Reach p h c)
        (suc (left p.pool)) p.pool (omega arith) c here in
    let (q, more, e) =
      late-Ends (record p { pool = pool; phase = returning }) p.deferred refl refl l in
    (q, trans (next run (waited h z)) more, e)

early-Ends :
    (p : Process) (early late : List Deferred)
    → p.phase ≡ returning
    → p.deferred ≡ early ++ stop_pool ∷ late
    → All Early early
    → All Late late
    → Ends p
unfolding run_deferred stop
early-Ends p [] late r e a l =
    after (returns stop_pool late r e) (
      halting-Ends (record p { deferred = late; pool = stop p.pool; phase = stopping }) refl refl l)
early-Ends p (close_redis ∷ early) late r e a l =
    after (returns close_redis (early ++ stop_pool ∷ late) r e) (
      early-Ends (record p { deferred = early ++ stop_pool ∷ late; redis_open = false }) early late
        r refl a.1 l)
early-Ends p (disconnect_bridge ∷ early) late r e a l =
    after (returns disconnect_bridge (early ++ stop_pool ∷ late) r e) (
      early-Ends (record p { deferred = early ++ stop_pool ∷ late; bridge_open = false }) early late
        r refl a.1 l)
early-Ends p (cancel_shutdown ∷ early) late r e a l =
    after (returns cancel_shutdown (early ++ stop_pool ∷ late) r e)
      (early-Ends (record p { deferred = early ++ stop_pool ∷ late }) early late r refl a.1 l)
early-Ends p (cancel_context ∷ early) late r e a l = absurd a.0
early-Ends p (close_mongo ∷ early) late r e a l = absurd a.0
early-Ends p (stop_pool ∷ early) late r e a l = absurd a.0

working-Ends :
    (p : Process) (phase : Phase) (early late : List Deferred)
    → p.phase ≡ phase
    → p.phase ≢ killed
    → p.phase ≢ stopping
    → p.deferred ≡ early ++ stop_pool ∷ late
    → All Early early
    → All Late late
    → Ends p
unfolding shut_down
working-Ends p waiting early late h k n e a l = after (signalled h) (
    early-Ends (shut_down p) (cancel_shutdown ∷ early) late refl (ap (◌∷◌ cancel_shutdown) e)
      (tt, a) l)
working-Ends p returning early late h k n e a l = early-Ends p early late h e a l
working-Ends p stopping early late h k n e a l = absurd (n h)
working-Ends p exited early late h k n e a l = (p, here, h)
working-Ends p killed early late h k n e a l = absurd (k h)

ending-Ends :
    (p : Process) (phase : Phase)
    → p.phase ≡ phase
    → p.phase ≢ killed
    → p.phase ≢ stopping
    → p.phase ≢ waiting
    → All Late p.deferred
    → Ends p
ending-Ends p waiting h k n m l = absurd (m h)
ending-Ends p returning h k n m l = late-Ends p p.deferred h refl l
ending-Ends p stopping h k n m l = absurd (n h)
ending-Ends p exited h k n m l = (p, here, h)
ending-Ends p killed h k n m l = absurd (k h)

stage-Ends : (p : Process) → p.phase ≢ killed → Stage p → Ends p
stage-Ends p k (working early late e a l n u) = working-Ends p p.phase early late refl k n e a l
stage-Ends p k (halting h c l u) = halting-Ends p h c l
stage-Ends p k (ending n m c a l) = ending-Ends p p.phase refl k n m l

-- The shutdown cannot get stuck: from every state that the program reaches, with whatever
-- configuration and however its goroutines have moved, it can come to the exit, unless
-- `log.Fatalf` has ended it.
pub serving-Exits :
    (cfg : Config) (p : Process)
    → Reach (serving cfg) p
    → p.phase ≢ killed
    → (q : Process) × Reach p q × (q.phase ≡ exited)
serving-Exits cfg p run k = stage-Ends p k (Reach-IsOrderly cfg p run).stage
