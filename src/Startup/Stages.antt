-- ===== src/Startup/Stages.antt =====
-- How far the shutdown of cmd/server/main.go has come, and that each step keeps this.
use mathlib.Core.Path.{subst}
use iot_api.Common.{◌≡◌, ◌≢◌, refl, sym, ap, ◌∙◌, true, false, List, [], ◌∷◌, ◌++◌, arith, All}
use iot_api.Models.{Telemetry}
use iot_api.Pool as Workers
use iot_api.Pool.{Pool, stop}
use iot_api.Pool.Bounds.{IsBounded}
use iot_api.Pool.Alive.{Step-Fewer}
use iot_api.Startup.Process.{
  Deferred, cancel_context, close_mongo, stop_pool, close_redis, disconnect_bridge, cancel_shutdown,
  waiting, returning, stopping, exited, killed, Process, shut_down, run_deferred,
}

-- The calls that are run before the pool is stopped.
abbrev pub Early : Deferred → Type 0
Early close_redis = Unit
Early disconnect_bridge = Unit
Early cancel_shutdown = Unit
Early _ = ⊥

-- The calls that are run after it.
abbrev pub Late : Deferred → Type 0
Late cancel_context = Unit
Late close_mongo = Unit
Late _ = ⊥

abbrev pub Untouched : Process → Type 0
Untouched p = (p.mongo_open ≡ true) × (p.context_done ≡ false)

-- How far the shutdown has come.
pub data Stage (p : Process) : Type 0 where
  working :
      (early late : List Deferred)
      → p.deferred ≡ early ++ stop_pool ∷ late
      → All Early early
      → All Late late
      → p.phase ≢ stopping
      → Untouched p
      → Stage p
  halting :
      p.phase ≡ stopping → p.pool.cancelled ≡ true → All Late p.deferred → Untouched p → Stage p
  ending :
      p.phase ≢ stopping
      → p.phase ≢ waiting
      → p.pool.cancelled ≡ true
      → p.pool.alive ≡ 0
      → All Late p.deferred
      → Stage p

pub record IsOrderly (p : Process) : Type 0 where
  pub bounded : IsBounded p.pool
  pub started : p.pool.started ≡ true
  pub stage : Stage p

∷-injective : {A : Type 0} (x y : A) (xs ys : List A) → x ∷ xs ≡ y ∷ ys → (x ≡ y) × (xs ≡ ys)
∷-injective x y xs ys h = (cc, cc)

Deferred-stage :
    (p : Process) (early late : List Deferred) (call : Deferred) (rest : List Deferred)
    → p.phase ≡ returning
    → p.deferred ≡ early ++ stop_pool ∷ late
    → p.deferred ≡ call ∷ rest
    → All Early early
    → All Late late
    → Untouched p
    → Stage (run_deferred call rest p)
unfolding run_deferred stop
Deferred-stage p [] late call rest r e f a l u =
    let (c, d) = ∷-injective call stop_pool rest late (sym f ∙ e) in
    rw (c, d) (halting refl refl l u)
Deferred-stage p (cancel_context ∷ early) late call rest r e f a l u = absurd a.0
Deferred-stage p (close_mongo ∷ early) late call rest r e f a l u = absurd a.0
Deferred-stage p (stop_pool ∷ early) late call rest r e f a l u = absurd a.0
Deferred-stage p (close_redis ∷ early) late call rest r e f a l u =
    let (c, d) = ∷-injective call close_redis rest (early ++ stop_pool ∷ late) (sym f ∙ e) in
    rw (c, d) (working early late refl a.1 l (rw r (λ h. cc)) u)
Deferred-stage p (disconnect_bridge ∷ early) late call rest r e f a l u =
    let (c, d) = ∷-injective call disconnect_bridge rest (early ++ stop_pool ∷ late) (sym f ∙ e) in
    rw (c, d) (working early late refl a.1 l (rw r (λ h. cc)) u)
Deferred-stage p (cancel_shutdown ∷ early) late call rest r e f a l u =
    let (c, d) = ∷-injective call cancel_shutdown rest (early ++ stop_pool ∷ late) (sym f ∙ e) in
    rw (c, d) (working early late refl a.1 l (rw r (λ h. cc)) u)

Late-stage :
    (p : Process) (call : Deferred) (rest : List Deferred)
    → p.phase ≡ returning
    → p.deferred ≡ call ∷ rest
    → p.pool.cancelled ≡ true
    → p.pool.alive ≡ 0
    → All Late (call ∷ rest)
    → Stage (run_deferred call rest p)
unfolding run_deferred
Late-stage p cancel_context rest r e c a l = ending (rw r (λ h. cc)) (rw r (λ h. cc)) c a l.1
Late-stage p close_mongo rest r e c a l = ending (rw r (λ h. cc)) (rw r (λ h. cc)) c a l.1
Late-stage p stop_pool rest r e c a l = absurd l.0
Late-stage p close_redis rest r e c a l = absurd l.0
Late-stage p disconnect_bridge rest r e c a l = absurd l.0
Late-stage p cancel_shutdown rest r e c a l = absurd l.0

pub returns-stage :
    (p : Process) (call : Deferred) (rest : List Deferred)
    → p.phase ≡ returning
    → p.deferred ≡ call ∷ rest
    → Stage p
    → Stage (run_deferred call rest p)
returns-stage p call rest r f (working early late e a l n u) =
    Deferred-stage p early late call rest r e f a l u
returns-stage p call rest r f (halting h c l u) = absurd (cc)
returns-stage p call rest r f (ending n m c a l) =
    Late-stage p call rest r f c a (subst (All Late) f l)

pub pool_moves-stage :
    (p : Process) (q : Pool Telemetry)
    → Workers.Step p.pool q
    → p.pool.started ≡ true
    → q.cancelled ≡ p.pool.cancelled
    → Stage p
    → Stage (record p { pool = q })
pool_moves-stage p q s on same (working early late e a l n u) = working early late e a l n u
pool_moves-stage p q s on same (halting h c l u) = halting h (same ∙ c) l u
pool_moves-stage p q s on same (ending n m c a l) =
    ending n m (same ∙ c) (omega (arith, a, (Step-Fewer p.pool q s on).1)) l

pub signalled-stage : (p : Process) → p.phase ≡ waiting → Stage p → Stage (shut_down p)
unfolding shut_down
signalled-stage p w (working early late e a l n u) =
    working (cancel_shutdown ∷ early) late (ap (◌∷◌ cancel_shutdown) e) (tt, a) l (λ h. cc) u
signalled-stage p w (halting h c l u) = absurd (cc)
signalled-stage p w (ending n m c a l) = absurd (m w)

pub waited-stage :
    (p : Process)
    → p.phase ≡ stopping
    → p.pool.alive ≡ 0
    → Stage p
    → Stage (record p { phase = returning })
waited-stage p w z (working early late e a l n u) = absurd (n w)
waited-stage p w z (halting h c l u) = ending (λ h. cc) (λ h. cc) c z l
waited-stage p w z (ending n m c a l) = absurd (n w)

pub exits-stage :
    (p : Process)
    → p.deferred ≡ []
    → p.phase ≡ returning
    → Stage p
    → Stage (record p { phase = exited })
exits-stage p d r (working [] late e a l n u) = absurd (cc)
exits-stage p d r (working (c ∷ early) late e a l n u) = absurd (cc)
exits-stage p d r (halting h c l u) = absurd (cc)
exits-stage p d r (ending n m c a l) = ending (λ h. cc) (λ h. cc) c a l

pub fails-stage : (p : Process) → p.phase ≡ waiting → Stage p → Stage (record p { phase = killed })
fails-stage p w (working early late e a l n u) = working early late e a l (λ h. cc) u
fails-stage p w (halting h c l u) = absurd (cc)
fails-stage p w (ending n m c a l) = absurd (m w)
