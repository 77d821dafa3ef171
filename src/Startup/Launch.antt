-- ===== src/Startup/Launch.antt =====
-- cmd/server/main.go up to the serving of requests: each part is made in the order of `main`, and an
-- error of one ends the program (`log.Fatalf`).
use iot_api.Common.{
  ℕ, String, ◌≡◌, ◌⊎◌, inl, inr, Bool, Option, Result, ok, err, Error, Result-cases, Exec, arith,
}
use iot_api.Store.{UserStore}
use iot_api.Store.Memory.{MemoryStore}
use iot_api.Store.Memory.Users.{memory_user_store}
use iot_api.Store.Mongo.{MongoConfig}
use iot_api.Hub.{Channel}
use iot_api.Auth.Service.{Bcrypt, UserDraw}
use iot_api.Cache.{Client, Json}
use iot_api.Service.{Service}
use iot_api.Mqtt.{Bridge}
use iot_api.Api.{Handler}
use iot_api.Configuration.{Config}
use iot_api.Startup.{
  open_store, Published, build_service, auth_manager, auth_service, seed_admin, build_handler,
  build_bridge,
}
use iot_api.Startup.Process.{HttpServer, build_server, Process, serving}

-- What `main` has made when it begins to wait for a signal.
pub record Server (M R : Type 0) : Type 0 where
  pub store : M ⊎ MemoryStore
  pub published : Published R
  pub remote : R
  pub handler : Handler (Published R) R
  pub bridge : Option Bridge
  pub http : HttpServer
  pub process : Process

module _ {M R : Type 0} (open_mongo : MongoConfig → Result M) (mongo_users : UserStore M)
    (client : Client R) (json : Json) (bcrypt : Bcrypt) (idle : R) (channels : ℕ → Channel)
    (fresh_id : String) (draw : UserDraw) where
  -- `EnsureUser` on the store that was chosen.
  unfoldable pub seed_store : Config → Exec (M ⊎ MemoryStore) Bool
  seed_store cfg (inl m) =
      let r = seed_admin mongo_users bcrypt cfg draw (auth_service cfg (auth_manager cfg)) m in
      (r.0, inl r.1)
  seed_store cfg (inr s) =
      let r =
        seed_admin memory_user_store bcrypt cfg draw (auth_service cfg (auth_manager cfg)) s in
      (r.0, inr r.1)

  unfoldable pub launch : Config → Result (Server M R)
  launch cfg = elim (open_store open_mongo cfg) [
    | err e ↦ err e
    | ok store ↦ elim (build_service client json idle channels cfg) [
      | err e ↦ err e
      | ok (svc, published, remote) ↦
          let seeded = seed_store cfg store in
          elim seeded.0 [
            | err e ↦ err e
            | ok _ ↦ ok (record {
              store = seeded.1;
              published = published;
              remote = remote;
              handler = build_handler cfg svc;
              bridge = build_bridge fresh_id cfg;
              http = build_server cfg;
              process = serving cfg;
            })
          ]
    ]
  ]

  pub launch-seeded :
      (cfg : Config) (s : M ⊎ MemoryStore) (svc : Service (Published R) R) (published : Published R)
      (remote : R) (e : Error)
      → open_store open_mongo cfg ≡ ok s
      → build_service client json idle channels cfg ≡ ok (svc, published, remote)
      → launch cfg ≡ err e
      → (seed_store cfg s).0 ≡ err e
  unfolding launch
  launch-seeded cfg s svc published remote e f g = elim (Result-cases (seed_store cfg s).0) [
    | inr (x, k) ↦ rw (f, launch) (rw (g, launch) (rw (k, launch) (λ h. ground (arith, h))))
    | inl (y, k) ↦
        rw (f, launch) (rw (g, launch) (rw (k, launch) (λ h. absurd (ground (arith, h)))))
  ]
