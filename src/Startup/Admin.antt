-- ===== src/Startup/Admin.antt =====
-- The admin user that cmd/server/main.go seeds, in front of the handlers of internal/api/handlers.go.
use mathlib.Core.Path.{subst}
use iot_api.Common.{ℕ, ◌<◌, String, ◌≡◌, ap, ◌∙◌, Bool, true, Option, some, [], ◌∷◌, Result, ok}
use iot_api.GoTime.{Time, add}
use iot_api.Http.{Request}
use iot_api.Models.{role_admin}
use iot_api.Store.{UserStore}
use iot_api.Store.Laws.{UserStoreLaws}
use iot_api.Auth.{Claims, Manager, generate, parse, claims_at}
use iot_api.Auth.Credentials.{JwtLaws, parse-generate}
use iot_api.Auth.Service as Accounts
use iot_api.Auth.Service.{TokenPair, UserDraw}
use iot_api.Service.{Service}
use iot_api.Api.{tokens, Environment, Draw, World}
use iot_api.Api.Sessions.{login}
use iot_api.Api.Credentials.{login-Issued, pair_of}
use iot_api.Configuration.{Config}
use iot_api.Startup.{auth_manager, auth_service, seed_admin, build_handler}
use iot_api.Startup.Seeding.{seed_admin-authenticate}

module _ {S : Type 0} (us : UserStore S) {Inv : S → Type 0} (laws : UserStoreLaws us Inv)
    (env : Environment) (jwt_laws : JwtLaws env.jwt) (cfg : Config) (m : Manager)
    (enabled : auth_manager cfg ≡ some m) where
  abbrev accounts : Accounts.Service
  accounts = Accounts.new_service m cfg.refresh_ttl

  abbrev seeding : UserDraw → S → Result Bool × S
  seeding draw s = seed_admin us env.bcrypt cfg draw (auth_service cfg (auth_manager cfg)) s

  -- Over a user store, a JWT library and a bcrypt that keep their contracts: let a start with a JWT
  -- secret create the admin user. Then a login with the configured name and password is answered
  -- with 200 and a token pair, where randomness is at hand and the access token can be signed and holds
  -- its times, and the
  -- access token is accepted before the truncated end of its lifetime, for claims with the admin role only.
  pub seed_admin-login :
      {P C : Type 0} (draw : UserDraw) (at : Draw) (id : String) (r : Request) (c : Option Claims)
      (svc : Service P C) (s : S) (w : World S P C) (random access : String)
      → (seeding draw s).0 ≡ ok true
      → w.state.store ≡ (seeding draw s).1
      → ((salt p hash : String) (cost : ℕ)
          → env.bcrypt.generate_from_password salt p cost ≡ ok hash
          → env.bcrypt.compare_hash_and_password hash p ≡ true)
      → env.login_request r.body
        ≡ ok (record { username = cfg.admin_username; password = cfg.admin_password })
      → Accounts.new_opaque_token env.crypto at.token.random ≡ ok random
      → jwt_laws.Holds (env.jwt.numeric_date at.token.signed_at)
      → jwt_laws.Holds (env.jwt.numeric_date (add at.token.signed_at m.ttl))
      → generate env.jwt m at.token.signed_at draw.uuid (role_admin ∷ []) ≡ ok access
      → (pair : TokenPair) × (claims : Claims) × ((login us env
            (build_handler cfg svc)
            at
            id
            r
            c
            w).0
          ≡ record { status = 200; body = tokens pair })
        × ((later : Time)
            → later < env.jwt.numeric_date (add at.token.signed_at m.ttl)
            → parse env.jwt m later pair.access_token ≡ ok claims)
        × (claims.roles ≡ role_admin ∷ [])
  unfolding build_handler Accounts.new_service
  seed_admin-login draw at id r c svc s w random access seeded here accepts asks drawn start end
        signs =
      let same : auth_service cfg (auth_manager cfg) ≡ some accounts =
        ap (auth_service cfg) enabled in
      let first = λ (v : Option Accounts.Service). seed_admin us env.bcrypt cfg draw v s in
      let (u, known, drawn_id, roles, _) =
        seed_admin-authenticate us laws env.bcrypt accounts cfg draw draw "" s accepts
          (subst (λ v. (first v).0 ≡ ok true) same seeded) in
      let there : w.state.store ≡ (first (some accounts)).1 = here ∙ ap (λ v. (first v).1) same in
      let signed : generate env.jwt m at.token.signed_at u.id u.roles ≡ ok access =
        ap (λ n. generate env.jwt m at.token.signed_at n u.roles) drawn_id
        ∙ ap (generate env.jwt m at.token.signed_at draw.uuid) roles
        ∙ signs in
      (
        pair_of accounts access random,
        claims_at env.jwt m at.token.signed_at u.id u.roles,
        login-Issued us laws env (build_handler cfg svc) accounts at id r c w _ u access random same
            asks (rw there known) signed drawn,
        λ later early.
            parse-generate env.jwt jwt_laws m at.token.signed_at later u.id u.roles access start end
              signed early,
        roles,
      )
