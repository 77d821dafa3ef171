-- ===== src/Api/Credentials.antt =====
-- A user that internal/api/handlers.go creates can log in.
use iot_api.Common.{
  ℕ, String, Bool-cases, true, ◌≡◌, refl, ap, ◌==◌, Result-cases, inl, inr, Option, some, List,
  Result, not_found, device_exists, duplicate_user, weak_password, invalid_credentials,
  invalid_token, external, ok, arith,
}
use iot_api.Http.{Request}
use iot_api.Models.{User}
use iot_api.Store.{UserStore}
use iot_api.Store.Laws.{UserStoreLaws}
use iot_api.Auth.{Claims, generate}
use iot_api.Auth.Service as Accounts
use iot_api.Auth.Service.{TokenPair}
use iot_api.Auth.Service.Accounts.{create_user-authenticate}
use iot_api.Api.{tokens, Environment, Draw, World, Handler, CreateUserRequest, LoginRequest}
use iot_api.Api.Users.{create_user}
use iot_api.Api.Sessions.{login}

-- The pair that is issued.
abbrev pub pair_of : Accounts.Service → String → String → TokenPair
pair_of svc access random = record {
  access_token = access;
  refresh_token = random;
  token_type = "Bearer";
  expires_in = Accounts.whole_seconds svc.tokens.ttl;
}

module _ {S P C : Type 0} (us : UserStore S) {Inv : S → Type 0} (laws : UserStoreLaws us Inv)
    (env : Environment) (h : Handler P C) (svc : Accounts.Service) where
  abbrev draws : Draw → Accounts.UserDraw
  draws draw = record { salt = draw.salt; uuid = draw.uuid; now = draw.now }

  abbrev creation : CreateUserRequest → Draw → World S P C → Result User × S
  creation req draw w =
      Accounts.create_user us env.bcrypt svc req.username req.password req.roles (draws draw)
        w.state.store

  create_user-Created :
      (draw : Draw) (id : String) (r : Request) (c : Option Claims) (w : World S P C)
      (req : CreateUserRequest)
      → h.auth_svc ≡ some svc
      → env.create_user_request r.body ≡ ok req
      → let out = create_user us env h draw id r c w in
        out.0.status ≡ 201
        → (u : User) × ((creation req draw w).0 ≡ ok u)
          × (out.1.state.store ≡ (creation req draw w).1)
  unfolding create_user
  create_user-Created draw id r c w req enabled decodes = rw enabled (
      rw decodes (elim (Bool-cases (req.username == "")) [
        | inl e ↦ rw e (λ h. absurd (omega arith))
        | inr e ↦ rw e (elim (Result-cases (creation req draw w).0) [
          | inl (u, made) ↦ λ h. (u, made, rw made refl)
          | inr (not_found, made) ↦ rw made (λ h. absurd (omega arith))
          | inr (device_exists, made) ↦ rw made (λ h. absurd (omega arith))
          | inr (duplicate_user, made) ↦ rw made (λ h. absurd (omega arith))
          | inr (weak_password, made) ↦ rw made (λ h. absurd (omega arith))
          | inr (invalid_credentials, made) ↦ rw made (λ h. absurd (omega arith))
          | inr (invalid_token, made) ↦ rw made (λ h. absurd (omega arith))
          | inr (external, made) ↦ rw made (λ h. absurd (omega arith))
        ])
      ]))

  pub login-Issued :
      (draw : Draw) (id : String) (r : Request) (c : Option Claims) (w : World S P C)
      (req : LoginRequest) (u : User) (access random : String)
      → h.auth_svc ≡ some svc
      → env.login_request r.body ≡ ok req
      → Accounts.authenticate us env.bcrypt svc req.username req.password w.state.store ≡ ok u
      → generate env.jwt svc.tokens draw.token.signed_at u.id u.roles ≡ ok access
      → Accounts.new_opaque_token env.crypto draw.token.random ≡ ok random
      → (login us env h draw id r c w).0
        ≡ record { status = 200; body = tokens (pair_of svc access random) }
  unfolding login Accounts.login Accounts.issue_tokens
  login-Issued draw id r c w req u access random enabled decodes known signed drawn =
      rw enabled
        (rw decodes (rw known (rw signed (rw drawn (rw (laws.store_result _ w.state.store) refl)))))

  -- Over a user store that keeps its contract, with user management enabled and a bcrypt that accepts
  -- the passwords whose hashes it generates: after a request that creates a user is answered with
  -- 201, a login with the same username and password is answered with 200, where randomness is at
  -- hand and access tokens can be signed.
  create_user-login :
      (draw later : Draw) (id : String) (r s : Request) (c b : Option Claims) (w : World S P C)
      (req : CreateUserRequest) (random : String)
      → h.auth_svc ≡ some svc
      → ((salt p hash : String) (cost : ℕ)
          → env.bcrypt.generate_from_password salt p cost ≡ ok hash
          → env.bcrypt.compare_hash_and_password hash p ≡ true)
      → env.create_user_request r.body ≡ ok req
      → env.login_request s.body ≡ ok (record { username = req.username; password = req.password })
      → Accounts.new_opaque_token env.crypto later.token.random ≡ ok random
      → ((subject : String) (roles : List String)
          → (access : String) × (generate env.jwt svc.tokens later.token.signed_at subject roles
              ≡ ok access))
      → let out = create_user us env h draw id r c w in
        out.0.status ≡ 201 → (login us env h later id s b out.1).0.status ≡ 200
  create_user-login draw later id r s c b w req random enabled accepts decodes asks drawn signs
        made =
      let out = create_user us env h draw id r c w in
      let (u, created, same) = create_user-Created draw id r c w req enabled decodes made in
      let known =
        create_user-authenticate us laws env.bcrypt svc req.username req.password req.roles
          (draws draw) w.state.store u accepts created in
      let (access, signed) = signs u.id u.roles in
      let asked : LoginRequest = record { username = req.username; password = req.password } in
      ap (λ o. o.status)
        (login-Issued later id s b out.1 asked u access random enabled asks (rw same known) signed
          drawn)
