-- ===== src/Startup/Seeding.antt =====
-- The admin user that cmd/server/main.go seeds.
use iot_api.Common.{
  ℕ, String, true, false, ◌≡◌, refl, ◌==◌, inl, inr, Result-cases, Bool-cases, some, List, [], ◌∷◌,
  ok, arith,
}
use iot_api.Models.{User, role_admin}
use iot_api.Store.{UserStore}
use iot_api.Store.Laws.{UserStoreLaws}
use iot_api.Auth.Service as Accounts
use iot_api.Auth.Service.{Bcrypt, UserDraw, create_user, ensure_user, authenticate}
use iot_api.Auth.Service.Accounts.{create_user-eq-ok, create_user-authenticate, ensure_user_twice}
use iot_api.Configuration.{Config}
use iot_api.Startup.{seed_admin}

module _ {S : Type 0} (us : UserStore S) {Inv : S → Type 0} (laws : UserStoreLaws us Inv)
    (bcrypt : Bcrypt) (svc : Accounts.Service) where
  -- A user that was seeded was created.
  ensure_user-Created :
      (username password : String) (roles : List String) (draw : UserDraw) (s : S)
      → (ensure_user us bcrypt svc username password roles draw s).0 ≡ ok true
      → (u : User) × ((create_user us bcrypt svc username password roles draw s).0 ≡ ok u)
        × ((ensure_user us bcrypt svc username password roles draw s).1
            ≡ (create_user us bcrypt svc username password roles draw s).1)
  unfolding ensure_user
  ensure_user-Created username password roles draw s h =
      elim (Result-cases (us.get_user_by_username username s)) [
        | inl (u, e) ↦ absurd (ground arith)
        | inr (x, e) ↦
            elim (Result-cases (create_user us bcrypt svc username password roles draw s).0) [
              | inl (u, f) ↦ (u, f, ground arith)
              | inr (y, f) ↦ absurd (ground arith)
            ]
      ]

  -- Over a user store that keeps its contract, with a bcrypt that accepts the passwords whose
  -- hashes it generates: where the start has created the admin user, this user can log in with the
  -- configured name and password, under the drawn identifier, and holds the admin role. A later start on this store, with
  -- whatever password, creates nobody and changes nothing.
  pub seed_admin-authenticate :
      (cfg : Config) (draw later : UserDraw) (password : String) (s : S)
      → ((salt p hash : String) (cost : ℕ)
          → bcrypt.generate_from_password salt p cost ≡ ok hash
          → bcrypt.compare_hash_and_password hash p ≡ true)
      → (seed_admin us bcrypt cfg draw (some svc) s).0 ≡ ok true
      → let s' = (seed_admin us bcrypt cfg draw (some svc) s).1 in
        (u : User) × (authenticate us bcrypt svc cfg.admin_username cfg.admin_password s' ≡ ok u)
        × (u.id ≡ draw.uuid)
        × (u.roles ≡ role_admin ∷ [])
        × (seed_admin us bcrypt (record cfg { admin_password = password }) later (some svc) s'
            ≡ (ok false, s'))
  unfolding seed_admin
  seed_admin-authenticate cfg draw later password s accepts =
      let admin = role_admin ∷ [] in
      let name = cfg.admin_username in
      let word = cfg.admin_password in
      elim (Bool-cases (cfg.admin_password == "")) [
        | inl e ↦ rw e (λ h. absurd (ground arith))
        | inr e ↦ rw e (λ h.
            let (u, made, same) = ensure_user-Created name word admin draw s h in
            let (_, _, _, roles, _, _, named) =
              create_user-eq-ok us laws bcrypt svc name word admin draw s u made in
            let known =
              create_user-authenticate us laws bcrypt svc name word admin draw s u accepts made in
            let again =
              ensure_user_twice us laws bcrypt svc name word password admin admin draw later s true
                h in
            (
              u,
              rw same known,
              named,
              roles,
              elim (Bool-cases (password == "")) [ inl f ↦ rw f refl | inr f ↦ rw f again ],
            ))
      ]
