-- ===== src/Auth/Service/Accounts.antt =====
-- Creating, changing and deleting users (internal/auth/service.go), over any store that keeps the
-- contract of `UserStore`.
use iot_api.Common.{
  ℕ, String, ◌≡◌, ◌≢◌, sym, ap, ◌∙◌, inl, inr, Bool, true, false, Option, some, none, List, arith,
  if◌then◌else◌, ◌==◌, eq_iff, eq_refl, Bool-cases, Result-cases, Error, ok, err, not_found,
}
use iot_api.GoTime.{Time}
use iot_api.Models.{User}
use iot_api.Store.{UserStore}
use iot_api.Store.Laws.{UserStoreLaws, unless_owned}
use iot_api.Auth.Service.{
  Service, Bcrypt, UserDraw, is_weak, or_viewer, with_roles, create_user, ensure_user,
  with_password, update_user, delete_user, ensure_from, authenticate,
}

module _ {S : Type 0} (o : UserStore S) {Inv : S → Type 0} (laws : UserStoreLaws o Inv)
    (bcrypt : Bcrypt) (svc : Service) where
  -- `CreateUser` that succeeds made a user of the given name and roles, or of the viewer role, and
  -- `CreateUser` that fails made none.
  pub create_user-eq-ok :
      (username password : String) (roles : List String) (draw : UserDraw) (s : S) (u : User)
      → (create_user o bcrypt svc username password roles draw s).0 ≡ ok u
      → (is_weak password ≡ false)
        × (bcrypt.generate_from_password draw.salt password svc.bcrypt_cost ≡ ok u.password_hash)
        × (u.username ≡ username)
        × (u.roles ≡ or_viewer roles)
        × ((o.create_user u s).0 ≡ ok tt)
        × ((create_user o bcrypt svc username password roles draw s).1 ≡ (o.create_user u s).1)
        × (u.id ≡ draw.uuid)
  unfolding create_user
  create_user-eq-ok username password roles draw s u h = ground arith

  -- A user that was created can log in, if bcrypt accepts the passwords whose hashes it generates:
  -- the username finds the user, and the password matches.
  pub create_user-authenticate :
      (username password : String) (roles : List String) (draw : UserDraw) (s : S) (u : User)
      → ((salt p hash : String) (cost : ℕ)
          → bcrypt.generate_from_password salt p cost ≡ ok hash
          → bcrypt.compare_hash_and_password hash p ≡ true)
      → (create_user o bcrypt svc username password roles draw s).0 ≡ ok u
      → authenticate o bcrypt svc username password
          (create_user o bcrypt svc username password roles draw s).1
        ≡ ok u
  unfolding authenticate
  create_user-authenticate username password roles draw s u accepts h =
      let (_, hashed, named, _, made, same, _) =
        create_user-eq-ok username password roles draw s u h in
      let found = laws.named-create u s made in
      ground (arith, found, accepts draw.salt password u.password_hash svc.bcrypt_cost)

  -- A user creation that is refused leaves the store as it was.
  create_user-eq-err :
      (username password : String) (roles : List String) (draw : UserDraw) (s : S) (e : Error)
      → (create_user o bcrypt svc username password roles draw s).0 ≡ err e
      → (create_user o bcrypt svc username password roles draw s).1 ≡ s
  unfolding create_user
  create_user-eq-err username password roles draw s e h =
      elim (Result-cases (bcrypt.generate_from_password draw.salt password svc.bcrypt_cost)) [
        | inr (x, p) ↦ ground arith
        | inl (hash, p) ↦
            let u : User = record {
              id = draw.uuid;
              username = username;
              password_hash = hash;
              roles = or_viewer roles;
              created_at = draw.now;
            } in
            ground (arith, laws.create-eq-err u s e)
      ]

  ensure_user-found :
      (username password : String) (roles : List String) (draw : UserDraw) (s : S) (created : Bool)
      → (ensure_user o bcrypt svc username password roles draw s).0 ≡ ok created
      → (u : User) × (o.get_user_by_username username
            (ensure_user o bcrypt svc username password roles draw s).1
          ≡ ok u)
  unfolding ensure_user
  ensure_user-found username password roles draw s created h =
      elim (Result-cases (o.get_user_by_username username s)) [
        | inl (u, e) ↦ (u, ground arith)
        | inr (x, e) ↦
            elim (Result-cases (create_user o bcrypt svc username password roles draw s).0) [
              | inl (u, f) ↦
                  let (_, _, named, _, made, same, _) =
                    create_user-eq-ok username password roles draw s u f in
                  (u, ground (arith, laws.named-create u s made))
              | inr (y, f) ↦ absurd (ground arith)
            ]
      ]

  -- Where seeding a user succeeded, seeding it again does nothing, whatever password and roles are
  -- asked for then.
  pub ensure_user_twice :
      (username password password' : String) (roles roles' : List String) (draw draw' : UserDraw)
      (s : S) (created : Bool)
      → (ensure_user o bcrypt svc username password roles draw s).0 ≡ ok created
      → let s' = (ensure_user o bcrypt svc username password roles draw s).1 in
        ensure_user o bcrypt svc username password' roles' draw' s' ≡ (ok false, s')
  unfolding ensure_user
  ensure_user_twice username password password' roles roles' draw draw' s created h =
      let s' = (ensure_user o bcrypt svc username password roles draw s).1 in
      let (u, found) = ensure_user-found username password roles draw s created h in
      ap (λ r. ensure_from r (create_user o bcrypt svc username password' roles' draw') s') found

  -- What `UpdateUser` keeps and sets of the user that it read.
  pub record Revised (roles : Option (List String)) (password salt : String) (old u : User)
      : Type 0 where
    pub same_id : u.id ≡ old.id
    pub same_name : u.username ≡ old.username
    pub same_creation : u.created_at ≡ old.created_at
    pub new_roles : u.roles ≡ (with_roles roles old).roles
    pub kept_password : password ≡ "" → u.password_hash ≡ old.password_hash
    pub new_password :
        password ≢ ""
        → (is_weak password ≡ false)
          × (bcrypt.generate_from_password salt password svc.bcrypt_cost ≡ ok u.password_hash)

  with_password-Revised :
      (roles : Option (List String)) (password salt : String) (old u : User)
      → with_password bcrypt svc salt password (with_roles roles old) ≡ ok u
      → Revised roles password salt old u
  unfolding with_password
  with_password-Revised none password salt old u h = record {
    same_id = ground arith;
    same_name = ground arith;
    same_creation = ground arith;
    new_roles = ground arith;
    kept_password = λ e. ground (arith, eq_iff password "");
    new_password = λ n. ground (arith, eq_iff password "");
  }
  with_password-Revised (some roles) password salt old u h = record {
    same_id = ground arith;
    same_name = ground arith;
    same_creation = ground arith;
    new_roles = ground arith;
    kept_password = λ e. ground (arith, eq_iff password "");
    new_password = λ n. ground (arith, eq_iff password "");
  }

  update_user-eq-ok :
      (id : String) (roles : Option (List String)) (password salt : String) (s : S) (u : User)
      → (update_user o bcrypt svc id roles password salt s).0 ≡ ok u
      → (old : User) × (o.get_user_by_id id s ≡ ok old)
        × (with_password bcrypt svc salt password (with_roles roles old) ≡ ok u)
        × ((o.update_user u s).0 ≡ ok tt)
        × ((update_user o bcrypt svc id roles password salt s).1 ≡ (
            if password == ""
            then (o.update_user u s).1
            else (o.delete_user_refresh_tokens u.id (o.update_user u s).1).1))
  unfolding update_user
  update_user-eq-ok id roles password salt s u h = elim (Result-cases (o.get_user_by_id id s)) [
    | inr (x, e) ↦ absurd (ground arith)
    | inl (old, e) ↦
        elim (Result-cases (with_password bcrypt svc salt password (with_roles roles old))) [
          | inr (y, f) ↦ absurd (ground arith)
          | inl (v, f) ↦ (old, e, ground arith, ground arith, ground arith)
        ]
  ]

  -- In a state that the store's invariant admits, `UpdateUser` that succeeds read a stored user,
  -- set the roles if there were some to set and the password if one was given, and stored the
  -- result under the same identifier. A new password revokes all refresh tokens of that user, no
  -- other token is touched, and without a new password none is.
  update_user_lem :
      (id : String) (roles : Option (List String)) (password salt : String) (s : S) (u : User)
      → Inv s
      → (update_user o bcrypt svc id roles password salt s).0 ≡ ok u
      → let s' = (update_user o bcrypt svc id roles password salt s).1 in
        (old : User) × (o.get_user_by_id id s ≡ ok old)
        × Revised roles password salt old u
        × (o.get_user_by_id id s' ≡ ok u)
        × ((now : Time) (hash : String)
            → o.get_refresh_token now hash s' ≡ (
                if password == ""
                then o.get_refresh_token now hash s
                else unless_owned id (o.get_refresh_token now hash s)))
  update_user_lem id roles password salt s u inv h =
      let (old, found, changed, made, state) = update_user-eq-ok id roles password salt s u h in
      let revised = with_password-Revised roles password salt old u changed in
      let uid = revised.same_id ∙ laws.found-id id s old inv found in
      let stored =
        laws.get-update old u s (ap (λ j. o.get_user_by_id j s) uid ∙ found) (sym revised.same_name)
          (sym revised.same_creation) in
      (
        old,
        found,
        revised,
        rw state (elim (Bool-cases (password == "")) [
          | inl e ↦ rw e (ground (arith, stored, uid))
          | inr e ↦
              rw e
                (ground (arith, stored, uid, laws.by_id-revoke_all u.id id (o.update_user u s).1))
        ]),
        λ now hash. rw state (elim (Bool-cases (password == "")) [
          | inl e ↦ rw e (laws.token-update u now hash s)
          | inr e ↦ rw e (
              ground (
                arith,
                uid,
                laws.token-revoke_all u.id now hash (o.update_user u s).1 (laws.update-Inv u s inv),
                laws.token-update u now hash s,
              ))
        ]),
      )

  -- `UpdateUser` that fails has changed nothing.
  update_user-eq-err :
      (id : String) (roles : Option (List String)) (password salt : String) (s : S) (e : Error)
      → (update_user o bcrypt svc id roles password salt s).0 ≡ err e
      → (update_user o bcrypt svc id roles password salt s).1 ≡ s
  unfolding update_user
  update_user-eq-err id roles password salt s e h = elim (Result-cases (o.get_user_by_id id s)) [
    | inr (x, f) ↦ ground arith
    | inl (old, f) ↦
        elim (Result-cases (with_password bcrypt svc salt password (with_roles roles old))) [
          | inr (y, g) ↦ ground arith
          | inl (v, g) ↦ ground (arith, laws.update-eq-err v s e)
        ]
  ]

  -- In a state that the store's invariant admits, after `DeleteUser` succeeds the user is not
  -- found, the other users are as before, and exactly the tokens of the deleted user are gone.
  delete_user_lem :
      (id : String) (s : S)
      → Inv s
      → (delete_user o bcrypt svc id s).0 ≡ ok tt
      → let s' = (delete_user o bcrypt svc id s).1 in
        (o.get_user_by_id id s' ≡ err not_found)
        × ((j : String) → id ≢ j → o.get_user_by_id j s' ≡ o.get_user_by_id j s)
        × ((now : Time) (hash : String)
            → o.get_refresh_token now hash s' ≡ unless_owned id (o.get_refresh_token now hash s))
  unfolding delete_user
  delete_user_lem id s inv h = (
    laws.get-delete id id s ∙ rw eq_refl,
    λ j n. ground (arith, laws.get-delete id j s, eq_iff id j),
    λ now hash. laws.token-delete id now hash s inv h,
  )
