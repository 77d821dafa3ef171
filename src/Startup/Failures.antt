-- ===== src/Startup/Failures.antt =====
-- Why a start of cmd/server/main.go without MongoDB and Redis fails.
use iot_api.Common.{String, ◌≡◌, ◌≢◌, ◌⊎◌, true, List, err, Error, weak_password}
use iot_api.Store.{UserStore}
use iot_api.Store.Laws.{UserStoreLaws}
use iot_api.Store.Memory.Users
use iot_api.Auth.Service as Accounts
use iot_api.Auth.Service.{Bcrypt, UserDraw, is_weak, default_cost}
use iot_api.Configuration.{Config}

module _ {S : Type 0} (us : UserStore S) {Inv : S → Type 0} (laws : UserStoreLaws us Inv)
    (bcrypt : Bcrypt) (svc : Accounts.Service) (username password : String) (roles : List String)
    (draw : UserDraw) (s : S) (e : Error) where
  -- The password is too short, or bcrypt refuses it.
  abbrev Refused : Type 0
  Refused =
      ((is_weak password ≡ true) × (e ≡ weak_password))
      ⊎ (bcrypt.generate_from_password draw.salt password svc.bcrypt_cost ≡ err e)

module _ (bcrypt : Bcrypt) (draw : UserDraw) (cfg : Config) (e : Error) where
  abbrev Unseeded : Type 0
  Unseeded =
      (cfg.admin_password ≢ "")
      × (((is_weak cfg.admin_password ≡ true) × (e ≡ weak_password))
          ⊎ (bcrypt.generate_from_password draw.salt cfg.admin_password default_cost ≡ err e))
