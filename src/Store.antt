-- ===== src/Store.antt =====
-- internal/store: the persistence contracts that the services are written against, as interfaces.
-- `store.go` declares `Store`, `users.go` declares `UserStore`. A method that mutates the store is
-- an `Exec`, one that only reads takes the store last.
pub mod Changes
pub mod Laws
pub mod Memory
pub mod Mongo
use iot_api.Common.{String, List, Result, Exec}
use iot_api.Common.Int.{ℤ}
use iot_api.Common.GoMap.{GoMap}
use iot_api.GoTime.{Time}
use iot_api.Models.{Device, DeviceStatus, Telemetry, Alert, User, RefreshToken}

pub record Store (S : Type 0) : Type 0 where
  pub create_device : Device → Exec S (Unit {0})
  pub get_device : String → S → Result Device
  pub list_devices : S → List Device
  pub update_device : String → String → String → String → GoMap String → Exec S (Unit {0})
  pub update_device_status : String → DeviceStatus → Time → Exec S (Unit {0})
  pub delete_device : String → Exec S (Unit {0})
  pub add_telemetry : Telemetry → Exec S (Unit {0})
  pub get_telemetry : String → Time → ℤ → S → List Telemetry
  pub add_alert : Alert → Exec S (Unit {0})
  pub list_alerts : String → S → List Alert

-- `get_refresh_token` reads the clock: its first argument is the time of the call.
pub record UserStore (S : Type 0) : Type 0 where
  pub create_user : User → Exec S (Unit {0})
  pub get_user_by_username : String → S → Result User
  pub get_user_by_id : String → S → Result User
  pub list_users : S → List User
  pub update_user : User → Exec S (Unit {0})
  pub delete_user : String → Exec S (Unit {0})
  pub store_refresh_token : RefreshToken → Exec S (Unit {0})
  pub get_refresh_token : Time → String → S → Result RefreshToken
  pub delete_refresh_token : String → Exec S (Unit {0})
  pub delete_user_refresh_tokens : String → Exec S (Unit {0})
