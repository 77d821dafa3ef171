-- ===== src/Store/Memory/Valid.antt =====
-- The well-formedness of a `MemoryStore` (internal/store/store.go and memory_users.go).
pub mod Devices
pub mod Users
pub mod Runs
use iot_api.Common.{◌∙◌, String, ◌≡◌, ◌≢◌, none, List, [], ◌∷◌, ◌++◌, All}
use iot_api.Common.Int.{ℤ}
use iot_api.Common.GoMap.{lookup, IsMap}
use iot_api.Common.GoMap.Every.{Every, Every-empty}
use iot_api.Models.{Telemetry}
use iot_api.Store.Memory.{MemoryStore, new_memory_store}
use iot_api.Store.Memory.Window.{Within}

-- A stored series holds points of its own device, as many as the history allows.
pub record IsSeries (n : ℤ) (id : String) (ts : List Telemetry) : Type 0 where
  pub own : All (λ t. t.device_id ≡ id) ts
  pub within : Within n ts

pub record IsValid (s : MemoryStore) : Type 0 where
  -- No map holds a key twice.
  pub devices_map : IsMap s.devices
  pub telemetry_map : IsMap s.telemetry
  pub alerts_map : IsMap s.alerts
  pub users_map : IsMap s.users
  pub refresh_map : IsMap s.refresh
  -- Every entry stands under its own identifier.
  pub devices_keyed : Every (λ id d. d.id ≡ id) s.devices
  pub users_keyed : Every (λ id u. u.id ≡ id) s.users
  pub tokens_keyed : Every (λ hash rt. rt.token_hash ≡ hash) s.refresh
  pub alerts_own : Every (λ id list. All (λ a. a.device_id ≡ id) list) s.alerts
  pub series : Every (IsSeries s.max_history) s.telemetry
  -- Telemetry is kept for registered devices only.
  pub registered : Every (λ id _. lookup id s.devices ≢ none) s.telemetry

pub new_memory_store-IsValid : (n : ℤ) → IsValid (new_memory_store n)
new_memory_store-IsValid n = record {
  devices_map = tt;
  telemetry_map = tt;
  alerts_map = tt;
  users_map = tt;
  refresh_map = tt;
  devices_keyed = Every-empty;
  users_keyed = Every-empty;
  tokens_keyed = Every-empty;
  alerts_own = Every-empty;
  series = Every-empty;
  registered = Every-empty;
}
