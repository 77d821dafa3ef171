-- ===== src/Store/Memory.antt =====
-- internal/store/store.go: `MemoryStore`, its devices, telemetry and alerts. Each method holds the
-- store's lock from its first to its last read or write, so a method is one step of the state.
pub mod Users
pub mod Window
pub mod Calls
pub mod Valid
pub mod Lifecycle
pub mod History
pub mod Tokens
mod Tests
use iot_api.Common.{
  ◌-◌, String, Bool, ◌&&◌, ◌||◌, not, none, some, List, [], ◌∷◌, ◌++◌, ltb, if◌then◌else◌, ◌==◌,
  length, drop, filter_b, Result, ok, err, not_found, device_exists, Exec,
}
use iot_api.Common.Int.{ℤ, pos, negsuc}
use iot_api.Common.GoMap.{GoMap, lookup, lookup_or, insert, delete, values}
use iot_api.Common.Sort.{sort_slice}
use iot_api.GoTime.{Time, is_zero, before, after, equal}
use iot_api.Models.{Device, DeviceStatus, Telemetry, Alert, User, RefreshToken}
use iot_api.Store.{Store}
use iot_api.Store.Changes.{with_description, with_status}

pub record MemoryStore : Type 0 where
  pub devices : GoMap Device
  pub telemetry : GoMap (List Telemetry)
  pub alerts : GoMap (List Alert)
  pub users : GoMap User
  pub refresh : GoMap RefreshToken
  -- At most 0 means unbounded.
  pub max_history : ℤ

abbrev pub new_memory_store : ℤ → MemoryStore
new_memory_store max_history = record {
  devices = [];
  telemetry = [];
  alerts = [];
  users = [];
  refresh = [];
  max_history = max_history;
}

unfoldable pub create_device : Device → Exec MemoryStore (Unit {0})
create_device d s = elim (lookup d.id s.devices) [
  | some _ ↦ (err device_exists, s)
  | none ↦ (ok tt, record s { devices = insert d.id d s.devices })
]

unfoldable pub get_device : String → MemoryStore → Result Device
get_device id s = elim (lookup id s.devices) [ none ↦ err not_found | some d ↦ ok d ]

-- `less` of the sort in `ListDevices`.
abbrev pub registered_before : Device → Device → Bool
registered_before c d = before c.registered_at d.registered_at

unfoldable pub list_devices : MemoryStore → List Device
list_devices s = sort_slice registered_before (values s.devices)

-- The device is read, changed and written back; a missing one is an error.
abbrev pub modify_device : String → (Device → Device) → Exec MemoryStore (Unit {0})
modify_device id change s = elim (lookup id s.devices) [
  | none ↦ (err not_found, s)
  | some d ↦ (ok tt, record s { devices = insert id (change d) s.devices })
]

unfoldable pub update_device :
    String → String → String → String → GoMap String → Exec MemoryStore (Unit {0})
update_device id name device_type location metadata =
    modify_device id (with_description name device_type location metadata)

unfoldable pub update_device_status : String → DeviceStatus → Time → Exec MemoryStore (Unit {0})
update_device_status id status seen = modify_device id (with_status status seen)

unfoldable pub delete_device : String → Exec MemoryStore (Unit {0})
delete_device id s = elim (lookup id s.devices) [
  | none ↦ (err not_found, s)
  | some _ ↦ (
    ok tt,
    record s {
      devices = delete id s.devices;
      telemetry = delete id s.telemetry;
      alerts = delete id s.alerts;
    },
  )
]

-- `if n > 0 && len(xs) > n { xs = xs[len(xs)-n:] }`, the window that `AddTelemetry` keeps and
-- `GetTelemetry` returns.
unfoldable pub newest {ℓ} : {A : Type ℓ} → ℤ → List A → List A
newest (negsuc n) xs = xs
newest (pos n) xs = if ltb 0 n && ltb n (length xs) then drop (length xs - n) xs else xs

unfoldable pub add_telemetry : Telemetry → Exec MemoryStore (Unit {0})
add_telemetry t s = elim (lookup t.device_id s.devices) [
  | none ↦ (err not_found, s)
  | some _ ↦
      let series = newest s.max_history (lookup_or [] t.device_id s.telemetry ++ t ∷ []) in
      (ok tt, record s { telemetry = insert t.device_id series s.telemetry })
]

-- The test of the loop in `GetTelemetry`.
abbrev pub reported_since : Time → Telemetry → Bool
reported_since since t = is_zero since || after t.timestamp since || equal t.timestamp since

unfoldable pub get_telemetry : String → Time → ℤ → MemoryStore → List Telemetry
get_telemetry id since limit s =
    newest limit (filter_b (reported_since since) (lookup_or [] id s.telemetry))

unfoldable pub add_alert : Alert → Exec MemoryStore (Unit {0})
add_alert a s =
    let list = lookup_or [] a.device_id s.alerts ++ a ∷ [] in
    (ok tt, record s { alerts = insert a.device_id list s.alerts })

-- `less` of the sort in `ListAlerts`.
abbrev pub created_before : Alert → Alert → Bool
created_before a b = before a.created_at b.created_at

-- `for _, list := range s.alerts { out = append(out, list...) }`.
unfoldable pub concat {ℓ} : {A : Type ℓ} → List (List A) → List A
concat [] = []
concat (xs ∷ rest) = xs ++ concat rest

unfoldable pub list_alerts : String → MemoryStore → List Alert
list_alerts id s =
    if not (id == "")
    then lookup_or [] id s.alerts
    else sort_slice created_before (concat (values s.alerts))

-- `MemoryStore` satisfies `Store`.
instance abbrev pub memory_store : Store MemoryStore
memory_store = record {
  create_device = create_device;
  get_device = get_device;
  list_devices = list_devices;
  update_device = update_device;
  update_device_status = update_device_status;
  delete_device = delete_device;
  add_telemetry = add_telemetry;
  get_telemetry = get_telemetry;
  add_alert = add_alert;
  list_alerts = list_alerts;
}
