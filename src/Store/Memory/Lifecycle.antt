-- ===== src/Store/Memory/Lifecycle.antt =====
-- The devices of `MemoryStore` (internal/store/store.go): the contract of the services, deletion,
-- and the order of the lists.
use mathlib.Core.List.{Perm}
use iot_api.Common.{
  String, ◌≡◌, ◌≢◌, refl, ◌↔◌, [], arith, eq_iff, ok, err, not_found, In, Option-cases, inl, inr,
}
use iot_api.Common.Int.{ℤ}
use iot_api.Common.GoMap.{lookup, values, lookup-insert, lookup-delete, lookup-In, In-values}
use iot_api.Common.Sort.{IsSorted, IsWeakOrder, sort_slice-perm, sort_slice-IsSorted, In-sort_slice}
use iot_api.GoTime.{Time}
use iot_api.Models.{Device}
use iot_api.Store.Changes.{with_description, with_status}
use iot_api.Store.Laws.{StoreLaws}
use iot_api.Store.Memory.{
  MemoryStore, memory_store, create_device, get_device, list_devices, update_device,
  update_device_status, delete_device, add_telemetry, add_alert, get_telemetry, list_alerts,
  registered_before, newest,
}
use iot_api.Store.Memory.Valid.{IsValid}

-- `MemoryStore` keeps the contract: each method succeeds or fails as the device is there, and then
-- changes the one device that it names as stated, and no other.
pub memory_store-StoreLaws : StoreLaws memory_store
unfolding create_device get_device update_device update_device_status delete_device add_telemetry
    add_alert
memory_store-StoreLaws = record {
  create_result = λ d s. ground arith;
  get-create = λ d j s. ground (arith, eq_iff d.id j, lookup-insert d.id j d s.devices);
  update_result = λ id name device_type location metadata s. ground arith;
  get-update = λ id name device_type location metadata j s.
      elim (Option-cases (lookup id s.devices)) [
        | inl e ↦ ground (arith, eq_iff id j)
        | inr (d, e) ↦ ground (
          arith,
          eq_iff id j,
          lookup-insert id j (with_description name device_type location metadata d) s.devices,
        )
      ];
  status_result = λ id status seen s. ground arith;
  get-status = λ id status seen j s. elim (Option-cases (lookup id s.devices)) [
    | inl e ↦ ground (arith, eq_iff id j)
    | inr (d, e) ↦
        ground (arith, eq_iff id j, lookup-insert id j (with_status status seen d) s.devices)
  ];
  delete_result = λ id s. ground arith;
  get-delete = λ id j s. ground (arith, eq_iff id j, lookup-delete id j s.devices);
  telemetry_result = λ t s. ground arith;
  get-telemetry = λ t j s. ground arith;
  alert_result = λ a s. refl;
  get-alert = λ a j s. refl;
}

-- Deleting a registered device removes the device, its telemetry and its alerts; a second deletion
-- fails. The telemetry and alerts of every other device, and the other devices, stay. Alerts are
-- listed by an identifier that is not empty.
delete_device_lem :
    (id : String) (d : Device) (s : MemoryStore)
    → get_device id s ≡ ok d
    → let s' = (delete_device id s).1 in
      ((delete_device id s).0 ≡ ok tt)
      × ((delete_device id s').0 ≡ err not_found)
      × ((since : Time) (limit : ℤ) → get_telemetry id since limit s' ≡ [])
      × (id ≢ "" → list_alerts id s' ≡ [])
      × ((j : String)
          → id ≢ j
          → (get_device j s' ≡ get_device j s)
            × ((since : Time) (limit : ℤ)
                → get_telemetry j since limit s' ≡ get_telemetry j since limit s)
            × (j ≢ "" → list_alerts j s' ≡ list_alerts j s))
unfolding delete_device get_device get_telemetry list_alerts newest
delete_device_lem id d s h = (
  ground arith,
  ground (arith, lookup-delete id id s.devices, eq_iff id id),
  λ since limit. ground (arith, lookup-delete id id s.telemetry, eq_iff id id),
  λ n. ground (arith, lookup-delete id id s.alerts, eq_iff id id, eq_iff id ""),
  λ j n. (
    ground (arith, lookup-delete id j s.devices, eq_iff id j),
    λ since limit. ground (arith, lookup-delete id j s.telemetry, eq_iff id j),
    λ m. ground (arith, lookup-delete id j s.alerts, eq_iff id j, eq_iff j ""),
  ),
)

registered_before-IsWeakOrder : IsWeakOrder registered_before
registered_before-IsWeakOrder = record {
  asym = λ c d h. ground arith;
  trans = λ c d e h k. ground arith;
}

-- On a well-formed store `ListDevices` returns every registered device once, none registered after
-- a later one in the list: what it holds is exactly what `GetDevice` finds.
pub list_devices_lem :
    (s : MemoryStore)
    → IsValid s
    → Perm (list_devices s) (values s.devices)
      × IsSorted registered_before (list_devices s)
      × ((d : Device) → In d (list_devices s) ↔ (get_device d.id s ≡ ok d))
unfolding list_devices get_device
list_devices_lem s v = (
  sort_slice-perm registered_before (values s.devices),
  sort_slice-IsSorted registered_before registered_before-IsWeakOrder (values s.devices),
  λ d.
      let sorted = In-sort_slice registered_before d (values s.devices) in
      (
        λ i.
            let (k, e) = In-values d s.devices v.devices_map (sorted.0 i) in
            ground (arith, v.devices_keyed.at k d e),
        λ e. sorted.1 (lookup-In d.id d s.devices (ground arith)),
      ),
)
