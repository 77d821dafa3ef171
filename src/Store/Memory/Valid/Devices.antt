-- ===== src/Store/Memory/Valid/Devices.antt =====
-- The methods for devices, telemetry and alerts of `MemoryStore` (internal/store/store.go) keep it
-- well formed.
use iot_api.Common.{
  Option-cases, inl, inr, ◌∙◌, String, ◌≡◌, refl, [], ◌∷◌, ◌++◌, arith, All, All-append,
}
use iot_api.Common.GoMap.{
  lookup, lookup_or, insert, insert-IsMap, delete-IsMap, lookup-insert, lookup-delete,
}
use iot_api.Common.GoMap.Every.{Every-insert, Every-delete, Every-map, All-lookup_or}
use iot_api.Models.{Device, Telemetry, Alert}
use iot_api.Store.Memory.{
  MemoryStore, create_device, delete_device, add_telemetry, add_alert, modify_device,
}
use iot_api.Store.Memory.Window.{newest-Within, newest-All}
use iot_api.Store.Memory.Valid.{IsValid}

module _ (s : MemoryStore) (v : IsValid s) where
  -- A device may be written under its own identifier.
  pub put_device-IsValid :
      (id : String) (d : Device)
      → d.id ≡ id
      → IsValid (record s { devices = insert id d s.devices })
  put_device-IsValid id d e = record {
    devices_map = insert-IsMap id d s.devices v.devices_map;
    telemetry_map = v.telemetry_map;
    alerts_map = v.alerts_map;
    users_map = v.users_map;
    refresh_map = v.refresh_map;
    devices_keyed = Every-insert id d s.devices e v.devices_keyed;
    users_keyed = v.users_keyed;
    tokens_keyed = v.tokens_keyed;
    alerts_own = v.alerts_own;
    series = v.series;
    registered =
        Every-map s.telemetry (λ j _ h n. h (ground (arith, lookup-insert id j d s.devices)))
          v.registered;
  }

  pub modify_device-IsValid :
      (id : String) (change : Device → Device)
      → ((d : Device) → (change d).id ≡ d.id)
      → IsValid (modify_device id change s).1
  modify_device-IsValid id change same = elim (Option-cases (lookup id s.devices)) [
    | inl e ↦ rw (e, modify_device) v
    | inr (d, e) ↦
        rw (e, modify_device)
          (put_device-IsValid id (change d) (same d ∙ v.devices_keyed.at id d e))
  ]

  pub create_device-IsValid : (d : Device) → IsValid (create_device d s).1
  unfolding create_device
  create_device-IsValid d = elim (Option-cases (lookup d.id s.devices)) [
    | inl e ↦ rw (e, create_device) (put_device-IsValid d.id d refl)
    | inr (_, e) ↦ rw (e, create_device) v
  ]

  pub delete_device-IsValid : (id : String) → IsValid (delete_device id s).1
  unfolding delete_device
  delete_device-IsValid id = elim (Option-cases (lookup id s.devices)) [
    | inl e ↦ rw (e, delete_device) v
    | inr (_, e) ↦
        rw (e, delete_device)
          (record {
            devices_map = delete-IsMap id s.devices v.devices_map;
            telemetry_map = delete-IsMap id s.telemetry v.telemetry_map;
            alerts_map = delete-IsMap id s.alerts v.alerts_map;
            users_map = v.users_map;
            refresh_map = v.refresh_map;
            devices_keyed = Every-delete id s.devices v.devices_keyed;
            users_keyed = v.users_keyed;
            tokens_keyed = v.tokens_keyed;
            alerts_own = Every-delete id s.alerts v.alerts_own;
            series = Every-delete id s.telemetry v.series;
            registered = record {
              at = λ j ts p n.
                  v.registered.at j ts (ground (arith, lookup-delete id j s.telemetry))
                    (ground (arith, lookup-delete id j s.telemetry, lookup-delete id j s.devices));
            };
          })
  ]

  -- The stored points of a device are its own.
  pub own_series : (id : String) → All (λ t. t.device_id ≡ id) (lookup_or [] id s.telemetry)
  own_series id =
      All-lookup_or {P = λ j t. t.device_id ≡ j} id s.telemetry
        (Every-map s.telemetry (λ _ _ h. h.own) v.series)

  pub add_telemetry-IsValid : (t : Telemetry) → IsValid (add_telemetry t s).1
  unfolding add_telemetry
  add_telemetry-IsValid t = elim (Option-cases (lookup t.device_id s.devices)) [
    | inl e ↦ rw (e, add_telemetry) v
    | inr (d, e) ↦
        let all = lookup_or [] t.device_id s.telemetry ++ t ∷ [] in
        rw (e, add_telemetry)
          (record {
            devices_map = v.devices_map;
            telemetry_map = insert-IsMap t.device_id _ s.telemetry v.telemetry_map;
            alerts_map = v.alerts_map;
            users_map = v.users_map;
            refresh_map = v.refresh_map;
            devices_keyed = v.devices_keyed;
            users_keyed = v.users_keyed;
            tokens_keyed = v.tokens_keyed;
            alerts_own = v.alerts_own;
            series =
                Every-insert t.device_id _ s.telemetry
                  (record {
                    own =
                        newest-All _ s.max_history all
                          (All-append _ _ (t ∷ []) (own_series t.device_id) (refl, tt));
                    within = newest-Within s.max_history all;
                  })
                  v.series;
            registered = Every-insert t.device_id _ s.telemetry (λ n. ground arith) v.registered;
          })
  ]

  pub add_alert-IsValid : (a : Alert) → IsValid (add_alert a s).1
  unfolding add_alert
  add_alert-IsValid a = record {
    devices_map = v.devices_map;
    telemetry_map = v.telemetry_map;
    alerts_map = insert-IsMap a.device_id _ s.alerts v.alerts_map;
    users_map = v.users_map;
    refresh_map = v.refresh_map;
    devices_keyed = v.devices_keyed;
    users_keyed = v.users_keyed;
    tokens_keyed = v.tokens_keyed;
    alerts_own =
        Every-insert a.device_id _ s.alerts
          (All-append _ _ (a ∷ [])
            (All-lookup_or {P = λ j b. b.device_id ≡ j} a.device_id s.alerts v.alerts_own)
            (refl, tt))
          v.alerts_own;
    series = v.series;
    registered = v.registered;
  }
