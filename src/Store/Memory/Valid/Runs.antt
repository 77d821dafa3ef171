-- ===== src/Store/Memory/Valid/Runs.antt =====
-- Every run of the methods of `MemoryStore` (internal/store/store.go and memory_users.go) stays well
-- formed.
use iot_api.Common.{refl, List, [], ◌∷◌}
use iot_api.Common.Int.{ℤ}
use iot_api.Store.Memory.{MemoryStore, new_memory_store, update_device, update_device_status}
use iot_api.Store.Memory.Calls.{
  Call, creates, describes, marks, removes, reports, alarms, enrols, amends, expels, grants,
  revokes, revokes_all, call, run,
}
use iot_api.Store.Memory.Valid.{IsValid, new_memory_store-IsValid}
use iot_api.Store.Memory.Valid.Devices.{
  modify_device-IsValid, create_device-IsValid, delete_device-IsValid, add_telemetry-IsValid,
  add_alert-IsValid,
}
use iot_api.Store.Memory.Valid.Users.{
  create_user-IsValid, update_user-IsValid, delete_user-IsValid, store_refresh_token-IsValid,
  delete_refresh_token-IsValid, delete_user_refresh_tokens-IsValid,
}

-- Every method of the memory store keeps it well formed, whether it succeeds or fails.
pub call-IsValid : (c : Call) (s : MemoryStore) → IsValid s → IsValid (call c s).1
unfolding call update_device update_device_status
call-IsValid (creates d) s v = create_device-IsValid s v d
call-IsValid (describes id _ _ _ _) s v = modify_device-IsValid s v id _ (λ d. refl)
call-IsValid (marks id _ _) s v = modify_device-IsValid s v id _ (λ d. refl)
call-IsValid (removes id) s v = delete_device-IsValid s v id
call-IsValid (reports t) s v = add_telemetry-IsValid s v t
call-IsValid (alarms a) s v = add_alert-IsValid s v a
call-IsValid (enrols u) s v = create_user-IsValid s v u
call-IsValid (amends u) s v = update_user-IsValid s v u
call-IsValid (expels id) s v = delete_user-IsValid s id v
call-IsValid (grants rt) s v = store_refresh_token-IsValid s v rt
call-IsValid (revokes hash) s v = delete_refresh_token-IsValid s v hash
call-IsValid (revokes_all id) s v = delete_user_refresh_tokens-IsValid s v id

pub run-IsValid_of : (cs : List Call) (s : MemoryStore) → IsValid s → IsValid (run cs s)
unfolding run
run-IsValid_of [] s v = v
run-IsValid_of (c ∷ cs) s v = run-IsValid_of cs (call c s).1 (call-IsValid c s v)

-- After any sequence of calls on a new store: no key is held twice, every device, user and token
-- stands under its own identifier, telemetry and alerts stand under their device, telemetry is
-- held for registered devices only, and a positive `max_history` bounds every series.
pub run-IsValid : (n : ℤ) (cs : List Call) → IsValid (run cs (new_memory_store n))
run-IsValid n cs = run-IsValid_of cs (new_memory_store n) (new_memory_store-IsValid n)
