-- ===== src/Store/Memory/Calls.antt =====
-- The methods of `MemoryStore` (internal/store/store.go and memory_users.go) that write, as one
-- type of calls. They hold the lock for their whole body, so a run of the program is a sequence of
-- calls.
use iot_api.Common.{String, ◌≡◌, List, [], ◌∷◌, arith, Exec, Error, err}
use iot_api.Common.GoMap.{GoMap}
use iot_api.GoTime.{Time}
use iot_api.Models.{Device, DeviceStatus, Telemetry, Alert, User, RefreshToken}
use iot_api.Store.Memory.{
  MemoryStore, create_device, update_device, update_device_status, delete_device, add_telemetry,
  add_alert,
}
use iot_api.Store.Memory.Users.{
  create_user, update_user, delete_user, store_refresh_token, delete_refresh_token,
  delete_user_refresh_tokens,
}

pub data Call : Type 0 where
  creates : Device → Call
  describes : String → String → String → String → GoMap String → Call
  marks : String → DeviceStatus → Time → Call
  removes : String → Call
  reports : Telemetry → Call
  alarms : Alert → Call
  enrols : User → Call
  amends : User → Call
  expels : String → Call
  grants : RefreshToken → Call
  revokes : String → Call
  revokes_all : String → Call

unfoldable pub call : Call → Exec MemoryStore (Unit {0})
call (creates d) = create_device d
call (describes id name device_type location metadata) =
    update_device id name device_type location metadata
call (marks id status seen) = update_device_status id status seen
call (removes id) = delete_device id
call (reports t) = add_telemetry t
call (alarms a) = add_alert a
call (enrols u) = create_user u
call (amends u) = update_user u
call (expels id) = delete_user id
call (grants rt) = store_refresh_token rt
call (revokes hash) = delete_refresh_token hash
call (revokes_all id) = delete_user_refresh_tokens id

unfoldable pub run : List Call → MemoryStore → MemoryStore
run [] s = s
run (c ∷ cs) s = run cs (call c s).1

-- A method of the memory store that returns an error has changed nothing.
call-eq-err : (c : Call) (s : MemoryStore) (e : Error) → (call c s).0 ≡ err e → (call c s).1 ≡ s
unfolding call create_device update_device update_device_status delete_device add_telemetry
    add_alert create_user update_user delete_user store_refresh_token delete_refresh_token
    delete_user_refresh_tokens
call-eq-err (creates d) s e h = ground arith
call-eq-err _ s e h = ground arith
