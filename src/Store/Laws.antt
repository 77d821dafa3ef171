-- ===== src/Store/Laws.antt =====
-- What the services rely on of the stores (internal/store/store.go and users.go): what each method
-- returns, and what the reading methods find after it.
use iot_api.Common.{
  String, ◌≡◌, ◌==◌, if◌then◌else◌, Result, ok, err, Error, not_found, device_exists,
  duplicate_user, not, ◌&&◌,
}
use iot_api.Common.GoMap.{GoMap}
use iot_api.GoTime.{Time, is_zero, after}
use iot_api.Models.{Device, DeviceStatus, Telemetry, Alert, User, RefreshToken}
use iot_api.Store.{Store, UserStore}
use iot_api.Store.Changes.{with_description, with_status}

-- A missing device is the only error of a method that needs one.
abbrev pub needs : Result Device → Result (Unit {0})
needs (ok _) = ok tt
needs (err e) = err e

abbrev pub refused_if_ok : Result Device → Result (Unit {0})
refused_if_ok (ok _) = err device_exists
refused_if_ok (err _) = ok tt

abbrev pub map_ok : (Device → Device) → Result Device → Result Device
map_ok f (ok d) = ok (f d)
map_ok f (err e) = err e

abbrev pub or_else : Result Device → Device → Result Device
or_else (ok c) d = ok c
or_else (err _) d = ok d

pub record StoreLaws {S : Type 0} (o : Store S) : Type 0 where
  pub create_result :
      (d : Device) (s : S) → (o.create_device d s).0 ≡ refused_if_ok (o.get_device d.id s)
  pub get-create :
      (d : Device) (j : String) (s : S)
      → o.get_device j (o.create_device d s).1
        ≡ (if d.id == j then or_else (o.get_device j s) d else o.get_device j s)
  pub update_result :
      (id name device_type location : String) (metadata : GoMap String) (s : S)
      → (o.update_device id name device_type location metadata s).0 ≡ needs (o.get_device id s)
  pub get-update :
      (id name device_type location : String) (metadata : GoMap String) (j : String) (s : S)
      → o.get_device j (o.update_device id name device_type location metadata s).1 ≡ (
          if id == j
          then map_ok (with_description name device_type location metadata) (o.get_device j s)
          else o.get_device j s)
  pub status_result :
      (id : String) (status : DeviceStatus) (seen : Time) (s : S)
      → (o.update_device_status id status seen s).0 ≡ needs (o.get_device id s)
  pub get-status :
      (id : String) (status : DeviceStatus) (seen : Time) (j : String) (s : S)
      → o.get_device j (o.update_device_status id status seen s).1 ≡ (
          if id == j then map_ok (with_status status seen) (o.get_device j s) else o.get_device j s)
  pub delete_result : (id : String) (s : S) → (o.delete_device id s).0 ≡ needs (o.get_device id s)
  pub get-delete :
      (id j : String) (s : S)
      → o.get_device j (o.delete_device id s).1
        ≡ (if id == j then err not_found else o.get_device j s)
  pub telemetry_result :
      (t : Telemetry) (s : S) → (o.add_telemetry t s).0 ≡ needs (o.get_device t.device_id s)
  pub get-telemetry :
      (t : Telemetry) (j : String) (s : S)
      → o.get_device j (o.add_telemetry t s).1 ≡ o.get_device j s
  pub alert_result : (a : Alert) (s : S) → (o.add_alert a s).0 ≡ ok tt
  pub get-alert :
      (a : Alert) (j : String) (s : S) → o.get_device j (o.add_alert a s).1 ≡ o.get_device j s

abbrev pub needs_user : Result User → Result (Unit {0})
needs_user (ok _) = ok tt
needs_user (err e) = err e

abbrev pub username_free : Result User → Result (Unit {0})
username_free (ok _) = err duplicate_user
username_free (err _) = ok tt

-- A token whose expiry time is set and past is not found.
abbrev pub unexpired : Time → RefreshToken → Result RefreshToken
unexpired now rt =
    if not (is_zero rt.expires_at) && after now rt.expires_at then err not_found else ok rt

abbrev pub unless_owned : String → Result RefreshToken → Result RefreshToken
unless_owned id (ok rt) = if rt.user_id == id then err not_found else ok rt
unless_owned id (err e) = err e

-- The methods of a user store, on the states that its invariant admits.
pub record UserStoreLaws {S : Type 0} (o : UserStore S) (Inv : S → Type 0) : Type 0 where
  pub create-Inv : (u : User) (s : S) → Inv s → Inv (o.create_user u s).1
  pub update-Inv : (u : User) (s : S) → Inv s → Inv (o.update_user u s).1
  pub delete-Inv : (id : String) (s : S) → Inv s → Inv (o.delete_user id s).1
  pub store-Inv : (rt : RefreshToken) (s : S) → Inv s → Inv (o.store_refresh_token rt s).1
  pub revoke-Inv : (hash : String) (s : S) → Inv s → Inv (o.delete_refresh_token hash s).1
  pub revoke_all-Inv : (id : String) (s : S) → Inv s → Inv (o.delete_user_refresh_tokens id s).1
  -- A username is taken or free, and the new user is found under it.
  pub create_result :
      (u : User) (s : S)
      → (o.create_user u s).0 ≡ username_free (o.get_user_by_username u.username s)
  pub named-create :
      (u : User) (s : S)
      → (o.create_user u s).0 ≡ ok tt
      → o.get_user_by_username u.username (o.create_user u s).1 ≡ ok u
  pub create-eq-err :
      (u : User) (s : S) (e : Error) → (o.create_user u s).0 ≡ err e → (o.create_user u s).1 ≡ s
  pub found-username :
      (name : String) (s : S) (u : User) → o.get_user_by_username name s ≡ ok u → u.username ≡ name
  pub found-id : (id : String) (s : S) (u : User) → Inv s → o.get_user_by_id id s ≡ ok u → u.id ≡ id
  -- Only a stored user is updated; what an update leaves of it is what was passed, if that keeps
  -- the username and the time of creation.
  pub update_result :
      (u : User) (s : S) → (o.update_user u s).0 ≡ needs_user (o.get_user_by_id u.id s)
  pub update-eq-err :
      (u : User) (s : S) (e : Error) → (o.update_user u s).0 ≡ err e → (o.update_user u s).1 ≡ s
  pub get-update :
      (old u : User) (s : S)
      → o.get_user_by_id u.id s ≡ ok old
      → old.username ≡ u.username
      → old.created_at ≡ u.created_at
      → o.get_user_by_id u.id (o.update_user u s).1 ≡ ok u
  pub token-update :
      (u : User) (now : Time) (hash : String) (s : S)
      → o.get_refresh_token now hash (o.update_user u s).1 ≡ o.get_refresh_token now hash s
  pub token-create :
      (u : User) (now : Time) (hash : String) (s : S)
      → o.get_refresh_token now hash (o.create_user u s).1 ≡ o.get_refresh_token now hash s
  -- The refresh tokens are a map from hashes; an expired token is not found.
  pub store_result : (rt : RefreshToken) (s : S) → (o.store_refresh_token rt s).0 ≡ ok tt
  pub token-store :
      (rt : RefreshToken) (now : Time) (hash : String) (s : S)
      → o.get_refresh_token now hash (o.store_refresh_token rt s).1
        ≡ (if rt.token_hash == hash then unexpired now rt else o.get_refresh_token now hash s)
  pub found-hash :
      (now : Time) (hash : String) (s : S) (rt : RefreshToken)
      → Inv s
      → o.get_refresh_token now hash s ≡ ok rt
      → rt.token_hash ≡ hash
  pub revoke_result : (hash : String) (s : S) → (o.delete_refresh_token hash s).0 ≡ ok tt
  pub token-revoke :
      (gone : String) (now : Time) (hash : String) (s : S)
      → o.get_refresh_token now hash (o.delete_refresh_token gone s).1
        ≡ (if gone == hash then err not_found else o.get_refresh_token now hash s)
  pub token-revoke_all :
      (id : String) (now : Time) (hash : String) (s : S)
      → Inv s
      → o.get_refresh_token now hash (o.delete_user_refresh_tokens id s).1
        ≡ unless_owned id (o.get_refresh_token now hash s)
  pub token-delete :
      (id : String) (now : Time) (hash : String) (s : S)
      → Inv s
      → (o.delete_user id s).0 ≡ ok tt
      → o.get_refresh_token now hash (o.delete_user id s).1
        ≡ unless_owned id (o.get_refresh_token now hash s)
  pub delete_result :
      (id : String) (s : S) → (o.delete_user id s).0 ≡ needs_user (o.get_user_by_id id s)
  pub get-delete :
      (id j : String) (s : S)
      → o.get_user_by_id j (o.delete_user id s).1
        ≡ (if id == j then err not_found else o.get_user_by_id j s)
  -- The methods for tokens leave the users alone.
  pub by_id-store :
      (rt : RefreshToken) (id : String) (s : S)
      → o.get_user_by_id id (o.store_refresh_token rt s).1 ≡ o.get_user_by_id id s
  pub by_name-store :
      (rt : RefreshToken) (name : String) (s : S)
      → o.get_user_by_username name (o.store_refresh_token rt s).1 ≡ o.get_user_by_username name s
  pub by_id-revoke :
      (hash id : String) (s : S)
      → o.get_user_by_id id (o.delete_refresh_token hash s).1 ≡ o.get_user_by_id id s
  pub by_id-revoke_all :
      (owner id : String) (s : S)
      → o.get_user_by_id id (o.delete_user_refresh_tokens owner s).1 ≡ o.get_user_by_id id s
