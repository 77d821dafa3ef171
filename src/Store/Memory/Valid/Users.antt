-- ===== src/Store/Memory/Valid/Users.antt =====
-- The methods for users and tokens of `MemoryStore` (internal/store/memory_users.go) keep it well
-- formed.
use iot_api.Common.{Option-cases, inl, inr, String, ◌≡◌, refl}
use iot_api.Common.GoMap.{
  GoMap, lookup, IsMap, insert-IsMap, delete-IsMap, delete_if-IsMap, find_value,
}
use iot_api.Common.GoMap.Every.{Every, Every-insert, Every-delete, Every-delete_if}
use iot_api.Models.{User, RefreshToken}
use iot_api.Store.Memory.{MemoryStore}
use iot_api.Store.Memory.Users.{
  create_user, update_user, delete_user, store_refresh_token, delete_refresh_token,
  delete_user_refresh_tokens, belongs_to, is_named,
}
use iot_api.Store.Memory.Valid.{IsValid}

module _ (s : MemoryStore) (v : IsValid s) where
  pub put_users-IsValid :
      (users : GoMap User)
      → IsMap users
      → Every (λ id u. u.id ≡ id) users
      → IsValid (record s { users = users })
  put_users-IsValid users m k = record {
    devices_map = v.devices_map;
    telemetry_map = v.telemetry_map;
    alerts_map = v.alerts_map;
    users_map = m;
    refresh_map = v.refresh_map;
    devices_keyed = v.devices_keyed;
    users_keyed = k;
    tokens_keyed = v.tokens_keyed;
    alerts_own = v.alerts_own;
    series = v.series;
    registered = v.registered;
  }

  pub put_refresh-IsValid :
      (refresh : GoMap RefreshToken)
      → IsMap refresh
      → Every (λ hash rt. rt.token_hash ≡ hash) refresh
      → IsValid (record s { refresh = refresh })
  put_refresh-IsValid refresh m k = record {
    devices_map = v.devices_map;
    telemetry_map = v.telemetry_map;
    alerts_map = v.alerts_map;
    users_map = v.users_map;
    refresh_map = m;
    devices_keyed = v.devices_keyed;
    users_keyed = v.users_keyed;
    tokens_keyed = k;
    alerts_own = v.alerts_own;
    series = v.series;
    registered = v.registered;
  }

  pub create_user-IsValid : (u : User) → IsValid (create_user u s).1
  unfolding create_user
  create_user-IsValid u = elim (Option-cases (find_value (is_named u.username) s.users)) [
    | inl e ↦
        rw (e, create_user)
          (put_users-IsValid _ (insert-IsMap u.id u s.users v.users_map)
            (Every-insert u.id u s.users refl v.users_keyed))
    | inr (_, e) ↦ rw (e, create_user) v
  ]

  pub update_user-IsValid : (u : User) → IsValid (update_user u s).1
  unfolding update_user
  update_user-IsValid u = elim (Option-cases (lookup u.id s.users)) [
    | inl e ↦ rw (e, update_user) v
    | inr (_, e) ↦
        rw (e, update_user)
          (put_users-IsValid _ (insert-IsMap u.id u s.users v.users_map)
            (Every-insert u.id u s.users refl v.users_keyed))
  ]

  pub store_refresh_token-IsValid : (rt : RefreshToken) → IsValid (store_refresh_token rt s).1
  unfolding store_refresh_token
  store_refresh_token-IsValid rt =
      put_refresh-IsValid _ (insert-IsMap rt.token_hash rt s.refresh v.refresh_map)
        (Every-insert rt.token_hash rt s.refresh refl v.tokens_keyed)

  pub delete_refresh_token-IsValid : (hash : String) → IsValid (delete_refresh_token hash s).1
  unfolding delete_refresh_token
  delete_refresh_token-IsValid hash =
      put_refresh-IsValid _ (delete-IsMap hash s.refresh v.refresh_map)
        (Every-delete hash s.refresh v.tokens_keyed)

  pub delete_user_refresh_tokens-IsValid :
      (id : String) → IsValid (delete_user_refresh_tokens id s).1
  unfolding delete_user_refresh_tokens
  delete_user_refresh_tokens-IsValid id =
      put_refresh-IsValid _ (delete_if-IsMap (belongs_to id) s.refresh v.refresh_map)
        (Every-delete_if (belongs_to id) s.refresh v.refresh_map v.tokens_keyed)

pub delete_user-IsValid : (s : MemoryStore) (id : String) → IsValid s → IsValid (delete_user id s).1
unfolding delete_user delete_user_refresh_tokens
delete_user-IsValid s id v = elim (Option-cases (lookup id s.users)) [
  | inl e ↦ rw (e, delete_user) v
  | inr (_, e) ↦
      rw (e, delete_user)
        (delete_user_refresh_tokens-IsValid _
          (put_users-IsValid s v _ (delete-IsMap id s.users v.users_map)
            (Every-delete id s.users v.users_keyed))
          id)
]
