-- ===== src/Store/Memory/Users.antt =====
-- internal/store/memory_users.go: the users and refresh tokens of `MemoryStore`.
use iot_api.Common.{
  String, Bool, Option, none, some, List, not, ◌&&◌, ◌==◌, if◌then◌else◌, Result, ok, err,
  not_found, duplicate_user, Exec,
}
use iot_api.Common.GoMap.{lookup, insert, delete, delete_if, values, find_value}
use iot_api.Common.Sort.{sort_slice}
use iot_api.GoTime.{Time, is_zero, before, after}
use iot_api.Models.{User, RefreshToken}
use iot_api.Store.{UserStore}
use iot_api.Store.Memory.{MemoryStore}

abbrev pub is_named : String → User → Bool
is_named name u = u.username == name

unfoldable pub create_user : User → Exec MemoryStore (Unit {0})
create_user u s = elim (find_value (is_named u.username) s.users) [
  | some _ ↦ (err duplicate_user, s)
  | none ↦ (ok tt, record s { users = insert u.id u s.users })
]

abbrev or_not_found : Option User → Result User
or_not_found none = err not_found
or_not_found (some u) = ok u

unfoldable pub get_user_by_username : String → MemoryStore → Result User
get_user_by_username name s = or_not_found (find_value (is_named name) s.users)

unfoldable pub get_user_by_id : String → MemoryStore → Result User
get_user_by_id id s = or_not_found (lookup id s.users)

-- `less` of the sort in `ListUsers`.
abbrev pub created_before : User → User → Bool
created_before u v = before u.created_at v.created_at

unfoldable pub list_users : MemoryStore → List User
list_users s = sort_slice created_before (values s.users)

unfoldable pub update_user : User → Exec MemoryStore (Unit {0})
update_user u s = elim (lookup u.id s.users) [
  | none ↦ (err not_found, s)
  | some _ ↦ (ok tt, record s { users = insert u.id u s.users })
]

abbrev pub belongs_to : String → RefreshToken → Bool
belongs_to id rt = rt.user_id == id

unfoldable pub delete_user : String → Exec MemoryStore (Unit {0})
delete_user id s = elim (lookup id s.users) [
  | none ↦ (err not_found, s)
  | some _ ↦
      (ok tt, record s { users = delete id s.users; refresh = delete_if (belongs_to id) s.refresh })
]

unfoldable pub store_refresh_token : RefreshToken → Exec MemoryStore (Unit {0})
store_refresh_token rt s = (ok tt, record s { refresh = insert rt.token_hash rt s.refresh })

-- A token with no expiry time never expires.
abbrev pub has_expired : Time → RefreshToken → Bool
has_expired now rt = not (is_zero rt.expires_at) && after now rt.expires_at

unfoldable pub get_refresh_token : Time → String → MemoryStore → Result RefreshToken
get_refresh_token now hash s = elim (lookup hash s.refresh) [
  | none ↦ err not_found
  | some rt ↦ if has_expired now rt then err not_found else ok rt
]

unfoldable pub delete_refresh_token : String → Exec MemoryStore (Unit {0})
delete_refresh_token hash s = (ok tt, record s { refresh = delete hash s.refresh })

unfoldable pub delete_user_refresh_tokens : String → Exec MemoryStore (Unit {0})
delete_user_refresh_tokens id s =
    (ok tt, record s { refresh = delete_if (belongs_to id) s.refresh })

-- `MemoryStore` satisfies `UserStore`.
instance abbrev pub memory_user_store : UserStore MemoryStore
memory_user_store = record {
  create_user = create_user;
  get_user_by_username = get_user_by_username;
  get_user_by_id = get_user_by_id;
  list_users = list_users;
  update_user = update_user;
  delete_user = delete_user;
  store_refresh_token = store_refresh_token;
  get_refresh_token = get_refresh_token;
  delete_refresh_token = delete_refresh_token;
  delete_user_refresh_tokens = delete_user_refresh_tokens;
}
