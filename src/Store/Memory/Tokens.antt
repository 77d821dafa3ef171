-- ===== src/Store/Memory/Tokens.antt =====
-- The users and refresh tokens of `MemoryStore` (internal/store/memory_users.go) keep the contract of
-- the auth service.
use iot_api.Common.{String, ◌≡◌, ap, [], ◌∷◌, refl, Bool, true, some, none, arith, eq_iff}
use iot_api.Common.GoMap.{GoMap, insert, find_value, lookup-insert, lookup-delete, lookup-delete_if}
use iot_api.Store.Laws.{UserStoreLaws}
use iot_api.Store.Memory.Users.{
  memory_user_store, create_user, get_user_by_username, get_user_by_id, update_user, delete_user,
  store_refresh_token, get_refresh_token, delete_refresh_token, delete_user_refresh_tokens,
  belongs_to, is_named,
}
use iot_api.Store.Memory.Calls.{call, enrols, amends, expels, grants, revokes, revokes_all}
use iot_api.Store.Memory.Valid.{IsValid}
use iot_api.Store.Memory.Valid.Runs.{call-IsValid}

module _ {V : Type 0} (p : V → Bool) where
  find_value-insert :
      (k : String) (v : V) (m : GoMap V)
      → find_value p m ≡ none
      → p v ≡ true
      → find_value p (insert k v m) ≡ some v
  unfolding find_value insert
  find_value-insert k v [] h pv = ground arith
  find_value-insert k v ((j, w) ∷ m) h pv = ground (arith, find_value-insert k v m)

  find_value_sound : (v : V) (m : GoMap V) → find_value p m ≡ some v → p v ≡ true
  unfolding find_value
  find_value_sound v [] h = cc
  find_value_sound v ((j, w) ∷ m) h = ground (arith, find_value_sound v m, ap p)

-- `MemoryStore` keeps the contract of `UserStore`: usernames are not taken twice, users are found
-- under their identifier and username, a refresh token is found under its hash until it expires or
-- is revoked, and deleting a user or revoking all their tokens removes these tokens and no other.
pub memory_user_store-UserStoreLaws : UserStoreLaws memory_user_store IsValid
unfolding call create_user get_user_by_username get_user_by_id update_user delete_user
    store_refresh_token get_refresh_token delete_refresh_token delete_user_refresh_tokens
memory_user_store-UserStoreLaws = record {
  create-Inv = λ u s. call-IsValid (enrols u) s;
  update-Inv = λ u s. call-IsValid (amends u) s;
  delete-Inv = λ id s. call-IsValid (expels id) s;
  store-Inv = λ rt s. call-IsValid (grants rt) s;
  revoke-Inv = λ hash s. call-IsValid (revokes hash) s;
  revoke_all-Inv = λ id s. call-IsValid (revokes_all id) s;
  create_result = λ u s. ground arith;
  named-create = λ u s h.
      ground (
        arith,
        find_value-insert (is_named u.username) u.id u s.users,
        eq_iff u.username u.username,
      );
  create-eq-err = λ u s e h. ground arith;
  found-username = λ name s u h.
      ground (arith, find_value_sound (is_named name) u s.users, eq_iff u.username name);
  found-id = λ id s u v h. v.users_keyed.at id u (ground arith);
  update_result = λ u s. ground arith;
  update-eq-err = λ u s e h. ground arith;
  get-update = λ old u s h _ _. ground (arith, lookup-insert u.id u.id u s.users, eq_iff u.id u.id);
  token-update = λ u now hash s. ground arith;
  token-create = λ u now hash s. ground arith;
  store_result = λ rt s. refl;
  token-store = λ rt now hash s.
      ground (arith, lookup-insert rt.token_hash hash rt s.refresh, eq_iff rt.token_hash hash);
  found-hash = λ now hash s rt v h. v.tokens_keyed.at hash rt (ground arith);
  revoke_result = λ hash s. refl;
  token-revoke =
      λ gone now hash s. ground (arith, lookup-delete gone hash s.refresh, eq_iff gone hash);
  token-revoke_all = λ id now hash s v.
      ground (arith, lookup-delete_if (belongs_to id) hash s.refresh v.refresh_map);
  token-delete = λ id now hash s v h.
      ground (arith, lookup-delete_if (belongs_to id) hash s.refresh v.refresh_map);
  delete_result = λ id s. ground arith;
  get-delete = λ id j s. ground (arith, lookup-delete id j s.users, eq_iff id j);
  by_id-store = λ rt id s. refl;
  by_name-store = λ rt name s. refl;
  by_id-revoke = λ hash id s. refl;
  by_id-revoke_all = λ owner id s. refl;
}
