-- ===== src/Store/Mongo/Shelf/SessionTests.antt =====
-- Runs of the refresh tokens of internal/store/mongo_users.go on a small server.
use iot_api.Common.{ℕ, ◌≡◌, refl, ◌==◌, if◌then◌else◌, [], ◌∷◌, String, ok, err, not_found}
use iot_api.GoTime.{is_zero}
use iot_api.Models.{RefreshToken}
use iot_api.Store.Mongo.{MongoStore}
use iot_api.Store.Mongo.Documents.{refresh_to_doc, doc_to_refresh}
use iot_api.Store.Mongo.Users.{
  token_result, store_refresh_token, get_refresh_token, delete_refresh_token,
  delete_user_refresh_tokens,
}
use iot_api.Store.Mongo.Keyed as Keyed
use iot_api.Store.Mongo.Sessions.{hash_key, stored, unless_owned, delete_refresh_token-get}
use iot_api.Store.Mongo.Shelf.{Shelf, shelf_driver, shelf_server}
use iot_api.Store.Mongo.Shelf.Tests.{opened}

abbrev session : RefreshToken
session = record { token_hash = "h1"; user_id = "u1"; expires_at = 90; created_at = 10 }

abbrev signed_in : MongoStore Shelf
signed_in = (store_refresh_token shelf_driver session opened).1

signed_in-Intact : shelf_server.Intact signed_in.refresh
unfolding store_refresh_token refresh_to_doc shelf_server
signed_in-Intact = ((tt, tt), tt)

signed_in-keyed : shelf_server.unique_keys signed_in.refresh ≡ hash_key ∷ []
unfolding store_refresh_token refresh_to_doc shelf_server
signed_in-keyed = refl

-- The token is found before it expires and not after.
found_until :
    (get_refresh_token shelf_driver 89 "h1" signed_in ≡ ok session)
    × (get_refresh_token shelf_driver 91 "h1" signed_in ≡ err not_found)
unfolding store_refresh_token refresh_to_doc get_refresh_token is_zero doc_to_refresh
found_until = (refl, refl)

delete_refresh_token-get_example :
    let r = delete_refresh_token shelf_driver "h1" signed_in in
    let all = delete_user_refresh_tokens shelf_driver "u1" signed_in in
    let old = stored shelf_driver shelf_server signed_in signed_in-Intact signed_in-keyed in
    (r.0 ≡ ok tt)
    × ((now : ℕ) (hash : String)
        → get_refresh_token shelf_driver now hash r.1 ≡ (
            if "h1" == hash
            then err not_found
            else get_refresh_token shelf_driver now hash signed_in))
    × ((now : ℕ) (hash : String)
        → get_refresh_token shelf_driver now hash all.1
          ≡ token_result now (unless_owned "u1" (old hash)))
delete_refresh_token-get_example =
    delete_refresh_token-get shelf_driver shelf_server signed_in signed_in-Intact signed_in-keyed
      "h1" "u1"
