-- ===== src/Store/Mongo/Sessions.antt =====
-- The refresh tokens of internal/store/mongo_users.go, on a server that answers every call and has the
-- unique index on the hashes.
use mathlib.Core.Path.{subst}
use iot_api.Common.{
  ◌≡◌, refl, ap, sym, ◌∙◌, String, Bool, true, false, ◌==◌, if◌then◌else◌, List, [], ◌∷◌, filter_b,
  not, All, Result, ok, err, not_found, arith,
}
use iot_api.GoTime.{Time}
use iot_api.Store.Mongo.{MongoStore}
use iot_api.Store.Mongo.Collections.{Stored, Driver, matching, decode_one}
use iot_api.Store.Mongo.Documents.{RefreshDoc}
use iot_api.Store.Mongo.Users.{
  has_hash, owned_by, token_result, get_refresh_token, delete_refresh_token,
  delete_user_refresh_tokens,
}
use iot_api.Store.Mongo.Server.{DistinctBy, Server}
use iot_api.Store.Mongo.Keyed as Keyed
use iot_api.Store.Mongo.Keyed.{found, absent_lem, delete_lem}

abbrev pub hash_key : RefreshDoc → String
hash_key d = d.token_hash

-- A document that belongs to the user is gone.
abbrev pub unless_owned : String → Result RefreshDoc → Result RefreshDoc
unless_owned id (ok d) = if d.user_id == id then err not_found else ok d
unless_owned id (err e) = err e

found-filter :
    (id j : String) (xs : List (Stored RefreshDoc))
    → DistinctBy hash_key xs
    → found hash_key j (filter_b (λ x. not (matching (owned_by id) x)) xs)
      ≡ unless_owned id (found hash_key j xs)
found-filter id j [] d = refl
found-filter id j (x ∷ xs) (apart, d) =
    ground (arith, found-filter id j xs d, absent_lem hash_key j x.document xs apart)

token_result-if :
    (now : Time) (b : Bool) (x y : Result RefreshDoc)
    → token_result now (if b then x else y) ≡ (if b then token_result now x else token_result now y)
token_result-if now true x y = refl
token_result-if now false x y = refl

module _ {Col : Type 0 → Type 0} (driver : Driver Col) (server : Server driver) (s : MongoStore Col)
    (intact : server.Intact s.refresh) (keyed : server.unique_keys s.refresh ≡ hash_key ∷ []) where
  -- What stands under a hash.
  abbrev pub stored : String → Result RefreshDoc
  stored hash = found hash_key hash (server.view s.refresh)

  get_refresh_token_lem :
      (now : Time) (hash : String) (s' : MongoStore Col)
      → get_refresh_token driver now hash s'
        ≡ token_result now (found hash_key hash (server.view s'.refresh))
  unfolding get_refresh_token
  get_refresh_token_lem now hash s' =
      ap (λ r. token_result now (decode_one r)) (server.found_one _ s'.refresh)

  -- On a server that answers every call, and with the unique index on the hashes, `DeleteRefreshToken`
  -- succeeds and removes the token of the
  -- hash, if there is one, and no other. After `DeleteUserRefreshTokens` no token of the user is found,
  -- and under every hash whose token is another user's, the same is found as before.
  pub delete_refresh_token-get :
      (gone id : String)
      → let r = delete_refresh_token driver gone s in
        let all = delete_user_refresh_tokens driver id s in
        (r.0 ≡ ok tt)
        × ((now : Time) (hash : String)
            → get_refresh_token driver now hash r.1
              ≡ (if gone == hash then err not_found else get_refresh_token driver now hash s))
        × ((now : Time) (hash : String)
            → get_refresh_token driver now hash all.1
              ≡ token_result now (unless_owned id (stored hash)))
  unfolding delete_refresh_token delete_user_refresh_tokens
  delete_refresh_token-get gone id =
      let (_, after) = delete_lem driver server hash_key s.refresh keyed gone intact in
      (
        rw (server.deleted_one (matching (has_hash gone)) s.refresh).0 refl,
        λ now hash.
            get_refresh_token_lem now hash (delete_refresh_token driver gone s).1
            ∙ ap (token_result now) (after hash)
            ∙ token_result-if now (gone == hash) (err not_found) (stored hash)
            ∙ ap (λ r. if gone == hash then err not_found else r)
                (sym (get_refresh_token_lem now hash s)),
        λ now hash.
            get_refresh_token_lem now hash (delete_user_refresh_tokens driver id s).1
            ∙ ap (λ xs. token_result now (found hash_key hash xs))
                (server.deleted_many (matching (owned_by id)) s.refresh)
            ∙ ap (token_result now) (
                found-filter id hash (server.view s.refresh)
                  (subst (All (λ k. DistinctBy k (server.view s.refresh))) keyed
                    (server.view-DistinctBy s.refresh intact)).0),
      )
