-- ===== src/Auth/Service/Sessions.antt =====
-- Logging in, refreshing and logging out (internal/auth/service.go), over any store that keeps the
-- contract of `UserStore`.
use iot_api.Common.{
  String, ◌≡◌, ◌≢◌, inl, inr, true, false, arith, eq_iff, eq_refl, ◌∙◌, sym, Result-cases, then_on,
  Error, ok, err, not_found, invalid_credentials, invalid_token,
}
use iot_api.GoTime.{Time, add}
use iot_api.Models.{User, RefreshToken}
use iot_api.Store.{UserStore}
use iot_api.Store.Laws.{UserStoreLaws, unexpired}
use iot_api.Auth.{Jwt, generate}
use iot_api.Auth.Service.{
  Service, Bcrypt, Crypto, new_opaque_token, hash_token, TokenPair, TokenDraw, authenticate,
  issue_tokens, login, refresh, logout, as_invalid_token,
}

module _ {S : Type 0} (o : UserStore S) {Inv : S → Type 0} (laws : UserStoreLaws o Inv)
    (bcrypt : Bcrypt) (svc : Service) (jwt : Jwt) (crypto : Crypto) where
  -- The record of a session that `issueTokens` stores for a user.
  abbrev pub session : User → String → TokenDraw → RefreshToken
  session u token draw = record {
    token_hash = hash_token crypto token;
    user_id = u.id;
    expires_at = add draw.expires_from svc.refresh_ttl;
    created_at = draw.created_at;
  }

  -- A pair that a user was given: both halves are the user's, and the refresh token is good from
  -- the resulting state on until it expires.
  pub record Issued (u : User) (draw : TokenDraw) (pair : TokenPair) (s : S) : Type 0 where
    pub access : generate jwt svc.tokens draw.signed_at u.id u.roles ≡ ok pair.access_token
    pub drawn : new_opaque_token crypto draw.random ≡ ok pair.refresh_token
    pub stored :
        (now : Time)
        → o.get_refresh_token now (hash_token crypto pair.refresh_token) s
          ≡ unexpired now (session u pair.refresh_token draw)

  state-issue_tokens :
      (u : User) (draw : TokenDraw) (s : S) (pair : TokenPair)
      → (issue_tokens o bcrypt svc jwt crypto u draw s).0 ≡ ok pair
      → (issue_tokens o bcrypt svc jwt crypto u draw s).1
        ≡ (o.store_refresh_token (session u pair.refresh_token draw) s).1
  unfolding issue_tokens
  state-issue_tokens u draw s pair h = ground (arith, laws.store_result)

  -- Where no pair comes out, the state is as it was.
  issue_tokens-eq-err :
      (u : User) (draw : TokenDraw) (s : S) (e : Error)
      → (issue_tokens o bcrypt svc jwt crypto u draw s).0 ≡ err e
      → (issue_tokens o bcrypt svc jwt crypto u draw s).1 ≡ s
  unfolding issue_tokens
  issue_tokens-eq-err u draw s e h = elim (Result-cases (new_opaque_token crypto draw.random)) [
    | inl (r, p) ↦ ground (arith, laws.store_result (session u r draw) s)
    | inr (x, p) ↦ ground arith
  ]

  issue_tokens-Issued :
      (u : User) (draw : TokenDraw) (s : S) (pair : TokenPair)
      → (issue_tokens o bcrypt svc jwt crypto u draw s).0 ≡ ok pair
      → Issued u draw pair (issue_tokens o bcrypt svc jwt crypto u draw s).1
  unfolding issue_tokens
  issue_tokens-Issued u draw s pair h = record {
    access = ground (arith, laws.store_result);
    drawn = ground arith;
    stored = λ now. rw (state-issue_tokens u draw s pair h) (
        laws.token-store (session u pair.refresh_token draw) now
          (hash_token crypto pair.refresh_token) s
        ∙ rw eq_refl);
  }

  login-eq-issue_tokens :
      (username password : String) (draw : TokenDraw) (s : S) (pair : TokenPair)
      → (login o bcrypt svc jwt crypto username password draw s).0 ≡ ok pair
      → (u : User) × (o.get_user_by_username username s ≡ ok u)
        × (bcrypt.compare_hash_and_password u.password_hash password ≡ true)
        × (login o bcrypt svc jwt crypto username password draw s
            ≡ issue_tokens o bcrypt svc jwt crypto u draw s)
  unfolding login authenticate
  login-eq-issue_tokens username password draw s pair h =
      elim (Result-cases (o.get_user_by_username username s)) [
        | inl (u, e) ↦ (u, e, ground arith, ground arith)
        | inr (x, e) ↦ absurd (ground arith)
      ]

  -- A login that succeeds was with the password of the stored user of that name, and opens a
  -- session of this user: the access token is signed for the user's identifier and roles, and from
  -- then on the drawn refresh token is found as the user's until it expires.
  pub login-Issued :
      (username password : String) (draw : TokenDraw) (s : S) (pair : TokenPair)
      → let r = login o bcrypt svc jwt crypto username password draw s in
        r.0 ≡ ok pair
        → (u : User) × (o.get_user_by_username username s ≡ ok u)
          × (bcrypt.compare_hash_and_password u.password_hash password ≡ true)
          × Issued u draw pair r.1
  login-Issued username password draw s pair h =
      let (u, found, matches, same) = login-eq-issue_tokens username password draw s pair h in
      (u, found, matches, rw same (issue_tokens-Issued u draw s pair (rw same at h)))

  -- An unknown user and a wrong password are refused alike, and nothing changes.
  login-refused :
      (username password : String) (draw : TokenDraw) (s : S)
      → ((u : User)
          → o.get_user_by_username username s ≡ ok u
          → bcrypt.compare_hash_and_password u.password_hash password ≡ false)
      → login o bcrypt svc jwt crypto username password draw s ≡ (err invalid_credentials, s)
  unfolding login authenticate
  login-refused username password draw s no_match =
      elim (Result-cases (o.get_user_by_username username s)) [
        | inl (u, e) ↦ ground (arith, no_match u)
        | inr (x, e) ↦ ground arith
      ]

  -- A refresh that finds the token goes on from the state without it.
  refresh-found :
      (token : String) (now : Time) (draw : TokenDraw) (s : S) (rt : RefreshToken)
      → o.get_refresh_token now (hash_token crypto token) s ≡ ok rt
      → let s' = (o.delete_refresh_token (hash_token crypto token) s).1 in
        refresh o bcrypt svc jwt crypto token now draw s
        ≡ then_on
            (as_invalid_token (o.get_user_by_id rt.user_id s'), s')
            (λ u. issue_tokens o bcrypt svc jwt crypto u draw)
  unfolding refresh
  refresh-found token now draw s rt h = ground arith

  -- A token that is not found is refused, and nothing changes.
  refresh-refused :
      (token : String) (now : Time) (draw : TokenDraw) (s : S) (e : Error)
      → o.get_refresh_token now (hash_token crypto token) s ≡ err e
      → refresh o bcrypt svc jwt crypto token now draw s ≡ (err invalid_token, s)
  unfolding refresh
  refresh-refused token now draw s e h = ground arith

  refresh-eq-issue_tokens :
      (token : String) (now : Time) (draw : TokenDraw) (s : S) (pair : TokenPair)
      → (refresh o bcrypt svc jwt crypto token now draw s).0 ≡ ok pair
      → (rt : RefreshToken) × (u : User) × (o.get_refresh_token now (hash_token crypto token) s
          ≡ ok rt)
        × (o.get_user_by_id rt.user_id s ≡ ok u)
        × (refresh o bcrypt svc jwt crypto token now draw s
            ≡ issue_tokens o bcrypt svc jwt crypto u draw
                (o.delete_refresh_token (hash_token crypto token) s).1)
  refresh-eq-issue_tokens token now draw s pair h =
      elim (Result-cases (o.get_refresh_token now (hash_token crypto token) s)) [
        | inr (x, e) ↦ absurd (ground (arith, refresh-refused token now draw s x e))
        | inl (rt, e) ↦
            let s' = (o.delete_refresh_token (hash_token crypto token) s).1 in
            elim (Result-cases (o.get_user_by_id rt.user_id s')) [
              | inl (u, f) ↦ (
                rt,
                u,
                e,
                sym (laws.by_id-revoke (hash_token crypto token) rt.user_id s) ∙ f,
                refresh-found token now draw s rt e ∙ rw f,
              )
              | inr (x, f) ↦ absurd (ground (arith, refresh-found token now draw s rt e))
            ]
      ]

  -- Over a user store that keeps its contract, where tokens are stored, found and deleted without a
  -- failure: a refresh that succeeds presented a token that the store finds at that time, and opens a
  -- session of the user whom that token belongs to. The access token is signed for this user's
  -- identifier and roles, and from then on the drawn refresh token is found as the user's until it
  -- expires.
  pub refresh-Issued :
      (token : String) (now : Time) (draw : TokenDraw) (s : S) (pair : TokenPair)
      → let r = refresh o bcrypt svc jwt crypto token now draw s in
        r.0 ≡ ok pair
        → (rt : RefreshToken) × (u : User) × (o.get_refresh_token now (hash_token crypto token) s
            ≡ ok rt)
          × (o.get_user_by_id rt.user_id s ≡ ok u)
          × Issued u draw pair r.1
  refresh-Issued token now draw s pair h =
      let (rt, u, found, owner, same) = refresh-eq-issue_tokens token now draw s pair h in
      (
        rt,
        u,
        found,
        owner,
        rw same (
            issue_tokens-Issued u draw (o.delete_refresh_token (hash_token crypto token) s).1 pair
              (rw same at h)),
      )

  still_gone :
      (hash : String) (later : Time) (u : User) (draw : TokenDraw) (s : S)
      → o.get_refresh_token later hash s ≡ err not_found
      → ((r : String) → new_opaque_token crypto draw.random ≡ ok r → hash_token crypto r ≢ hash)
      → o.get_refresh_token later hash (issue_tokens o bcrypt svc jwt crypto u draw s).1
        ≡ err not_found
  still_gone hash later u draw s gone fresh =
      elim (Result-cases (issue_tokens o bcrypt svc jwt crypto u draw s).0) [
        | inl (pair, e) ↦
            let issued = issue_tokens-Issued u draw s pair e in
            let token = session u pair.refresh_token draw in
            rw (state-issue_tokens u draw s pair e) (
              ground (
                arith,
                laws.token-store token later hash s,
                fresh pair.refresh_token issued.drawn,
                eq_iff (hash_token crypto pair.refresh_token) hash,
              ))
        | inr (x, e) ↦ rw (issue_tokens-eq-err u draw s x e) gone
      ]

  -- Over a user store that keeps its contract, where deleting a token always succeeds and removes it: a
  -- stored token that is presented is used up, even where the refresh fails after it. Whoever presents
  -- it again is refused, where the token drawn for the new pair does not have the same hash.
  pub refresh_twice :
      (token : String) (now later : Time) (draw draw' : TokenDraw) (s : S) (rt : RefreshToken)
      → o.get_refresh_token now (hash_token crypto token) s ≡ ok rt
      → ((r : String)
          → new_opaque_token crypto draw.random ≡ ok r
          → hash_token crypto r ≢ hash_token crypto token)
      → let s' = (refresh o bcrypt svc jwt crypto token now draw s).1 in
        refresh o bcrypt svc jwt crypto token later draw' s' ≡ (err invalid_token, s')
  refresh_twice token now later draw draw' s rt found fresh =
      let gone =
        laws.token-revoke (hash_token crypto token) later (hash_token crypto token) s
        ∙ rw eq_refl in
      let s' = (o.delete_refresh_token (hash_token crypto token) s).1 in
      refresh-refused token later draw' _ not_found (
        rw (refresh-found token now draw s rt found)
          (elim (Result-cases (o.get_user_by_id rt.user_id s')) [
            | inl (u, e) ↦ rw e (still_gone (hash_token crypto token) later u draw s' gone fresh)
            | inr (x, e) ↦ rw e gone
          ]))

  -- After a logout the token is refused, whatever it was.
  refresh-logout :
      (token : String) (now : Time) (draw : TokenDraw) (s : S)
      → let r = logout o bcrypt svc jwt crypto token s in
        (r.0 ≡ ok tt)
        × (refresh o bcrypt svc jwt crypto token now draw r.1 ≡ (err invalid_token, r.1))
  unfolding logout
  refresh-logout token now draw s = (
    laws.revoke_result (hash_token crypto token) s,
    refresh-refused token now draw _ not_found
        (laws.token-revoke (hash_token crypto token) now (hash_token crypto token) s ∙ rw eq_refl),
  )
