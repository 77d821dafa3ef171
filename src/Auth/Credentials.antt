-- ===== src/Auth/Credentials.antt =====
-- The access tokens of internal/auth/auth.go: a token that `Generate` issues is one that `Parse`
-- accepts, as far as the JWT library keeps what it documents.
use iot_api.Common.{
  ◌<◌, String, ◌≡◌, ◌≢◌, refl, ◌↔◌, inl, true, some, none, List, [], ◌∷◌, arith, eq_iff, Result, ok,
  In,
}
use iot_api.Common.Int.{pos, ltb_ℤ}
use iot_api.GoTime.{Time, add}
use iot_api.Auth.{
  Claims, SigningMethod, hmac, hs256, Jwt, Manager, Config, new_manager, key_for, claims_at,
  generate, parse,
}

-- The documented behaviour of the JWT library that the program relies on.
pub record JwtLaws (jwt : Jwt) : Type 1 where
  -- The times that a token holds: whole seconds, as `NewNumericDate` truncates to, and near enough to
  -- 1970 for the number in the token to be exact.
  pub Holds : Time → Type 0
  -- A signed token with times that it holds is accepted with the same claims by whoever has the key, while it has not expired, if its method and its issuer are those to accept.
  pub accepts :
      (now : Time) (method key : String) (keys : SigningMethod → Result String)
      (methods : List String) (issuer token : String) (claims : Claims)
      → jwt.signed_string method key claims ≡ ok token
      → keys (hmac method) ≡ ok key
      → In method methods
      → claims.issuer ≡ issuer
      → Holds claims.issued_at
      → Holds claims.expires_at
      → now < claims.expires_at
      → jwt.parse_with_claims now keys methods issuer token ≡ ok (claims, true)
  pub signed_ne :
      (method key token : String) (claims : Claims)
      → jwt.signed_string method key claims ≡ ok token
      → token ≢ ""

module _ (jwt : Jwt) (laws : JwtLaws jwt) (m : Manager) where
  pub parse-generate :
      (now later : Time) (subject : String) (roles : List String) (token : String)
      → laws.Holds (jwt.numeric_date now)
      → laws.Holds (jwt.numeric_date (add now m.ttl))
      → generate jwt m now subject roles ≡ ok token
      → later < jwt.numeric_date (add now m.ttl)
      → parse jwt m later token ≡ ok (claims_at jwt m now subject roles)
  unfolding generate parse key_for
  parse-generate now later subject roles token start end issued early =
      let claims = claims_at jwt m now subject roles in
      ground (
        arith,
        eq_iff token "",
        laws.signed_ne hs256 m.secret token claims issued,
        laws.accepts later hs256 m.secret (key_for m) (hs256 ∷ []) m.issuer token claims issued refl
            (inl refl) refl start end early,
      )

-- There is a manager exactly if there is a secret, and then it signs with this secret under a
-- nonempty issuer, for a positive lifetime.
new_manager_lem :
    (cfg : Config)
    → ((new_manager cfg ≡ none) ↔ (cfg.secret ≡ ""))
      × ((m : Manager)
          → new_manager cfg ≡ some m
          → (m.secret ≡ cfg.secret) × (m.issuer ≢ "") × (ltb_ℤ (pos 0) m.ttl ≡ true))
unfolding new_manager
new_manager_lem cfg = (
  (λ h. ground (arith, eq_iff cfg.secret ""), λ h. ground (arith, eq_iff cfg.secret "")),
  λ m h.
      (ground arith, λ e. ground (arith, eq_iff cfg.issuer "", eq_iff "iot-api" ""), ground arith),
)
