-- ===== src/Auth/Example.antt =====
-- A JWT library for the tests: it has one key, and signs one set of claims.
use iot_api.Common.{
  Bool-cases, inl, inr, ap, sym, ◌∙◌, String, ◌≡◌, refl, arith, Bool, true, false, ◌&&◌, List, [],
  ◌∷◌, ltb, nat_eq, if◌then◌else◌, ◌==◌, eq_iff, Result, ok, err, external,
}
use iot_api.Auth.{Claims, hmac, hs256, Jwt}
use iot_api.Auth.Credentials.{JwtLaws}
use iot_api.Auth.Middleware.{has_role}
use iot_api.Auth.Middleware.Guards.{has_role_iff}

abbrev same_roles : List String → List String → Bool
same_roles [] [] = true
same_roles [] (y ∷ ys) = false
same_roles (x ∷ xs) [] = false
same_roles (x ∷ xs) (y ∷ ys) = x == y && same_roles xs ys

same_roles_lem : (xs ys : List String) → same_roles xs ys ≡ true → xs ≡ ys
same_roles_lem [] [] h = refl
same_roles_lem [] (y ∷ ys) h = ground arith
same_roles_lem (x ∷ xs) [] h = ground arith
same_roles_lem (x ∷ xs) (y ∷ ys) h = ground (arith, eq_iff x y, same_roles_lem xs ys)

module _ (signed : Claims) where
  abbrev is_known : Claims → Bool
  is_known c =
      same_roles c.roles signed.roles
      && c.subject == signed.subject
      && c.issuer == signed.issuer
      && nat_eq c.issued_at signed.issued_at
      && nat_eq c.expires_at signed.expires_at

  pub known_lem : (c : Claims) → is_known c ≡ true → c ≡ signed
  known_lem c h = ground (
    arith,
    same_roles_lem c.roles signed.roles,
    eq_iff c.subject signed.subject,
    eq_iff c.issuer signed.issuer,
  )

  abbrev with_key : Result String → Result (Claims × Bool)
  with_key (ok key) = if key == "key" then ok (signed, true) else err external
  with_key (err e) = err e

  abbrev pub jwt : Jwt
  jwt = record {
    numeric_date = λ t. t;
    signed_string = λ method key c.
        if method == hs256 && key == "key" && is_known c then ok "signed" else err external;
    parse_with_claims = λ now keys methods issuer token.
        if token == "signed"
          && has_role methods hs256
          && issuer == signed.issuer
          && ltb now signed.expires_at
        then with_key (keys (hmac hs256))
        else err external;
  }

  pub signed_lem :
      (method key token : String) (c : Claims)
      → jwt.signed_string method key c ≡ ok token
      → (method ≡ hs256) × (key ≡ "key") × (is_known c ≡ true) × ("signed" ≡ token)
  signed_lem method key token c h =
      elim (Bool-cases (method == hs256 && key == "key" && is_known c)) [
        | inr e ↦ absurd (ground (arith, h))
        | inl e ↦ (
          (eq_iff method hs256).0 (ground arith),
          (eq_iff key "key").0 (ground arith),
          ground arith,
          ground arith,
        )
      ]

  unfoldable pub jwt_laws : JwtLaws jwt
  jwt_laws = record {
    Holds = λ t. Unit;
    accepts =
        λ now method key keys methods issuer token claims made keyed member same issued ends early.
          let (m, k, known, e) = signed_lem method key token claims made in
          let keyed' : keys (hmac hs256) ≡ ok "key" = rw (sym m, sym k) keyed in
          let c = known_lem claims known in
          ground (
            arith,
            keyed',
            eq_iff token "signed",
            sym c,
            e,
            same,
            early,
            eq_iff issuer signed.issuer,
            (has_role_iff methods hs256).1 (rw (sym m) member),
            ap (λ d. d.issuer) c,
            ap (λ d. d.expires_at) c,
          );
    signed_ne = λ method key token claims h. λ e.
        let t = signed_lem method key token claims h in
        ground (arith, (eq_iff "signed" "").1 (t.3 ∙ e));
  }
