-- ===== src/Auth/Middleware/Guards.antt =====
-- What the middleware of internal/auth/middleware.go lets through.
use iot_api.Common.{
  String, ◌≡◌, ◌↔◌, ◌⊎◌, inl, inr, true, false, Option, some, List, [], ◌∷◌, arith, ◌||◌, eq_iff,
  Result-cases, Error, ok, err, In, Bool-cases,
}
use iot_api.GoTime.{Time}
use iot_api.Models.{role_admin}
use iot_api.Http.{Request, Response, Handler}
use iot_api.Auth.{Claims, Jwt, Manager, parse}
use iot_api.Auth.Middleware.{is_public, has_role, extract_token, middleware, require_role}

pub has_role_iff :
    (roles : List String) (want : String) → (has_role roles want ≡ true) ↔ In want roles
unfolding has_role
has_role_iff [] want = (λ h. ground arith, λ i. absurd i)
has_role_iff (r ∷ roles) want =
    let ih = has_role_iff roles want in
    (λ h. ground (arith, eq_iff r want, ih.0), λ i. ground (arith, eq_iff r want, ih.1))

module _ {B S : Type 0} (error_body : String → B) (jwt : Jwt) (m : Manager) (now : Time) where
  -- The outcome of a guarded request: the handler ran for claims that hold one of the roles, or
  -- the request was refused with the status and nothing was run.
  pub data Outcome (role : String) (next : Handler Claims B S) (r : Request) (s : S)
      (out : Response B × S) : Type 0 where
    ran :
        (claims : Claims)
        → parse jwt m now (extract_token r) ≡ ok claims
        → In role claims.roles ⊎ In role_admin claims.roles
        → out ≡ next r (some claims) s
        → Outcome role next r s out
    unauthenticated :
        (e : Error)
        → parse jwt m now (extract_token r) ≡ err e
        → out.0.status ≡ 401
        → out.1 ≡ s
        → Outcome role next r s out
    forbidden :
        (claims : Claims)
        → parse jwt m now (extract_token r) ≡ ok claims
        → ¬ In role claims.roles
        → ¬ In role_admin claims.roles
        → out.0.status ≡ 403
        → out.1 ≡ s
        → Outcome role next r s out

  -- A handler behind the authentication and a role, on a path that is not public, runs exactly for
  -- a request whose token is accepted and holds the role or the admin role. Without an accepted
  -- token the answer is 401, without the role 403, and the state stays as it was.
  pub guarded-Outcome :
      (role : String) (next : Handler Claims B S) (r : Request) (context : Option Claims) (s : S)
      → is_public r.path ≡ false
      → Outcome role next r s
          (middleware error_body jwt m now (require_role error_body role next) r context s)
  unfolding middleware require_role
  guarded-Outcome role next r context s guarded =
      elim (Result-cases (parse jwt m now (extract_token r))) [
        | inr (e, p) ↦ unauthenticated e p (ground arith) (ground arith)
        | inl (claims, p) ↦
            elim (Bool-cases (has_role claims.roles role || has_role claims.roles role_admin)) [
              | inl h ↦
                  ran claims p
                    (elim (Bool-cases (has_role claims.roles role)) [
                      | inl a ↦ inl ((has_role_iff claims.roles role).0 a)
                      | inr b ↦ inr ((has_role_iff claims.roles role_admin).0 (ground arith))
                    ])
                    (ground arith)
              | inr h ↦
                  forbidden claims p (λ i. ground (arith, (has_role_iff claims.roles role).1 i))
                    (λ i. ground (arith, (has_role_iff claims.roles role_admin).1 i)) (ground arith)
                    (ground arith)
            ]
      ]
