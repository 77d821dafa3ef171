-- ===== src/Api/Access.antt =====
-- Who reaches the handlers of internal/api/handlers.go behind the authentication.
use Prim.Native.Char.{code}
use iot_api.Common.{
  String, ◌≡◌, refl, ap, ◌⊎◌, inl, inr, Bool, true, false, ◌||◌, some, List, In, In-All, All,
  Bool-cases, nat_eq, Error, ok, err, arith,
}
use iot_api.Models.{role_admin}
use iot_api.Http.{Request}
use iot_api.Store.{Store, UserStore}
use iot_api.Auth.{Claims, Manager, parse}
use iot_api.Auth.Middleware.{is_public, extract_token, middleware, require_role, has_role}
use iot_api.Auth.Middleware.Guards.{has_role_iff}
use iot_api.Service.Queries.{HubAccess, subscribe}
use iot_api.Api.{Environment, Draw, World, Handler, Endpoint}
use iot_api.Api.Devices.{list_devices, get_device}
use iot_api.Api.Readings.{ingest_telemetry, get_telemetry, get_analytics, list_alerts}
use iot_api.Api.Websocket.{websocket}
use iot_api.Api.Routes.{
  Route, Match, unclean, found, no_route, wrong_method, Mux, admin, routes, with_auth, serve,
}

-- A template with a variable in braces.
unfoldable pub has_variable : String → Bool
has_variable String.[] = false
has_variable (String.◌∷◌ c s) = nat_eq (code c) 123 || has_variable s

-- gorilla/mux: the route that is found stands in the table, and a template without a variable
-- matches the path that it is.
pub record MuxLaws {E : Type 0} (mux : Mux E) : Type 0 where
  pub In-found :
      (table : List (Route E)) (r : Request) (route : Route E) (id : String)
      → mux.match_route table r ≡ found route id
      → In route table
  pub literal :
      (table : List (Route E)) (r : Request) (route : Route E) (id : String)
      → mux.match_route table r ≡ found route id
      → has_variable route.template ≡ false
      → route.template ≡ r.path

Match-cases :
    {E : Type 0} (m : Match E)
    → ((route : Route E) × (id : String) × (m ≡ found route id))
      ⊎ (m ≡ unclean)
      ⊎ (m ≡ no_route)
      ⊎ (m ≡ wrong_method)
Match-cases unclean = inr (inl refl)
Match-cases (found route id) = inl (route, id, refl)
Match-cases no_route = inr (inr (inl refl))
Match-cases wrong_method = inr (inr (inr refl))

module _ {S P C : Type 0} (o : Store S) (us : UserStore S) (access : HubAccess P)
    (env : Environment) (h : Handler P C) (draw : Draw) (m : Manager) (enabled : h.auth ≡ some m)
    (mux : Mux (Endpoint S P C)) (r : Request) (w : World S P C)
    (guarded : is_public r.path ≡ false) where
  -- With authentication enabled, a request for a path that is not public whose token is not accepted
  -- changes nothing. The answer is 401, or that of the router where it finds no route: 301 for a path
  -- that is not clean, 404 or 405.
  pub serve-unauthenticated :
      (e : Error)
      → parse env.jwt m draw.now (extract_token r) ≡ err e
      → let out = serve o us access env h draw mux r w in
        (out.1 ≡ w)
        × ((out.0.status ≡ 401)
            ⊎ (out.0.status ≡ 301)
            ⊎ (out.0.status ≡ 404)
            ⊎ (out.0.status ≡ 405))
  unfolding serve with_auth middleware
  serve-unauthenticated e refused =
      elim (Match-cases (mux.match_route (routes o us access env h draw) r)) [
        | inl (route, id, p) ↦
            rw (p, serve)
              (rw (enabled, with_auth)
                (rw (guarded, middleware) (rw (refused, middleware) (refl, inl refl))))
        | inr (inl p) ↦ rw (p, serve) (refl, inr (inl refl))
        | inr (inr (inl p)) ↦ rw (p, serve) (refl, inr (inr (inl refl)))
        | inr (inr (inr p)) ↦ rw (p, serve) (refl, inr (inr (inr refl)))
      ]

  abbrev OpenRoute : Route (Endpoint S P C) → Type 0
  OpenRoute route = (has_variable route.template ≡ false) × (is_public route.template ≡ true)

  -- An endpoint that leaves the store as it was for the claims.
  abbrev KeepsStore : Claims → Route (Endpoint S P C) → Type 0
  KeepsStore claims route =
      (id : String) → (route.endpoint id r (some claims) w).1.state.store ≡ w.state.store

  admin-KeepsStore :
      (claims : Claims) (next : Endpoint S P C) (id : String)
      → ¬ In role_admin claims.roles
      → (admin h next id r (some claims) w).1.state.store ≡ w.state.store
  unfolding admin require_role
  admin-KeepsStore claims next id lacks =
      rw enabled (elim (Bool-cases (has_role claims.roles role_admin)) [
        | inl e ↦ absurd (lacks ((has_role_iff claims.roles role_admin).0 e))
        | inr e ↦ rw e refl
      ])

  ingest_telemetry-KeepsStore :
      (claims : Claims) (id : String)
      → (ingest_telemetry o env h draw id r (some claims) w).1.state.store ≡ w.state.store
  unfolding ingest_telemetry
  ingest_telemetry-KeepsStore claims id = ground arith

  websocket-KeepsStore :
      (claims : Claims) (id : String)
      → (websocket access env id r (some claims) w).1.state.store ≡ w.state.store
  unfolding websocket subscribe
  websocket-KeepsStore claims id = ground arith

  get_device-KeepsStore :
      (claims : Claims) (id : String)
      → (get_device o env h draw id r (some claims) w).1.state.store ≡ w.state.store
  unfolding get_device
  get_device-KeepsStore claims id = ground arith

  routes-KeepsStore :
      (claims : Claims)
      → ¬ In role_admin claims.roles
      → All (λ route. OpenRoute route ⊎ KeepsStore claims route) (routes o us access env h draw)
  unfolding routes has_variable is_public list_devices get_telemetry get_analytics list_alerts
  routes-KeepsStore claims lacks =
      let closed : (next : Endpoint S P C) (id : String)
          → (admin h next id r (some claims) w).1.state.store ≡ w.state.store =
        λ next id. admin-KeepsStore claims next id lacks in
      (
        inl (refl, refl),
        (
          inl (refl, refl),
          (
            inl (refl, refl),
            (
              inl (refl, refl),
              (
                inr (closed _),
                (
                  inr (λ id. refl),
                  (
                    inr (get_device-KeepsStore claims),
                    (
                      inr (closed _),
                      (
                        inr (closed _),
                        (
                          inr (ingest_telemetry-KeepsStore claims),
                          (
                            inr (λ id. refl),
                            (
                              inr (λ id. refl),
                              (
                                inr (λ id. refl),
                                (
                                  inr (closed _),
                                  (
                                    inr (closed _),
                                    (
                                      inr (closed _),
                                      (
                                        inr (closed _),
                                        (inr (closed _), (inr (websocket-KeepsStore claims), tt)),
                                      ),
                                    ),
                                  ),
                                ),
                              ),
                            ),
                          ),
                        ),
                      ),
                    ),
                  ),
                ),
              ),
            ),
          ),
        ),
      )

  -- With authentication enabled and the routes found as gorilla/mux finds them, a request for a path
  -- that is not public, with an accepted token that does not hold the admin role, leaves the store as
  -- it was, whichever route it takes.
  pub serve-not_admin :
      (laws : MuxLaws mux) (claims : Claims)
      → parse env.jwt m draw.now (extract_token r) ≡ ok claims
      → ¬ In role_admin claims.roles
      → (serve o us access env h draw mux r w).1.state.store ≡ w.state.store
  unfolding serve with_auth middleware
  serve-not_admin laws claims accepted lacks =
      let table = routes o us access env h draw in
      elim (Match-cases (mux.match_route table r)) [
        | inr (inl p) ↦ rw (p, serve) refl
        | inr (inr (inl p)) ↦ rw (p, serve) refl
        | inr (inr (inr p)) ↦ rw (p, serve) refl
        | inl (route, id, p) ↦
            rw (p, serve)
              (rw (enabled, with_auth)
                (rw (guarded, middleware)
                  (rw (accepted, middleware)
                    (elim (In-All (λ x. OpenRoute x ⊎ KeepsStore claims x) route table
                      (routes-KeepsStore claims lacks) (laws.In-found table r route id p)) [
                        | inr keeps ↦ keeps id
                        | inl (plain, listed) ↦
                            let same = laws.literal table r route id p plain in
                            absurd (ground (arith, listed, ap is_public same, guarded))
                      ]))))
      ]
