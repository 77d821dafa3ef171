-- ===== src/Api/Routes.antt =====
-- internal/api/handlers.go: `Routes` and the guard of the admin's routes. gorilla/mux is a
-- parameter: it says which route of a table a request takes, with the variable `id` of the path.
-- The header that `jsonContentType` sets is not modelled.
use iot_api.Common.{String, Option, none, some, List, [], ◌∷◌}
use iot_api.Http
use iot_api.Http.{Request, Response, status_not_found}
use iot_api.Models.{role_admin}
use iot_api.Store.{Store, UserStore}
use iot_api.Auth.{Claims}
use iot_api.Auth.Middleware.{middleware, require_role}
use iot_api.Service.Queries.{HubAccess}
use iot_api.Api.{Body, no_body, error_body, Environment, Draw, World, Handler, Endpoint, write_json}
use iot_api.Api.Sessions.{health, login, refresh, logout}
use iot_api.Api.Users.{create_user, list_users, get_user, update_user, delete_user}
use iot_api.Api.Devices.{register_device, list_devices, get_device, update_device, delete_device}
use iot_api.Api.Readings.{ingest_telemetry, get_telemetry, get_analytics, list_alerts}
use iot_api.Api.Websocket.{websocket}

-- A route of the table; without a method it takes any.
pub record Route (E : Type 0) : Type 0 where
  pub template : String
  pub method : Option String
  pub endpoint : E

-- What mux makes of a request. A path that is not clean, such as `//api/devices`, is redirected before
-- any route is looked for.
pub data Match (E : Type 0) : Type 0 where
  unclean : Match E
  found : Route E → String → Match E
  no_route : Match E
  wrong_method : Match E

pub record Mux (E : Type 0) : Type 0 where
  pub match_route : List (Route E) → Request → Match E

abbrev pub handle_func : {E : Type 0} → String → E → String → Route E
handle_func template endpoint method = record {
  template = template;
  method = some method;
  endpoint = endpoint;
}

module _ {S P C : Type 0} (h : Handler P C) where
  -- `Handler.admin`.
  unfoldable pub admin : Endpoint S P C → Endpoint S P C
  admin next id = elim h.auth [
    | none ↦ next id
    | some m ↦ require_role error_body role_admin (next id)
  ]

module _ {S P C : Type 0} (o : Store S) (us : UserStore S) (access : HubAccess P)
    (env : Environment) (h : Handler P C) (draw : Draw) where
  unfoldable pub routes : List (Route (Endpoint S P C))
  routes =
      handle_func "/health" health "GET"
      ∷ handle_func "/api/auth/login" (login us env h draw) "POST"
      ∷ handle_func "/api/auth/refresh" (refresh us env h draw) "POST"
      ∷ handle_func "/api/auth/logout" (logout us env h draw) "POST"
      ∷ handle_func "/api/devices" (admin h (register_device o env h draw)) "POST"
      ∷ handle_func "/api/devices" (list_devices o env h draw) "GET"
      ∷ handle_func "/api/devices/{id}" (get_device o env h draw) "GET"
      ∷ handle_func "/api/devices/{id}" (admin h (update_device o env h draw)) "PUT"
      ∷ handle_func "/api/devices/{id}" (admin h (delete_device o env h draw)) "DELETE"
      ∷ handle_func "/api/devices/{id}/telemetry" (ingest_telemetry o env h draw) "POST"
      ∷ handle_func "/api/devices/{id}/telemetry" (get_telemetry o env h draw) "GET"
      ∷ handle_func "/api/devices/{id}/analytics" (get_analytics o env h draw) "GET"
      ∷ handle_func "/api/alerts" (list_alerts o env h draw) "GET"
      ∷ handle_func "/api/users" (admin h (create_user us env h draw)) "POST"
      ∷ handle_func "/api/users" (admin h (list_users us env h draw)) "GET"
      ∷ handle_func "/api/users/{id}" (admin h (get_user us env h draw)) "GET"
      ∷ handle_func "/api/users/{id}" (admin h (update_user us env h draw)) "PUT"
      ∷ handle_func "/api/users/{id}" (admin h (delete_user us env h draw)) "DELETE"
      ∷ record { template = "/ws"; method = none; endpoint = websocket access env }
      ∷ []

  -- `r.Use(h.auth.Middleware)`, where authentication is enabled.
  unfoldable pub with_auth :
      Http.Handler Claims Body (World S P C) → Http.Handler Claims Body (World S P C)
  with_auth next = elim h.auth [
    | none ↦ next
    | some m ↦ middleware error_body env.jwt m draw.now next
  ]

  -- The router: the middleware runs for a route that was found. The redirection of mux is 301.
  unfoldable pub serve : Mux (Endpoint S P C) → Request → World S P C → Response Body × World S P C
  serve mux r w = elim (mux.match_route routes r) [
    | found route id ↦ with_auth (route.endpoint id) r none w
    | unclean ↦ write_json 301 no_body w
    | no_route ↦ write_json status_not_found no_body w
    | wrong_method ↦ write_json 405 no_body w
  ]
