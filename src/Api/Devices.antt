-- ===== src/Api/Devices.antt =====
-- internal/api/handlers.go: the management of devices.
use iot_api.Common.{◌==◌, if◌then◌else◌, Result, ok, err, Error, not_found}
use iot_api.Http.{
  Response, status_ok, status_created, status_bad_request, status_not_found,
  status_internal_server_error,
}
use iot_api.Models.{Device}
use iot_api.Store.{Store}
use iot_api.Service
use iot_api.Service.Queries as Queries
use iot_api.Api.{
  Body, device, devices, Environment, Draw, World, Handler, Endpoint, write_json, write_error,
  write_no_content, decoded, on_state,
}

module _ {S P C : Type 0} (o : Store S) (env : Environment) (h : Handler P C) (draw : Draw) where
  abbrev pub answer_registration : Result Device × World S P C → Response Body × World S P C
  answer_registration result = elim result.0 [
    | ok d ↦ write_json status_created (device d) result.1
    | err e ↦ write_error status_internal_server_error (env.error_text e) result.1
  ]

  unfoldable pub register_device : Endpoint S P C
  register_device id r c = decoded (env.register_device_request r.body) (λ req w.
      if req.name == ""
      then write_error status_bad_request "name is required" w
      else answer_registration
          (on_state (Service.register_device o h.svc req draw.uuid draw.now w.state) w))

  unfoldable pub list_devices : Endpoint S P C
  list_devices id r c w = write_json status_ok (devices (Queries.list_devices o w.state)) w

  -- 404 where the device is not found, 500 with the error's text for any other error.
  abbrev pub refuse_device : Error → World S P C → Response Body × World S P C
  refuse_device not_found w = write_error status_not_found "device not found" w
  refuse_device e w = write_error status_internal_server_error (env.error_text e) w

  abbrev pub answer_device : Result Device × World S P C → Response Body × World S P C
  answer_device result = elim result.0 [
    | ok d ↦ write_json status_ok (device d) result.1
    | err e ↦ refuse_device e result.1
  ]

  unfoldable pub update_device : Endpoint S P C
  update_device id r c = decoded (env.update_device_request r.body) (λ req w.
      if req.name == ""
      then write_error status_bad_request "name is required" w
      else answer_device (on_state (Service.update_device o h.svc id req draw.now w.state) w))

  unfoldable pub get_device : Endpoint S P C
  get_device id r c w = answer_device (Service.get_device o h.svc id w.state, w)

  abbrev pub answer_deletion : Result (Unit {0}) × World S P C → Response Body × World S P C
  answer_deletion result = elim result.0 [
    | ok _ ↦ write_no_content result.1
    | err e ↦ refuse_device e result.1
  ]

  unfoldable pub delete_device : Endpoint S P C
  delete_device id r c w = answer_deletion (on_state (Service.delete_device o h.svc id w.state) w)
