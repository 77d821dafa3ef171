-- ===== src/Api/Registration.antt =====
-- A device that internal/api/handlers.go registers is what the next request for it finds.
use iot_api.Common.{
  String, false, ◌≡◌, ◌≢◌, refl, ap, ◌∙◌, ◌==◌, eq_iff, eq_refl, Option, Error, ok, err, arith,
}
use iot_api.Http.{Request}
use iot_api.Models.{RegisterDeviceRequest}
use iot_api.Store.{Store}
use iot_api.Store.Laws.{StoreLaws, refused_if_ok}
use iot_api.Auth.{Claims}
use iot_api.Service
use iot_api.Service.{new_device, read_status}
use iot_api.Service.Caching.{IsMiss, IsCoherent, overlay-write}
use iot_api.Api.{device, Environment, Draw, World, Handler}
use iot_api.Api.Devices.{register_device, get_device}

module _ {S P C : Type 0} (o : Store S) (laws : StoreLaws o) (env : Environment) (h : Handler P C)
    (coherent : IsCoherent h.svc.cache) where
  -- Over a store and a cache that keep their contracts, a request that registers a device with a
  -- name, under an identifier that is not in the store and of which nothing is cached, is answered
  -- with 201 and the new device. A request for this device on the state that it leaves is answered
  -- with 200 and the same device, and changes nothing.
  register_device-get_device :
      (draw later : Draw) (id : String) (r s : Request) (c b : Option Claims) (w : World S P C)
      (req : RegisterDeviceRequest) (e : Error)
      → env.register_device_request r.body ≡ ok req
      → req.name ≢ ""
      → o.get_device draw.uuid w.state.store ≡ err e
      → IsMiss (read_status h.svc.cache draw.uuid w.state.cached)
      → let out = register_device o env h draw id r c w in
        let d = new_device req draw.uuid draw.now in
        (out.0 ≡ record { status = 201; body = device d })
        × (get_device o env h later draw.uuid s b out.1
            ≡ (record { status = 200; body = device d }, out.1))
  unfolding register_device get_device Service.register_device Service.get_device
  register_device-get_device draw later id r s c b w req e decodes named fresh miss =
      let d = new_device req draw.uuid draw.now in
      let created : (o.create_device d w.state.store).0 ≡ ok tt =
        laws.create_result d w.state.store ∙ ap refused_if_ok fresh in
      let found : o.get_device draw.uuid (o.create_device d w.state.store).1 ≡ ok d =
        laws.get-create d draw.uuid w.state.store ∙ rw (eq_refl draw.uuid) (rw fresh refl) in
      let shown = overlay-write h.svc.cache d w.state.cached coherent miss in
      let filled : (req.name == "") ≡ false = ground (arith, eq_iff req.name "", named) in
      rw decodes (
        rw filled (
          rw (created, Service.register_device)
            (refl, rw (found, Service.get_device) (rw shown refl))))
