-- ===== src/Service/Devices.antt =====
-- Registering, reading, changing and deleting devices through internal/service/service.go, over any
-- store that keeps its contract.
use iot_api.Common.{
  String, ◌≡◌, refl, ap, ◌∙◌, arith, if◌then◌else◌, ◌==◌, eq_iff, eq_refl, ok, err, Error,
}
use iot_api.GoTime.{Time}
use iot_api.Models.{Device, RegisterDeviceRequest, UpdateDeviceRequest}
use iot_api.Store.{Store}
use iot_api.Store.Changes.{with_description}
use iot_api.Store.Laws.{StoreLaws, needs, refused_if_ok}
use iot_api.Service.{
  Service, State, device_event, new_device, overlay, read_status, register_device, get_device,
  update_device,
}

module _ {S P C : Type 0} (o : Store S) (laws : StoreLaws o) (svc : Service P C) where
  -- Over a store that keeps its contract, a device under a fresh identifier is registered: the
  -- answer is the new device, with an unknown status and never seen. The store holds it and keeps
  -- every other device, and its event is published.
  register_device_lem :
      (req : RegisterDeviceRequest) (uuid : String) (now : Time) (st : State S P C) (e : Error)
      → o.get_device uuid st.store ≡ err e
      → let r = register_device o svc req uuid now st in
        let d = new_device req uuid now in
        (r.0 ≡ ok d)
        × ((j : String)
            → o.get_device j r.1.store ≡ (if uuid == j then ok d else o.get_device j st.store))
        × (r.1.published ≡ svc.publisher.broadcast (device_event d now) st.published)
  unfolding register_device
  register_device_lem req uuid now st e h =
      let d = new_device req uuid now in
      let created : (o.create_device d st.store).0 ≡ ok tt =
        laws.create_result d st.store ∙ ap refused_if_ok h in
      rw (created, register_device)
        (refl, λ j. laws.get-create d j st.store ∙ ground (arith, h, eq_iff uuid j), refl)

  -- Over a store that keeps its contract, an update of a registered device changes the four fields
  -- of this device and of no other. The answer is the changed device with the cached status over
  -- it, and this is what is published.
  update_device_lem :
      (id : String) (req : UpdateDeviceRequest) (now : Time) (st : State S P C) (d : Device)
      → o.get_device id st.store ≡ ok d
      → let r = update_device o svc id req now st in
        let changed = with_description req.name req.device_type req.location req.metadata d in
        let shown = overlay (read_status svc.cache id st.cached) changed in
        (r.0 ≡ ok shown)
        × ((j : String)
            → o.get_device j r.1.store ≡ (if id == j then ok changed else o.get_device j st.store))
        × (r.1.published ≡ svc.publisher.broadcast (device_event shown now) st.published)
  unfolding update_device get_device
  update_device_lem id req now st d h =
      let changed = with_description req.name req.device_type req.location req.metadata d in
      let updated : (o.update_device id req.name req.device_type req.location req.metadata
            st.store).0
          ≡ ok tt =
        laws.update_result id req.name req.device_type req.location req.metadata st.store
        ∙ ap needs h in
      let found : (j : String)
          → o.get_device j
              (o.update_device id req.name req.device_type req.location req.metadata st.store).1
            ≡ (if id == j then ok changed else o.get_device j st.store) =
        λ j.
          laws.get-update id req.name req.device_type req.location req.metadata j st.store
          ∙ ground (arith, h, eq_iff id j) in
      let found_id : o.get_device id
            (o.update_device id req.name req.device_type req.location req.metadata st.store).1
          ≡ ok changed =
        found id ∙ rw (eq_refl id) refl in
      rw (updated, update_device) (rw (found_id, get_device) (refl, found, refl))

  -- A device that is not in the store is not updated: the answer is the store's error, and no event
  -- is published.
  update_device-eq-err :
      (id : String) (req : UpdateDeviceRequest) (now : Time) (st : State S P C) (e : Error)
      → o.get_device id st.store ≡ err e
      → let r = update_device o svc id req now st in
        (r.0 ≡ err e)
        × ((j : String) → o.get_device j r.1.store ≡ o.get_device j st.store)
        × (r.1.published ≡ st.published)
  unfolding update_device
  update_device-eq-err id req now st e h =
      let refused : (o.update_device id req.name req.device_type req.location req.metadata
            st.store).0
          ≡ err e =
        laws.update_result id req.name req.device_type req.location req.metadata st.store
        ∙ ap needs h in
      rw (refused, update_device)
        (
          refl,
          λ j.
              laws.get-update id req.name req.device_type req.location req.metadata j st.store
              ∙ ground (arith, h, eq_iff id j),
          refl,
        )
