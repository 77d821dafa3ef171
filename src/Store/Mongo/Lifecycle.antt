-- ===== src/Store/Mongo/Lifecycle.antt =====
-- The devices of internal/store/mongo.go, on a server that answers every call: the contract of the
-- store, for devices as BSON keeps them.
use iot_api.Common.{
  ◌≡◌, refl, ap, sym, ◌∙◌, String, Bool, true, false, ◌==◌, if◌then◌else◌, List, [], ◌∷◌, filter_b,
  not, Bool-cases, inl, inr, Result, ok, err, not_found, device_exists, arith,
}
use iot_api.Common.GoMap.{GoMap}
use iot_api.GoTime.{Time, is_zero}
use iot_api.Models.{Device, DeviceStatus}
use iot_api.Store.Changes.{with_description, with_status}
use iot_api.Store.Laws.{needs, refused_if_ok, map_ok, or_else}
use iot_api.Store.Mongo.{MongoStore}
use iot_api.Store.Mongo.Collections.{Stored, Driver, matching, decode_one, count_result}
use iot_api.Store.Mongo.Documents.{DeviceDoc, device_to_doc, doc_to_device}
use iot_api.Store.Mongo.Devices.{
  has_id, set_description, set_status, doc_result, create_device, get_device, update_device,
  update_device_status, delete_device,
}
use iot_api.Store.Mongo.Server.{Server}
use iot_api.Store.Mongo.Keyed as Keyed
use iot_api.Store.Mongo.Keyed.{
  found, is_ok, found-cases, insert_lem, kept_keys, update_lem, delete_lem,
}

abbrev pub id_key : DeviceDoc → String
id_key d = d.id

needs_lem :
    (j : String) (xs : List (Stored DeviceDoc))
    → (if is_ok id_key (found id_key j xs) then ok tt else err not_found)
      ≡ needs (doc_result (found id_key j xs))
needs_lem j xs = elim (found-cases id_key j xs) [ inl (d, e) ↦ rw e refl | inr e ↦ rw e refl ]

refused_lem :
    (r : Result DeviceDoc)
    → (if is_ok id_key r then err device_exists else ok tt) ≡ refused_if_ok (doc_result r)
refused_lem (ok d) = refl
refused_lem (err e) = refl

or_else_lem :
    (r : Result DeviceDoc) (d : DeviceDoc)
    → doc_result (Keyed.or_else id_key r d) ≡ or_else (doc_result r) (doc_to_device d)
or_else_lem (ok c) d = refl
or_else_lem (err e) d = refl

map_ok_lem :
    (g : DeviceDoc → DeviceDoc) (f : Device → Device) (r : Result DeviceDoc)
    → ((d : DeviceDoc) → doc_to_device (g d) ≡ f (doc_to_device d))
    → doc_result (Keyed.map_ok id_key g r) ≡ map_ok f (doc_result r)
map_ok_lem g f (ok d) same = ap ok (same d)
map_ok_lem g f (err e) same = refl

doc_result_if :
    (b : Bool) (r q : Result DeviceDoc) (x y : Result Device)
    → doc_result r ≡ x
    → doc_result q ≡ y
    → doc_result (if b then r else q) ≡ (if b then x else y)
doc_result_if true r q x y e f = e
doc_result_if false r q x y e f = f

set_status_lem :
    (status : DeviceStatus) (seen : Time) (d : DeviceDoc)
    → set_status status seen d ≡ device_to_doc (with_status status seen (doc_to_device d))
unfolding device_to_doc doc_to_device
set_status_lem status seen d = elim (Bool-cases (is_zero seen)) [
  | inl e ↦ rw e refl
  | inr e ↦ rw e refl
]

module _ {Col : Type 0 → Type 0} (driver : Driver Col) (server : Server driver) where
  -- A device as it comes back from its collection.
  unfoldable pub kept : Device → Device
  kept d = doc_to_device (server.bson (device_to_doc d))

  -- The devices are intact under the unique index on the identifiers.
  abbrev pub IsIndexed : Col DeviceDoc → Type 0
  IsIndexed c = server.Intact c × (server.unique_keys c ≡ id_key ∷ [])

module _ {Col : Type 0 → Type 0} (driver : Driver Col) (server : Server driver) (s : MongoStore Col)
    (indexed : IsIndexed driver server s.devices) where
  get_device_lem :
      (j : String) (s' : MongoStore Col)
      → get_device driver j s' ≡ doc_result (found id_key j (server.view s'.devices))
  unfolding get_device
  get_device_lem j s' = ap doc_result (ap decode_one (server.found_one _ s'.devices))

  -- With the unique index on the identifiers, `CreateDevice` is refused exactly where the
  -- identifier is taken. After it the device is found as BSON keeps it, unless another was there,
  -- and every other device is found as before. The index stays.
  create_device-get :
      (d : Device)
      → let r = create_device driver d s in
        (r.0 ≡ refused_if_ok (get_device driver d.id s))
        × ((j : String)
            → get_device driver j r.1 ≡ (
                if d.id == j
                then or_else (get_device driver j s) (kept driver server d)
                else get_device driver j s))
        × IsIndexed driver server r.1.devices
  unfolding create_device get_device kept device_to_doc
  create_device-get d =
      let (answer, after) =
        insert_lem driver server id_key s.devices indexed.1 device_exists (device_to_doc d) in
      (
        answer ∙ refused_lem _ ∙ ap refused_if_ok (sym (get_device_lem d.id s)),
        λ j.
            get_device_lem j (create_device driver d s).1
            ∙ ap doc_result (after j)
            ∙ doc_result_if (d.id == j) _ _ _ _
                (or_else_lem _ _
                  ∙ ap (λ r. or_else r (kept driver server d)) (sym (get_device_lem j s)))
                (sym (get_device_lem j s)),
        (server.insert-Intact _ s.devices indexed.0, server.keys-insert _ s.devices ∙ indexed.1),
      )

  -- What a change of a device leaves, after a `$set` that changes the document as `change` changes
  -- the device.
  set_lem :
      (id : String) (g : DeviceDoc → DeviceDoc) (change : Device → Device)
      → ((doc : DeviceDoc) → g doc ≡ device_to_doc (change (doc_to_device doc)))
      → ((doc : DeviceDoc) → (g doc).id ≡ doc.id)
      → let r = driver.update_one (matching (has_id id)) g s.devices in
        (count_result r.0 ≡ needs (get_device driver id s))
        × ((j : String)
            → get_device driver j (record s { devices = r.1 }) ≡ (
                if id == j
                then map_ok (λ d. kept driver server (change d)) (get_device driver j s)
                else get_device driver j s))
        × IsIndexed driver server r.1
  unfolding kept
  set_lem id g change same keeps =
      let (answer, after) = update_lem driver server id_key s.devices indexed.1 id g keeps in
      (
        answer ∙ needs_lem id _ ∙ ap needs (sym (get_device_lem id s)),
        λ j.
            get_device_lem j
              (record s { devices = (driver.update_one (matching (has_id id)) g s.devices).1 })
            ∙ ap doc_result (after j)
            ∙ doc_result_if (id == j) _ _ _ _
                (map_ok_lem _ (λ d. kept driver server (change d)) _
                    (λ doc. ap (λ x. doc_to_device (server.bson x)) (same doc))
                  ∙ ap (map_ok (λ d. kept driver server (change d))) (sym (get_device_lem j s)))
                (sym (get_device_lem j s)),
        (
          server.update-Intact _ g s.devices
              (kept_keys driver server id_key s.devices indexed.1 g keeps) indexed.0,
          server.keys-update _ g s.devices ∙ indexed.1,
        ),
      )

  -- With the unique index on the identifiers, `UpdateDevice` changes the four fields of the device,
  -- which comes back as BSON keeps it, and `ErrNotFound` answers for a device that is not there.
  -- Every other device is found as before, and the index stays.
  update_device-get :
      (id name device_type location : String) (metadata : GoMap String)
      → let r = update_device driver id name device_type location metadata s in
        (r.0 ≡ needs (get_device driver id s))
        × ((j : String)
            → get_device driver j r.1 ≡ (
                if id == j
                then map_ok
                    (λ d.
                      kept driver server (with_description name device_type location metadata d))
                    (get_device driver j s)
                else get_device driver j s))
        × IsIndexed driver server r.1.devices
  unfolding update_device device_to_doc doc_to_device
  update_device-get id name device_type location metadata =
      set_lem id (set_description name device_type location metadata)
        (with_description name device_type location metadata) (λ doc. refl) (λ doc. refl)

  -- With the unique index on the identifiers, `UpdateDeviceStatus` sets the status of the device,
  -- and the time of its last sign of life if one is given. The device comes back as BSON keeps it,
  -- and `ErrNotFound` answers for a device that is not there. Every other device is found as
  -- before, and the index stays.
  update_device_status-get :
      (id : String) (status : DeviceStatus) (seen : Time)
      → let r = update_device_status driver id status seen s in
        (r.0 ≡ needs (get_device driver id s))
        × ((j : String)
            → get_device driver j r.1 ≡ (
                if id == j
                then map_ok
                    (λ d. kept driver server (with_status status seen d))
                    (get_device driver j s)
                else get_device driver j s))
        × IsIndexed driver server r.1.devices
  unfolding update_device_status
  update_device_status-get id status seen =
      set_lem id (set_status status seen) (with_status status seen) (set_status_lem status seen)
        (λ doc. ground arith)

  -- On a server that answers every call, and with the unique index on the identifiers, `DeleteDevice`
  -- of a device that is there succeeds.
  -- After it the device is not found, and every other device is found as before. Exactly the
  -- samples and the alerts of the device have gone from their collections, and the index stays.
  pub delete_device-get :
      (id : String) (d : Device)
      → get_device driver id s ≡ ok d
      → let r = delete_device driver id s in
        (r.0 ≡ ok tt)
        × ((j : String)
            → get_device driver j r.1 ≡ (if id == j then err not_found else get_device driver j s))
        × (server.view r.1.telemetry
            ≡ filter_b (λ x. not (x.document.device_id == id)) (server.view s.telemetry))
        × (server.view r.1.alerts
            ≡ filter_b (λ x. not (x.document.device_id == id)) (server.view s.alerts))
        × IsIndexed driver server r.1.devices
  unfolding delete_device
  delete_device-get id d there =
      let (answer, after) = delete_lem driver server id_key s.devices indexed.1 id indexed.0 in
      let deleted : count_result (driver.delete_one (matching (has_id id)) s.devices).0 ≡ ok tt =
        answer ∙ needs_lem id _ ∙ ap needs (sym (get_device_lem id s) ∙ there) in
      rw (deleted, delete_device)
        (
          refl,
          λ j.
              get_device_lem j _
              ∙ ap doc_result (after j)
              ∙ doc_result_if (id == j) _ _ _ _ refl (sym (get_device_lem j s)),
          server.deleted_many _ s.telemetry,
          server.deleted_many _ s.alerts,
          (server.delete-Intact _ s.devices indexed.0, server.keys-delete _ s.devices ∙ indexed.1),
        )
