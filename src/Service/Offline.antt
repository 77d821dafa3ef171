-- ===== src/Service/Offline.antt =====
-- Which devices are offline after `ReconcileStatuses` of internal/service/service.go on the memory
-- store.
use iot_api.Common.{
  ℕ, ◌+◌, ◌<◌, String, ◌≡◌, ◌≢◌, refl, ap, ◌∙◌, sym, ◌↔◌, true, ◌&&◌, List, [], ◌∷◌, arith,
  if◌then◌else◌, ◌==◌, eq_iff, ok, Bool-cases, ok-injective, some, inl, inr, In,
}
use iot_api.Common.Int.{pos}
use iot_api.Common.GoMap.{lookup}
use iot_api.GoTime.{Time, zero_time, is_zero, max_duration, sub-exceeds}
use iot_api.Models.{Device, status_offline}
use iot_api.Store.Memory.{MemoryStore, memory_store, get_device, list_devices}
use iot_api.Store.Memory.Valid.{IsValid}
use iot_api.Store.Memory.Lifecycle.{memory_store-StoreLaws, list_devices_lem}
use iot_api.Service.{Service, State, goes_offline, reconcile_statuses}
use iot_api.Service.Reconciliation.{offline, some_offline, get-reconcile_statuses}

module _ {P C : Type 0} (svc : Service P C) (now : Time) where
  -- For a window shorter than the longest duration, a device goes offline exactly if it has been
  -- seen, is not offline yet, and was last seen before the window that ends now.
  goes_offline_iff :
      (n : ℕ) (d : Device)
      → svc.offline_after ≡ pos n
      → n < max_duration
      → (goes_offline svc now d ≡ true)
        ↔ ((d.last_seen_at ≢ zero_time) × (d.last_seen_at + n < now) × (d.status ≢ status_offline))
  unfolding goes_offline is_zero
  goes_offline_iff n d w l = (
    λ h.
        ground (arith, w, l, h, eq_iff d.status status_offline, sub-exceeds now d.last_seen_at n l),
    λ h. ground (
      arith,
      w,
      l,
      h.0,
      h.1,
      h.2,
      eq_iff d.status status_offline,
      sub-exceeds now d.last_seen_at n l,
    ),
  )

  some_offline_sound :
      (j : String) (ds : List Device)
      → some_offline svc now j ds ≡ true
      → (d : Device) × In d ds × (goes_offline svc now d ≡ true) × (d.id ≡ j)
  some_offline_sound j [] h = ground (arith, h)
  some_offline_sound j (d ∷ ds) h = elim (Bool-cases (goes_offline svc now d && d.id == j)) [
    | inl e ↦ (d, inl refl, ground arith, (eq_iff d.id j).0 (ground arith))
    | inr e ↦ let (c, i, g, k) = some_offline_sound j ds (ground arith) in (c, inr i, g, k)
  ]

  pub some_offline_complete :
      (j : String) (d : Device) (ds : List Device)
      → In d ds
      → goes_offline svc now d ≡ true
      → d.id ≡ j
      → some_offline svc now j ds ≡ true
  some_offline_complete j d (c ∷ ds) (inl e) g k =
      ground (arith, ap (goes_offline svc now) e, (eq_iff c.id j).1 (ap (λ x. x.id) (sym e) ∙ k))
  some_offline_complete j d (c ∷ ds) (inr i) g k =
      ground (arith, some_offline_complete j d ds i g k)
  some_offline_complete j d [] i g k = absurd i

found-lookup :
    (j : String) (d : Device) (s : MemoryStore)
    → get_device j s ≡ ok d
    → lookup j s.devices ≡ some d
unfolding get_device
found-lookup j d s h = ground arith

module _ {P C : Type 0} (svc : Service P C) (now : Time) where
  reconcile_statuses-goes_offline :
      (j : String) (d : Device) (st : State MemoryStore P C)
      → IsValid st.store
      → get_device j st.store ≡ ok d
      → get_device j (reconcile_statuses memory_store svc now st).store
        ≡ ok (if goes_offline svc now d then offline d else d)
  reconcile_statuses-goes_offline j d st v h =
      let ds = list_devices st.store in
      let listed = (list_devices_lem st.store v).2 in
      let own : d.id ≡ j = v.devices_keyed.at j d (found-lookup j d st.store h) in
      get-reconcile_statuses memory_store memory_store-StoreLaws svc now j st
      ∙ elim (Bool-cases (goes_offline svc now d)) [
        | inl e ↦
            rw
              (
                e,
                some_offline_complete svc now j d ds
                    ((listed d).1 (ap (λ x. get_device x st.store) own ∙ h)) e own,
                h,
              )
              refl
        | inr e ↦ elim (Bool-cases (some_offline svc now j ds)) [
          | inr n ↦ rw (e, n) h
          | inl y ↦
              let (c, i, g, k) = some_offline_sound svc now j ds y in
              let same : ok c ≡ ok d =
                sym ((listed c).0 i) ∙ ap (λ x. get_device x st.store) k ∙ h in
              absurd (ground (arith, g, e, ap (goes_offline svc now) (ok-injective c d same)))
        ]
      ]

  -- The device has been seen, was last seen before the window that ends now, and is not offline.
  abbrev pub IsGone : ℕ → Device → Type 0
  IsGone n d =
      (d.last_seen_at ≢ zero_time) × (d.last_seen_at + n < now) × (d.status ≢ status_offline)

  -- After `ReconcileStatuses` on a well-formed memory store, with a window that is not negative and
  -- shorter than the longest duration: a registered device that had been seen, was last seen before
  -- the window that ends now and was not offline has the status offline and is otherwise as it was;
  -- any other registered device is as it was.
  pub reconcile_statuses_lem :
      (n : ℕ) (j : String) (d : Device) (st : State MemoryStore P C)
      → svc.offline_after ≡ pos n
      → n < max_duration
      → IsValid st.store
      → get_device j st.store ≡ ok d
      → let after = get_device j (reconcile_statuses memory_store svc now st).store in
        (IsGone n d → after ≡ ok (record d { status = status_offline }))
        × (¬ IsGone n d → after ≡ ok d)
  reconcile_statuses_lem n j d st w l v h =
      let decided = goes_offline_iff svc now n d w l in
      let same = reconcile_statuses-goes_offline j d st v h in
      elim (Bool-cases (goes_offline svc now d)) [
        | inl e ↦ (λ g. same ∙ rw e refl, λ no. absurd (no (decided.0 e)))
        | inr e ↦ (λ g. absurd (ground (arith, e, decided.1 g)), λ no. same ∙ rw e refl)
      ]
