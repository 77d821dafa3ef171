-- ===== src/Service/Caching.antt =====
-- What internal/service/service.go relies on of its status cache.
use iot_api.Common.{String, ◌≡◌, ◌≢◌, refl, ◌⊎◌, inl, inr, Option, none, some, Result, ok, err}
use iot_api.GoTime.{Time, zero_time, is_zero}
use iot_api.Models.{Device, DeviceStatus}
use iot_api.Service.{StatusCache, overlay, read_status, write_status}

-- The answer is not a hit.
abbrev pub IsMiss : Result (Option (DeviceStatus × Time)) → Type 0
IsMiss got = (status : DeviceStatus) (seen : Time) → got ≢ ok (some (status, seen))

-- After a write, which may have failed, a reading finds the entry written, what it found before, or
-- no entry.
pub record StatusCacheLaws {C : Type 0} (cache : StatusCache C) : Type 0 where
  pub get-set :
      (id : String) (status : DeviceStatus) (seen : Time) (c : C)
      → let got = cache.get_device_status id (cache.set_device_status id status seen c).1 in
        (got ≡ ok (some (status, seen))) ⊎ (got ≡ cache.get_device_status id c) ⊎ IsMiss got

-- A service without a cache, or with one that keeps the laws.
abbrev pub IsCoherent : {C : Type 0} → Option (StatusCache C) → Type 0
IsCoherent none = Unit
IsCoherent (some cache) = StatusCacheLaws cache

pub overlay-IsMiss :
    (got : Result (Option (DeviceStatus × Time))) (d : Device) → IsMiss got → overlay got d ≡ d
overlay-IsMiss (err e) d miss = refl
overlay-IsMiss (ok none) d miss = refl
overlay-IsMiss (ok (some (status, seen))) d miss = absurd (miss status seen refl)

-- The status of a device that has never been seen, written to the cache where nothing was cached of
-- it, is no change of the device.
pub overlay-write :
    {C : Type 0} (cache : Option (StatusCache C)) (d : Device) (c : C)
    → IsCoherent cache
    → IsMiss (read_status cache d.id c)
    → overlay (read_status cache d.id (write_status cache d.id d.status zero_time c)) d ≡ d
unfolding is_zero
overlay-write none d c coherent miss = refl
overlay-write (some cache) d c laws miss = elim (laws.get-set d.id d.status zero_time c) [
  | inl e ↦ rw e refl
  | inr (inl e) ↦ rw e (overlay-IsMiss (cache.get_device_status d.id c) d miss)
  | inr (inr m) ↦ overlay-IsMiss _ d m
]
