-- ===== src/Caches/Smart.antt =====
-- Read and fromCache of internal/smartcache/cache.go, over the type of a device.
use ithiltir_node.Base.{
  ◌≡◌, ◌≢◌, inl, inr, refl, false, not, ◌&&◌, ◌||◌, Option, none, some, List, [], is_empty, Text,
  codes, text_eq, text_eq_iff, ℤ, pos, int_eq, int_eq_iff, is_positive, pos_part, Time, ◌==◌,
  if◌then◌else◌, Bool-cases, arith,
}
use ithiltir_node.Caches.{is_stale}

module _ (Device : Type 0) where
  pub record SmartCache : Type 0 where
    pub schema : ℤ
    pub updated_at : Time
    pub ttl_seconds : ℤ
    pub status : Text
    pub devices : List Device

  -- metrics.DiskSMART.
  record DiskSmart : Type 0 where
    pub status : Text
    pub updated_at : Option Time
    pub ttl_seconds : ℤ
    pub devices : List Device

  -- The cache file: why it is not read, or that it is not JSON, or a cache.
  data SmartFile : Type 0 where
    not_exist no_permission unread undecoded : SmartFile
    cached : SmartCache → SmartFile

  smart_status : Text → DiskSmart
  smart_status status = record {
    status = status;
    updated_at = none;
    ttl_seconds = pos 0;
    devices = [];
  }

  -- The status that fromCache gives a cache.
  cache_status : SmartCache → Time → Text
  cache_status c now =
      if is_positive c.ttl_seconds && is_stale c.updated_at (pos_part c.ttl_seconds) now
      then codes "stale"
      else if text_eq c.status (codes "ok") && is_empty c.devices
      then codes "not_found"
      else c.status

  from_cache : SmartCache → Time → DiskSmart
  unfolding cache_status
  from_cache c now = record {
    status = cache_status c now;
    updated_at = some c.updated_at;
    ttl_seconds = c.ttl_seconds;
    devices = c.devices;
  }

  read_smart : SmartFile → Time → DiskSmart
  unfolding smart_status from_cache
  read_smart not_exist now = smart_status (codes "no_cache")
  read_smart no_permission now = smart_status (codes "no_permission")
  read_smart unread now = smart_status (codes "error")
  read_smart undecoded now = smart_status (codes "error")
  read_smart (cached c) now =
      if not (int_eq c.schema (pos 1))
      then smart_status (codes "unsupported")
      else if c.updated_at == 0 || is_empty c.status
      then smart_status (codes "error")
      else from_cache c now

  -- What a report of status ok rests on.
  record IsCurrent (c : SmartCache) (now : Time) : Type 0 where
    pub schema_one : c.schema ≡ pos 1
    pub status_ok : c.status ≡ codes "ok"
    pub dated : c.updated_at ≢ 0
    pub in_time :
        (is_positive c.ttl_seconds && is_stale c.updated_at (pos_part c.ttl_seconds) now) ≡ false
    pub present : is_empty c.devices ≡ false

  cache_status_ok :
      (c : SmartCache) (now : Time)
      → cache_status c now ≡ codes "ok"
      → (c.status ≡ codes "ok")
        × ((is_positive c.ttl_seconds && is_stale c.updated_at (pos_part c.ttl_seconds) now)
            ≡ false)
        × (is_empty c.devices ≡ false)
  unfolding cache_status
  cache_status_ok c now h =
      let stale = is_positive c.ttl_seconds && is_stale c.updated_at (pos_part c.ttl_seconds) now in
      elim (Bool-cases stale) [
        | inl e ↦ cc (rw e at h)
        | inr e ↦ elim (Bool-cases (text_eq c.status (codes "ok") && is_empty c.devices)) [
          | inl e' ↦ cc (rw (e, e') at h)
          | inr e' ↦
              let same : c.status ≡ codes "ok" = rw (e, e') at h in
              (same, e, ground (arith, e', (text_eq_iff c.status (codes "ok")).1 same))
        ]
      ]

  -- Read reports the status ok only for a cache of schema 1 that is dated, whose own status is ok,
  -- that is not stale and holds a device, and then reports the devices of the cache.
  read_smart_ok :
      (f : SmartFile) (now : Time)
      → (read_smart f now).status ≡ codes "ok"
      → (c : SmartCache) × (f ≡ cached c)
        × IsCurrent c now
        × ((read_smart f now).devices ≡ c.devices)
  unfolding read_smart
  read_smart_ok not_exist now h = cc h
  read_smart_ok no_permission now h = cc h
  read_smart_ok unread now h = cc h
  read_smart_ok undecoded now h = cc h
  read_smart_ok (cached c) now h = elim (Bool-cases (int_eq c.schema (pos 1))) [
    | inr e ↦ cc (rw e at h)
    | inl e ↦ elim (Bool-cases (c.updated_at == 0 || is_empty c.status)) [
      | inl e' ↦ cc (rw (e, e') at h)
      | inr e' ↦
          let (s, t, n) = cache_status_ok c now (rw (e, e', from_cache) at h) in
          (
            c,
            refl,
            record {
              schema_one = (int_eq_iff c.schema (pos 1)).0 e;
              status_ok = s;
              dated = ground (arith, e');
              in_time = t;
              present = n;
            },
            rw (e, e', from_cache) refl,
          )
    ]
  ]
