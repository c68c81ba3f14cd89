-- ===== src/Caches/Conn.antt =====
-- Read of internal/conncache/cache.go.
use ithiltir_node.Base.{
  ℕ, ◌+◌, ◌*◌, ◌^◌, ◌≤◌, ◌<◌, ◌≡◌, ◌≢◌, ◌⊎◌, inl, inr, refl, Bool, true, false, not, ◌||◌, Text,
  codes, text_eq, text_eq_iff, ℤ, pos, negsuc, int_eq, int_eq_iff, is_positive, pos_part, Time,
  second, ◌==◌, ltb, if◌then◌else◌, Bool-cases, arith, wrap_int_small,
}
use ithiltir_node.Caches.{is_stale}

pub record ConnCache : Type 0 where
  pub schema : ℤ
  pub updated_at : Time
  pub ttl_seconds : ℤ
  pub status : Text
  pub tcp_count : ℤ
  pub udp_count : ℤ

-- The cache file: not readable, not JSON, or a cache.
pub data ConnFile : Type 0 where
  unread undecoded : ConnFile
  cached : ConnCache → ConnFile

pub is_negative : ℤ → Bool
is_negative (pos _) = false
is_negative (negsuc _) = true

-- The guards of Read.
rejects : ConnCache → Time → Bool
unfolding is_negative is_stale
rejects c now =
    not (int_eq c.schema (pos 1))
    || not (text_eq c.status (codes "ok"))
    || c.updated_at == 0
    || not (is_positive c.ttl_seconds)
    || is_negative c.tcp_count
    || is_negative c.udp_count
    || is_stale c.updated_at (pos_part c.ttl_seconds) now

-- Read: the counts of TCP and UDP, and whether they are valid.
unfoldable pub read : ConnFile → Time → ℤ × ℤ × Bool
unfolding rejects
read unread now = (pos 0, pos 0, false)
read undecoded now = (pos 0, pos 0, false)
read (cached c) now =
    if rejects c now then (pos 0, pos 0, false) else (c.tcp_count, c.udp_count, true)

-- A cache that Read takes.
pub record IsFresh (c : ConnCache) (now : Time) : Type 0 where
  pub schema_one : c.schema ≡ pos 1
  pub status_ok : c.status ≡ codes "ok"
  pub dated : c.updated_at ≢ 0
  pub lives : is_positive c.ttl_seconds ≡ true
  pub counts : (is_negative c.tcp_count ≡ false) × (is_negative c.udp_count ≡ false)
  pub in_time : now ≤ c.updated_at + pos_part c.ttl_seconds * second

is_stale_lem :
    (t ttl now : ℕ) → ttl * second < 2 ^ 63 → is_stale t ttl now ≡ ltb (t + ttl * second) now
unfolding is_stale
is_stale_lem t ttl now h = rw (wrap_int_small (ttl * second) h) refl

unaccepted :
    (a b d e f g s : Bool)
    → not a || not b || d || not e || f || g || s ≡ false
    → (a ≡ true) × (b ≡ true) × (d ≡ false) × (e ≡ true) × (f ≡ false) × (g ≡ false) × (s ≡ false)
unaccepted a b d e f g s h = ground arith

module _ (c : ConnCache) (now : Time) (small : pos_part c.ttl_seconds * second < 2 ^ 63) where
  accepted-IsFresh : rejects c now ≡ false → IsFresh c now
  unfolding rejects
  accepted-IsFresh h =
      let (a, b, d, e, f, g, s) =
        unaccepted (int_eq c.schema (pos 1)) (text_eq c.status (codes "ok")) (c.updated_at == 0)
          (is_positive c.ttl_seconds) (is_negative c.tcp_count) (is_negative c.udp_count)
          (is_stale c.updated_at (pos_part c.ttl_seconds) now) h in
      record {
        schema_one = ground (arith, int_eq_iff c.schema (pos 1));
        status_ok = ground (arith, text_eq_iff c.status (codes "ok"));
        dated = ground arith;
        lives = ground arith;
        counts = (f, g);
        in_time = ground (arith, is_stale_lem c.updated_at (pos_part c.ttl_seconds) now small);
      }

  IsFresh-accepted : IsFresh c now → rejects c now ≡ false
  unfolding rejects
  IsFresh-accepted v =
      let s = (int_eq_iff c.schema (pos 1)).1 v.schema_one in
      let t = (text_eq_iff c.status (codes "ok")).1 v.status_ok in
      let d : (c.updated_at == 0) ≡ false = ground (arith, v.dated) in
      rw
        (
          s,
          t,
          d,
          v.lives,
          v.counts.0,
          v.counts.1,
          is_stale_lem c.updated_at (pos_part c.ttl_seconds) now small,
        )
        (ground (arith, v.in_time))

  -- A cache whose time to live fits a time.Duration: Read gives its counts if its schema is 1, its
  -- status is ok, it is dated, its time to live is positive and has not passed, and its counts are
  -- not negative. Otherwise Read gives zeros that are marked as not valid.
  read_lem :
      (IsFresh c now × (read (cached c) now ≡ (c.tcp_count, c.udp_count, true)))
      ⊎ ((¬ IsFresh c now) × (read (cached c) now ≡ (pos 0, pos 0, false)))
  unfolding read
  read_lem = elim (Bool-cases (rejects c now)) [
    | inl e ↦ inr (λ v. cc (e, IsFresh-accepted v), rw e refl)
    | inr e ↦ inl (accepted-IsFresh e, rw e refl)
  ]
