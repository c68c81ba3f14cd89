-- ===== src/Caches.antt =====
-- The caches that other programs write for the node to read: counts of connections
-- (internal/conncache/cache.go) and SMART reports of disks (internal/smartcache/cache.go).
pub mod Conn
pub mod Smart
mod Examples
use ithiltir_node.Base.{ℕ, ◌+◌, ◌*◌, ℤ, pos, negsuc, wrap_int, Time, second, ltb, Bool}

-- `time.Duration(seconds) * time.Second`, which is an int64, of a positive number of seconds.
seconds : ℕ → ℤ
seconds n = wrap_int (n * second)

-- `t.Add(d).Before(now)`.
ends_before : Time → ℤ → Time → Bool
ends_before t (pos d) now = ltb (t + d) now
ends_before t (negsuc d) now = ltb t (now + d + 1)

-- A cache that is stale for its time to live.
unfoldable pub is_stale : Time → ℕ → Time → Bool
unfolding seconds ends_before
is_stale updated_at ttl now = ends_before updated_at (seconds ttl) now
