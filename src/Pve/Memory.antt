-- ===== src/Pve/Memory.antt =====
-- internal/pve/local.go, memoryUsage: the memory of a machine by its control group, which is what
-- collectMonitor takes for `memory`. `unified` is whether there is cgroup.controllers, and `read_file`
-- reads a file of the directory that goes with it.
use ithiltir_node.Base.{
  ℕ, ◌+◌, ◌-◌, ◌^◌, ◌≡◌, Bool, Option, none, some, List, [], ◌∷◌, Text, codes, text_eq, trim_space,
  ℤ, pos, negsuc, int_bits, wrap_int, ◌<◌, if◌then◌else◌, fields, split_at, parse_int, and_then,
  arith,
}
use ithiltir_node.Pve.Process.{FileRead, missing, unreadable, contents}

text_of : FileRead → Option Text
text_of missing = none
text_of unreadable = none
text_of (contents raw) = some raw

-- The value of a line of two words of which the first is `key`; `none` is another line.
line_value : Text → List Text → Option Text
line_value key [] = none
line_value key (k ∷ []) = none
line_value key (k ∷ v ∷ []) = if text_eq k key then some v else none
line_value key (k ∷ v ∷ w ∷ words) = none

-- The first such line counts; `none` is the error.
first_value : Option Text → Option ℤ → Option ℤ
first_value none later = later
first_value (some v) later = parse_int v

cached_in : Text → List Text → Option ℤ
unfolding line_value first_value
cached_in key [] = none
cached_in key (line ∷ lines) = first_value (line_value key (fields line)) (cached_in key lines)

-- `max(0, total-cached)`
used_bytes : ℤ → ℤ → ℕ
unfolding int_bits
used_bytes total cached = elim (wrap_int (int_bits total + (2 ^ 64 - int_bits cached))) [
  | pos n ↦ n
  | negsuc n ↦ 0
]

-- memoryUsage.
memory_usage : Bool → (Text → FileRead) → Option ℕ
unfolding text_of cached_in used_bytes
memory_usage unified read_file =
    let usage = if unified then codes "memory.current" else codes "memory.usage_in_bytes" in
    let cache = if unified then codes "file" else codes "total_cache" in
    and_then (and_then (text_of (read_file usage)) (λ raw. parse_int (trim_space raw))) (λ total.
      and_then (text_of (read_file (codes "memory.stat"))) (λ raw.
        and_then (cached_in cache (split_at b'\n' raw)) (λ cached. some (used_bytes total cached))))

-- Of counters that are not negative, the file cache is taken off the total, and no more than all
-- of it.
used_bytes_lem : (t c : ℕ) → t < 2 ^ 63 → c < 2 ^ 63 → used_bytes (pos t) (pos c) ≡ t - c
unfolding used_bytes int_bits wrap_int
used_bytes_lem t c h k = ground arith
