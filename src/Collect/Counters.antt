-- ===== src/Collect/Counters.antt =====
-- internal/collect/io.go, mergeNetCounters, the tests of block devices and the differences of a
-- sample; safeDiffUint64 of utils.go. The counters are uint64 and wrap.
pub mod Merge
use ithiltir_node.Base.{
  ℕ, ◌+◌, ◌-◌, ◌%◌, ◌^◌, Bool, true, false, ◌||◌, Option, none, some, List, [], ◌∷◌, Text, codes,
  text_eq, trim_space, exists_in, ◌&&◌, leb, ◌==◌, if◌then◌else◌, is_empty,
}

-- What mergeNetCounters adds up.
pub record NetCounter : Type 0 where
  pub name : Text
  pub bytes_recv : ℕ
  pub bytes_sent : ℕ
  pub packets_recv : ℕ
  pub packets_sent : ℕ
  pub err_in : ℕ
  pub err_out : ℕ
  pub drop_in : ℕ
  pub drop_out : ℕ

-- `a += b` of uint64.
pub wrap_add : ℕ → ℕ → ℕ
wrap_add a b = (a + b) % 2 ^ 64

pub add_counter : NetCounter → NetCounter → NetCounter
unfolding wrap_add
add_counter prev n = record {
  name = prev.name;
  bytes_recv = wrap_add prev.bytes_recv n.bytes_recv;
  bytes_sent = wrap_add prev.bytes_sent n.bytes_sent;
  packets_recv = wrap_add prev.packets_recv n.packets_recv;
  packets_sent = wrap_add prev.packets_sent n.packets_sent;
  err_in = wrap_add prev.err_in n.err_in;
  err_out = wrap_add prev.err_out n.err_out;
  drop_in = wrap_add prev.drop_in n.drop_in;
  drop_out = wrap_add prev.drop_out n.drop_out;
}

unfoldable pub find_counter : Text → List NetCounter → Option NetCounter
find_counter name [] = none
find_counter name (c ∷ out) = if text_eq name c.name then some c else find_counter name out

-- One round of the loop; the map is the list of its values.
pub merge_one : NetCounter → List NetCounter → List NetCounter
unfolding add_counter
merge_one n [] = n ∷ []
merge_one n (c ∷ out) = if text_eq n.name c.name then add_counter c n ∷ out else c ∷ merge_one n out

pub merge_from : List NetCounter → List NetCounter → List NetCounter
unfolding merge_one
merge_from [] out = out
merge_from (n ∷ ns) out = merge_from ns (if is_empty n.name then out else merge_one n out)

-- mergeNetCounters.
unfoldable pub merge_net_counters : List NetCounter → List NetCounter
unfolding merge_from
merge_net_counters ns = merge_from ns []

-- safeDiffUint64.
safe_diff : ℕ → ℕ → ℕ
safe_diff curr prev = if leb prev curr then curr - prev else 0

-- strings.HasPrefix.
has_prefix : Text → Text → Bool
has_prefix [] s = true
has_prefix (p ∷ ps) [] = false
has_prefix (p ∷ ps) (c ∷ s) = p == c && has_prefix ps s

-- ignoredBlock and mdDevice; `to_lower` is strings.ToLower.
ignored_block : (Text → Text) → Text → Bool
unfolding has_prefix
ignored_block to_lower raw =
    let name = to_lower (trim_space raw) in
    is_empty name
    || exists_in (λ p. has_prefix p name)
        (codes "loop" ∷ codes "ram" ∷ codes "zram" ∷ codes "fd" ∷ codes "sr" ∷ [])

md_device : (Text → Text) → Text → Bool
unfolding has_prefix
md_device to_lower raw = has_prefix (codes "md") (to_lower (trim_space raw))

-- The counters of a disk that sampleIO reads.
record DiskCounter : Type 0 where
  pub read_bytes : ℕ
  pub write_bytes : ℕ
  pub read_count : ℕ
  pub write_count : ℕ
  pub io_time : ℕ
  pub read_time : ℕ
  pub write_time : ℕ
  pub weighted_io : ℕ

record DiskDiff : Type 0 where
  pub read : ℕ
  pub write : ℕ
  pub read_iops : ℕ
  pub write_iops : ℕ
  pub iops : ℕ
  pub io : ℕ
  pub total : ℕ
  pub weighted : ℕ

-- The sample before this one, or the same sample.
pub previous : {A : Type 0} → Option A → A → A
previous none curr = curr
previous (some prev) curr = prev

-- The differences of the loop over the disks.
disk_diff : Option DiskCounter → DiskCounter → DiskDiff
unfolding safe_diff wrap_add previous
disk_diff last curr =
    let prev = previous last curr in
    let read_iops = safe_diff curr.read_count prev.read_count in
    let write_iops = safe_diff curr.write_count prev.write_count in
    record {
      read = safe_diff curr.read_bytes prev.read_bytes;
      write = safe_diff curr.write_bytes prev.write_bytes;
      read_iops = read_iops;
      write_iops = write_iops;
      iops = wrap_add read_iops write_iops;
      io = safe_diff curr.io_time prev.io_time;
      total =
          safe_diff (wrap_add curr.read_time curr.write_time)
            (wrap_add prev.read_time prev.write_time);
      weighted = safe_diff curr.weighted_io prev.weighted_io;
    }
