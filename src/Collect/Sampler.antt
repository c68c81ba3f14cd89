-- ===== src/Collect/Sampler.antt =====
-- internal/collect/sampler.go: what the sampler knows of the host, and its intervals. What gopsutil
-- returns is a parameter; the frequency is a float64, of which the test `> 0` is one too.
pub mod Known
pub mod Timing
pub mod Lifecycle
pub mod Storages
mod Examples
use ithiltir_node.Base.{
  ℕ, suc, ◌*◌, ◌/◌, ◌%◌, min, Bool, ◌&&◌, ◌||◌, not, Option, none, some, List, [], ◌∷◌, Text,
  text_eq, trim_space, ℤ, pos, negsuc, is_positive, wrap_int, second, leb, ◌==◌, if◌then◌else◌,
  is_empty, length, exists_in,
}

-- sysInfo.
pub record SysInfo : Type 0 where
  pub hostname : Text
  pub os : Text
  pub platform : Text
  pub platform_version : Text
  pub kernel_version : Text
  pub arch : Text

-- host.InfoStat, what is read of it.
record HostInfo : Type 0 where
  pub host_name : Text
  pub host_os : Text
  pub host_platform : Text
  pub host_version : Text
  pub host_kernel : Text

trimmed_info : Text → Option HostInfo → SysInfo
trimmed_info arch none = record {
  hostname = [];
  os = [];
  platform = [];
  platform_version = [];
  kernel_version = [];
  arch = arch;
}
trimmed_info arch (some hi) = record {
  hostname = trim_space hi.host_name;
  os = trim_space hi.host_os;
  platform = trim_space hi.host_platform;
  platform_version = trim_space hi.host_version;
  kernel_version = trim_space hi.host_kernel;
  arch = arch;
}

with_hostname : Option Text → SysInfo → SysInfo
with_hostname none sys = sys
with_hostname (some name) sys =
    if is_empty sys.hostname then record sys { hostname = trim_space name } else sys

-- readSystem, of host.Info, os.Hostname and runtime.GOARCH.
read_system : Option HostInfo → Option Text → Text → SysInfo
unfolding trimmed_info with_hostname
read_system info name arch = with_hostname name (trimmed_info arch info)

-- `if src != "" { dst = src }`
pub or_kept : Text → Text → Text
or_kept dst [] = dst
or_kept dst (c ∷ s) = c ∷ s

-- mergeSystem.
pub merge_system : SysInfo → SysInfo → SysInfo
unfolding or_kept
merge_system dst src = record {
  hostname = or_kept dst.hostname src.hostname;
  os = or_kept dst.os src.os;
  platform = or_kept dst.platform src.platform;
  platform_version = or_kept dst.platform_version src.platform_version;
  kernel_version = or_kept dst.kernel_version src.kernel_version;
  arch = or_kept dst.arch src.arch;
}

-- metrics.StaticCPUInfo.
pub record CpuInfo (Float : Type 0) : Type 0 where
  pub model_name : Text
  pub vendor_id : Text
  pub sockets : ℤ
  pub cores_physical : ℤ
  pub cores_logical : ℤ
  pub frequency_mhz : Float

-- `if src > 0 { dst = src }`
pub or_count : ℤ → ℤ → ℤ
or_count dst src = if is_positive src then src else dst

counted : Option ℤ → ℤ
unfolding or_count
counted none = pos 0
counted (some n) = or_count (pos 0) n

-- One socket if there are cores and no sockets.
pub or_one : Bool → ℤ → ℤ
or_one has_cores sockets = if not (is_positive sockets) && has_cores then pos 1 else sockets

-- cpu.InfoStat, what is read of it.
record CpuStat (Float : Type 0) : Type 0 where
  pub stat_model : Text
  pub stat_vendor : Text
  pub physical_id : Text
  pub mhz : Float

-- The keys of the map of countCPUSockets.
socket_ids : List Text → List Text → List Text
socket_ids ids [] = ids
socket_ids ids (raw ∷ raws) =
    let id = trim_space raw in
    let seen = is_empty id || exists_in (text_eq id) ids in
    socket_ids (if seen then ids else id ∷ ids) raws

-- countCPUSockets, of the physical ids.
count_cpu_sockets : List Text → ℕ
unfolding socket_ids
count_cpu_sockets raws =
    let ids = socket_ids [] raws in
    if not (is_empty ids) then length ids else if not (is_empty raws) then 1 else 0

module _ {Float : Type 0} where
  ids_of : List (CpuStat Float) → List Text
  ids_of [] = []
  ids_of (stat ∷ stats) = stat.physical_id ∷ ids_of stats

  -- normalizeCPUInfo.
  pub normalize_cpu_info : CpuInfo Float → CpuInfo Float
  unfolding or_one
  normalize_cpu_info info = record info {
    sockets =
        or_one (is_positive info.cores_logical || is_positive info.cores_physical) info.sockets;
  }

  first_stat : CpuInfo Float → List (CpuStat Float) → CpuInfo Float
  unfolding count_cpu_sockets ids_of
  first_stat info [] = info
  first_stat info (first ∷ stats) = record info {
    model_name = trim_space first.stat_model;
    vendor_id = trim_space first.stat_vendor;
    frequency_mhz = first.mhz;
    sockets = pos (count_cpu_sockets (ids_of (first ∷ stats)));
  }

  -- readCPUInfo, of cpu.Info and cpu.Counts; `none` is an error. `zero_mhz` is the float 0.
  read_cpu_info : Float → Option (List (CpuStat Float)) → Option ℤ → Option ℤ → CpuInfo Float
  unfolding first_stat counted normalize_cpu_info
  read_cpu_info zero_mhz infos physical logical =
      let blank : CpuInfo Float = record {
        model_name = [];
        vendor_id = [];
        sockets = pos 0;
        cores_physical = counted physical;
        cores_logical = counted logical;
        frequency_mhz = zero_mhz;
      } in
      normalize_cpu_info (elim infos [ none ↦ blank | some stats ↦ first_stat blank stats ])

  -- mergeCPU.
  pub merge_cpu : (Float → Bool) → CpuInfo Float → CpuInfo Float → CpuInfo Float
  unfolding or_kept or_count normalize_cpu_info
  merge_cpu is_above dst src = normalize_cpu_info (record {
    model_name = or_kept dst.model_name src.model_name;
    vendor_id = or_kept dst.vendor_id src.vendor_id;
    sockets = or_count dst.sockets src.sockets;
    cores_physical = or_count dst.cores_physical src.cores_physical;
    cores_logical = or_count dst.cores_logical src.cores_logical;
    frequency_mhz = if is_above src.frequency_mhz then src.frequency_mhz else dst.frequency_mhz;
  })

  -- refreshStatic, with what is read.
  pub refresh_static :
      (Float → Bool) → SysInfo × CpuInfo Float → SysInfo × CpuInfo Float → SysInfo × CpuInfo Float
  unfolding merge_system merge_cpu
  refresh_static is_above old read = (merge_system old.0 read.0, merge_cpu is_above old.1 read.1)

-- reportSecs.
pub report_secs : ℤ → ℕ
report_secs (negsuc n) = 0
report_secs (pos d) = if d % second == 0 then d / second else suc (d / second)

-- The intervals of NewSampler, int64 numbers of nanoseconds.
pub record Intervals : Type 0 where
  pub fast : ℤ
  pub medium : ℤ
  pub slow : ℤ

pub int_min : ℤ → ℤ → ℤ
int_min (pos a) (pos b) = pos (min a b)
int_min (pos a) (negsuc b) = negsuc b
int_min (negsuc a) (pos b) = negsuc a
int_min (negsuc a) (negsuc b) = negsuc (if leb a b then b else a)

pub positive_intervals : ℕ → Intervals
unfolding int_min
positive_intervals n = record {
  fast = pos n;
  medium = wrap_int (n * 8);
  slow = int_min (pos (60 * second)) (wrap_int (n * 20));
}

-- NewSampler.
pub intervals_of : ℤ → Intervals
unfolding positive_intervals
intervals_of (pos n) = positive_intervals (if n == 0 then second else n)
intervals_of (negsuc n) = positive_intervals second

-- thermalInterval, with whether the system is Linux.
thermal_interval : Bool → Intervals → ℤ
thermal_interval linux i = if linux then i.fast else i.medium
