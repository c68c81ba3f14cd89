-- ===== src/Collect/Sampler/Examples.antt =====
-- A sampler at concrete values.
use ithiltir_node.Base.{ℕ, ◌≡◌, true, false, [], codes, pos}
use ithiltir_node.Collect.Sampler.{SysInfo, CpuInfo, refresh_static}
use ithiltir_node.Collect.Sampler.Known.{IsRefreshed, refresh_static-IsRefreshed}
use ithiltir_node.Collect.Sampler.Lifecycle.{
  Run, new_run, running, Reach, at_first, then, start, begin_start,
}
use ithiltir_node.Collect.Sampler.Lifecycle.Once.{IsOrderly, Reach-IsOrderly}

abbrev old : SysInfo × CpuInfo ℕ
old = (
  record {
    hostname = codes "node";
    os = codes "linux";
    platform = [];
    platform_version = [];
    kernel_version = [];
    arch = codes "arm64";
  },
  record {
    model_name = [];
    vendor_id = [];
    sockets = pos 0;
    cores_physical = pos 0;
    cores_logical = pos 0;
    frequency_mhz = 0;
  },
)

abbrev read : SysInfo × CpuInfo ℕ
read = (old.0, record old.1 { cores_logical = pos 4; frequency_mhz = 1800 })

refresh_static-IsRefreshed_example :
    IsRefreshed (λ n. true) old read (refresh_static (λ n. true) old read)
refresh_static-IsRefreshed_example = refresh_static-IsRefreshed (λ n. true) old read

abbrev started : Run
started = record new_run { state = running; cancel = true; starting = 1 }

starting : Reach started
unfolding new_run begin_start
starting = then at_first (start new_run)

Reach-IsOrderly_example : (started.took_nil ≡ false) × IsOrderly started.state started
Reach-IsOrderly_example = Reach-IsOrderly started starting
