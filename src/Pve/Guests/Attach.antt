-- ===== src/Pve/Guests/Attach.antt =====
-- Which addresses a snapshot gets.
use ithiltir_node.Base.{
  ◌+◌, ◌*◌, ◌^◌, ◌≤◌, ◌<◌, ◌≡◌, ◌⊎◌, false, some, Text, ℤ, pos, negsuc, codes, second, Time, minute,
}
use ithiltir_node.Pve.Snapshot.{Vm}
use ithiltir_node.Pve.Guests.{GuestState}

-- An instant is not before the boot of a machine that was up for so many seconds at `t`, if these
-- nanoseconds fit into a time.Duration.
pub FromBoot : Time → Time → ℤ → Type 0
FromBoot s t (pos up) = (t ≤ s + up * second) ⊎ (2 ^ 63 < up * second)
FromBoot s t (negsuc up) = Unit

module _ {Float : Type 0} where
  -- What an attached state is known to be.
  pub record IsFresh (host : Text) (now : Time) (s : GuestState) (vm : Vm Float) : Type 0 where
    pub same_host : s.host ≡ host
    pub not_newer : s.collected_at ≤ now
    pub not_older : now ≤ s.collected_at + 15 * minute
    pub of_boot :
        (up : ℤ) × (t : Time) × (vm.uptime ≡ some up)
        × (vm.collected_at ≡ some t)
        × FromBoot s.collected_at t up
    pub running : vm.status ≡ codes "running"
    pub running_qmp : vm.qmp_status ≡ codes "running"
    pub no_template : vm.template ≡ false
