-- ===== src/Pve/Process/Examples.antt =====
-- A machine whose process is found.
use ithiltir_node.Base.{
  ◌≡◌, refl, [], ◌∷◌, ◌++◌, Text, codes, text_eq, pos, split_at, trim_space, fields, parse_int,
  parse_uint, after_prefix, without_prefix,
}
use ithiltir_node.Pve.Process.{contents, Process, found, Proc, read_process}
use ithiltir_node.Pve.Process.Found.{IsOfVm, read_process-IsOfVm}

abbrev line : Text
line = codes "kvm" ++ 0 ∷ codes "-id" ++ 0 ∷ codes "100" ++ 0 ∷ []

abbrev stat : Text
stat = codes "42 (kvm) S 1 1 1 0 -1 4 0 0 0 0 30 12 0 0 20 0 5 0 777 0"

abbrev proc : Proc
proc = record {
  pid_file = contents (codes "42");
  cmdline = λ pid. contents line;
  stat = λ pid. contents stat;
  at = 1000;
}

abbrev qemu : Process
qemu = record { pid = pos 42; start = 777; ticks = 42; at = 1000 }

qemu-found : read_process (codes "100") proc proc.pid_file ≡ found qemu
unfolding read_process text_eq split_at trim_space fields parse_int parse_uint after_prefix
    without_prefix
qemu-found = refl

read_process-IsOfVm_example : IsOfVm (codes "100") proc qemu
read_process-IsOfVm_example = read_process-IsOfVm (codes "100") proc proc.pid_file qemu qemu-found
