-- ===== src/Pve/Process/Found.antt =====
-- The process that readProcess finds.
use ithiltir_node.Base.{
  ℕ, ◌≡◌, refl, inl, inr, sym, ap, true, ◌&&◌, Option, none, some, List, [], ◌∷◌, ◌++◌, Text, codes,
  text_eq, text_eq_iff, ℤ, Time, split_at, fields, parse_int, trim_space, Bool-cases, arith,
}
use ithiltir_node.Pve.Process.{
  FileRead, missing, unreadable, contents, Process, ProcessRead, found, Proc, is_of_vm, valid_pid,
  item, is_dead, process_of, process_words, if_long, process_rest, after_last, parse_process,
  read_stat, read_cmdline, read_pid, read_process,
}

-- The arguments hold `-id` and right after it the id.
HasId : Text → List Text → Type 0
HasId id args =
    (before : List Text) × (after : List Text) × (args ≡ before ++ codes "-id" ∷ id ∷ after)

is_of_vm_lem : (id : Text) (args : List Text) → is_of_vm id args ≡ true → HasId id args
unfolding is_of_vm HasId
is_of_vm_lem id [] h = cc h
is_of_vm_lem id (a ∷ []) h = cc h
is_of_vm_lem id (a ∷ b ∷ args) h = elim (Bool-cases (text_eq a (codes "-id") && text_eq b id)) [
  | inl e ↦
      let p = (text_eq_iff a (codes "-id")).0 (ground arith) in
      let q = (text_eq_iff b id).0 (ground arith) in ([], args, rw (p, q) refl)
  | inr e ↦
      let (before, after, same) = is_of_vm_lem id (b ∷ args) (rw e at h) in
      (a ∷ before, after, ap (λ (t : List Text). a ∷ t) same)
]

-- The command line of the process that readProcess found.
pub IsOfVm : Text → Proc → Process → Type 0
IsOfVm id proc p = (raw : Text) × (proc.cmdline p.pid ≡ contents raw) × HasId id (split_at 0 raw)

found_inj : (p q : Process) → found p ≡ found q → p ≡ q
found_inj p q h = cc

process_of-pid :
    (pid : ℤ) (at : Time) (u s t : Option ℕ) (p : Process)
    → process_of pid at u s t ≡ found p
    → p.pid ≡ pid
unfolding process_of
process_of-pid pid at none s t p h = cc h
process_of-pid pid at (some u) none t p h = cc h
process_of-pid pid at (some u) (some s) none p h = cc h
process_of-pid pid at (some u) (some s) (some t) p h =
    sym (ap (λ (q : Process). q.pid) (found_inj _ p h))

if_long-pid :
    (pid : ℤ) (word : Option Text) (read : ProcessRead) (p : Process)
    → (read ≡ found p → p.pid ≡ pid)
    → if_long word read ≡ found p
    → p.pid ≡ pid
unfolding if_long
if_long-pid pid none read p k h = cc h
if_long-pid pid (some _) read p k h = k h

process_words-pid :
    (pid : ℤ) (at : Time) (words : List Text) (p : Process)
    → process_words pid at words ≡ found p
    → p.pid ≡ pid
unfolding process_words
process_words-pid pid at [] p h = cc h
process_words-pid pid at (state ∷ words) p h =
    if_long-pid pid (item 19 (state ∷ words)) _ p
      (λ k. elim (Bool-cases (is_dead state)) [
        | inl d ↦ cc (rw d at k)
        | inr d ↦ process_of-pid pid at _ _ _ p (rw d at k)
      ])
      h

process_rest-pid :
    (pid : ℤ) (at : Time) (rest : Option Text) (p : Process)
    → process_rest pid at rest ≡ found p
    → p.pid ≡ pid
unfolding process_rest
process_rest-pid pid at none p h = cc h
process_rest-pid pid at (some rest) p h = process_words-pid pid at (fields rest) p h

read_stat-pid :
    (pid : ℤ) (at : Time) (stat : FileRead) (p : Process)
    → read_stat pid at stat ≡ found p
    → p.pid ≡ pid
unfolding read_stat parse_process
read_stat-pid pid at missing p h = cc h
read_stat-pid pid at unreadable p h = cc h
read_stat-pid pid at (contents raw) p h = process_rest-pid pid at (after_last b')' raw) p h

read_cmdline-found :
    (id : Text) (pid : ℤ) (proc : Proc) (line : FileRead) (p : Process)
    → read_cmdline id pid proc line ≡ found p
    → (p.pid ≡ pid) × (raw : Text) × (line ≡ contents raw) × HasId id (split_at 0 raw)
unfolding read_cmdline
read_cmdline-found id pid proc missing p h = cc h
read_cmdline-found id pid proc unreadable p h = cc h
read_cmdline-found id pid proc (contents raw) p h =
    elim (Bool-cases (is_of_vm id (split_at 0 raw))) [
      | inl e ↦ (
        read_stat-pid pid proc.at (proc.stat pid) p (rw e at h),
        raw,
        refl,
        is_of_vm_lem id (split_at 0 raw) e,
      )
      | inr e ↦ cc (rw e at h)
    ]

read_pid-IsOfVm :
    (id : Text) (proc : Proc) (pid : Option ℤ) (p : Process)
    → read_pid id proc pid ≡ found p
    → IsOfVm id proc p
unfolding read_pid IsOfVm
read_pid-IsOfVm id proc none p h = cc h
read_pid-IsOfVm id proc (some pid) p h =
    let (same, raw, e, has) = read_cmdline-found id pid proc (proc.cmdline pid) p h in
    (raw, rw same e, has)

-- A process that readProcess finds for a machine has in its command line the argument `-id` with
-- the machine's id right after it, whatever the pid file says: a stale file does not turn another
-- process into the machine.
pub read_process-IsOfVm :
    (id : Text) (proc : Proc) (file : FileRead) (p : Process)
    → read_process id proc file ≡ found p
    → IsOfVm id proc p
unfolding read_process
read_process-IsOfVm id proc missing p h = cc h
read_process-IsOfVm id proc unreadable p h = cc h
read_process-IsOfVm id proc (contents raw) p h =
    read_pid-IsOfVm id proc (valid_pid (parse_int (trim_space raw))) p h
