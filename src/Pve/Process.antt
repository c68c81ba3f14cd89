-- ===== src/Pve/Process.antt =====
-- internal/pve/local.go, readProcess and parseProcess: the process of a machine. Files are their
-- contents.
pub mod Found
mod Examples
use ithiltir_node.Base.{
  ℕ, zero, suc, ◌+◌, ◌^◌, ◌%◌, Bool, false, ◌&&◌, ◌||◌, Option, none, some, List, [], ◌∷◌, Text,
  codes, text_eq, trim_space, ℤ, pos, negsuc, int_eq, Time, ◌==◌, if◌then◌else◌, fields, split_at,
  parse_int, parse_uint, and_then,
}

-- os.ReadFile; `missing` is an error that is os.ErrNotExist.
pub data FileRead : Type 0 where
  missing unreadable : FileRead
  contents : Text → FileRead

-- processSample.
pub record Process : Type 0 where
  pub pid : ℤ
  pub start : ℕ
  pub ticks : ℕ
  pub at : Time

unfoldable pub no_process : Process
no_process = record { pid = pos 0; start = 0; ticks = 0; at = 0 }

-- What readProcess returns; `gone` is os.ErrNotExist.
pub data ProcessRead : Type 0 where
  gone failed_read : ProcessRead
  found : Process → ProcessRead

or_later : Option Text → Option Text → Option Text
or_later none here = here
or_later (some rest) here = some rest

-- What follows the last `d`; `none` if there is none.
pub after_last : ℕ → Text → Option Text
unfolding or_later
after_last d [] = none
after_last d (c ∷ s) = or_later (after_last d s) (if c == d then some s else none)

pub item : ℕ → List Text → Option Text
item n [] = none
item zero (s ∷ ss) = some s
item (suc n) (s ∷ ss) = item n ss

number_at : ℕ → List Text → Option ℕ
unfolding item
number_at n words = and_then (item n words) parse_uint

pub is_dead : Text → Bool
is_dead state = text_eq state (codes "Z") || text_eq state (codes "X")

pub process_of : ℤ → Time → Option ℕ → Option ℕ → Option ℕ → ProcessRead
process_of pid at (some user) (some system) (some start) =
    found (record { pid = pid; start = start; ticks = (user + system) % 2 ^ 64; at = at })
process_of pid at none system start = failed_read
process_of pid at (some user) none start = failed_read
process_of pid at (some user) (some system) none = failed_read

-- `len(fields) < 20`, of the last word that is needed.
pub if_long : Option Text → ProcessRead → ProcessRead
if_long none read = failed_read
if_long (some _) read = read

-- The words after the name of the process.
pub process_words : ℤ → Time → List Text → ProcessRead
unfolding number_at is_dead process_of if_long
process_words pid at [] = failed_read
process_words pid at (state ∷ words) = if_long (item 19 (state ∷ words)) (
    if is_dead state
    then gone
    else process_of pid at (number_at 11 (state ∷ words)) (number_at 12 (state ∷ words))
        (number_at 19 (state ∷ words)))

pub process_rest : ℤ → Time → Option Text → ProcessRead
unfolding process_words
process_rest pid at none = failed_read
process_rest pid at (some rest) = process_words pid at (fields rest)

-- parseProcess, with the id and the time that readProcess adds.
pub parse_process : ℤ → Time → Text → ProcessRead
unfolding after_last process_rest
parse_process pid at raw = process_rest pid at (after_last b')' raw)

-- The loop over the arguments: `-id`, then the id of the machine.
pub is_of_vm : Text → List Text → Bool
is_of_vm id [] = false
is_of_vm id (a ∷ []) = false
is_of_vm id (a ∷ b ∷ args) = text_eq a (codes "-id") && text_eq b id || is_of_vm id (b ∷ args)

-- `err != nil || pid <= 0`
pub valid_pid : Option ℤ → Option ℤ
valid_pid (some (pos (suc n))) = some (pos (suc n))
valid_pid (some (pos zero)) = none
valid_pid (some (negsuc n)) = none
valid_pid none = none

-- The file system below /proc as one readProcess sees it, with the time of its end.
pub record Proc : Type 0 where
  pub pid_file : FileRead
  pub cmdline : ℤ → FileRead
  pub stat : ℤ → FileRead
  pub at : Time

pub read_stat : ℤ → Time → FileRead → ProcessRead
unfolding parse_process
read_stat pid at missing = gone
read_stat pid at unreadable = failed_read
read_stat pid at (contents raw) = parse_process pid at raw

-- `id` is the text of the machine's id.
pub read_cmdline : Text → ℤ → Proc → FileRead → ProcessRead
unfolding is_of_vm read_stat
read_cmdline id pid proc missing = gone
read_cmdline id pid proc unreadable = failed_read
read_cmdline id pid proc (contents raw) =
    if is_of_vm id (split_at 0 raw) then read_stat pid proc.at (proc.stat pid) else gone

pub read_pid : Text → Proc → Option ℤ → ProcessRead
unfolding read_cmdline
read_pid id proc none = failed_read
read_pid id proc (some pid) = read_cmdline id pid proc (proc.cmdline pid)

-- readProcess.
unfoldable pub read_process : Text → Proc → FileRead → ProcessRead
unfolding read_pid valid_pid
read_process id proc missing = gone
read_process id proc unreadable = failed_read
read_process id proc (contents raw) = read_pid id proc (valid_pid (parse_int (trim_space raw)))

-- `before.pid != after.pid || before.start != after.start`, negated.
unfoldable pub is_same : Process → Process → Bool
is_same before after = int_eq before.pid after.pid && before.start == after.start
