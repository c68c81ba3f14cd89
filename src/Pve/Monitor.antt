-- ===== src/Pve/Monitor.antt =====
-- internal/pve/monitor.go: the calls of a monitor and what collectMonitor reads through them; and
-- decodeIPs of guest.go. The socket and JSON are left out: a reply is its decoded content.
pub mod Calls
pub mod Counters
pub mod Kept
pub mod Addresses
mod Examples
use ithiltir_node.Base.{
  ℕ, ◌+◌, ◌-◌, Bool, true, false, ◌&&◌, ◌||◌, not, Option, none, some, List, [], ◌∷◌, Text, codes,
  text_eq, text_less, ℤ, pos, negsuc, wrap_int, is_positive, leb, ◌==◌, if◌then◌else◌, Result, ok,
  err, is_empty, length, exists_in, and_then,
}
use ithiltir_node.Pve.Snapshot.{Vm, Addr}

-- A line of a monitor: the id of the request, the class of an error, and the result, which is
-- missing or null as `none`.
pub record MonitorReply : Type 0 where
  pub id : Text
  pub error : Option Text
  pub result : Option Text

pub data MonitorError : Type 0 where
  unexpected_eof : MonitorError
  refused : Text → MonitorError

-- Whether the loop of call passes over a reply.
is_event : Bool → Text → MonitorReply → Bool
is_event guest id reply = not guest && not (text_eq reply.id id)

pub answer_of : Option Text → Option Text → Result MonitorError Text
answer_of (some class) result = err (refused class)
answer_of none none = err unexpected_eof
answer_of none (some raw) = ok raw

-- The loop of call over the lines that come: the answer, and the lines that are left. With no
-- line left the read fails.
pub await_reply : Bool → Text → List MonitorReply → Result MonitorError Text × List MonitorReply
unfolding is_event answer_of
await_reply guest id [] = (err unexpected_eof, [])
await_reply guest id (reply ∷ replies) =
    let later = await_reply guest id replies in
    if is_event guest id reply then later else (answer_of reply.error reply.result, replies)

-- call, with the number of the last request; `itoa` prints a number.
pub call_monitor :
    (ℕ → Text) → Bool → ℕ → List MonitorReply → ℕ × (Result MonitorError Text × List MonitorReply)
unfolding await_reply
call_monitor itoa guest sequence replies =
    (sequence + 1, await_reply guest (itoa (sequence + 1)) replies)

pub data Balloon : Type 0 where
  inactive failed_call : Balloon
  balloon : Option ℤ → Option ℤ → Option ℤ → Balloon

-- What collectMonitor meets: whether the monitor opens, the status, the memory of the cgroup, the
-- counters of the disks, and the balloon; `none` is an error.
pub record Answers : Type 0 where
  pub opened : Bool
  pub status : Option Text
  pub memory : Option ℕ
  pub disks : Option (List (Option ℤ × Option ℤ))
  pub ballooned : Balloon

-- The sums of the loop over the disks, before they are taken to 64 bits; `none` is the error.
pub disk_totals : List (Option ℤ × Option ℤ) → Option (ℕ × ℕ)
disk_totals [] = some (0, 0)
disk_totals ((some (pos r), some (pos w)) ∷ disks) =
    and_then (disk_totals disks) (λ t. some (r + t.0, w + t.1))
disk_totals ((some (pos r), some (negsuc w)) ∷ disks) = none
disk_totals ((some (pos r), none) ∷ disks) = none
disk_totals ((some (negsuc r), w) ∷ disks) = none
disk_totals ((none, w) ∷ disks) = none

-- `*Total - *Free`, if both are known, `Free` is not negative and not above `Total`.
pub used_memory : Option ℤ → Option ℤ → Option ℕ
used_memory (some (pos total)) (some (pos free)) =
    if leb free total then some (total - free) else none
used_memory _ _ = none

pub or_old : Option ℕ → Option ℤ → Option ℤ
or_old none old = old
or_old (some n) old = some (pos n)

module _ {Float : Type 0} where
  -- What an active balloon changes.
  pub with_balloon : Option ℤ → Option ℤ → Option ℤ → Vm Float → Vm Float
  unfolding used_memory or_old
  with_balloon none total free vm = vm
  with_balloon (some maximum) total free vm =
      if is_positive maximum
      then record vm {
        memory_limit = some maximum;
        memory = or_old (used_memory total free) vm.memory;
      }
      else vm

  -- The end of collectMonitor; `true` is no error.
  pub read_balloon : Balloon → Vm Float → Vm Float × Bool
  unfolding with_balloon
  read_balloon inactive vm = (vm, true)
  read_balloon failed_call vm = (vm, false)
  read_balloon (balloon maximum total free) vm = (with_balloon maximum total free vm, true)

  pub read_disks : Option (ℕ × ℕ) → Balloon → Vm Float → Vm Float × Bool
  unfolding read_balloon
  read_disks none b vm = (vm, false)
  read_disks (some (r, w)) b vm =
      read_balloon b (record vm { disk_read = some (wrap_int r); disk_write = some (wrap_int w) })

  pub read_running : Answers → Vm Float → Vm Float × Bool
  unfolding read_disks or_old
  read_running a vm =
      read_disks (and_then a.disks disk_totals) a.ballooned
        (record vm { memory = or_old a.memory vm.memory })

  pub read_status : Option Text → Answers → Vm Float → Vm Float × Bool
  unfolding read_running
  read_status none a vm = (vm, false)
  read_status (some status) a vm =
      if is_empty status
      then (vm, false)
      else if not (text_eq status (codes "running"))
      then (record vm { qmp_status = status }, true)
      else read_running a (record vm { qmp_status = status })

  -- collectMonitor: the machine, and whether there was no error.
  pub collect_monitor : Answers → Vm Float → Vm Float × Bool
  unfolding read_status
  collect_monitor a vm = if a.opened then read_status a.status a vm else (vm, false)

pub insert_text : Text → List Text → List Text
unfolding text_less
insert_text s [] = s ∷ []
insert_text s (t ∷ ts) = if text_less t s then t ∷ insert_text s ts else s ∷ t ∷ ts

-- slices.Sort of strings.
pub sort_texts : List Text → List Text
unfolding insert_text
sort_texts [] = []
sort_texts (s ∷ ss) = insert_text s (sort_texts ss)

-- Of an address that parses: its text after Unmap if decodeIPs goes on with it.
pub usable : Option Addr → Option Text
usable none = none
usable (some ip) = if ip.zoned || not ip.is_global_unicast then none else some ip.unmapped

module _ (parse_guest : Text → Option Addr) where
  -- The loops over the interfaces and their addresses, with `ips` the newest first, which are also
  -- the keys of the map; `none` is the error.
  pub gather_ips : List Text → List Text → Option (List Text)
  unfolding usable
  gather_ips ips [] = some ips
  gather_ips ips (raw ∷ raws) = elim (usable (parse_guest raw)) [
    | none ↦ gather_ips ips raws
    | some ip ↦
        let seen = exists_in (text_eq ip) ips in
        let rest = gather_ips (if seen then ips else ip ∷ ips) raws in
        if not seen && length ips == 1024 then none else rest
  ]

  -- decodeIPs, of the decoded addresses of all interfaces; `none` is the missing list.
  unfoldable pub decode_ips : Option (List Text) → Option (List Text)
  unfolding gather_ips sort_texts
  decode_ips none = none
  decode_ips (some raws) = and_then (gather_ips [] raws) (λ ips. some (sort_texts ips))
