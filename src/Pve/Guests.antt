-- ===== src/Pve/Guests.antt =====
-- internal/pve/guest_cache.go: the states of the guest agents, when an agent is asked, in which
-- order, and which addresses a snapshot gets. A state file is its decoded content, or an error; the
-- pool of eight workers, the lock and the log are left out.
pub mod Backoff
pub mod Order
pub mod Attach
mod Examples
use ithiltir_node.Base.{
  ℕ, zero, suc, ◌+◌, ◌*◌, min, Bool, true, false, ◌&&◌, ◌||◌, not, none, some, List, [], ◌∷◌, Text,
  codes, text_eq, ℤ, pos, negsuc, pos_part, Time, second, minute, ltb, leb, ◌==◌, if◌then◌else◌,
  Result, ok, err, is_empty,
}
use ithiltir_node.Pve.Snapshot.{Vm, to_duration}

pub record GuestState : Type 0 where
  pub host : Text
  pub next : Time
  pub failures : ℤ
  pub start : ℕ
  pub agent : Text
  pub collected_at : Time
  pub ips : List Text

pub record GuestTarget : Type 0 where
  pub id : ℤ
  pub start : ℕ
  pub agent : Text

pub guest_ttl : Time
guest_ttl = 15 * minute

pub is_guest_eligible : {Float : Type 0} → Vm Float → Bool
is_guest_eligible vm =
    text_eq vm.status (codes "running")
    && not vm.template
    && text_eq vm.qmp_status (codes "running")

-- What queryGuest meets: the clock, whether the context is done before the reservation and after
-- the lookup, the two writes, and what the agent answers.
pub record Lookup : Type 0 where
  pub now : Time
  pub done_before : Bool
  pub reserved : Bool
  pub answer : Result Text (List Text)
  pub done_after : Bool
  pub finished : Time
  pub stored : Bool

-- The number of failures that is reserved, from 1 to 3.
pub next_failures : ℤ → ℕ
next_failures failures = min (pos_part failures + 1) 3

-- `[]time.Duration{…}[failures-1]`
pub retry_delay : ℕ → Time
retry_delay (suc zero) = minute
retry_delay (suc (suc zero)) = 2 * minute
retry_delay other = 5 * minute

-- The state that is written before the lookup.
pub reserve : Time → GuestState → GuestState
unfolding next_failures retry_delay
reserve now s = record s {
  failures = pos (next_failures s.failures);
  next = now + retry_delay (next_failures s.failures);
}

pub answered_state : Text → GuestTarget → List Text → Time → GuestState
answered_state host target ips finished = record {
  host = host;
  next = finished + minute;
  failures = pos 0;
  start = target.start;
  agent = target.agent;
  collected_at = finished;
  ips = ips;
}

-- What the file holds after a lookup, from what it held before.
pub settle : Lookup → Text → GuestTarget → GuestState → GuestState
unfolding reserve answered_state
settle q host target s =
    if q.done_after
    then (if q.stored then record s { next = q.finished + 3 * second } else reserve q.now s)
    else elim q.answer [
      | err e ↦ reserve q.now s
      | ok ips ↦ if q.stored then answered_state host target ips q.finished else reserve q.now s
    ]

pub is_asked : Lookup → GuestState → Bool
is_asked q s = not q.done_before && not (ltb q.now s.next) && q.reserved

-- queryGuest: the content of a state file that was read.
pub query_guest : Lookup → Text → GuestTarget → GuestState → GuestState
unfolding settle is_asked
query_guest q host target s = if is_asked q s then settle q host target s else s

-- What collectGuests writes for a target whose file is of another host, boot or agent.
pub current_state : Text → GuestTarget → GuestState → GuestState
current_state host target s =
    if text_eq s.host host && s.start == target.start && text_eq s.agent target.agent
    then s
    else record {
      host = host;
      next = 0;
      failures = pos 0;
      start = target.start;
      agent = target.agent;
      collected_at = 0;
      ips = [];
    }

pub record Candidate : Type 0 where
  pub target : GuestTarget
  pub next : Time
  pub priority : ℕ

is_failed : ℤ → Bool
is_failed (pos zero) = false
is_failed (pos (suc n)) = true
is_failed (negsuc n) = false

priority_of : GuestState → ℕ
unfolding is_failed
priority_of s = if is_failed s.failures then 2 else if s.collected_at == 0 then 1 else 0

-- Of one target: a candidate, if it has an agent and is due.
pub candidate_of : Time → GuestTarget → GuestState → List Candidate → List Candidate
unfolding priority_of
candidate_of now target s rest =
    if is_empty target.agent || ltb now s.next
    then rest
    else record { target = target; next = s.next; priority = priority_of s } ∷ rest

-- The loop over the targets with their files.
pub candidates : Time → Text → List (GuestTarget × Result Text GuestState) → List Candidate
unfolding candidate_of current_state
candidates now host [] = []
candidates now host ((target, err e) ∷ targets) = candidates now host targets
candidates now host ((target, ok s) ∷ targets) =
    candidate_of now target (current_state host target s) (candidates now host targets)

-- Whether the comparison gives at most 0.
pub is_before : Candidate → Candidate → Bool
is_before a b = ltb a.priority b.priority || a.priority == b.priority && leb a.next b.next

pub insert_candidate : Candidate → List Candidate → List Candidate
unfolding is_before
insert_candidate a [] = a ∷ []
insert_candidate a (b ∷ bs) = if is_before a b then a ∷ b ∷ bs else b ∷ insert_candidate a bs

-- slices.SortStableFunc, as an insertion sort.
pub sort_candidates : List Candidate → List Candidate
unfolding insert_candidate
sort_candidates [] = []
sort_candidates (a ∷ bs) = insert_candidate a (sort_candidates bs)

-- `-n` of an int64, before a product that wraps.
pub minus : ℤ → ℤ
minus (pos zero) = pos 0
minus (pos (suc n)) = negsuc n
minus (negsuc n) = pos (n + 1)

-- `t.Before(u.Add(d))`
pub is_earlier : Time → Time → ℤ → Bool
is_earlier t u (pos d) = ltb t (u + d)
is_earlier t u (negsuc d) = ltb (t + d + 1) u

-- The sample is not older than the boot of the machine.
pub is_of_boot : {Float : Type 0} → GuestState → Vm Float → Bool
unfolding is_earlier minus
is_of_boot s vm = elim vm.uptime [
  | none ↦ false
  | some uptime ↦ elim vm.collected_at [
    | none ↦ false
    | some t ↦ not (is_earlier s.collected_at t (to_duration (minus uptime)))
  ]
]

pub is_recent : Time → GuestState → Bool
unfolding guest_ttl
is_recent now s =
    not (s.collected_at == 0) && leb s.collected_at now && leb now (s.collected_at + guest_ttl)

module _ {Float : Type 0} where
  pub no_ips : Vm Float → Vm Float
  no_ips vm = record vm { ips = []; ips_collected_at = none; ips_ttl_seconds = pos 0 }

  -- AttachGuestIPs, for one machine.
  pub attach_ips : Text → Time → Result Text GuestState → Vm Float → Vm Float
  unfolding no_ips is_guest_eligible is_recent is_of_boot
  attach_ips host now (err e) vm = no_ips vm
  attach_ips host now (ok s) vm =
      if is_guest_eligible vm && text_eq s.host host && is_recent now s && is_of_boot s vm
      then record vm {
        ips = s.ips;
        ips_collected_at = some s.collected_at;
        ips_ttl_seconds = pos 900;
      }
      else no_ips vm
