-- ===== src/Pve/Snapshot/Sound.antt =====
-- What a validated snapshot of virtual machines guarantees, and that expiry keeps it.
use ithiltir_node.Base.{
  ℕ, ◌≤◌, ◌<◌, ◌+◌, ◌*◌, ◌⊎◌, ◌≡◌, ◌≢◌, second, leb, pos, negsuc, none, some, codes, false,
  Option-cases, wrap_int_small, inl, inr, refl, sym, subst, Bool, true, ◌&&◌, not, Option, List, [],
  ◌∷◌, Text, ℤ, int_eq, int_eq_iff, is_positive, Time, All, length, exists_in, Bool-cases, arith,
}
use ithiltir_node.Pve.Snapshot.{
  Addr, Vm, Snapshot, is_dated, is_headed, has_rate, is_named, are_counters, is_vm, are_vms,
  is_valid, all_vms, is_live, hidden, is_within, is_lifetime, to_duration, expire_vm,
}

and_four :
    (a b c d : Bool) → a && b && c && d ≡ true → (a ≡ true) × (b ≡ true) × (c ≡ true) × (d ≡ true)
and_four a b c d h = ground arith

-- No two machines have one id.
abbrev DistinctIds : {Float : Type 0} → List (Vm Float) → Type 0
DistinctIds [] = Unit
DistinctIds (vm ∷ vms) = All (λ other. vm.id ≢ other.id) vms × DistinctIds vms

-- Three of the checks of a machine may be others that hold.
swap_three :
    (a b c d e f g h : Bool) {a' f' h' : Bool}
    → a && b && c && d && e && f && g && h ≡ true
    → (a ≡ true → a' ≡ true)
    → f' ≡ true
    → (h ≡ true → h' ≡ true)
    → a' && b && c && d && e && f' && g && h' ≡ true
swap_three a b c d e f g h p q r s = ground arith

few : {Float : Type 0} (s : Snapshot Float) → is_headed s ≡ true → length (all_vms s.vms) ≤ 4096
unfolding is_headed
few s h = ground arith

hidden_live :
    {Float : Type 0} (now : Time) (vm : Vm Float) → is_live now (hidden vm) ≡ is_live now vm
unfolding is_live hidden
hidden_live now vm = refl

-- The reading may still be shown: it is dated, and its lifetime has not passed.
pub IsFresh : {Float : Type 0} → Time → Vm Float → Type 0
IsFresh later vm =
    (t : Time) × (n : ℕ) × (vm.collected_at ≡ some t)
    × (vm.ttl_seconds ≡ pos n)
    × (later ≤ t + n * second)

-- There is no reading, or its lifetime has passed.
pub IsStale : {Float : Type 0} → Time → Vm Float → Type 0
IsStale later vm =
    (vm.collected_at ≡ none)
    ⊎ ((t : Time) × (n : ℕ) × (vm.collected_at ≡ some t)
        × (vm.ttl_seconds ≡ pos n)
        × (t + n * second < later))

-- The machine without what a reading tells.
pub unread : {Float : Type 0} → Vm Float → Vm Float
unread vm = record {
  collected_at = vm.collected_at;
  ttl_seconds = vm.ttl_seconds;
  ips_collected_at = vm.ips_collected_at;
  ips_ttl_seconds = vm.ips_ttl_seconds;
  ips = vm.ips;
  id = vm.id;
  name = vm.name;
  status = codes "unknown";
  qmp_status = [];
  template = vm.template;
  cpu = none;
  net_rate_limits = vm.net_rate_limits;
  cpus = vm.cpus;
  memory = none;
  memory_limit = vm.memory_limit;
  disk_capacity = vm.disk_capacity;
  disk_read = none;
  disk_write = none;
  net_in = none;
  net_out = none;
  uptime = none;
}

dated_lem :
    (now t : Time) (ttl : ℤ)
    → is_dated now (some t) ttl ≡ true
    → (n : ℕ) × (ttl ≡ pos n) × (n ≤ 3600)
unfolding is_dated is_lifetime
dated_lem now t (pos n) h = (n, refl, ground arith)
dated_lem now t (negsuc n) h = ground arith

duration_lem : (n : ℕ) → n ≤ 3600 → to_duration (pos n) ≡ pos (n * second)
unfolding to_duration
duration_lem n h = wrap_int_small (n * second) (omega arith)

live_dated :
    {Float : Type 0} (later t : Time) (n : ℕ) (vm : Vm Float)
    → vm.collected_at ≡ some t
    → vm.ttl_seconds ≡ pos n
    → n ≤ 3600
    → is_live later vm ≡ leb later (t + n * second)
unfolding is_live is_within
live_dated later t n vm e f h = rw (is_live, e) (rw (f, duration_lem n h) refl)

live_undated :
    {Float : Type 0} (later : Time) (vm : Vm Float)
    → vm.collected_at ≡ none
    → is_live later vm ≡ false
unfolding is_live
live_undated later vm e = rw (is_live, e) refl

-- What Expire makes of a machine, by the age of its reading.
pub IsExpired : {Float : Type 0} → Time → Vm Float → Vm Float → Type 0
IsExpired later vm shown =
    (IsFresh later vm × (shown ≡ vm)) ⊎ (IsStale later vm × (shown ≡ unread vm))

expired_lem :
    {Float : Type 0} (now later : Time) (vm : Vm Float)
    → is_dated now vm.collected_at vm.ttl_seconds ≡ true
    → IsExpired later vm (expire_vm later vm)
unfolding expire_vm hidden unread IsExpired IsFresh IsStale
expired_lem now later vm h = elim (Option-cases vm.collected_at) [
  | inl e ↦ rw (live_undated later vm e) (inr (inl e, refl))
  | inr (t, e) ↦
      let (n, f, b) = dated_lem now t vm.ttl_seconds (rw e at h) in
      elim (Bool-cases (leb later (t + n * second))) [
        | inl l ↦ rw (live_dated later t n vm e f b, l) (inl ((t, n, e, f, ground arith), refl))
        | inr l ↦ rw (live_dated later t n vm e f b, l) (inr (inr (t, n, e, f, ground arith), refl))
      ]
]

module _ (parse_addr : Text → Option Addr) (atoi : Text → Option ℤ) (itoa : ℤ → Text)
    {Float : Type 0} (is_nan is_inf is_negative : Float → Bool) where
  -- What is guaranteed of one machine of a snapshot.
  record IsSound (now : Time) (vm : Vm Float) : Type 0 where
    pub positive : is_positive vm.id ≡ true
    pub dated : is_dated now vm.collected_at vm.ttl_seconds ≡ true
    pub accepted : is_vm parse_addr atoi itoa is_nan is_inf is_negative now vm ≡ true

  unseen :
      (now : Time) (seen : List ℤ) (id : ℤ) (vms : List (Vm Float))
      → exists_in (int_eq id) seen ≡ true
      → are_vms parse_addr atoi itoa is_nan is_inf is_negative now seen vms ≡ true
      → All (λ vm. vm.id ≢ id) vms
  unfolding are_vms
  unseen now seen id [] s h = tt
  unseen now seen id (vm ∷ vms) s h =
      let (_, new, _, rest) =
        and_four (is_positive vm.id) (not (exists_in (int_eq vm.id) seen))
          (is_vm parse_addr atoi itoa is_nan is_inf is_negative now vm)
          (are_vms parse_addr atoi itoa is_nan is_inf is_negative now (vm.id ∷ seen) vms) h in
      (
        λ same. cc (subst (λ i. exists_in (int_eq i) seen ≡ true) (sym same) s, new),
        unseen now (vm.id ∷ seen) id vms (ground (arith, s)) rest,
      )

  differ :
      (id : ℤ) (vms : List (Vm Float)) → All (λ vm. vm.id ≢ id) vms → All (λ vm. id ≢ vm.id) vms
  differ id [] h = tt
  differ id (vm ∷ vms) h = (λ e. h.0 (sym e), differ id vms h.1)

  vm_dated :
      (now : Time) (vm : Vm Float)
      → is_vm parse_addr atoi itoa is_nan is_inf is_negative now vm ≡ true
      → is_dated now vm.collected_at vm.ttl_seconds ≡ true
  unfolding is_vm
  vm_dated now vm h = ground arith

  are_vms_lem :
      (now : Time) (seen : List ℤ) (vms : List (Vm Float))
      → are_vms parse_addr atoi itoa is_nan is_inf is_negative now seen vms ≡ true
      → All (IsSound now) vms × DistinctIds vms
  unfolding are_vms
  are_vms_lem now seen [] h = (tt, tt)
  are_vms_lem now seen (vm ∷ vms) h =
      let (p, new, v, rest) =
        and_four (is_positive vm.id) (not (exists_in (int_eq vm.id) seen))
          (is_vm parse_addr atoi itoa is_nan is_inf is_negative now vm)
          (are_vms parse_addr atoi itoa is_nan is_inf is_negative now (vm.id ∷ seen) vms) h in
      let (sound, distinct) = are_vms_lem now (vm.id ∷ seen) vms rest in
      let self = (int_eq_iff vm.id vm.id).1 refl in
      (
        (record { positive = p; dated = vm_dated now vm v; accepted = v }, sound),
        (
          differ vm.id vms (unseen now (vm.id ∷ seen) vm.id vms (ground (arith, self)) rest),
          distinct,
        ),
      )

  named_hidden :
      (vm : Vm Float)
      → is_named parse_addr atoi itoa is_nan is_inf is_negative vm ≡ true
      → is_named parse_addr atoi itoa is_nan is_inf is_negative (hidden vm) ≡ true
  unfolding is_named hidden
  named_hidden vm h = ground arith

  counters_hidden :
      (vm : Vm Float)
      → are_counters parse_addr atoi itoa is_nan is_inf is_negative vm ≡ true
      → are_counters parse_addr atoi itoa is_nan is_inf is_negative (hidden vm) ≡ true
  unfolding are_counters hidden
  counters_hidden vm h = ground arith

  hidden-is_vm :
      (now : Time) (vm : Vm Float)
      → is_vm parse_addr atoi itoa is_nan is_inf is_negative now vm ≡ true
      → is_vm parse_addr atoi itoa is_nan is_inf is_negative now (hidden vm) ≡ true
  unfolding is_vm hidden has_rate
  hidden-is_vm now vm h =
      swap_three (is_named parse_addr atoi itoa is_nan is_inf is_negative vm) _ _ _ _ _ _
        (are_counters parse_addr atoi itoa is_nan is_inf is_negative vm) h (named_hidden vm) refl
        (counters_hidden vm)

  -- Of a snapshot that Validate takes: its machines have distinct positive ids, each is dated no
  -- later than the snapshot or not at all, each passes the checks of the loop, and they are at
  -- most 4096.
  is_valid_lem :
      (s : Snapshot Float)
      → is_valid parse_addr atoi itoa is_nan is_inf is_negative s ≡ true
      → All (IsSound s.collected_at) (all_vms s.vms)
        × DistinctIds (all_vms s.vms)
        × (length (all_vms s.vms) ≤ 4096)
  unfolding is_valid
  is_valid_lem s h =
      let (v, d) = are_vms_lem s.collected_at [] (all_vms s.vms) (ground arith) in
      (v, d, few s (ground arith))

  kept_by_expire :
      (now later : Time) (vm : Vm Float)
      → is_vm parse_addr atoi itoa is_nan is_inf is_negative now vm ≡ true
      → (is_vm parse_addr atoi itoa is_nan is_inf is_negative now (expire_vm later vm) ≡ true)
        × (expire_vm later (expire_vm later vm) ≡ expire_vm later vm)
  unfolding expire_vm
  kept_by_expire now later vm h = elim (Bool-cases (is_live later vm)) [
    | inl e ↦ rw (e, e) (h, refl)
    | inr e ↦ rw (e, hidden_live later vm, e) (hidden-is_vm now vm h, refl)
  ]

  -- Expire at any time leaves a machine that Validate takes in the same snapshot, a second Expire at
  -- that time changes nothing, and it keeps the machine as it is while the lifetime of its reading
  -- has not passed, and clears its status and its readings otherwise.
  pub expire_vm-is_vm :
      (now later : Time) (vm : Vm Float)
      → is_vm parse_addr atoi itoa is_nan is_inf is_negative now vm ≡ true
      → (is_vm parse_addr atoi itoa is_nan is_inf is_negative now (expire_vm later vm) ≡ true)
        × (expire_vm later (expire_vm later vm) ≡ expire_vm later vm)
        × IsExpired later vm (expire_vm later vm)
  expire_vm-is_vm now later vm h =
      let (valid, again) = kept_by_expire now later vm h in
      (valid, again, expired_lem now later vm (vm_dated now vm h))
