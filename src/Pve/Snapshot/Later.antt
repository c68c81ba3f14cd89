-- ===== src/Pve/Snapshot/Later.antt =====
-- A snapshot of an earlier instant, reported again as the last one of a helper that does not answer.
use ithiltir_node.Base.{
  ◌≤◌, ◌≡◌, ◌≢◌, refl, Bool, true, ◌&&◌, Option, none, some, List, [], ◌∷◌, Text, codes, text_eq,
  int_eq, byte_length, ℤ, pos, Time, is_positive, arith,
}
use ithiltir_node.Pve.Snapshot.{
  Addr, Vm, Snapshot, is_dated, is_headed, has_success_time, is_lifetime, is_vm, are_vms, is_valid,
  all_vms, is_named,
}

-- The second and third of the checks of a machine may be others that hold.
swap_two :
    (a b c d e f g h : Bool) {b' c' : Bool}
    → a && b && c && d && e && f && g && h ≡ true
    → (b ≡ true → b' ≡ true)
    → (c ≡ true → c' ≡ true)
    → a && b' && c' && d && e && f && g && h ≡ true
swap_two a b c d e f g h p q r = ground arith

swap_last :
    (a b c d : Bool) {c' d' : Bool}
    → a && b && c && d ≡ true
    → (c ≡ true → c' ≡ true)
    → (d ≡ true → d' ≡ true)
    → a && b && c' && d' ≡ true
swap_last a b c d p q r = ground arith

is_dated_later :
    (t now : Time) (at : Option Time) (ttl : ℤ)
    → t ≤ now
    → is_dated t at ttl ≡ true
    → is_dated now at ttl ≡ true
unfolding is_dated
is_dated_later t now none ttl h d = d
is_dated_later t now (some u) ttl h d = ground arith

pub is_dated_recent : (now t : Time) → t ≢ 0 → t ≤ now → is_dated now (some t) (pos 900) ≡ true
unfolding is_dated is_lifetime
is_dated_recent now t n h = ground arith

pub is_dated_never : (now : Time) → is_dated now none (pos 0) ≡ true
unfolding is_dated int_eq
is_dated_never now = refl

has_success_time_later :
    (t now : Time) (at : Option Time)
    → t ≤ now
    → has_success_time t at ≡ true
    → has_success_time now at ≡ true
unfolding has_success_time
has_success_time_later t now none h d = d
has_success_time_later t now (some u) h d = ground arith

module _ {Float : Type 0} where
  -- The snapshot `s` as the report of an error `m` at the instant `now`.
  abbrev pub failed_at : Time → Text → Snapshot Float → Snapshot Float
  failed_at now m s = record s {
    schema = pos 1;
    provider = codes "pve";
    ttl_seconds = pos 90;
    collected_at = now;
    status = codes "error";
    error = m;
  }

  headed_later :
      (s : Snapshot Float) (now : Time) (m : Text)
      → is_headed s ≡ true
      → s.collected_at ≤ now
      → m ≢ []
      → byte_length m ≤ 1024
      → is_headed (failed_at now m s) ≡ true
  unfolding is_headed is_lifetime text_eq int_eq
  headed_later s now m h l n b =
      ground (arith, has_success_time_later s.collected_at now s.last_success_at l)

module _ (parse_addr : Text → Option Addr) (atoi : Text → Option ℤ) (itoa : ℤ → Text)
    {Float : Type 0} (is_nan is_inf is_negative : Float → Bool) where
  is_vm_later :
      (t now : Time) (vm : Vm Float)
      → t ≤ now
      → is_vm parse_addr atoi itoa is_nan is_inf is_negative t vm ≡ true
      → is_vm parse_addr atoi itoa is_nan is_inf is_negative now vm ≡ true
  unfolding is_vm
  is_vm_later t now vm l h =
      swap_two (is_named parse_addr atoi itoa is_nan is_inf is_negative vm) _ _ _ _ _ _ _ h
        (is_dated_later t now vm.collected_at vm.ttl_seconds l)
        (is_dated_later t now vm.ips_collected_at vm.ips_ttl_seconds l)

  are_vms_later :
      (t now : Time) (seen : List ℤ) (vms : List (Vm Float))
      → t ≤ now
      → are_vms parse_addr atoi itoa is_nan is_inf is_negative t seen vms ≡ true
      → are_vms parse_addr atoi itoa is_nan is_inf is_negative now seen vms ≡ true
  unfolding are_vms
  are_vms_later t now seen [] l h = refl
  are_vms_later t now seen (vm ∷ vms) l h =
      swap_last (is_positive vm.id) _ _ _ h (is_vm_later t now vm l)
        (are_vms_later t now (vm.id ∷ seen) vms l)

  -- A valid snapshot, reported later as an error of at most 1024 bytes, stays valid.
  pub failed_at-is_valid :
      (s : Snapshot Float) (now : Time) (m : Text)
      → is_valid parse_addr atoi itoa is_nan is_inf is_negative s ≡ true
      → s.collected_at ≤ now
      → m ≢ []
      → byte_length m ≤ 1024
      → is_valid parse_addr atoi itoa is_nan is_inf is_negative (failed_at now m s) ≡ true
  unfolding is_valid
  failed_at-is_valid s now m h l n b = ground (
    arith,
    headed_later s now m (ground arith) l n b,
    are_vms_later s.collected_at now [] (all_vms s.vms) l,
  )
