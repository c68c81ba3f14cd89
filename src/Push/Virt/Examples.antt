-- ===== src/Push/Virt/Examples.antt =====
-- The theorems on the delivery of snapshots at one that a helper gave twice, and at one that the
-- helper no longer gives. Floating-point numbers are the native numbers here.
use ithiltir_node.Base.{
  ℕ, ◌≡◌, refl, Bool, true, false, none, some, Option, [], Text, codes, text_eq, int_eq,
  byte_length, ℤ, pos, ok, err, arith,
}
use ithiltir_node.Pve.Snapshot.{Addr, Snapshot, is_valid}
use ithiltir_node.Push.Rpc.{failed, unauthenticated, http, new_rpc}
use ithiltir_node.Push.Target.{Target, Dial, tls}
use ithiltir_node.Push.Virt.{VirtAttempt, VirtLoop, Round, replied, observe}
use ithiltir_node.Push.Virt.Delivery.{unavailable-is_valid}

abbrev parse_none : Text → Option Addr
parse_none s = none

abbrev atoi_none : Text → Option ℤ
atoi_none s = none

abbrev itoa_zero : ℤ → Text
itoa_zero n = codes "0"

abbrev never : ℕ → Bool
never n = false

abbrev empty_host : Snapshot ℕ
empty_host = record {
  schema = pos 1;
  provider = codes "pve";
  host = codes "pve1";
  collected_at = 10;
  last_success_at = some 10;
  ttl_seconds = pos 90;
  status = codes "ok";
  error = [];
  vms = some [];
}

abbrev http_target : Target
http_target = record {
  rpc = new_rpc http;
  scheme = tls;
  host_is_ip = false;
  require_https = true;
  wake = none;
  conn_refused_count = 0;
  conn_refused_suppressed = false;
  rpc_failed = false;
}

abbrev no_dial : Dial
no_dial = record { peer = none; clock = 0; verify = λ leaf certs t. false }

abbrev accepted : VirtAttempt
accepted = record {
  env = record { now = 100; dial_ok = false; ctx_done = false; probe = failed unauthenticated };
  rpc_ok = false;
  first_reply = replied 204;
  second_reply = replied 500;
  dial = no_dial;
}

abbrev good_round : Round ℕ
good_round = record { read = ok empty_host; now = 11; encoded = true; attempt = accepted }

abbrev holding : VirtLoop ℕ
holding = record {
  target = http_target;
  sent = 10;
  snapshot = empty_host;
  read_error = [];
  delay = 3000000000;
}

unavailable-is_valid_example :
    is_valid parse_none atoi_none itoa_zero never never never
      (observe good_round (err (codes "PVE helper unavailable: EOF")) holding).snapshot
    ≡ true
unfolding is_valid text_eq int_eq byte_length
unavailable-is_valid_example =
    unavailable-is_valid parse_none atoi_none itoa_zero never never never good_round
      (codes "PVE helper unavailable: EOF") holding refl (omega arith) (λ e. ground arith)
