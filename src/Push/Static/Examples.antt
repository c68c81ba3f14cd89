-- ===== src/Push/Static/Examples.antt =====
-- The theorems on static snapshots at one of a small host.
use ithiltir_node.Base.{
  ◌≡◌, ◌⊎◌, refl, true, false, Option, none, some, Text, codes, trim_space, text_eq, ◌∷◌, pos, [],
}
use ithiltir_node.Push.Rpc.{transport_mode, Env, http, version, rpc_client, new_rpc, is_http_mode}
use ithiltir_node.Push.Target.{new_target, Target, Dial, SendError, plain, tls}
use ithiltir_node.Push.Static.{Static, Attempt, sync_static}
use ithiltir_node.Push.Static.Secure.{Event, syncs, meet_all, required_https}
use ithiltir_node.Push.Static.Sync.{IsSendable, IsComplete, IsSent, IsRecorded, sync_static_done}

abbrev good_env : Env
good_env = record { now = 100; dial_ok = true; ctx_done = false; probe = version 1 }

abbrev no_dial : Dial
no_dial = record { peer = none; clock = 0; verify = λ leaf certs t. false }

abbrev secure : Target
secure = record {
  rpc = new_rpc http;
  scheme = tls;
  host_is_ip = false;
  require_https = true;
  wake = none;
  conn_refused_count = 0;
  conn_refused_suppressed = false;
  rpc_failed = false;
}

abbrev open_target : Target
open_target = record secure { scheme = plain; require_https = false }

abbrev refused_error : SendError
refused_error = record {
  record_header = true;
  message = codes "connection refused";
  unknown_authority = false;
  hostname = false;
  cert_invalid = none;
  conn_refused = true;
}

abbrev a_static : Static
a_static = record {
  version = codes "1.0.0";
  timestamp = 5;
  report_interval_seconds = pos 3;
  hostname = codes "h";
  os = codes "linux";
  platform = codes "debian";
  platform_version = codes "13";
  kernel_version = codes "6";
  arch = codes "amd64";
  memory_total = 8;
  cores_logical = pos 2;
  cores_physical = pos 1;
  sockets = pos 1;
  rest = [];
}

abbrev hash_of : Static → Option Text
hash_of s = some s.hostname

abbrev an_attempt : Attempt
an_attempt = record {
  env = good_env;
  transport_error = refused_error;
  rpc_error = none;
  http_error = none;
}

sync_static_done_example :
    IsSendable a_static
    × ((true ≡ false)
        ⊎ (IsComplete a_static
            × IsSent no_dial an_attempt an_attempt open_target
            × IsRecorded hash_of a_static none
                (sync_static hash_of true no_dial an_attempt an_attempt
                  (some a_static)
                  open_target
                  none).1))
unfolding sync_static rpc_client trim_space new_rpc is_http_mode
sync_static_done_example =
    sync_static_done hash_of true no_dial an_attempt an_attempt a_static open_target none refl

abbrev sync_event : Event
sync_event = syncs true no_dial an_attempt an_attempt (some a_static) none

required_https_example : (meet_all hash_of (sync_event ∷ sync_event ∷ []) secure).scheme ≡ tls
unfolding new_target transport_mode text_eq trim_space
required_https_example =
    required_https hash_of (codes "http") tls true false (sync_event ∷ sync_event ∷ []) secure refl
