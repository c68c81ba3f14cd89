-- ===== src/Push/Examples.antt =====
-- The theorems on internal/push at concrete targets and replies.
use ithiltir_node.Base.{
  ℕ, ◌≡◌, ◌↔◌, ◌⊎◌, inl, refl, Bool, true, false, none, some, List, [], ◌∷◌, Text, codes, pos,
  is_some,
}
use ithiltir_node.Push.Rpc.{
  auto, http, Env, unauthenticated, resource_exhausted, version, failed, over_rpc, rpc_client,
  new_rpc, is_http_mode,
}
use ithiltir_node.Push.Rpc.Sticky.{run, transport_fixed}
use ithiltir_node.Push.Target.{
  Target, plain, tls, SendError, no_reply, status, Dial, Delivery, send_target,
}
use ithiltir_node.Push.Target.Downgrade.{AllowedBy, downgrade_only_if}
use ithiltir_node.Push.Update.{Manifest, no_plan}
use ithiltir_node.Push.Update.Agreement.{Offer, add_all}
use ithiltir_node.Push.Update.Conflict.{Offers, IsCurrent, OffersOther, Conflict, plan_iff}
use ithiltir_node.Push.Round.{TargetResult, Agent}

abbrev good_env : Env
good_env = record { now = 100; dial_ok = true; ctx_done = false; probe = version 1 }

abbrev other_env : Env
other_env = record { now = 200; dial_ok = false; ctx_done = false; probe = failed unauthenticated }

abbrev denying_env : Env
denying_env = record { now = 100; dial_ok = true; ctx_done = false; probe = failed unauthenticated }

abbrev exhausted_env : Env
exhausted_env = record {
  now = 100;
  dial_ok = true;
  ctx_done = false;
  probe = failed resource_exhausted;
}

transport_fixed_example :
    (rpc_client other_env (run (other_env ∷ []) (rpc_client good_env (new_rpc auto)).0)).1
    ≡ over_rpc
unfolding rpc_client new_rpc
transport_fixed_example =
    transport_fixed (new_rpc auto) good_env other_env (other_env ∷ []) over_rpc (inl refl) refl

abbrev secure : Target
secure = record {
  rpc = new_rpc http;
  scheme = tls;
  host_is_ip = false;
  require_https = true;
  wake = none;
  conn_refused_count = 0;
  conn_refused_suppressed = false;
  rpc_failed = false;
}

abbrev open_target : Target
open_target = record secure { scheme = plain; require_https = false }

abbrev refused_error : SendError
refused_error = record {
  record_header = true;
  message = codes "connection refused";
  unknown_authority = false;
  hostname = false;
  cert_invalid = none;
  conn_refused = true;
}

abbrev no_dial : Dial
no_dial = record { peer = none; clock = 0; verify = λ leaf certs t. false }

abbrev bad_reply : Delivery
bad_reply = record {
  env = good_env;
  ctx_done = false;
  rpc_ok = true;
  dial = no_dial;
  reply = no_reply refused_error;
}

abbrev good_reply : Delivery
good_reply = record bad_reply { reply = status true }

downgrade_only_if_example :
    let t = record secure { require_https = false } in
    let t' = (send_target bad_reply t).0 in
    (t'.scheme ≡ t.scheme)
    ⊎ ((t.scheme ≡ tls)
        × (t'.scheme ≡ plain)
        × (is_http_mode t.rpc.mode ≡ true)
        × (t.require_https ≡ false)
        × (bad_reply.ctx_done ≡ false)
        × AllowedBy bad_reply t bad_reply.reply)
downgrade_only_if_example = downgrade_only_if bad_reply (record secure { require_https = false })

abbrev manifest_of : Text → Manifest
manifest_of v = record {
  id = codes "1";
  version = v;
  url = codes "https://h/n";
  sha256 = codes "00";
  size = pos 1;
  secret = [];
}

abbrev two_offers : List Offer
two_offers =
    (some (manifest_of (codes "1.1.0")), codes "k")
    ∷ (some (manifest_of (codes "1.2.0")), codes "l")
    ∷ []

plan_iff_example :
    let p = add_all (codes "1.0.0") two_offers no_plan in
    ((p.conflict ≡ true) ↔ Conflict (codes "1.0.0") two_offers)
    × ((p.skipped_current ≡ true)
        ↔ ((m : Manifest) × Offers m two_offers × IsCurrent (codes "1.0.0") m))
    × ((is_some p.manifest ≡ true) ↔ OffersOther (codes "1.0.0") two_offers)
plan_iff_example = plan_iff (codes "1.0.0") two_offers

abbrev result_of : Bool → Bool → TargetResult
result_of ok fails = record {
  ok = ok;
  retry = false;
  manifest = some (manifest_of (codes "1.0.0"));
  failed = fails;
  secret = codes "k";
}

abbrev an_agent : Agent ℕ
an_agent = record { cache = some none; update_noop_logged = false }

abbrev swapped_offers : List Offer
swapped_offers =
    (some (manifest_of (codes "1.2.0")), codes "l")
    ∷ (some (manifest_of (codes "1.1.0")), codes "k")
    ∷ []
