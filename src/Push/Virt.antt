-- ===== src/Push/Virt.antt =====
-- internal/push/virt.go, pushVirt and sendVirt: the loop that delivers the snapshots of the virtual
-- machine helper to one target; and ErrorText of internal/virt/snapshot.go.
pub mod Delivery
mod Examples
use ithiltir_node.Base.{
  ℕ, ◌*◌, ◌-◌, min, Bool, false, ◌&&◌, not, none, [], ◌∷◌, ◌++◌, Text, codes, text_eq, byte_length,
  pos, Time, second, minute, ltb, leb, ◌==◌, if◌then◌else◌, Result, ok, err,
}
use ithiltir_node.Pve.Snapshot.{Snapshot}
use ithiltir_node.Push.Rpc.{Env, Answer, over_rpc, over_http, no_client, rpc_client}
use ithiltir_node.Push.Target.{Target, SendError, Dial, fallback_http}

-- The code points that fit whole into the first `n` bytes.
pub cut_bytes : ℕ → Text → Text
cut_bytes n [] = []
cut_bytes n (c ∷ s) =
    let size = byte_length (c ∷ []) in
    let rest = cut_bytes (n - size) s in if ltb n size then [] else c ∷ rest

pub error_text : Text → Text
unfolding cut_bytes
error_text message =
    if ltb 1024 (byte_length message) then cut_bytes 1021 message ++ codes "..." else message

-- What one HTTP request gives: an error, or a status.
pub data VirtReply : Type 0 where
  unsent : SendError → VirtReply
  replied : ℕ → VirtReply

pub record VirtAttempt : Type 0 where
  pub env : Env
  pub rpc_ok : Bool
  pub first_reply : VirtReply
  pub second_reply : VirtReply
  pub dial : Dial

is_accepted : VirtReply → Bool
is_accepted (unsent e) = false
is_accepted (replied status) = leb 200 status && ltb status 300

over_virt_http : VirtAttempt → Target → VirtReply → Target × Bool
unfolding is_accepted
over_virt_http a t (replied status) = (t, is_accepted (replied status))
over_virt_http a t (unsent e) =
    let (t', fell_back) = fallback_http a.dial e t in
    (t', if fell_back then is_accepted a.second_reply else false)

over_virt : VirtAttempt → Target → Answer → Target × Bool
unfolding over_virt_http
over_virt a t (no_client e) = (t, false)
over_virt a t over_rpc = (t, a.rpc_ok)
over_virt a t over_http = over_virt_http a t a.first_reply

-- sendVirt: the target, and whether there was no error.
send_virt : VirtAttempt → Target → Target × Bool
unfolding over_virt
send_virt a t =
    let (rpc, answer) = rpc_client a.env t.rpc in over_virt a (record t { rpc = rpc }) answer

-- The variables of pushVirt's loop, with the target that it sends to.
pub record VirtLoop (Float : Type 0) : Type 0 where
  pub target : Target
  pub sent : Time
  pub snapshot : Snapshot Float
  pub read_error : Text
  pub delay : Time

-- What one round meets: the helper's snapshot or the text "PVE helper unavailable: …", the clock, whether the
-- snapshot is encoded, and the fate of a delivery.
pub record Round (Float : Type 0) : Type 0 where
  pub read : Result Text (Snapshot Float)
  pub now : Time
  pub encoded : Bool
  pub attempt : VirtAttempt

module _ {Float : Type 0} where
  zero_snapshot : Snapshot Float
  zero_snapshot = record {
    schema = pos 0;
    provider = [];
    host = [];
    collected_at = 0;
    last_success_at = none;
    ttl_seconds = pos 0;
    status = [];
    error = [];
    vms = none;
  }

  pub new_loop : Target → VirtLoop Float
  unfolding zero_snapshot
  new_loop t = record {
    target = t;
    sent = 0;
    snapshot = zero_snapshot;
    read_error = [];
    delay = 3 * second;
  }

  -- The snapshot of a helper that does not answer.
  pub unavailable : Time → Text → Snapshot Float → Snapshot Float
  unavailable now message s = record s {
    schema = pos 1;
    provider = codes "pve";
    ttl_seconds = pos 90;
    collected_at = now;
    status = codes "error";
    error = message;
  }

  -- The first part of a round: what was read.
  pub observe : Round Float → Result Text (Snapshot Float) → VirtLoop Float → VirtLoop Float
  unfolding unavailable error_text
  observe r (ok current) l = record l { snapshot = current; read_error = [] }
  observe r (err message) l =
      let m = error_text message in
      if text_eq l.read_error m
      then l
      else record l { read_error = m; snapshot = unavailable r.now m l.snapshot }

  -- The second part: a snapshot that was not delivered is sent.
  pub deliver : Round Float → VirtLoop Float → VirtLoop Float
  unfolding send_virt
  deliver r l =
      let (t, arrived) = send_virt r.attempt l.target in
      if l.snapshot.collected_at == l.sent
      then l
      else if not r.encoded
      then record l { delay = min (l.delay * 2) minute }
      else if arrived
      then record l { target = t; sent = l.snapshot.collected_at; delay = 3 * second }
      else record l { target = t; delay = min (l.delay * 2) minute }

  pub push_virt : Round Float → VirtLoop Float → VirtLoop Float
  unfolding observe deliver
  push_virt r l = deliver r (observe r r.read l)

-- The pause after a round that took `elapsed`.
virt_pause : Time → Time → Time
virt_pause delay elapsed = delay - elapsed
