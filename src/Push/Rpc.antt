-- ===== src/Push/Rpc.antt =====
-- internal/push/rpc.go, rpcClient: the choice between HTTP and gRPC, which is made once. What the
-- gRPC library and the server answer are the fields of `Env`; the connection and the identity are
-- kept as flags. The clock does not move during one call.
pub mod Sticky
use ithiltir_node.Base.{
  ℕ, ◌+◌, Bool, true, false, ◌||◌, Option, none, some, Text, codes, text_eq, trim_space, Time,
  minute, ltb, ◌==◌, if◌then◌else◌, is_empty,
}

pub data Mode : Type 0 where
  auto http grpc : Mode

-- gRPC status codes, as far as the code tells them apart.
pub data Code : Type 0 where
  unauthenticated permission_denied resource_exhausted other_code : Code

pub data RpcError : Type 0 where
  dial_failed context_done : RpcError
  probe_failed : Code → RpcError

-- An instant of 0 is Go's zero time.
pub record Rpc : Type 0 where
  pub mode : Mode
  pub use_http : Bool
  pub client : Bool
  pub identity : Bool
  pub probe_err : Option Code
  pub retry_at : Time

-- The answer to Identify: the protocol version of the server, or a status.
pub data Probe : Type 0 where
  version : ℕ → Probe
  failed : Code → Probe

pub record Env : Type 0 where
  pub now : Time
  pub dial_ok : Bool
  pub ctx_done : Bool
  pub probe : Probe

-- `over_http` is the nil client without an error.
pub data Answer : Type 0 where
  over_rpc over_http : Answer
  no_client : RpcError → Answer

-- transportMode, on the lower-cased value of ITHILTIR_NODE_TRANSPORT; `none` is its error.
unfoldable pub transport_mode : Text → Option Mode
transport_mode env =
    let mode = trim_space env in
    if is_empty mode || text_eq mode (codes "http")
    then some http
    else if text_eq mode (codes "auto")
    then some auto
    else if text_eq mode (codes "grpc")
    then some grpc
    else none

connected : Rpc → Bool → Rpc × Answer
connected s identified = (record s { client = true; identity = identified || s.identity }, over_rpc)

use_http_from_now : Rpc → Rpc × Answer
use_http_from_now s = (record s { use_http = true }, over_http)

-- What a failed probe leads to: credentials that are refused stay so, an exhausted server is asked
-- again after a minute, anything else selects HTTP.
refuse : Env → Rpc → Code → Rpc × Answer
unfolding use_http_from_now
refuse e s unauthenticated =
    (record s { probe_err = some unauthenticated }, no_client (probe_failed unauthenticated))
refuse e s permission_denied =
    (record s { probe_err = some permission_denied }, no_client (probe_failed permission_denied))
refuse e s resource_exhausted = (
  record s { probe_err = some resource_exhausted; retry_at = e.now + minute },
  no_client (probe_failed resource_exhausted),
)
refuse e s other_code = use_http_from_now s

probed : Env → Rpc → Probe → Rpc × Answer
unfolding connected use_http_from_now refuse
probed e s (version v) = if v == 1 then connected s true else use_http_from_now s
probed e s (failed code) = if e.ctx_done then (s, no_client context_done) else refuse e s code

dialed : Env → Rpc → Mode → Rpc × Answer
unfolding probed connected
dialed e s auto = probed e s e.probe
dialed e s http = connected s false
dialed e s grpc = connected s false

unfoldable pub is_http_mode : Mode → Bool
is_http_mode http = true
is_http_mode _ = false

-- rpcClient after the check of an earlier probe error.
pub select : Env → Rpc → Rpc × Answer
unfolding dialed is_http_mode
select e s =
    if s.use_http || is_http_mode s.mode
    then (s, over_http)
    else if s.client
    then (s, over_rpc)
    else if e.dial_ok
    then dialed e s s.mode
    else (s, no_client dial_failed)

after_probe_error : Env → Rpc → Option Code → Rpc × Answer
unfolding select
after_probe_error e s none = select e s
after_probe_error e s (some code) =
    if s.retry_at == 0 || ltb e.now s.retry_at
    then (s, no_client (probe_failed code))
    else select e (record s { probe_err = none; retry_at = 0 })

unfoldable pub rpc_client : Env → Rpc → Rpc × Answer
unfolding after_probe_error
rpc_client e s = after_probe_error e s s.probe_err

-- The transport of a new target.
unfoldable pub new_rpc : Mode → Rpc
new_rpc mode = record {
  mode = mode;
  use_http = false;
  client = false;
  identity = false;
  probe_err = none;
  retry_at = 0;
}
