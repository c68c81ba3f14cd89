-- ===== src/Push/Target.antt =====
-- internal/push/push.go, the target: the fallback from https to http, refused connections, and the
-- delivery of one report. Each function returns the new target; log lines are left out, and so are
-- the limiters that only thin them. A request over HTTP ends in an error or in a last reply: the
-- redirects that net/http follows before it are inside the client and do not show.
pub mod Downgrade
pub mod Recovery
use ithiltir_node.Base.{
  ℕ, ◌+◌, ◌-◌, List, Time, second, ltb, Bool, true, false, ◌&&◌, ◌||◌, not, Option, none, some,
  Text, codes, leb, ◌==◌, if◌then◌else◌, [], ◌∷◌, is_some,
}
use ithiltir_node.Push.Rpc.{
  Mode, Rpc, Env, Answer, over_rpc, over_http, no_client, rpc_client, new_rpc, transport_mode,
  is_http_mode,
}

pub data Scheme : Type 0 where
  plain tls : Scheme

-- The reasons in x509.CertificateInvalidError.
pub data Invalid : Type 0 where
  expired other_reason : Invalid

-- What errors.AsType and errors.Is find in an error of the HTTP client. `message` is the text of
-- the error inside a *url.Error, or of the error itself.
pub record SendError : Type 0 where
  pub record_header : Bool
  pub message : Text
  pub unknown_authority : Bool
  pub hostname : Bool
  pub cert_invalid : Option Invalid
  pub conn_refused : Bool

-- `wake` is the channel staticWake, which holds one reason.
pub record Target : Type 0 where
  pub rpc : Rpc
  pub scheme : Scheme
  pub host_is_ip : Bool
  pub require_https : Bool
  pub wake : Option Text
  pub conn_refused_count : ℕ
  pub conn_refused_suppressed : Bool
  pub rpc_failed : Bool

-- strings.HasPrefix and strings.Contains.
pub has_prefix : Text → Text → Bool
has_prefix s [] = true
has_prefix [] (p ∷ ps) = false
has_prefix (c ∷ s) (p ∷ ps) = c == p && has_prefix s ps

pub contains : Text → Text → Bool
contains [] p = has_prefix [] p
contains (c ∷ s) p = has_prefix (c ∷ s) p || contains s p

pub is_plain_http : SendError → Bool
unfolding contains has_prefix
is_plain_http e =
    e.record_header
    || contains e.message (codes "http: server gave HTTP response to HTTPS client")
    || contains e.message (codes "tls: first record does not look like a TLS handshake")

pub is_cert_error : SendError → Bool
is_cert_error e = e.unknown_authority || e.hostname || is_some e.cert_invalid

pub is_expired : Option Invalid → Bool
is_expired (some expired) = true
is_expired _ = false

pub is_expired_cert : SendError → Bool
unfolding is_expired
is_expired_cert e = is_expired e.cert_invalid

is_tls : Scheme → Bool
is_tls tls = true
is_tls plain = false

-- The validity of an x509.Certificate.
pub record Cert : Type 0 where
  pub not_before : Time
  pub not_after : Time

-- What allowExpiredCertFallback meets: the certificates of the server, `none` if the dial fails; the
-- clock; and leaf.Verify for the host, with the certificates after the leaf, at an instant.
pub record Dial : Type 0 where
  pub peer : Option (List Cert)
  pub clock : Time
  pub verify : Cert → List Cert → Time → Bool

-- A second before the end of the validity, or after its start if that is later.
pub verify_time : Cert → Time
verify_time leaf =
    if ltb leaf.not_after (leaf.not_before + second)
    then leaf.not_before + second
    else leaf.not_after - second

pub verified : Dial → Option (List Cert) → Bool
unfolding verify_time
verified dial none = false
verified dial (some []) = false
verified dial (some (leaf ∷ certs)) =
    if ltb dial.clock leaf.not_after then false else dial.verify leaf certs (verify_time leaf)

-- allowExpiredCertFallback.
pub allow_expired_cert : Dial → Bool
unfolding verified
allow_expired_cert dial = verified dial dial.peer

-- The errors that let a target go from https to http.
pub allows_fallback : Dial → Bool → SendError → Bool
unfolding is_plain_http is_cert_error is_expired_cert allow_expired_cert
allows_fallback dial host_is_ip e =
    is_plain_http e
    || (host_is_ip && is_cert_error e)
    || (not host_is_ip && is_expired_cert e && allow_expired_cert dial)

-- fallbackHTTP.
pub fallback_http : Dial → SendError → Target → Target × Bool
unfolding is_tls
fallback_http dial e t =
    if not (is_http_mode t.rpc.mode)
    then (t, false)
    else if not (is_tls t.scheme) || t.require_https
    then (t, false)
    else if not (allows_fallback dial t.host_is_ip e)
    then (t, false)
    else (record t { scheme = plain }, true)

-- wakeStatic: a reason that waits already stays.
pub wake_static : Text → Target → Target
wake_static reason t = record t { wake = elim t.wake [ none ↦ some reason | some r ↦ some r ] }

pub refused : Target → Target
refused t =
    let n = t.conn_refused_count + 1 in
    record t {
      conn_refused_count = n;
      conn_refused_suppressed = t.conn_refused_suppressed || leb 3 n;
    }

-- handleError; the result is whether the context's error is returned.
handle_error : Bool → Dial → SendError → Target → Target × Bool
unfolding fallback_http refused
handle_error ctx_done dial e t =
    if ctx_done
    then (t, true)
    else (let (t', fell_back) = fallback_http dial e t in
        if fell_back then (t', false) else (if e.conn_refused then refused t' else t', false))

-- handleResponse: delivered or not, and whether the static snapshot is to be sent again.
handle_response : Bool → Target → Target × Bool × Bool
handle_response is_200 t =
    if is_200
    then (
      record t { conn_refused_suppressed = false; conn_refused_count = 0 },
      true,
      t.conn_refused_suppressed,
    )
    else (t, false, false)

-- How one report fares: the choice of transport, and the reply of that transport.
pub data HttpReply : Type 0 where
  no_reply : SendError → HttpReply
  status : Bool → HttpReply

pub record Delivery : Type 0 where
  pub env : Env
  pub ctx_done : Bool
  pub rpc_ok : Bool
  pub dial : Dial
  pub reply : HttpReply

-- What sendTarget returns: delivered, failed, or the error of a context that is done.
pub data Sent : Type 0 where
  delivered undelivered canceled : Sent

over_grpc : Delivery → Target → Target × Sent
unfolding wake_static
over_grpc d t =
    if d.rpc_ok
    then (
      if t.rpc_failed then wake_static (codes "recovery") (record t { rpc_failed = false }) else t,
      delivered,
    )
    else (record t { rpc_failed = true }, if d.ctx_done then canceled else undelivered)

pub over_plain : Delivery → HttpReply → Target → Target × Sent
unfolding handle_error handle_response wake_static
over_plain d (no_reply e) t =
    let (t', stop) = handle_error d.ctx_done d.dial e t in
    (t', if stop then canceled else undelivered)
over_plain d (status is_200) t =
    let (t', ok, recovered) = handle_response is_200 t in
    (
      if recovered then wake_static (codes "recovery") t' else t',
      if ok then delivered else undelivered,
    )

pub send_over : Delivery → Answer → Target → Target × Sent
unfolding over_grpc over_plain
send_over d (no_client e) t = (t, if d.ctx_done then canceled else undelivered)
send_over d over_rpc t = over_grpc d t
send_over d over_http t = over_plain d d.reply t

-- sendTarget.
unfoldable pub send_target : Delivery → Target → Target × Sent
unfolding send_over
send_target d t =
    let (rpc, answer) = rpc_client d.env t.rpc in send_over d answer (record t { rpc = rpc })

-- newTarget, on a URL that is parsed: its scheme, whether it names a host, and whether the host is
-- an IP address. `env` is the lower-cased ITHILTIR_NODE_TRANSPORT; `none` is an error.
target_in_mode : Scheme → Bool → Bool → Bool → Option Mode → Option Target
target_in_mode scheme has_host host_is_ip require_https none = none
target_in_mode scheme has_host host_is_ip require_https (some mode) =
    if require_https && not (is_tls scheme)
    then none
    else if not has_host
    then none
    else some (record {
      rpc = new_rpc mode;
      scheme = scheme;
      host_is_ip = host_is_ip;
      require_https = require_https;
      wake = none;
      conn_refused_count = 0;
      conn_refused_suppressed = false;
      rpc_failed = false;
    })

unfoldable pub new_target : Text → Scheme → Bool → Bool → Bool → Option Target
unfolding target_in_mode is_tls
new_target env scheme has_host host_is_ip require_https =
    target_in_mode scheme has_host host_is_ip require_https (transport_mode env)
