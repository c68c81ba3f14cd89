-- ===== src/Push/Static.antt =====
-- The static snapshot of a host and when it is sent: internal/push/static_validation.go,
-- internal/push/static_fingerprint.go, and syncStatic, recordStaticFingerprint and staticChanged of
-- internal/push/push.go. The hash of a snapshot's JSON is the parameter `hash`, `none` where
-- json.Marshal fails.
pub mod Secure
pub mod Sync
mod Examples
use ithiltir_node.Base.{
  ℕ, Bool, true, false, ◌&&◌, not, Option, none, some, List, [], ◌∷◌, ◌++◌, Text, codes, text_eq,
  trim_space, ℤ, is_positive, Time, ◌==◌, if◌then◌else◌, is_empty, Result, ok, err,
}
use ithiltir_node.Push.Rpc.{Env, Answer, over_rpc, over_http, no_client, rpc_client}
use ithiltir_node.Push.Target.{Target, SendError, Dial, fallback_http}

-- The fields of metrics.Static that are read here; `rest` stands for the others.
pub record Static : Type 0 where
  pub version : Text
  pub timestamp : Time
  pub report_interval_seconds : ℤ
  pub hostname : Text
  pub os : Text
  pub platform : Text
  pub platform_version : Text
  pub kernel_version : Text
  pub arch : Text
  pub memory_total : ℕ
  pub cores_logical : ℤ
  pub cores_physical : ℤ
  pub sockets : ℤ
  pub rest : Text

pub is_blank : Text → Bool
is_blank s = is_empty (trim_space s)

-- validateStatic; `true` is no error.
pub is_ready : Option Static → Bool
unfolding is_blank
is_ready none = false
is_ready (some s) =
    not (is_blank s.version) && not (s.timestamp == 0) && is_positive s.report_interval_seconds

abbrev pub name_if : Bool → Text → List Text
name_if b name = if b then name ∷ [] else []

pub missing_complete_fields : Static → List Text
unfolding is_blank
missing_complete_fields s =
    name_if (is_blank s.hostname) (codes "system.hostname")
    ++ name_if (is_blank s.os) (codes "system.os")
    ++ name_if (is_blank s.platform) (codes "system.platform")
    ++ name_if (is_blank s.platform_version) (codes "system.platform_version")
    ++ name_if (is_blank s.kernel_version) (codes "system.kernel_version")
    ++ name_if (is_blank s.arch) (codes "system.arch")
    ++ name_if (s.memory_total == 0) (codes "memory.total")
    ++ name_if (not (is_positive s.cores_logical)) (codes "cpu.info.cores_logical")
    ++ name_if (not (is_positive s.cores_physical)) (codes "cpu.info.cores_physical")
    ++ name_if (not (is_positive s.sockets)) (codes "cpu.info.sockets")

-- How one send of the snapshot fares, by the transport that is chosen; `none` is a success.
pub record Attempt : Type 0 where
  pub env : Env
  pub transport_error : SendError
  pub rpc_error : Option SendError
  pub http_error : Option SendError

pub sent_over : Attempt → Answer → Option SendError
sent_over a (no_client _) = some a.transport_error
sent_over a over_rpc = a.rpc_error
sent_over a over_http = a.http_error

-- target.sendStatic.
pub send_static : Attempt → Target → Target × Option SendError
unfolding sent_over
send_static a t =
    let (rpc, answer) = rpc_client a.env t.rpc in (record t { rpc = rpc }, sent_over a answer)

-- The second send, after a fallback.
pub retry_static : Dial → Attempt → Target → Option SendError → Target × Option SendError
unfolding send_static
retry_static dial second t none = (t, none)
retry_static dial second t (some e) =
    let (t', fell_back) = fallback_http dial e t in
    let again = send_static second t' in if fell_back then again else (t', some e)

module _ (hash : Static → Option Text) where
  -- staticFingerprint: an error, no snapshot, or the fingerprint.
  pub static_fingerprint : Option Static → Result (Unit {0}) (Option Text)
  static_fingerprint none = ok none
  static_fingerprint (some s) = elim (hash (record s { timestamp = 0 })) [
    | none ↦ err tt
    | some fp ↦ ok (some fp)
  ]

  abbrev recorded : Option Text → Result (Unit {0}) (Option Text) → Option Text
  recorded known (err _) = known
  recorded known (ok none) = known
  recorded known (ok (some fp)) = some fp

  -- `known` is the fingerprint that the agent holds, if it is set.
  pub record_static_fingerprint : Option Static → Option Text → Option Text
  unfolding static_fingerprint
  record_static_fingerprint s known = recorded known (static_fingerprint s)

  pub compared : Option Text → Text → Option Text × Bool
  compared none fp = (some fp, false)
  compared (some known) fp = if text_eq known fp then (some known, false) else (some fp, true)

  pub changed_from :
      Option Text → Result (Unit {0}) (Option Text) → Option Text × Result (Unit {0}) Bool
  unfolding compared
  changed_from known (err _) = (known, err tt)
  changed_from known (ok none) = (known, ok false)
  changed_from known (ok (some fp)) =
      let (known', changed) = compared known fp in (known', ok changed)

  -- staticChanged.
  pub static_changed : Option Static → Option Text → Option Text × Result (Unit {0}) Bool
  unfolding changed_from static_fingerprint
  static_changed s known = changed_from known (static_fingerprint s)

  -- The end of syncStatic: the fingerprint, and whether the sync is to be repeated.
  pub synced : Static → Target → Option Text → Option SendError → Target × Option Text × Bool
  unfolding record_static_fingerprint missing_complete_fields
  synced s t known none =
      (t, record_static_fingerprint (some s) known, not (is_empty (missing_complete_fields s)))
  synced s t known (some _) = (t, known, true)

  pub sync_ready :
      Bool → Dial → Attempt → Attempt → Static → Target → Option Text → Target × Option Text × Bool
  unfolding retry_static send_static synced
  sync_ready has_url dial first second s t known =
      let (t', e) = send_static first t in
      let (t'', e') = retry_static dial second t' e in
      if has_url then synced s t'' known e' else (t, known, false)

  -- syncStatic. `has_url` tells whether the target's path ends in /metrics.
  unfoldable pub sync_static :
      Bool
      → Dial
      → Attempt
      → Attempt
      → Option Static
      → Target
      → Option Text
      → Target × Option Text × Bool
  unfolding sync_ready is_ready
  sync_static has_url dial first second none t known = (t, known, true)
  sync_static has_url dial first second (some s) t known =
      if is_ready (some s) then sync_ready has_url dial first second s t known else (t, known, true)
