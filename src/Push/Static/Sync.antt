-- ===== src/Push/Static/Sync.antt =====
-- When the static snapshot counts as delivered, and when a change of it is noticed.
use ithiltir_node.Base.{
  List, [], ◌∷◌, ◌++◌, not, ◌==◌, trim_space, is_positive, Option-cases, ◌≡◌, ◌≢◌, ◌⊎◌, inl, inr,
  refl, Bool, true, false, Option, none, some, Text, codes, text_eq_refl, Time, is_empty, Result,
  ok, err, Bool-cases, arith,
}
use ithiltir_node.Push.Target.{Target, SendError, Dial, fallback_http}
use ithiltir_node.Push.Rpc.{Answer, no_client, over_rpc, over_http, rpc_client}
use ithiltir_node.Push.Static.{
  Static, Attempt, is_blank, name_if, sent_over, is_ready, missing_complete_fields, send_static,
  retry_static, static_fingerprint, record_static_fingerprint, compared, changed_from,
  static_changed, synced, sync_ready, sync_static,
}

-- A snapshot that may be sent.
pub IsSendable : Static → Type 0
IsSendable s =
    (trim_space s.version ≢ []) × (s.timestamp ≢ 0) × (is_positive s.report_interval_seconds ≡ true)

-- A snapshot with all fields that make it complete.
pub record IsComplete (s : Static) : Type 0 where
  pub has_hostname : trim_space s.hostname ≢ []
  pub has_os : trim_space s.os ≢ []
  pub has_platform : trim_space s.platform ≢ []
  pub has_platform_version : trim_space s.platform_version ≢ []
  pub has_kernel_version : trim_space s.kernel_version ≢ []
  pub has_arch : trim_space s.arch ≢ []
  pub has_memory : s.memory_total ≢ 0
  pub has_logical : is_positive s.cores_logical ≡ true
  pub has_physical : is_positive s.cores_physical ≡ true
  pub has_sockets : is_positive s.sockets ≡ true

blank_lem : (t : Text) → is_blank t ≡ false → trim_space t ≢ []
unfolding is_blank
blank_lem t h e = cc (rw e at h)

sendable_lem : (s : Static) → is_ready (some s) ≡ true → IsSendable s
unfolding is_ready IsSendable
sendable_lem s h = (blank_lem s.version (ground arith), λ e. ground arith, ground arith)

last_name :
    (b : Bool) (name : Text) (front : List Text)
    → is_empty (front ++ name_if b name) ≡ true
    → (b ≡ false) × (is_empty front ≡ true)
last_name true name [] h = cc h
last_name false name [] h = (refl, refl)
last_name b name (n ∷ front) h = cc h

last_lem : (b : Bool) (name : Text) → is_empty (name_if b name) ≡ true → b ≡ false
last_lem true name h = cc h
last_lem false name h = refl

complete_lem : (s : Static) → is_empty (missing_complete_fields s) ≡ true → IsComplete s
unfolding missing_complete_fields
complete_lem s h =
    let f0 = name_if (is_blank s.hostname) (codes "system.hostname") in
    let f1 = f0 ++ name_if (is_blank s.os) (codes "system.os") in
    let f2 = f1 ++ name_if (is_blank s.platform) (codes "system.platform") in
    let f3 = f2 ++ name_if (is_blank s.platform_version) (codes "system.platform_version") in
    let f4 = f3 ++ name_if (is_blank s.kernel_version) (codes "system.kernel_version") in
    let f5 = f4 ++ name_if (is_blank s.arch) (codes "system.arch") in
    let f6 = f5 ++ name_if (s.memory_total == 0) (codes "memory.total") in
    let f7 = f6 ++ name_if (not (is_positive s.cores_logical)) (codes "cpu.info.cores_logical") in
    let f8 = f7 ++ name_if (not (is_positive s.cores_physical)) (codes "cpu.info.cores_physical") in
    let (k, h9) = last_name (not (is_positive s.sockets)) (codes "cpu.info.sockets") f8 h in
    let (j, h8) =
      last_name (not (is_positive s.cores_physical)) (codes "cpu.info.cores_physical") f7 h9 in
    let (i, h7) =
      last_name (not (is_positive s.cores_logical)) (codes "cpu.info.cores_logical") f6 h8 in
    let (g, h6) = last_name (s.memory_total == 0) (codes "memory.total") f5 h7 in
    let (f, h5) = last_name (is_blank s.arch) (codes "system.arch") f4 h6 in
    let (e, h4) = last_name (is_blank s.kernel_version) (codes "system.kernel_version") f3 h5 in
    let (d, h3) = last_name (is_blank s.platform_version) (codes "system.platform_version") f2 h4 in
    let (c, h2) = last_name (is_blank s.platform) (codes "system.platform") f1 h3 in
    let (b, h1) = last_name (is_blank s.os) (codes "system.os") f0 h2 in
    let a = last_lem (is_blank s.hostname) (codes "system.hostname") h1 in
    record {
      has_hostname = blank_lem s.hostname a;
      has_os = blank_lem s.os b;
      has_platform = blank_lem s.platform c;
      has_platform_version = blank_lem s.platform_version d;
      has_kernel_version = blank_lem s.kernel_version e;
      has_arch = blank_lem s.arch f;
      has_memory = λ z. ground arith;
      has_logical = ground arith;
      has_physical = ground arith;
      has_sockets = ground arith;
    }

-- The send over the transport that is chosen met no error.
abbrev Answered : Attempt → Answer → Type 0
Answered a (no_client _) = ⊥
Answered a over_rpc = a.rpc_error ≡ none
Answered a over_http = a.http_error ≡ none

-- The target after the choice of a transport.
pub asked : Attempt → Target → Target
asked a t = record t { rpc = (rpc_client a.env t.rpc).0 }

Succeeds : Attempt → Target → Type 0
Succeeds a t = Answered a (rpc_client a.env t.rpc).1

succeeds_lem : (a : Attempt) (t : Target) → (send_static a t).1 ≡ none → Succeeds a t
unfolding send_static Succeeds sent_over
succeeds_lem a t h = answered_lem a (rpc_client a.env t.rpc).1 h
  where
    answered_lem : (a : Attempt) (r : Answer) → sent_over a r ≡ none → Answered a r
    answered_lem a (no_client e) h = cc h
    answered_lem a over_rpc h = h
    answered_lem a over_http h = h

-- The first send succeeds, or the target falls back after it and the second succeeds.
pub IsSent : Dial → Attempt → Attempt → Target → Type 0
IsSent dial first second t =
    Succeeds first t
    ⊎ ((e : SendError) × ((fallback_http dial e (asked first t)).1 ≡ true)
        × Succeeds second (fallback_http dial e (asked first t)).0)

retry-IsSent :
    (dial : Dial) (first second : Attempt) (t : Target) (o : Option SendError)
    → (send_static first t).1 ≡ o
    → (retry_static dial second (asked first t) o).1 ≡ none
    → IsSent dial first second t
unfolding retry_static IsSent
retry-IsSent dial first second t none e h = inl (succeeds_lem first t e)
retry-IsSent dial first second t (some x) e h =
    elim (Bool-cases (fallback_http dial x (asked first t)).1) [
      | inl f ↦ inr (x, f, succeeds_lem second _ (rw f at h))
      | inr f ↦ cc (rw f at h)
    ]

module _ (hash : Static → Option Text) where
  -- The fingerprint that the agent holds is that of the snapshot but for its time, if it has one.
  pub IsRecorded : Static → Option Text → Option Text → Type 0
  IsRecorded s known new =
      ((fp : Text) × (hash (record s { timestamp = 0 }) ≡ some fp) × (new ≡ some fp))
      ⊎ ((hash (record s { timestamp = 0 }) ≡ none) × (new ≡ known))

  recorded_lem :
      (s : Static) (known : Option Text)
      → IsRecorded s known (record_static_fingerprint hash (some s) known)
  unfolding IsRecorded record_static_fingerprint static_fingerprint
  recorded_lem s known = elim (Option-cases (hash (record s { timestamp = 0 }))) [
    | inl e ↦ inr (e, rw (static_fingerprint, e) refl)
    | inr (fp, e) ↦ inl (fp, e, rw (static_fingerprint, e) refl)
  ]

  synced_done :
      (s : Static) (t : Target) (known : Option Text) (e : Option SendError)
      → (synced hash s t known e).2 ≡ false
      → (e ≡ none) × IsComplete s × IsRecorded s known (synced hash s t known e).1
  unfolding synced
  synced_done s t known none h = (refl, complete_lem s (ground arith), recorded_lem s known)
  synced_done s t known (some e) h = ground arith

  -- A sync that asks for no repetition had a snapshot with its required fields; and either the
  -- target's URL takes no static snapshots, or the snapshot is complete, one send of it met no
  -- error, the first or one after a fallback, and the agent holds its fingerprint, or the
  -- one it held where the hash of the snapshot fails.
  pub sync_static_done :
      (has_url : Bool) (dial : Dial) (first second : Attempt) (s : Static) (t : Target)
      (known : Option Text)
      → (sync_static hash has_url dial first second (some s) t known).2 ≡ false
      → IsSendable s
        × ((has_url ≡ false)
            ⊎ (IsComplete s
                × IsSent dial first second t
                × IsRecorded s known
                    (sync_static hash has_url dial first second (some s) t known).1))
  unfolding sync_static sync_ready send_static asked
  sync_static_done false dial first second s t known h = (sendable_lem s (ground arith), inl refl)
  sync_static_done true dial first second s t known h = elim (Bool-cases (is_ready (some s))) [
    | inr e ↦ cc (rw e at h)
    | inl e ↦
        let r = (send_static first t).1 in
        let again = retry_static dial second (asked first t) r in
        let (sent, whole, kept) = synced_done s again.0 known again.1 (rw e at h) in
        (sendable_lem s e, inr (whole, retry-IsSent dial first second t r refl sent, rw e kept))
  ]

  changed_again :
      (known : Option Text) (r : Result (Unit {0}) (Option Text))
      → (changed_from hash (changed_from hash known r).0 r).1 ≢ ok true
  unfolding changed_from compared
  changed_again known (err _) h = cc h
  changed_again known (ok none) h = cc h
  changed_again none (ok (some fp)) h = ground (arith, text_eq_refl fp)
  changed_again (some k) (ok (some fp)) h = ground (arith, text_eq_refl fp)

  -- A change is noticed once: a check that follows another on the same data, taken at any time,
  -- finds no change.
  static_changed_once :
      (s : Static) (later : Time) (known : Option Text)
      → (static_changed hash
          (some (record s { timestamp = later }))
          (static_changed hash (some s) known).0).1
        ≢ ok true
  unfolding static_changed static_fingerprint
  static_changed_once s later known = changed_again known (static_fingerprint hash (some s))
