-- ===== src/Push/Static/Secure.antt =====
-- What keeps a target's URL on https, through reports and static syncs.
use ithiltir_node.Base.{
  ◌≡◌, inl, inr, refl, Bool, true, false, Option, none, some, Text, List, [], ◌∷◌, arith,
  Bool-cases,
}
use ithiltir_node.Push.Rpc.Sticky.{rpc_client-mode}
use ithiltir_node.Push.Target.{
  Scheme, Target, tls, Delivery, Dial, SendError, new_target, send_target, fallback_http,
}
use ithiltir_node.Push.Target.Downgrade.{Secured, step-Locked, fallback-Secured, new_target-Secured}
use ithiltir_node.Push.Static.{
  Static, Attempt, is_ready, send_static, retry_static, synced, sync_ready, sync_static,
}

-- What a target goes through: a report, with how it fares, or a sync of the static snapshot, with
-- how its two sends fare.
pub data Event : Type 0 where
  reports : Delivery → Event
  syncs : Bool → Dial → Attempt → Attempt → Option Static → Option Text → Event

send_static-Secured : (a : Attempt) (t : Target) → Secured t → Secured (send_static a t).0
unfolding send_static
send_static-Secured a t (l, h) = (ground (arith, rpc_client-mode a.env t.rpc), h)

retry-Secured :
    (dial : Dial) (a : Attempt) (t : Target) (e : Option SendError)
    → Secured t
    → Secured (retry_static dial a t e).0
unfolding retry_static
retry-Secured dial a t none v = v
retry-Secured dial a t (some e) v = elim (Bool-cases (fallback_http dial e t).1) [
  | inl f ↦ rw f (send_static-Secured a (fallback_http dial e t).0 (fallback-Secured dial e t v))
  | inr f ↦ rw f (fallback-Secured dial e t v)
]

module _ (hash : Static → Option Text) where
  synced-target :
      (s : Static) (t : Target) (known : Option Text) (e : Option SendError)
      → (synced hash s t known e).0 ≡ t
  unfolding synced
  synced-target s t known none = refl
  synced-target s t known (some e) = refl

  sync_ready-Secured :
      (u : Bool) (dial : Dial) (first second : Attempt) (s : Static) (t : Target)
      (known : Option Text)
      → Secured t
      → Secured (sync_ready hash u dial first second s t known).0
  unfolding sync_ready
  sync_ready-Secured false dial first second s t known v = v
  sync_ready-Secured true dial first second s t known v =
      let (t', e) = send_static first t in
      let (t'', e') = retry_static dial second t' e in
      rw (synced-target s t'' known e')
        (retry-Secured dial second t' e (send_static-Secured first t v))

  sync_static-Secured :
      (u : Bool) (dial : Dial) (first second : Attempt) (s : Option Static) (t : Target)
      (known : Option Text)
      → Secured t
      → Secured (sync_static hash u dial first second s t known).0
  unfolding sync_static is_ready
  sync_static-Secured u dial first second none t known v = v
  sync_static-Secured u dial first second (some s) t known v =
      elim (Bool-cases (is_ready (some s))) [
        | inl e ↦ rw e (sync_ready-Secured u dial first second s t known v)
        | inr e ↦ rw e v
      ]

  -- The target after one event, and after a sequence of them.
  meet : Event → Target → Target
  meet (reports d) t = (send_target d t).0
  meet (syncs u dial first second s known) t = (sync_static hash u dial first second s t known).0

  pub meet_all : List Event → Target → Target
  unfolding meet
  meet_all [] t = t
  meet_all (e ∷ es) t = meet_all es (meet e t)

  meet-Secured : (e : Event) (t : Target) → Secured t → Secured (meet e t)
  unfolding meet
  meet-Secured (reports d) t (l, h) = step-Locked d t l h
  meet-Secured (syncs u dial first second s known) t v =
      sync_static-Secured u dial first second s t known v

  meet_all-Secured : (es : List Event) (t : Target) → Secured t → Secured (meet_all es t)
  unfolding meet_all
  meet_all-Secured [] t v = v
  meet_all-Secured (e ∷ es) t v = meet_all-Secured es (meet e t) (meet-Secured e t v)

  -- The URL of a target that is made while https is required keeps the scheme https through every
  -- sequence of reports and static syncs, in every transport and whatever errors, replies and
  -- certificates these meet: the agent itself never falls back to http. What a request is
  -- redirected to inside the HTTP client is no part of this.
  pub required_https :
      (env : Text) (scheme : Scheme) (has_host host_is_ip : Bool) (es : List Event) (t : Target)
      → new_target env scheme has_host host_is_ip true ≡ some t
      → (meet_all es t).scheme ≡ tls
  required_https env scheme has_host host_is_ip es t h =
      (meet_all-Secured es t (new_target-Secured env scheme has_host host_is_ip t h)).1
