-- ===== src/Push/Target/Downgrade.antt =====
-- When a target's reports may leave TLS.
use ithiltir_node.Base.{
  none, some, Text, codes, Time, second, ltb, ◌+◌, ◌-◌, ◌≤◌, ◌<◌, ◌++◌, ◌&&◌, ◌||◌, not, Bool-cases,
  Option-cases, Bool, Option, ◌≡◌, ◌⊎◌, inl, inr, refl, sym, ◌∙◌, ap, true, false, List, [], ◌∷◌,
  arith,
}
use ithiltir_node.Push.Rpc.{rpc_client, over_rpc, over_http, no_client, is_http_mode, Answer}
use ithiltir_node.Push.Rpc.Sticky.{rpc_client-mode}
use ithiltir_node.Push.Rpc.{Mode, transport_mode}
use ithiltir_node.Push.Target.{
  Scheme, new_target, target_in_mode, is_tls, Target, plain, tls, fallback_http, Delivery,
  HttpReply, no_reply, status, has_prefix, contains, SendError, Invalid, expired, other_reason,
  is_plain_http, is_cert_error, is_expired, is_expired_cert, Cert, Dial, verify_time, verified,
  allow_expired_cert, send_target, send_over, allows_fallback, over_plain,
}

-- Nothing lets the target leave TLS: it must use https, or its mode is not plain HTTP.
abbrev Locked : Target → Type 0
Locked t = (t.require_https ≡ true) ⊎ (is_http_mode t.rpc.mode ≡ false)

send_over-Locked :
    (d : Delivery) (a : Answer) (t : Target)
    → Locked t
    → t.scheme ≡ tls
    → ((send_over d a t).0.scheme ≡ tls)
      × ((send_over d a t).0.rpc.mode ≡ t.rpc.mode)
      × ((send_over d a t).0.require_https ≡ t.require_https)
unfolding send_over
send_over-Locked d (no_client e) t l h = (h, refl, refl)
send_over-Locked d over_rpc t l h = ground arith
send_over-Locked d over_http t l h = plain_lem d.reply
  where
    plain_lem :
        (r : HttpReply)
        → ((over_plain d r t).0.scheme ≡ tls)
          × ((over_plain d r t).0.rpc.mode ≡ t.rpc.mode)
          × ((over_plain d r t).0.require_https ≡ t.require_https)
    plain_lem (no_reply e) = ground arith
    plain_lem (status b) = ground arith

pub step-Locked :
    (d : Delivery) (t : Target)
    → Locked t
    → t.scheme ≡ tls
    → Locked (send_target d t).0 × ((send_target d t).0.scheme ≡ tls)
unfolding send_target
step-Locked d t l h =
    let (rpc, answer) = rpc_client d.env t.rpc in
    let (s, m, r) =
      send_over-Locked d answer (record t { rpc = rpc })
        (ground (arith, rpc_client-mode d.env t.rpc)) h in
    (ground (arith, rpc_client-mode d.env t.rpc), s)

-- The target must not leave TLS, and is on it.
abbrev pub Secured : Target → Type 0
Secured t = Locked t × (t.scheme ≡ tls)

pub fallback-Secured :
    (dial : Dial) (e : SendError) (t : Target) → Secured t → Secured (fallback_http dial e t).0
unfolding fallback_http is_tls
fallback-Secured dial e t (l, h) = (ground arith, ground arith)

in_mode_secure :
    (scheme : Scheme) (has_host host_is_ip : Bool) (m : Option Mode) (t : Target)
    → target_in_mode scheme has_host host_is_ip true m ≡ some t
    → Secured t
unfolding target_in_mode is_tls
in_mode_secure scheme has_host host_is_ip none t h = ground arith
in_mode_secure scheme has_host host_is_ip (some m) t h = (inl (ground arith), ground arith)

pub new_target-Secured :
    (env : Text) (scheme : Scheme) (has_host host_is_ip : Bool) (t : Target)
    → new_target env scheme has_host host_is_ip true ≡ some t
    → Secured t
unfolding new_target
new_target-Secured env scheme has_host host_is_ip t h =
    in_mode_secure scheme has_host host_is_ip (transport_mode env) t h

-- The request failed with an error that lets this target fall back.
abbrev Allowed : Delivery → Target → HttpReply → Type 0
Allowed d t (no_reply e) = allows_fallback d.dial t.host_is_ip e ≡ true
Allowed d t (status _) = ⊥

over_plain-scheme :
    (d : Delivery) (r : HttpReply) (t : Target)
    → ((over_plain d r t).0.scheme ≡ t.scheme)
      ⊎ ((t.scheme ≡ tls)
          × ((over_plain d r t).0.scheme ≡ plain)
          × (is_http_mode t.rpc.mode ≡ true)
          × (t.require_https ≡ false)
          × (d.ctx_done ≡ false)
          × Allowed d t r)
unfolding over_plain
over_plain-scheme d (status b) t = inl (ground arith)
over_plain-scheme d (no_reply e) t = ground arith

send_over-scheme :
    (d : Delivery) (a : Answer) (t : Target)
    → ((send_over d a t).0.scheme ≡ t.scheme)
      ⊎ ((t.scheme ≡ tls)
          × ((send_over d a t).0.scheme ≡ plain)
          × (is_http_mode t.rpc.mode ≡ true)
          × (t.require_https ≡ false)
          × (d.ctx_done ≡ false)
          × Allowed d t d.reply)
unfolding send_over
send_over-scheme d (no_client e) t = inl refl
send_over-scheme d over_rpc t = inl (ground arith)
send_over-scheme d over_http t = over_plain-scheme d d.reply t

-- `p` stands somewhere in `s`.
HasPart : Text → Text → Type 0
HasPart s p = (before : Text) × (after : Text) × (s ≡ before ++ (p ++ after))

prefix_lem : (s p : Text) → has_prefix s p ≡ true → (after : Text) × (s ≡ p ++ after)
unfolding has_prefix
prefix_lem s [] h = (s, refl)
prefix_lem [] (d ∷ p) h = cc h
prefix_lem (c ∷ s) (d ∷ p) h =
    let same : c ≡ d = ground arith in
    let (after, e) = prefix_lem s p (ground arith) in (after, rw (same, e) refl)

contains-HasPart : (s p : Text) → contains s p ≡ true → HasPart s p
unfolding contains HasPart
contains-HasPart [] p h = let (after, e) = prefix_lem [] p h in ([], after, e)
contains-HasPart (c ∷ s) p h = elim (Bool-cases (has_prefix (c ∷ s) p)) [
  | inl e ↦ let (after, f) = prefix_lem (c ∷ s) p e in ([], after, f)
  | inr e ↦
      let (before, after, f) = contains-HasPart s p (ground arith) in
      (c ∷ before, after, ap (λ (t : Text). c ∷ t) f)
]

-- The server answered without TLS.
IsPlainAnswer : SendError → Type 0
IsPlainAnswer e =
    (e.record_header ≡ true)
    ⊎ HasPart e.message (codes "http: server gave HTTP response to HTTPS client")
    ⊎ HasPart e.message (codes "tls: first record does not look like a TLS handshake")

-- The certificate was not accepted, for whatever reason.
IsCertError : SendError → Type 0
IsCertError e =
    (e.unknown_authority ≡ true) ⊎ (e.hostname ≡ true) ⊎ ((i : Invalid) × (e.cert_invalid ≡ some i))

-- The certificate is past its end, and its chain verifies at an instant before that end, or for a
-- validity of less than a second a second after its start.
IsExpiredOnly : Dial → Type 0
IsExpiredOnly dial =
    (leaf : Cert) × (certs : List Cert) × (t : Time) × (dial.peer ≡ some (leaf ∷ certs))
    × (leaf.not_after ≤ dial.clock)
    × (dial.verify leaf certs t ≡ true)
    × ((t < leaf.not_after) ⊎ (leaf.not_after < leaf.not_before + second))

-- The errors that may let a target with this host fall back.
pub AllowedBy : Delivery → Target → HttpReply → Type 0
AllowedBy d t (no_reply e) =
    IsPlainAnswer e
    ⊎ ((t.host_is_ip ≡ true) × IsCertError e)
    ⊎ ((t.host_is_ip ≡ false) × (e.cert_invalid ≡ some expired) × IsExpiredOnly d.dial)
AllowedBy d t (status _) = ⊥

plain_lem : (e : SendError) → is_plain_http e ≡ true → IsPlainAnswer e
unfolding is_plain_http IsPlainAnswer
plain_lem e h = elim (Bool-cases e.record_header) [
  | inl a ↦ inl a
  | inr a ↦
      elim (Bool-cases
        (contains e.message (codes "http: server gave HTTP response to HTTPS client"))) [
          | inl b ↦ inr (inl (contains-HasPart e.message _ b))
          | inr b ↦ inr (inr (contains-HasPart e.message _ (ground arith)))
        ]
]

cert_lem : (e : SendError) → is_cert_error e ≡ true → IsCertError e
unfolding is_cert_error IsCertError
cert_lem e h = elim (Bool-cases e.unknown_authority) [
  | inl a ↦ inl a
  | inr a ↦ elim (Bool-cases e.hostname) [
    | inl b ↦ inr (inl b)
    | inr b ↦ elim (Option-cases e.cert_invalid) [
      | inl c ↦ cc (rw (a, b, c) at h)
      | inr c ↦ inr (inr c)
    ]
  ]
]

expired_lem : (o : Option Invalid) → is_expired o ≡ true → o ≡ some expired
unfolding is_expired
expired_lem none h = cc h
expired_lem (some expired) h = refl
expired_lem (some other_reason) h = cc h

verified_lem :
    (dial : Dial) (o : Option (List Cert))
    → dial.peer ≡ o
    → verified dial o ≡ true
    → IsExpiredOnly dial
unfolding verified verify_time IsExpiredOnly
verified_lem dial none e h = cc h
verified_lem dial (some []) e h = cc h
verified_lem dial (some (leaf ∷ certs)) e h = elim (Bool-cases (ltb dial.clock leaf.not_after)) [
  | inl a ↦ cc (rw a at h)
  | inr a ↦ elim (Bool-cases (ltb leaf.not_after (leaf.not_before + second))) [
    | inl b ↦
        (leaf, certs, leaf.not_before + second, e, ground arith, rw (a, b) at h, inr (ground arith))
    | inr b ↦
        (leaf, certs, leaf.not_after - second, e, ground arith, rw (a, b) at h, inl (ground arith))
  ]
]

or_three : (a b c : Bool) → a || b || c ≡ true → (a ≡ true) ⊎ (b ≡ true) ⊎ (c ≡ true)
or_three true b c h = inl refl
or_three false true c h = inr (inl refl)
or_three false false c h = inr (inr h)

and_two : (a b : Bool) → a && b ≡ true → (a ≡ true) × (b ≡ true)
and_two a b h = (ground arith, ground arith)

Allowed-AllowedBy : (d : Delivery) (t : Target) (r : HttpReply) → Allowed d t r → AllowedBy d t r
unfolding AllowedBy allows_fallback allow_expired_cert is_expired_cert
Allowed-AllowedBy d t (status b) h = h
Allowed-AllowedBy d t (no_reply e) h =
    elim (or_three (is_plain_http e) (t.host_is_ip && is_cert_error e) _ h) [
      | inl a ↦ inl (plain_lem e a)
      | inr (inl a) ↦
          let (ip, c) = and_two t.host_is_ip (is_cert_error e) a in inr (inl (ip, cert_lem e c))
      | inr (inr a) ↦
          let (x, v) = and_two (not t.host_is_ip && is_expired e.cert_invalid) _ a in
          let (ip, c) = and_two (not t.host_is_ip) (is_expired e.cert_invalid) x in
          inr (
            inr
              (ground arith, expired_lem e.cert_invalid c, verified_lem d.dial d.dial.peer refl v))
    ]

-- One report changes a target's scheme only from https to http, only in the http mode with https
-- not required, and only when the https request failed, the context was not done, and the error
-- told of an answer without TLS, of a certificate error at an IP address, or of an expired
-- certificate of a domain; and then a dial showed that the certificate is past its end and that its
-- chain verifies at an instant before that (or, if it was valid for less than a second, at a second
-- after its start).
pub downgrade_only_if :
    (d : Delivery) (t : Target)
    → let t' = (send_target d t).0 in
      (t'.scheme ≡ t.scheme)
      ⊎ ((t.scheme ≡ tls)
          × (t'.scheme ≡ plain)
          × (is_http_mode t.rpc.mode ≡ true)
          × (t.require_https ≡ false)
          × (d.ctx_done ≡ false)
          × AllowedBy d t d.reply)
unfolding send_target
downgrade_only_if d t =
    let (rpc, answer) = rpc_client d.env t.rpc in
    let mode : rpc.mode ≡ t.rpc.mode = rpc_client-mode d.env t.rpc in
    elim (send_over-scheme d answer (record t { rpc = rpc })) [
      | inl same ↦ inl same
      | inr (s, s', m, r, c, a) ↦
          inr (s, s', ap is_http_mode (sym mode) ∙ m, r, c, Allowed-AllowedBy d _ d.reply a)
    ]
