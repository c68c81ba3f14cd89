-- ===== src/Push/Target/Recovery.antt =====
-- Refused connections are counted, and the first report that gets through afterwards asks for the
-- static snapshot to be sent again.
use ithiltir_node.Base.{
  ℕ, zero, suc, ◌+◌, ◌≡◌, refl, sym, ◌∙◌, ap, Bool, true, false, none, some, arith, codes, Text,
  leb, if◌then◌else◌, subst,
}
use ithiltir_node.Push.Rpc.{is_http_mode}
use ithiltir_node.Push.Rpc.Sticky.{rpc_client-http}
use ithiltir_node.Push.Target.{
  Target, plain, Delivery, HttpReply, no_reply, status, delivered, undelivered, send_target,
  send_over, over_plain, wake_static, refused,
}

-- `n` reports in turn, each refused by the server's port.
pub refuse_times : ℕ → Delivery → Target → Target
refuse_times zero d t = t
refuse_times (suc n) d t = refuse_times n d (send_target d t).0

-- The context is running, and the request fails with a refused connection that is no reason to
-- leave https.
abbrev RefusedReply : HttpReply → Type 0
RefusedReply (status _) = ⊥
RefusedReply (no_reply e) = e.conn_refused ≡ true

-- A target that sends over plain HTTP, by a URL that is http already.
abbrev PlainHttp : Target → Type 0
PlainHttp t = (is_http_mode t.rpc.mode ≡ true) × (t.rpc.probe_err ≡ none) × (t.scheme ≡ plain)

over_plain-refused :
    (d : Delivery) (r : HttpReply) (t : Target)
    → t.scheme ≡ plain
    → d.ctx_done ≡ false
    → RefusedReply r
    → over_plain d r t ≡ (refused t, undelivered)
unfolding over_plain
over_plain-refused d (status b) t p c h = absurd h
over_plain-refused d (no_reply e) t p c h = ground arith

PlainHttp-refused : (t : Target) → PlainHttp t → PlainHttp (refused t)
unfolding refused
PlainHttp-refused t p = p

refused_step :
    (d : Delivery) (t : Target)
    → PlainHttp t
    → d.ctx_done ≡ false
    → RefusedReply d.reply
    → (send_target d t).0 ≡ refused t
unfolding send_target refused
refused_step d t p c h =
    rw (rpc_client-http d.env t.rpc p.0 p.1, send_target)
      (unfold send_over in rw (over_plain-refused d d.reply t p.2 c h))

-- The target `t'` is `t` after `n` more refusals.
abbrev Counted : ℕ → Target → Target → Type 0
Counted n t t' =
    PlainHttp t'
    × (t'.conn_refused_count ≡ t.conn_refused_count + n)
    × (t'.conn_refused_suppressed ≡ leb 3 (t.conn_refused_count + n))
    × (t'.wake ≡ t.wake)

Counted-refused : (n : ℕ) (t t' : Target) → Counted n (refused t) t' → Counted (suc n) t t'
unfolding refused
Counted-refused n t t' (p, c, s, w) =
    let e : t.conn_refused_count + 1 + n ≡ t.conn_refused_count + suc n = omega arith in
    (p, c ∙ e, s ∙ ap (leb 3) e, w)

refused-suppressed :
    (t : Target)
    → t.conn_refused_suppressed ≡ leb 3 t.conn_refused_count
    → (refused t).conn_refused_suppressed ≡ leb 3 (refused t).conn_refused_count
unfolding refused
refused-suppressed t s = ground arith

counted :
    (n : ℕ) (d : Delivery) (t : Target)
    → PlainHttp t
    → d.ctx_done ≡ false
    → RefusedReply d.reply
    → t.conn_refused_suppressed ≡ leb 3 t.conn_refused_count
    → Counted n t (refuse_times n d t)
unfolding refuse_times
counted zero d t p c h s =
    let e : t.conn_refused_count ≡ t.conn_refused_count + 0 = omega arith in
    (p, e, s ∙ ap (leb 3) e, refl)
counted (suc n) d t p c h s =
    subst (λ u. Counted (suc n) t (refuse_times n d u)) (sym (refused_step d t p c h))
      (Counted-refused n t (refuse_times n d (refused t))
        (counted n d (refused t) (PlainHttp-refused t p) c h (refused-suppressed t s)))

accepted :
    (d : Delivery) (t : Target)
    → PlainHttp t
    → d.reply ≡ status true
    → let (t', sent) = send_target d t in
      (sent ≡ delivered)
      × (t'.conn_refused_count ≡ 0)
      × (t'.conn_refused_suppressed ≡ false)
      × (t'.wake
          ≡ (if t.conn_refused_suppressed then (wake_static (codes "recovery") t).wake else t.wake))
unfolding send_target
accepted d t p h =
    rw (rpc_client-http d.env t.rpc p.0 p.1, send_target)
      (unfold send_over in rw (h, over_plain) (unfold wake_static in ground arith))

wake_lem :
    (reason : Text) (b : Bool) (u : Target)
    → u.wake ≡ none
    → u.conn_refused_suppressed ≡ b
    → (if u.conn_refused_suppressed then (wake_static reason u).wake else u.wake)
      ≡ (if b then some reason else none)
unfolding wake_static
wake_lem reason b u w s = ground arith

-- A fresh target that sends to an http URL: after `n` refused reports a report that is answered
-- with 200 counts as delivered and clears the count, and asks for the static snapshot again if and
-- only if the refusals were three or more.
pub recovery :
    (n : ℕ) (bad good : Delivery) (t : Target)
    → PlainHttp t
    → t.conn_refused_count ≡ 0
    → t.conn_refused_suppressed ≡ false
    → t.wake ≡ none
    → bad.ctx_done ≡ false
    → RefusedReply bad.reply
    → good.reply ≡ status true
    → let (t', sent) = send_target good (refuse_times n bad t) in
      (sent ≡ delivered)
      × (t'.conn_refused_count ≡ 0)
      × (t'.conn_refused_suppressed ≡ false)
      × (t'.wake ≡ (if leb 3 n then some (codes "recovery") else none))
recovery n bad good t p zero_count s w c h g =
    let (p', _, s', w') = counted n bad t p c h (ground arith) in
    let (sent, count, clear, wake) = accepted good (refuse_times n bad t) p' g in
    let u = refuse_times n bad t in
    let k : t.conn_refused_count + n ≡ n = omega arith in
    let suppressed : u.conn_refused_suppressed ≡ leb 3 n = s' ∙ ap (leb 3) k in
    let none_waits : u.wake ≡ none = w' ∙ w in
    (sent, count, clear, wake ∙ wake_lem (codes "recovery") (leb 3 n) u none_waits suppressed)
