-- ===== src/Push/Session/Runs.antt =====
-- Every run of a session: messages, results, ticks and the writer in any order.
use ithiltir_node.Base.{
  ◌*◌, ◌+◌, ◌≤◌, ◌≡◌, ◌≢◌, inl, inr, refl, sym, ◌∙◌, ap, subst, Bool, true, false, ◌||◌, not,
  Option, none, some, List, [], ◌∷◌, ◌++◌, exists_in, length, is_empty, Text, text_eq, codes,
  byte_length, Time, second, ltb, leb, ◌==◌, Bool-cases, Option-cases, arith,
}
use ithiltir_node.Pve.Query.{is_valid_query}
use ithiltir_node.Push.Session.{
  Body, cancel, history, nothing, DashMessage, NodeMessage, heartbeat, result, Capabilities,
  Session, Outcome, goes_on, ends, panicked, QueryMessage, find_job, delete_job, leave_worker, send,
  received, on_completed, start_job, to_query, on_query, on_body, on_message, on_heartbeat,
  on_check, on_written, new_session, same_capabilities,
}
use ithiltir_node.Push.Session.Pending.{
  ids, count, has_job, Distinct, delete_once, Distinct-delete, find_has, stop_ids, Distinct-stop,
  has_job-ids,
}

-- The ids of the queries in a message, and of the results among what is sent.
abbrev asked : Text → Body → List Text
asked id (history m) = id ∷ []
asked id (cancel b) = []
asked id nothing = []

abbrev pub answered : List NodeMessage → List Text
answered [] = []
answered (heartbeat ∷ out) = answered out
answered (result id json error ∷ out) = id ∷ answered out

-- A worker hands over its result.
abbrev is_working : Text → Session → Bool
is_working id s = exists_in (λ k. text_eq k id) s.workers

-- `Reach caps t s qs rs`: the session can come to the state `s` after the queries `qs` and the
-- results `rs`.
pub data Reach (caps : Capabilities) (t : Time) : Session → List Text → List Text → Type 0 where
  start : Reach caps t (new_session t caps) [] []
  hears :
      {s s' : Session} {qs rs : List Text} {out : List NodeMessage} (done : Bool) (now : Time)
      (m : DashMessage)
      → Reach caps t s qs rs
      → on_message done now m s ≡ goes_on s' out
      → Reach caps t s' (asked m.id m.body ++ qs) (answered out ++ rs)
  finishes :
      {s s' : Session} {qs rs : List Text} {out : List NodeMessage} (done : Bool)
      (id json error : Text)
      → Reach caps t s qs rs
      → is_working id s ≡ true
      → on_completed done id json error s ≡ goes_on s' out
      → Reach caps t s' qs (answered out ++ rs)
  beats :
      {s s' : Session} {qs rs : List Text} {out : List NodeMessage} (done : Bool) (now : Time)
      → Reach caps t s qs rs
      → on_heartbeat done now s ≡ goes_on s' out
      → Reach caps t s' qs (answered out ++ rs)
  checks :
      {s s' : Session} {qs rs : List Text} {out : List NodeMessage} (current : Option Capabilities)
      → Reach caps t s qs rs
      → on_check current s ≡ goes_on s' out
      → Reach caps t s' qs (answered out ++ rs)
  writes :
      {s : Session} {qs rs : List Text} → Reach caps t s qs rs → Reach caps t (on_written s) qs rs

-- Every query was answered once, or is pending once.
abbrev pub Accounted : Session → List Text → List Text → Type 0
Accounted s qs rs = (x : Text) → count x qs ≡ count x rs + count x (ids s.pending)

record Good (s : Session) : Type 0 where
  pub distinct : Distinct s.pending
  pub working : s.workers ≡ ids s.pending
  pub pending_bounded : length s.pending ≤ 32
  pub queue_bounded : s.queued ≤ 64

-- What a step keeps, from the state before it, with the queries that it adds.
abbrev Keeps : Session → List Text → Outcome → Type 0
Keeps s new (goes_on s' out) =
    Good s'
    × ((x : Text)
        → count x new + count x (ids s.pending) ≡ count x (answered out) + count x (ids s'.pending))
Keeps s new (ends e) = Unit
Keeps s new panicked = ⊥

send-Keeps :
    (done : Bool) (m : NodeMessage) (s s₀ : Session) (new : List Text)
    → Good s
    → ((x : Text)
        → count x new + count x (ids s₀.pending)
          ≡ count x (answered (m ∷ [])) + count x (ids s.pending))
    → Keeps s₀ new (send done m s)
unfolding send
send-Keeps done m s s₀ new g h = elim (Bool-cases done) [
  | inl e ↦ rw e tt
  | inr e ↦ elim (Bool-cases (leb 64 s.queued)) [
    | inl f ↦ rw (e, f) tt
    | inr f ↦
        rw (e, f)
          (
            record {
              distinct = g.distinct;
              working = g.working;
              pending_bounded = g.pending_bounded;
              queue_bounded = ground arith;
            },
            h,
          )
  ]
]

worker_pending :
    (id : Text) (s : Session) → Good s → is_working id s ≡ true → has_job id s.pending ≡ true
worker_pending id s g w =
    has_job-ids id s.pending ∙ subst (λ ks. exists_in (λ k. text_eq k id) ks ≡ true) g.working w

completed-Keeps :
    (done : Bool) (id json error : Text) (s : Session)
    → Good s
    → is_working id s ≡ true
    → Keeps s [] (on_completed done id json error s)
unfolding on_completed received
completed-Keeps done id json error s g w = elim (Option-cases (find_job id s.pending)) [
  | inl e ↦ cc (find_has id s.pending e, worker_pending id s g w)
  | inr (j, e) ↦
      let (same, shorter, counts) = delete_once id s.pending g.distinct (worker_pending id s g w) in
      let s' : Session = record s {
        pending = delete_job id s.pending;
        workers = leave_worker id s.workers;
      } in
      rw e (
        send-Keeps done (result id json error) s' s []
          (record {
            distinct = Distinct-delete id s.pending g.distinct;
            working = ap (leave_worker id) g.working ∙ sym same;
            pending_bounded = ground (arith, shorter, g.pending_bounded);
            queue_bounded = g.queue_bounded;
          })
          (λ x. omega (arith, counts x)))
]

query-Keeps :
    (done : Bool) (now : Time) (id : Text) (m : QueryMessage) (s : Session)
    → Good s
    → Keeps s (id ∷ []) (on_query done now id m s)
unfolding on_query start_job
query-Keeps done now id m s g = elim (Bool-cases (is_empty id || ltb 64 (byte_length id))) [
  | inl e ↦ rw e tt
  | inr e ↦ elim (Bool-cases (not (is_valid_query (to_query m)) || m.timeout_ms == 0)) [
    | inl f ↦ rw (e, f) tt
    | inr f ↦ elim (Bool-cases (has_job id s.pending)) [
      | inl k ↦ rw (e, f, k) tt
      | inr k ↦ elim (Bool-cases (leb 32 (length s.pending))) [
        | inl full ↦
            rw (e, f, k, full)
              (send-Keeps done (result id [] (codes "busy")) s s (id ∷ []) g (λ x. refl))
        | inr few ↦
            rw (e, f, k, few)
              (
                record {
                  distinct = (k, g.distinct);
                  working = ap (λ ks. id ∷ ks) g.working;
                  pending_bounded = ground arith;
                  queue_bounded = g.queue_bounded;
                },
                λ x. omega arith,
              )
      ]
    ]
  ]
]

body-Keeps :
    (done : Bool) (now : Time) (id : Text) (b : Body) (s : Session)
    → Good s
    → Keeps s (asked id b) (on_body done now id b s)
unfolding on_body
body-Keeps done now id (cancel true) s g =
    let (same, len) = stop_ids id s.pending in
    (
      record {
        distinct = Distinct-stop id s.pending g.distinct;
        working = g.working ∙ sym same;
        pending_bounded = ground (arith, len, g.pending_bounded);
        queue_bounded = g.queue_bounded;
      },
      λ x. ap (λ ks. 0 + count x ks) (sym same),
    )
body-Keeps done now id (cancel false) s g = (g, λ x. refl)
body-Keeps done now id (history m) s g = query-Keeps done now id m s g
body-Keeps done now id nothing s g = (g, λ x. refl)

seen_Good : (now : Time) (s : Session) → Good s → Good (record s { last_seen = now })
seen_Good now s g = record {
  distinct = g.distinct;
  working = g.working;
  pending_bounded = g.pending_bounded;
  queue_bounded = g.queue_bounded;
}

message-Keeps :
    (done : Bool) (now : Time) (m : DashMessage) (s : Session)
    → Good s
    → Keeps s (asked m.id m.body) (on_message done now m s)
unfolding on_message
message-Keeps done now m s g =
    body-Keeps done now m.id m.body (record s { last_seen = now }) (seen_Good now s g)

beat-Keeps :
    (done : Bool) (now : Time) (s : Session) → Good s → Keeps s [] (on_heartbeat done now s)
unfolding on_heartbeat
beat-Keeps done now s g = elim (Bool-cases (ltb (s.last_seen + 60 * second) now)) [
  | inl e ↦ rw e tt
  | inr e ↦ rw e (send-Keeps done heartbeat s s [] g (λ x. refl))
]

check-Keeps :
    (current : Option Capabilities) (s : Session) → Good s → Keeps s [] (on_check current s)
unfolding on_check
check-Keeps none s g = (g, λ x. refl)
check-Keeps (some c) s g = elim (Bool-cases (same_capabilities c s.caps)) [
  | inl e ↦ rw e (g, λ x. refl)
  | inr e ↦ rw e tt
]

count-append : (x : Text) (ks ls : List Text) → count x (ks ++ ls) ≡ count x ks + count x ls
count-append x [] ls = omega arith
count-append x (k ∷ ks) ls = omega (arith, count-append x ks ls)

-- A step keeps the accounts.
step_accounts :
    (s : Session) (new qs rs : List Text) (o : Outcome) (s' : Session) (out : List NodeMessage)
    → Keeps s new o
    → o ≡ goes_on s' out
    → Accounted s qs rs
    → Good s' × Accounted s' (new ++ qs) (answered out ++ rs)
step_accounts s new qs rs o s' out k e a =
    let (g, n) = subst (Keeps s new) e k in
    (g, λ x. omega (arith, a x, n x, count-append x new qs, count-append x (answered out) rs))

module _ {caps : Capabilities} {t : Time} where
  Reach-Good : {s : Session} {qs rs : List Text} → Reach caps t s qs rs → Good s × Accounted s qs rs
  unfolding new_session on_written
  Reach-Good start = (
    record {
      distinct = tt;
      working = refl;
      pending_bounded = omega arith;
      queue_bounded = omega arith;
    },
    λ x. omega arith,
  )
  Reach-Good (hears {s} {s'} {qs} {rs} {out} done now m r e) =
      let (g, a) = Reach-Good r in
      step_accounts s _ qs rs _ s' out (message-Keeps done now m s g) e a
  Reach-Good (finishes {s} {s'} {qs} {rs} {out} done id json error r w e) =
      let (g, a) = Reach-Good r in
      step_accounts s [] qs rs _ s' out (completed-Keeps done id json error s g w) e a
  Reach-Good (beats {s} {s'} {qs} {rs} {out} done now r e) =
      let (g, a) = Reach-Good r in step_accounts s [] qs rs _ s' out (beat-Keeps done now s g) e a
  Reach-Good (checks {s} {s'} {qs} {rs} {out} current r e) =
      let (g, a) = Reach-Good r in step_accounts s [] qs rs _ s' out (check-Keeps current s g) e a
  Reach-Good (writes {s} r) =
      let (g, a) = Reach-Good r in
      (
        record {
          distinct = g.distinct;
          working = g.working;
          pending_bounded = g.pending_bounded;
          queue_bounded = ground (arith, g.queue_bounded);
        },
        a,
      )

  -- In every run of a session, of each id there are as many queries as results and pending queries
  -- together: no query is answered twice or forgotten. At most 32 are pending and at most 64
  -- messages are queued.
  pub answered_once :
      {s : Session} {qs rs : List Text}
      → Reach caps t s qs rs
      → Accounted s qs rs × (length s.pending ≤ 32) × (s.queued ≤ 64)
  answered_once r = let (g, a) = Reach-Good r in (a, g.pending_bounded, g.queue_bounded)

  -- In every run, a result that a worker hands over finds the stop function of its query.
  result_has_query :
      {s : Session} {qs rs : List Text} (done : Bool) (id json error : Text)
      → Reach caps t s qs rs
      → is_working id s ≡ true
      → on_completed done id json error s ≢ panicked
  result_has_query {s} done id json error r w h =
      let (g, _) = Reach-Good r in subst (Keeps s []) h (completed-Keeps done id json error s g w)
