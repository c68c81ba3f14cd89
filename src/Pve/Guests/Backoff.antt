-- ===== src/Pve/Guests/Backoff.antt =====
-- How often the agent of one machine is asked.
use ithiltir_node.Base.{
  ℕ, zero, suc, ◌+◌, ◌*◌, ◌≤◌, ◌≡◌, refl, ap, subst, ◌∙◌, min, true, false, List, [], ◌∷◌, Text,
  pos, Time, second, minute, length, err, arith,
}
use ithiltir_node.Pve.Guests.{
  GuestState, GuestTarget, Lookup, next_failures, retry_delay, reserve, answered_state, settle,
  is_asked, query_guest,
}

retry_long : (n : ℕ) → minute ≤ retry_delay n
unfolding retry_delay
retry_long zero = omega arith
retry_long (suc zero) = omega arith
retry_long (suc (suc zero)) = omega arith
retry_long (suc (suc (suc n))) = omega arith

reserve_long : (now : Time) (s : GuestState) → now + minute ≤ (reserve now s).next
unfolding reserve
reserve_long now s = omega (arith, retry_long (next_failures s.failures))

settle_pause :
    (q : Lookup) (host : Text) (target : GuestTarget) (s : GuestState)
    → q.now ≤ q.finished
    → (q.now + 3 * second ≤ (settle q host target s).next)
      × (q.done_after ≡ false → q.now + minute ≤ (settle q host target s).next)
unfolding settle answered_state
settle_pause q host target s h = ground (arith, reserve_long q.now s)

settled :
    (q : Lookup) (host : Text) (target : GuestTarget) (s : GuestState)
    → is_asked q s ≡ true
    → query_guest q host target s ≡ settle q host target s
unfolding query_guest
settled q host target s a = rw a refl

asked_due : (q : Lookup) (s : GuestState) → is_asked q s ≡ true → s.next ≤ q.now
unfolding is_asked
asked_due q s a = ground arith

-- Between two questions to one agent there are at least three seconds, and a minute if the context
-- of the first was not done.
asked_apart :
    (q q' : Lookup) (host : Text) (target : GuestTarget) (s : GuestState)
    → q.now ≤ q.finished
    → is_asked q s ≡ true
    → is_asked q' (query_guest q host target s) ≡ true
    → (q.now + 3 * second ≤ q'.now) × (q.done_after ≡ false → q.now + minute ≤ q'.now)
asked_apart q q' host target s h a a' =
    let due : (settle q host target s).next ≤ q'.now =
      asked_due q' (settle q host target s)
        (subst (λ t. is_asked q' t ≡ true) (settled q host target s a) a') in
    let (short, long) = settle_pause q host target s h in (omega arith, λ d. omega (arith, long d))

-- The file after several questions.
queries : List Lookup → Text → GuestTarget → GuestState → GuestState
queries [] host target s = s
queries (q ∷ qs) host target s = queries qs host target (query_guest q host target s)

-- Each of the questions is asked and gets no answer.
abbrev Unanswered : Lookup → GuestState → Type 0
Unanswered q s = (is_asked q s ≡ true) × (q.done_after ≡ false) × ((e : Text) × (q.answer ≡ err e))

abbrev AllUnanswered : List Lookup → Text → GuestTarget → GuestState → Type 0
AllUnanswered [] host target s = Unit
AllUnanswered (q ∷ qs) host target s =
    Unanswered q s × AllUnanswered qs host target (query_guest q host target s)

Unanswered-reserves :
    (q : Lookup) (host : Text) (target : GuestTarget) (s : GuestState)
    → Unanswered q s
    → query_guest q host target s ≡ reserve q.now s
unfolding settle
Unanswered-reserves q host target s (a, d, (e, f)) = settled q host target s a ∙ rw (d, f) refl

reserve_counts :
    (now : Time) (s : GuestState) (f : ℕ)
    → s.failures ≡ pos f
    → (reserve now s).failures ≡ pos (min (f + 1) 3)
unfolding reserve next_failures
reserve_counts now s f e = rw e refl

reserve_delay :
    (now : Time) (s : GuestState) (f : ℕ)
    → s.failures ≡ pos f
    → (reserve now s).next ≡ now + retry_delay (min (f + 1) 3)
unfolding reserve next_failures
reserve_delay now s f e = rw e refl

failures_count :
    (qs : List Lookup) (host : Text) (target : GuestTarget) (s : GuestState) (f : ℕ)
    → s.failures ≡ pos f
    → f ≤ 3
    → AllUnanswered qs host target s
    → (queries qs host target s).failures ≡ pos (min (f + length qs) 3)
unfolding queries
failures_count [] host target s f e h u = e ∙ ap pos (omega arith)
failures_count (q ∷ qs) host target s f e h (u, us) =
    let count : (query_guest q host target s).failures ≡ pos (min (f + 1) 3) =
      ap (λ t. t.failures) (Unanswered-reserves q host target s u) ∙ reserve_counts q.now s f e in
    failures_count qs host target (query_guest q host target s) (min (f + 1) 3) count (omega arith)
      us
    ∙ ap pos (ground arith)

-- After `n` questions without an answer on a file with `f` failures, the next one without an
-- answer puts the next question off by the delay of `f + n + 1` failures: one, two, and from the
-- third on five minutes.
backoff_grows :
    (qs : List Lookup) (q : Lookup) (host : Text) (target : GuestTarget) (s : GuestState) (f : ℕ)
    → s.failures ≡ pos f
    → f ≤ 3
    → AllUnanswered qs host target s
    → Unanswered q (queries qs host target s)
    → (query_guest q host target (queries qs host target s)).next
      ≡ q.now + retry_delay (min (f + length qs + 1) 3)
backoff_grows qs q host target s f e h us u =
    let s' = queries qs host target s in
    let n : ◌≡◌ {A = ℕ} (min (min (f + length qs) 3 + 1) 3) (min (f + length qs + 1) 3) =
      omega arith in
    ap (λ t. t.next) (Unanswered-reserves q host target s' u)
    ∙ reserve_delay q.now s' (min (f + length qs) 3) (failures_count qs host target s f e h us)
    ∙ ap (λ (k : ℕ). q.now + retry_delay k) n
