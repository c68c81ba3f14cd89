-- ===== src/Collect/Sampler/Lifecycle/Once.antt =====
-- The sampler is started once and stopped once.
use ithiltir_node.Base.{ℕ, suc, ◌+◌, ◌≡◌, ◌⊎◌, refl, inl, inr, ap, true, false, arith}
use ithiltir_node.Collect.Sampler.Lifecycle.{
  RunState, created, running, stopped, Run, new_run, begin_start, begin_stop, Step, start, launch,
  stop, call_cancel, end_loop, Reach, at_first, then,
}

loops : Run → ℕ
loops r = r.starting + r.launched + r.ended

-- What holds of a sampler in each of its states.
pub IsOrderly : RunState → Run → Type 0
IsOrderly created r = (loops r ≡ 0) × (r.stopping ≡ 0) × (r.cancelled ≡ false) × (r.ended ≡ 0)
IsOrderly running r =
    (loops r ≡ 1) × (r.stopping ≡ 0) × (r.cancelled ≡ false) × (r.ended ≡ 0) × (r.cancel ≡ true)
IsOrderly stopped r =
    (loops r ≡ 1)
    × (((r.stopping ≡ 1) × (r.cancelled ≡ false) × (r.ended ≡ 0))
        ⊎ ((r.stopping ≡ 0) × (r.cancelled ≡ true)))

Holds : Run → Type 0
Holds r = (r.took_nil ≡ false) × IsOrderly r.state r

start-Holds :
    (s : RunState) (r : Run)
    → r.state ≡ s
    → (r.took_nil ≡ false) × IsOrderly s r
    → Holds (begin_start s r)
unfolding begin_start IsOrderly loops Holds
start-Holds created r e h =
    let k = h.1 in let sum = k.0 in (h.0, (omega arith, k.1, k.2, k.3, refl))
start-Holds running r e h = rw e h
start-Holds stopped r e h = rw e h

stop-Holds :
    (s : RunState) (r : Run)
    → r.state ≡ s
    → (r.took_nil ≡ false) × IsOrderly s r
    → Holds (begin_stop s r)
unfolding begin_stop IsOrderly loops Holds
stop-Holds created r e h = rw e h
stop-Holds running r e h =
    let k = h.1 in (rw (h.0, k.4) refl, (k.0, inl (ap (λ (n : ℕ). suc n) k.1, k.2, k.3)))
stop-Holds stopped r e h = rw e h

launch-IsOrderly :
    (s : RunState) (r : Run) (n : ℕ)
    → r.starting ≡ suc n
    → IsOrderly s r
    → IsOrderly s (record r { starting = n; launched = suc r.launched })
unfolding IsOrderly loops
launch-IsOrderly created r n e h = absurd (omega arith)
launch-IsOrderly running r n e h = (omega arith, h.1, h.2, h.3, h.4)
launch-IsOrderly stopped r n e h = (omega arith, h.1)

cancel-IsOrderly :
    (s : RunState) (r : Run) (n : ℕ)
    → r.stopping ≡ suc n
    → IsOrderly s r
    → IsOrderly s (record r { stopping = n; cancelled = true })
unfolding IsOrderly loops
cancel-IsOrderly created r n e h = absurd (omega arith)
cancel-IsOrderly running r n e h = absurd (omega arith)
cancel-IsOrderly stopped r n e h = elim h.1 [
  | inl k ↦ (h.0, inr (omega arith, refl))
  | inr k ↦ absurd (omega arith)
]

end-IsOrderly :
    (s : RunState) (r : Run) (n : ℕ)
    → r.launched ≡ suc n
    → r.cancelled ≡ true
    → IsOrderly s r
    → IsOrderly s (record r { launched = n; ended = suc r.ended })
unfolding IsOrderly loops
end-IsOrderly created r n e c h = cc (c, h.2)
end-IsOrderly running r n e c h = cc (c, h.2)
end-IsOrderly stopped r n e c h = elim h.1 [ inl k ↦ cc (c, k.1) | inr k ↦ (omega arith, inr k) ]

step-Holds : {r next : Run} → Step r next → Holds r → Holds next
unfolding Holds
step-Holds (start r) h = start-Holds r.state r refl h
step-Holds (launch r n e) h = (h.0, launch-IsOrderly r.state r n e h.1)
step-Holds (stop r) h = stop-Holds r.state r refl h
step-Holds (call_cancel r n e) h = (h.0, cancel-IsOrderly r.state r n e h.1)
step-Holds (end_loop r n e c) h = (h.0, end-IsOrderly r.state r n e c h.1)

reach-Holds : {r : Run} → Reach r → Holds r
unfolding Holds IsOrderly loops new_run
reach-Holds at_first = (refl, (refl, refl, refl, refl))
reach-Holds (then p s) = step-Holds s (reach-Holds p)

-- Whatever the order of the calls of Start and Stop and their steps: the loops are launched once at
-- most, no call of Stop takes a cancel function that is not there, the context is cancelled once at
-- most and only after Stop found the sampler running, and no loop returns before.
pub Reach-IsOrderly : (r : Run) → Reach r → (r.took_nil ≡ false) × IsOrderly r.state r
unfolding Holds
Reach-IsOrderly r p = reach-Holds p
