-- ===== src/Pve/Monitor/Calls.antt =====
-- The answer that a call of a monitor gets.
use ithiltir_node.Base.{
  ℕ, ◌+◌, ◌≤◌, ◌≡◌, refl, inl, inr, sym, ap, ◌∙◌, false, List, [], ◌∷◌, ◌++◌, Text, text_eq,
  text_eq_iff, All, Bool-cases, arith,
}
use ithiltir_node.Pve.Monitor.{MonitorReply, answer_of, await_reply, call_monitor}

IsEvent : Text → MonitorReply → Type 0
IsEvent id reply = text_eq reply.id id ≡ false

events_passed :
    (id : Text) (events rest : List MonitorReply) (reply : MonitorReply)
    → All (IsEvent id) events
    → reply.id ≡ id
    → await_reply false id (events ++ reply ∷ rest) ≡ (answer_of reply.error reply.result, rest)
unfolding await_reply IsEvent
events_passed id [] rest reply h e = rw ((text_eq_iff reply.id id).1 e) refl
events_passed id (event ∷ events) rest reply h e = rw h.0 (events_passed id events rest reply h.1 e)

-- A reply to an earlier request of the connection.
unfoldable pub IsStale : (ℕ → Text) → ℕ → MonitorReply → Type 0
IsStale itoa n reply = (m : ℕ) × (m ≤ n) × (reply.id ≡ itoa m)

module _ (itoa : ℕ → Text) (itoa_inj : (m n : ℕ) → itoa m ≡ itoa n → m ≡ n) where
  stale-IsEvent :
      (n : ℕ) (reply : MonitorReply) → IsStale itoa n reply → IsEvent (itoa (n + 1)) reply
  unfolding IsStale IsEvent
  stale-IsEvent n reply (m, le, e) = elim (Bool-cases (text_eq reply.id (itoa (n + 1)))) [
    | inl t ↦
        let same = itoa_inj m (n + 1) (sym e ∙ (text_eq_iff reply.id (itoa (n + 1))).0 t) in
        absurd (omega arith)
    | inr f ↦ f
  ]

  stale_events :
      (n : ℕ) (replies : List MonitorReply)
      → All (IsStale itoa n) replies
      → All (IsEvent (itoa (n + 1))) replies
  stale_events n [] h = tt
  stale_events n (reply ∷ replies) h = (stale-IsEvent n reply h.0, stale_events n replies h.1)

  -- On the monitor of QEMU, a call that comes after `n` requests passes over all late replies to
  -- those requests, in whatever number they come first, answers with the reply to its own request,
  -- and leaves the lines after it, if different numbers are printed differently.
  pub stale_passed :
      (n : ℕ) (stale rest : List MonitorReply) (reply : MonitorReply)
      → All (IsStale itoa n) stale
      → reply.id ≡ itoa (n + 1)
      → call_monitor itoa false n (stale ++ reply ∷ rest)
        ≡ (n + 1, (answer_of reply.error reply.result, rest))
  unfolding call_monitor
  stale_passed n stale rest reply h e =
      ap (λ a. (n + 1, a))
        (events_passed (itoa (n + 1)) stale rest reply (stale_events n stale h) e)
