-- ===== src/Pve/History/Finish.antt =====
-- The end of a request: the call is completed, and the cache shrinks to its byte limit.
use ithiltir_node.Base.{
  ℕ, zero, suc, ◌+◌, ◌-◌, ◌≤◌, ◌≡◌, inl, inr, refl, sym, ap, subst, ◌∙◌, true, false, Option, some,
  [], ◌∷◌, Text, Time, ltb, length, arith, Bool-cases,
}
use ithiltir_node.Pve.Query.{HistoryQuery, Err, query_eq, query_eq_iff}
use ithiltir_node.Pve.History.{
  Call, Cache, max_active, max_calls, max_bytes, is_done, find_call, delete_call, update_call,
  evict_oldest, shrink, is_canceled, completed, finish,
}
use ithiltir_node.Pve.History.Entries.{
  Calls, total, running, Absent, Distinct, Holds, delete_counts, Distinct-delete,
}
use ithiltir_node.Pve.History.Eviction.{evict_oldest_lem}
use ithiltir_node.Pve.History.Invariant.{Counted, Inv, update_Distinct}

-- An update of an absent key changes nothing.
update_call-Absent :
    (q : HistoryQuery) (f : Call → Call) (calls : Calls)
    → Absent q calls
    → update_call q f calls ≡ calls
unfolding update_call
update_call-Absent q f [] a = refl
update_call-Absent q f ((k, c) ∷ calls) a =
    rw a.0 (ap (◌∷◌ (k, c)) (update_call-Absent q f calls a.1))

-- Completing the running call of a key.
complete_counts :
    (q : HistoryQuery) (f : Call → Call) (c : Call) (calls : Calls)
    → Distinct calls
    → find_call q calls ≡ some c
    → is_done c ≡ false
    → is_done (f c) ≡ true
    → (total (update_call q f calls) ≡ total calls + length (f c).raw)
      × (running (update_call q f calls) + 1 ≡ running calls)
      × (length (update_call q f calls) ≡ length calls)
      × Holds q (f c) (update_call q f calls)
unfolding update_call find_call
complete_counts q f c [] d e r s = cc
complete_counts q f c ((k, b) ∷ calls) d e r s = elim (Bool-cases (query_eq k q)) [
  | inl hit ↦
      let same : b ≡ c = ground arith in
      let rest : Absent q calls = subst (λ k. Absent k calls) ((query_eq_iff k q).0 hit) d.0 in
      rw (hit, update_call-Absent q f calls rest, same)
        (rw (r, s) (omega arith, omega arith, refl, inl ((query_eq_iff k q).0 hit, refl)))
  | inr miss ↦
      let (t, u, l, at') = complete_counts q f c calls d.1 (ground arith) r s in
      rw miss (omega arith, omega arith, omega arith, inr at')
]

shrink_over :
    (fuel : ℕ) (h h' : Cache)
    → ltb max_bytes h.bytes ≡ true
    → evict_oldest h ≡ some h'
    → shrink (suc fuel) h ≡ shrink fuel h'
unfolding shrink
shrink_over fuel h h' over e = ground arith

shrink_fits : (fuel : ℕ) (h : Cache) → ltb max_bytes h.bytes ≡ false → shrink fuel h ≡ some h
unfolding shrink
shrink_fits zero h fits = ground arith
shrink_fits (suc fuel) h fits = ground arith

total_empty : (calls : Calls) → length calls ≤ 0 → total calls ≡ 0
total_empty [] l = refl
total_empty (e ∷ calls) l = absurd (omega arith)

-- Shrinking ends within its fuel, meets no nil pointer, and leaves at most 16 MiB.
shrink_lem :
    (fuel : ℕ) (h : Cache)
    → Counted h
    → length h.calls ≤ fuel
    → (h' : Cache) × (shrink fuel h ≡ some h')
      × Counted h'
      × (h'.bytes ≤ max_bytes)
      × (length h'.calls ≤ length h.calls)
      × (h'.active ≡ h.active)
shrink_lem zero h v l =
    let none_left = total_empty h.calls l in
    (
      h,
      shrink_fits zero h (ground (arith, v.bytes_exact)),
      v,
      ground (arith, v.bytes_exact),
      omega arith,
      refl,
    )
shrink_lem (suc fuel) h v l = elim (Bool-cases (ltb max_bytes h.bytes)) [
  | inr fits ↦ (h, shrink_fits (suc fuel) h fits, v, ground arith, omega arith, refl)
  | inl over ↦ elim (evict_oldest_lem h v.distinct v.bytes_exact) [
    | inl (_, empty, _) ↦ absurd (ground (arith, v.bytes_exact))
    | inr (k, c, h', e, _, is, d, b, r, n) ↦
        let same : h'.active ≡ h.active = ap (λ (m : Cache). m.active) is in
        let v' : Counted h' = record {
          distinct = d;
          bytes_exact = b;
          active_exact = same ∙ v.active_exact ∙ sym r;
        } in
        let (g, run, w, m, n', a) = shrink_lem fuel h' v' (omega arith) in
        (g, shrink_over fuel h h' over e ∙ run, w, m, omega arith, a ∙ same)
  ]
]

-- The cache of a request that has ended, before it shrinks.
finish_Counted :
    (now : Time) (q : HistoryQuery) (raw : Text) (error : Option Err) (h : Cache) (c : Call)
    → Counted h
    → find_call q h.calls ≡ some c
    → is_done c ≡ false
    → let calls = update_call q (completed now raw error) h.calls in
      let h₁ = record h { calls = calls; active = h.active - 1; bytes = h.bytes + length raw } in
      let h₂ = record h₁ {
        calls = delete_call q calls;
        bytes = h.bytes + length raw - length raw;
      } in
      (Counted h₁ × (length h₁.calls ≡ length h.calls) × (h₁.active + 1 ≡ h.active))
      × (Counted h₂ × (length h₂.calls ≤ length h.calls))
unfolding completed
finish_Counted now q raw error h c v e r =
    let f = completed now raw error in
    let done : is_done (f c) ≡ true = ground arith in
    let (t, u, l, at') = complete_counts q f c h.calls v.distinct e r done in
    let d = update_Distinct q f h.calls v.distinct in
    let (t', u', l') = delete_counts q (f c) (update_call q f h.calls) d at' in
    (
      (
        record {
          distinct = d;
          bytes_exact = ground (arith, v.bytes_exact);
          active_exact = ground (arith, v.active_exact);
        },
        l,
        ground (arith, v.active_exact),
      ),
      (
        record {
          distinct = Distinct-delete q (update_call q f h.calls) d;
          bytes_exact = ground (arith, t, t', v.bytes_exact);
          active_exact = ground (arith, u, u', v.active_exact);
        },
        omega arith,
      ),
    )

shrunk :
    (h : Cache) (a : ℕ)
    → Counted h
    → length h.calls ≤ max_calls
    → h.active + 1 ≡ a
    → a ≤ max_active
    → (h' : Cache) × (shrink (length h.calls) h ≡ some h') × Inv h' × (h'.active + 1 ≡ a)
shrunk h a v l e m =
    let (h', run, w, b, n, same) = shrink_lem (length h.calls) h v (omega arith) in
    (
      h',
      run,
      record {
        counted = w;
        active_bounded = omega arith;
        calls_bounded = omega arith;
        bytes_bounded = b;
      },
      omega arith,
    )

-- The end of the running request of a key, whatever its result: no nil pointer is met, the loop
-- that evicts ends, the accounts stay exact, one call fewer runs, and at most 16 MiB are held.
pub finish-Inv :
    (now : Time) (q : HistoryQuery) (raw : Text) (error : Option Err) (h : Cache) (c : Call)
    → Inv h
    → find_call q h.calls ≡ some c
    → is_done c ≡ false
    → (h' : Cache) × (finish now q raw error h ≡ some h') × Inv h' × (h'.active + 1 ≡ h.active)
unfolding finish
finish-Inv now q raw error h c v e r =
    let ((w₁, l₁, a₁), (w₂, l₂)) = finish_Counted now q raw error h c v.counted e r in
    elim (Bool-cases (is_canceled error)) [
      | inl gone ↦
          let l : length (delete_call q (update_call q (completed now raw error) h.calls))
              ≤ max_calls =
            omega (arith, v.calls_bounded) in
          rw gone (shrunk _ h.active w₂ l a₁ v.active_bounded)
      | inr kept ↦
          let l : length (update_call q (completed now raw error) h.calls) ≤ max_calls =
            omega (arith, v.calls_bounded) in
          rw kept (shrunk _ h.active w₁ l a₁ v.active_bounded)
    ]
