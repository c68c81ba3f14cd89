-- ===== src/Pve/History/Eviction.antt =====
-- evictOldest finds a completed call whenever there is one, and drops the one that expires first.
use ithiltir_node.Base.{
  ◌+◌, ◌-◌, ◌≤◌, ◌≡◌, ◌⊎◌, inl, inr, refl, true, false, none, some, List, [], ◌∷◌, length, All,
  arith, Bool-cases, Option-cases,
}
use ithiltir_node.Pve.Query.{HistoryQuery}
use ithiltir_node.Pve.History.{
  Call, Cache, is_done, delete_call, is_older, oldest_from, drop_oldest, evict_oldest,
}
use ithiltir_node.Pve.History.Entries.{
  Calls, total, running, Distinct, Holds, delete_counts, Distinct-delete,
}

-- A search that starts with a call ends with one.
oldest_some :
    (b : HistoryQuery × Call) (calls : Calls)
    → (r : HistoryQuery × Call) × (oldest_from (some b) calls ≡ some r)
unfolding oldest_from
oldest_some b [] = (b, refl)
oldest_some b ((k, c) ∷ calls) = elim (Bool-cases (is_older c (some b))) [
  | inl e ↦ rw e (oldest_some (k, c) calls)
  | inr e ↦ rw e (oldest_some b calls)
]

-- None is found only where none is completed: nothing is accounted for, and every call runs.
oldest_none :
    (calls : Calls)
    → oldest_from none calls ≡ none
    → (total calls ≡ 0) × (running calls ≡ length calls)
unfolding oldest_from is_older
oldest_none [] h = (refl, refl)
oldest_none ((k, c) ∷ calls) h = elim (Bool-cases (is_done c)) [
  | inl e ↦ let (r, found) = oldest_some (k, c) calls in absurd (ground arith)
  | inr e ↦ let (t, r) = oldest_none calls (ground arith) in rw e (omega arith, omega arith)
]

-- Every completed call expires at `c` or later.
abbrev Oldest : Call → List (HistoryQuery × Call) → Type 0
Oldest c = All (λ e. (is_done e.1 ≡ false) ⊎ (c.expires ≤ e.1.expires))

Oldest-mono : (b c : Call) (calls : Calls) → b.expires ≤ c.expires → Oldest c calls → Oldest b calls
Oldest-mono b c [] h o = tt
Oldest-mono b c ((k, d) ∷ calls) h o = (ground arith, Oldest-mono b c calls h o.1)

-- The search is among the calls and its start, and its result is done and oldest.
oldest_from_lem :
    (k : HistoryQuery) (b : Call) (calls : Calls) (r : HistoryQuery) (c : Call)
    → is_done b ≡ true
    → oldest_from (some (k, b)) calls ≡ some (r, c)
    → (((k ≡ r) × (b ≡ c)) ⊎ Holds r c calls)
      × (is_done c ≡ true)
      × Oldest c calls
      × (c.expires ≤ b.expires)
unfolding oldest_from is_older
oldest_from_lem k b [] r c d h = (inl (ground arith, ground arith), ground arith, tt, ground arith)
oldest_from_lem k b ((k', d') ∷ calls) r c d h = elim (Bool-cases (is_older d' (some (k, b)))) [
  | inl e ↦
      let (at', done, old, le) = oldest_from_lem k' d' calls r c (ground arith) (ground arith) in
      (inr at', done, (inr le, old), ground arith)
  | inr e ↦
      let (at', done, old, le) = oldest_from_lem k b calls r c d (ground arith) in
      (elim at' [ inl p ↦ inl p | inr q ↦ inr (inr q) ], done, (ground arith, old), le)
]

oldest_lem :
    (calls : Calls) (r : HistoryQuery) (c : Call)
    → oldest_from none calls ≡ some (r, c)
    → Holds r c calls × (is_done c ≡ true) × Oldest c calls
unfolding oldest_from is_older
oldest_lem [] r c h = cc
oldest_lem ((k, d) ∷ calls) r c h = elim (Bool-cases (is_done d)) [
  | inl e ↦
      let (at', done, old, le) = oldest_from_lem k d calls r c e (ground arith) in
      (at', done, (inr le, old))
  | inr e ↦
      let (at', done, old) = oldest_lem calls r c (ground arith) in (inr at', done, (inl e, old))
]

-- Over distinct keys whose completed calls account for `bytes`, eviction either meets a cache in
-- which nothing is completed, or drops one completed call, the one that expires first, and the
-- bytes it accounted for.
pub evict_oldest_lem :
    (h : Cache)
    → Distinct h.calls
    → h.bytes ≡ total h.calls
    → ((evict_oldest h ≡ none) × (total h.calls ≡ 0) × (running h.calls ≡ length h.calls))
      ⊎ ((q : HistoryQuery) × (c : Call) × (h' : Cache) × (evict_oldest h ≡ some h')
          × (Holds q c h.calls × (is_done c ≡ true) × Oldest c h.calls)
          × (h' ≡ record h { bytes = h.bytes - length c.raw; calls = delete_call q h.calls })
          × Distinct h'.calls
          × (h'.bytes ≡ total h'.calls)
          × (running h'.calls ≡ running h.calls)
          × (length h'.calls + 1 ≡ length h.calls))
unfolding evict_oldest
evict_oldest_lem h d b = elim (Option-cases (oldest_from none h.calls)) [
  | inl e ↦ let (t, r) = oldest_none h.calls e in inl (rw (e, drop_oldest), t, r)
  | inr ((q, c), e) ↦
      let (at', done, old) = oldest_lem h.calls q c e in
      let (t, r, l) = delete_counts q c h.calls d at' in
      let h' : Cache = record h { bytes = h.bytes - length c.raw; calls = delete_call q h.calls } in
      inr (
        q,
        c,
        h',
        rw (e, drop_oldest),
        (at', done, old),
        refl,
        Distinct-delete q h.calls d,
        ground arith,
        ground arith,
        l,
      )
]
