-- ===== src/Pve/History/Runs.antt =====
-- Every interleaving of requests, departures of waiters and ends of requests.
use ithiltir_node.Base.{
  ◌≤◌, ◌≡◌, ◌⊎◌, inl, inr, refl, false, Option, some, [], Text, Time, length, arith, subst,
}
use ithiltir_node.Pve.Query.{HistoryQuery, Err}
use ithiltir_node.Pve.History.{
  Call, Cache, Admission, refused, waits, panicked, is_done, find_call, request, leave, finish,
}
use ithiltir_node.Pve.History.Entries.{total, running}
use ithiltir_node.Pve.History.Invariant.{Inv, Admits, request-Inv, leave-Inv}
use ithiltir_node.Pve.History.Finish.{finish-Inv}

-- newHistoryCache.
abbrev pub new_cache : Cache
new_cache = record { calls = []; failures = []; active = 0; bytes = 0 }

-- One locked part of some goroutine. Only a running call ends.
pub data Step : Cache → Cache → Type 0 where
  asks :
      {h h' : Cache} (now : Time) (q : HistoryQuery)
      → (request now q h ≡ refused h') ⊎ (request now q h ≡ waits h')
      → Step h h'
  leaves : {h : Cache} (q : HistoryQuery) → Step h (leave q h)
  ends :
      {h h' : Cache} (now : Time) (q : HistoryQuery) (raw : Text) (error : Option Err) (c : Call)
      → find_call q h.calls ≡ some c
      → is_done c ≡ false
      → finish now q raw error h ≡ some h'
      → Step h h'

pub data Reach : Cache → Type 0 where
  start : Reach new_cache
  next : {h h' : Cache} → Reach h → Step h h' → Reach h'

pub new_cache-Inv : Inv new_cache
new_cache-Inv = record {
  counted = record { distinct = tt; bytes_exact = refl; active_exact = refl };
  active_bounded = omega arith;
  calls_bounded = omega arith;
  bytes_bounded = omega arith;
}

Step-Inv : {h h' : Cache} → Step h h' → Inv h → Inv h'
Step-Inv {h} (asks now q (inl e)) v = subst Admits e (request-Inv now q h v)
Step-Inv {h} (asks now q (inr e)) v = subst Admits e (request-Inv now q h v)
Step-Inv {h} (leaves q) v = leave-Inv q h v
Step-Inv {h} {h'} (ends now q raw error c e r run) v =
    let (g, run', w, _) = finish-Inv now q raw error h c v e r in
    let same : g ≡ h' = ground arith in subst Inv same w

Reach-Inv : {h : Cache} → Reach h → Inv h
Reach-Inv start = new_cache-Inv
Reach-Inv (next r s) = Step-Inv s (Reach-Inv r)

-- In every reachable cache the counters are exact, at most 32 calls run, at most 128 are held,
-- and their results are at most 16 MiB.
pub Reach-bounds :
    {h : Cache}
    → Reach h
    → (h.active ≡ running h.calls)
      × (h.bytes ≡ total h.calls)
      × (h.active ≤ 32)
      × (length h.calls ≤ 128)
      × (h.bytes ≤ 16777216)
Reach-bounds r =
    let v = Reach-Inv r in
    (
      v.counted.active_exact, v.counted.bytes_exact, v.active_bounded, v.calls_bounded,
      v.bytes_bounded,
    )

admitted_lem : (a : Admission) → Admits a → (h' : Cache) × ((a ≡ refused h') ⊎ (a ≡ waits h'))
admitted_lem (refused h) v = (h, inl refl)
admitted_lem (waits h) v = (h, inr refl)
admitted_lem panicked v = elim v [ ]

-- In every reachable cache every request, of a running call, of one that is done or of a new one, is
-- refused or waits: its evictions never dereference the nil of a search that finds nothing.
pub Reach-safe :
    {h : Cache} (now : Time) (q : HistoryQuery)
    → Reach h
    → (h' : Cache) × ((request now q h ≡ refused h') ⊎ (request now q h ≡ waits h'))
Reach-safe {h} now q r = admitted_lem (request now q h) (request-Inv now q h (Reach-Inv r))
