-- ===== src/Pve/Examples.antt =====
-- The theorems on internal/pve/history.go at small caches.
use ithiltir_node.Base.{
  ◌+◌, ◌≤◌, ◌≡◌, ◌⊎◌, inr, refl, false, none, some, [], ◌∷◌, codes, text_eq, pos, int_eq, length,
}
use ithiltir_node.Pve.Query.{HistoryQuery, query_eq}
use ithiltir_node.Pve.History.{Call, Cache, refused, waits, find_call, request, finish}
use ithiltir_node.Pve.History.Entries.{total, running}
use ithiltir_node.Pve.History.Invariant.{Inv, request-Inv}
use ithiltir_node.Pve.History.Finish.{finish-Inv}
use ithiltir_node.Pve.History.Runs.{
  new_cache, new_cache-Inv, Reach, start, next, asks, Reach-bounds, Reach-safe,
}

abbrev an_hour : HistoryQuery
an_hour = record { vmid = pos 100; timeframe = codes "hour"; consolidation = codes "MAX" }

abbrev fresh_call : Call
fresh_call = record { waiters = 1; cancelled = false; raw = []; error = none; expires = 0 }

abbrev one_running : Cache
one_running = record { calls = (an_hour, fresh_call) ∷ []; failures = []; active = 1; bytes = 0 }

one_asked : request 5 an_hour new_cache ≡ waits one_running
unfolding request
one_asked = refl

one_running-Reach : Reach one_running
one_running-Reach = next start (asks 5 an_hour (inr one_asked))

Reach-bounds_example :
    (one_running.active ≡ running one_running.calls)
    × (one_running.bytes ≡ total one_running.calls)
    × (one_running.active ≤ 32)
    × (length one_running.calls ≤ 128)
    × (one_running.bytes ≤ 16777216)
Reach-bounds_example = Reach-bounds one_running-Reach

found_hour : find_call an_hour one_running.calls ≡ some fresh_call
unfolding find_call query_eq int_eq text_eq
found_hour = refl

abbrev a_day : HistoryQuery
a_day = record { vmid = pos 100; timeframe = codes "day"; consolidation = codes "MAX" }

Reach-safe_example :
    (h' : Cache) × ((request 7 a_day one_running ≡ refused h')
      ⊎ (request 7 a_day one_running ≡ waits h'))
Reach-safe_example = Reach-safe 7 a_day one_running-Reach

one_running-Inv : Inv one_running
unfolding request
one_running-Inv = request-Inv 5 an_hour new_cache new_cache-Inv

finish-Inv_example :
    (h' : Cache) × (finish 7 an_hour (codes "[]") none one_running ≡ some h')
    × Inv h'
    × (h'.active + 1 ≡ one_running.active)
finish-Inv_example =
    finish-Inv 7 an_hour (codes "[]") none one_running fresh_call one_running-Inv found_hour refl

abbrev old_call : Call
old_call = record { waiters = 0; cancelled = false; raw = codes "[]"; error = none; expires = 9 }

abbrev one_old : Cache
one_old = record {
  calls = (an_hour, fresh_call) ∷ (a_day, old_call) ∷ [];
  failures = [];
  active = 1;
  bytes = 2;
}
