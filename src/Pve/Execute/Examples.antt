-- ===== src/Pve/Execute/Examples.antt =====
-- The theorems on execute at a failed lookup and the call after it.
use ithiltir_node.Base.{◌≡◌, refl, none, some, List, [], codes, pos, ℤ, Time, arith}
use ithiltir_node.Pve.Query.{HistoryQuery, other, source_unavailable}
use ithiltir_node.Pve.Execute.{Work, held, execute}
use ithiltir_node.Pve.Execute.Pause.{execute_paused}

abbrev an_hour : HistoryQuery
an_hour = record { vmid = pos 100; timeframe = codes "hour"; consolidation = codes "MAX" }

abbrev a_day : HistoryQuery
a_day = record { vmid = pos 100; timeframe = codes "day"; consolidation = codes "MAX" }

abbrev failing : Work
failing = record {
  slot = none;
  ctx_error = none;
  inventory = none;
  lock = held;
  now = 5;
  raw = [];
  error = some other;
  failed_at = 6;
}

abbrev later : Work
later = record failing { now = 7; raw = codes "[]"; error = none }

abbrev no_failures : List (ℤ × Time)
no_failures = []

execute_paused_example :
    let noted = (execute failing an_hour no_failures).0 in
    execute later a_day noted ≡ (noted, [], some source_unavailable)
unfolding execute
execute_paused_example =
    execute_paused failing later an_hour a_day no_failures other refl refl refl refl (omega arith)
      refl (λ h. cc h) refl refl refl refl refl (omega arith)
