-- ===== src/Push/Session/Examples.antt =====
-- The theorems on sessions at one with a query that is answered.
use ithiltir_node.Base.{◌≤◌, refl, true, false, [], ◌∷◌, codes, text_eq, byte_length, int_eq}
use ithiltir_node.Pve.Query.{is_valid_query}
use ithiltir_node.Push.Session.{
  QueryMessage, history, Capabilities, Session, new_session, on_message, on_body, on_query,
  start_job, to_query, on_completed, received, find_job, delete_job, leave_worker, send,
}
use ithiltir_node.Push.Session.Runs.{Reach, start, hears, finishes, Accounted, answered_once}

abbrev some_caps : Capabilities
some_caps = record { version = codes "1.0"; history = true }

abbrev hour_query : QueryMessage
hour_query = record {
  vm_id = 100;
  timeframe = codes "hour";
  consolidation = codes "AVERAGE";
  timeout_ms = 5000;
}

abbrev asked_session : Session
asked_session = record {
  pending =
      (codes "a", record { query = to_query hour_query; deadline = 5000000001; stopped = false })
      ∷ [];
  workers = codes "a" ∷ [];
  queued = 0;
  last_seen = 1;
  caps = some_caps;
}

abbrev answered_session : Session
answered_session = record asked_session { pending = []; workers = []; queued = 1 }

asked_reach : Reach some_caps 0 asked_session (codes "a" ∷ []) []
unfolding new_session on_message on_body on_query start_job to_query send is_valid_query text_eq
    int_eq byte_length
asked_reach =
    hears {s = new_session 0 some_caps} {s' = asked_session} {out = []} false 1
      (record { id = codes "a"; body = history hour_query }) start refl

answered_reach : Reach some_caps 0 answered_session (codes "a" ∷ []) (codes "a" ∷ [])
unfolding on_completed received find_job delete_job leave_worker send text_eq
answered_reach =
    finishes {s = asked_session} {s' = answered_session} false (codes "a") (codes "{}") []
      asked_reach refl refl

answered_once_example :
    Accounted answered_session (codes "a" ∷ []) (codes "a" ∷ []) × (0 ≤ 32) × (1 ≤ 64)
answered_once_example = answered_once answered_reach
