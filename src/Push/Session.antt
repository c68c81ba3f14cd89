-- ===== src/Push/Session.antt =====
-- internal/push/session.go: the loop of querySession, one function for each case of its select, and
-- the pause of startSessions between sessions. The loop alone owns the pending queries; the writer
-- goroutine only empties the send queue, whose length is kept; a goroutine that works on a query is
-- known by the id of the query until its result is received. What is handed to the queue is the
-- output of a step.
pub mod Pending
pub mod Runs
pub mod Delay
mod Examples
use ithiltir_node.Base.{
  ℕ, ◌+◌, ◌*◌, ◌/◌, min, max, ◌-◌, Bool, true, false, ◌&&◌, ◌||◌, not, Option, none, some, List, [],
  ◌∷◌, exists_in, is_empty, length, Text, codes, text_eq, byte_length, pos, Time, second, minute,
  ltb, leb, ◌==◌, if◌then◌else◌, Result, ok, err,
}
use ithiltir_node.Pve.Query.{
  HistoryQuery, Err, is_valid_query, busy, unsupported, vm_not_found, deadline_exceeded,
}

pub record QueryMessage : Type 0 where
  pub vm_id : ℕ
  pub timeframe : Text
  pub consolidation : Text
  pub timeout_ms : ℕ

-- The oneof of a message of the dashboard.
pub data Body : Type 0 where
  cancel : Bool → Body
  history : QueryMessage → Body
  nothing : Body

pub record DashMessage : Type 0 where
  pub id : Text
  pub body : Body

-- What the node sends: a heartbeat, or the result of the query with an id.
pub data NodeMessage : Type 0 where
  heartbeat : NodeMessage
  result : Text → Text → Text → NodeMessage

pub record Capabilities : Type 0 where
  pub version : Text
  pub history : Bool

-- A query in `pending`: when its context ends, and whether it was stopped.
pub record Job : Type 0 where
  pub query : HistoryQuery
  pub deadline : Time
  pub stopped : Bool

pub record Session : Type 0 where
  pub pending : List (Text × Job)
  pub workers : List Text
  pub queued : ℕ
  pub last_seen : Time
  pub caps : Capabilities

pub data SessionError : Type 0 where
  context_done queue_full invalid_id invalid_query duplicate_id heartbeat_timeout : SessionError
  capabilities_changed : SessionError
  stream_failed : SessionError

-- A step goes on with messages for the queue, or ends the session, or calls a nil stop function.
pub data Outcome : Type 0 where
  goes_on : Session → List NodeMessage → Outcome
  ends : SessionError → Outcome
  panicked : Outcome

pub find_job : Text → List (Text × Job) → Option Job
find_job id [] = none
find_job id ((k, j) ∷ jobs) = if text_eq k id then some j else find_job id jobs

pub delete_job : Text → List (Text × Job) → List (Text × Job)
delete_job id [] = []
delete_job id ((k, j) ∷ jobs) =
    let rest = delete_job id jobs in if text_eq k id then rest else (k, j) ∷ rest

pub stop_job : Text → List (Text × Job) → List (Text × Job)
stop_job id [] = []
stop_job id ((k, j) ∷ jobs) =
    (k, if text_eq k id then record j { stopped = true } else j) ∷ stop_job id jobs

-- A worker that has handed over its result.
pub leave_worker : Text → List Text → List Text
leave_worker id [] = []
leave_worker id (k ∷ ks) = let rest = leave_worker id ks in if text_eq k id then ks else k ∷ rest

-- `send`. `done` tells that the select takes the case of the context, which it may once that is
-- done.
pub send : Bool → NodeMessage → Session → Outcome
send done m s =
    if done
    then ends context_done
    else if leb 64 s.queued
    then ends queue_full
    else goes_on (record s { queued = s.queued + 1 }) (m ∷ [])

pub received : Bool → NodeMessage → Text → Session → Option Job → Outcome
unfolding send
received done m id s none = panicked
received done m id s (some j) =
    send done m
      (record s { pending = delete_job id s.pending; workers = leave_worker id s.workers })

-- `case result := <-completed`.
pub on_completed : Bool → Text → Text → Text → Session → Outcome
unfolding received find_job
on_completed done id json error s =
    received done (result id json error) id s (find_job id s.pending)

-- A query that is admitted to `pending`.
pub start_job : Time → Text → HistoryQuery → ℕ → Session → Session
start_job now id q timeout_ms s =
    let deadline = now + min (10 * second) (timeout_ms * 1000000) in
    record s {
      pending = (id, record { query = q; deadline = deadline; stopped = false }) ∷ s.pending;
      workers = id ∷ s.workers;
    }

pub to_query : QueryMessage → HistoryQuery
to_query m = record { vmid = pos m.vm_id; timeframe = m.timeframe; consolidation = m.consolidation }

pub on_query : Bool → Time → Text → QueryMessage → Session → Outcome
unfolding send start_job to_query find_job
on_query done now id m s =
    if is_empty id || ltb 64 (byte_length id)
    then ends invalid_id
    else if not (is_valid_query (to_query m)) || m.timeout_ms == 0
    then ends invalid_query
    else if exists_in (λ e. text_eq e.0 id) s.pending
    then ends duplicate_id
    else if leb 32 (length s.pending)
    then send done (result id [] (codes "busy")) s
    else goes_on (start_job now id (to_query m) m.timeout_ms s) []

pub on_body : Bool → Time → Text → Body → Session → Outcome
unfolding on_query stop_job
on_body done now id (cancel true) s = goes_on (record s { pending = stop_job id s.pending }) []
on_body done now id (cancel false) s = goes_on s []
on_body done now id (history m) s = on_query done now id m s
on_body done now id nothing s = goes_on s []

-- `case message := <-incoming`.
pub on_message : Bool → Time → DashMessage → Session → Outcome
unfolding on_body
on_message done now m s = on_body done now m.id m.body (record s { last_seen = now })

-- `case <-heartbeat.C`.
pub on_heartbeat : Bool → Time → Session → Outcome
unfolding send
on_heartbeat done now s =
    if ltb (s.last_seen + 60 * second) now then ends heartbeat_timeout else send done heartbeat s

pub same_capabilities : Capabilities → Capabilities → Bool
same_capabilities a b =
    ((a.history && b.history) || (not a.history && not b.history)) && text_eq a.version b.version

-- `case <-check.C`; `none` is an error of the helper.
pub on_check : Option Capabilities → Session → Outcome
unfolding same_capabilities
on_check none s = goes_on s []
on_check (some current) s =
    if same_capabilities current s.caps then goes_on s [] else ends capabilities_changed

-- The writer takes a message from the queue.
pub on_written : Session → Session
on_written s = record s { queued = s.queued - 1 }

pub new_session : Time → Capabilities → Session
new_session now caps = record {
  pending = [];
  workers = [];
  queued = 0;
  last_seen = now;
  caps = caps;
}

-- The error code of historyResult.
error_code : Err → Text
error_code busy = codes "busy"
error_code unsupported = codes "unsupported"
error_code vm_not_found = codes "vm_not_found"
error_code deadline_exceeded = codes "deadline_exceeded"
error_code _ = codes "source_unavailable"

-- historyResult, of what the helper's History returns.
history_result : Text → Result Err Text → NodeMessage
unfolding error_code
history_result id (ok json) = result id json []
history_result id (err e) = result id [] (error_code e)

-- startSessions: the delay that is waited after a failed session, before the random share, and the
-- delay that the next failure starts from.
session_delay : Time → Time → Time → Time
session_delay started now delay = if ltb (started + minute) now then second else delay

pub next_delay : Time → Time
next_delay delay = min (delay * 2) minute

-- `rand.Int64N(n)` gives a number below n.
pub jitter_bound : Time → ℕ
jitter_bound delay = max 1 (delay / 4)
