-- ===== src/Pve/History.antt =====
-- internal/pve/history.go: the cache of history requests. The functions here are what runs under
-- the cache's mutex; a Go map is the list of its entries, in the order that `range` meets them.
-- A running call stays in the map under its key, so the entry of the key is the call itself.
pub mod Entries
pub mod Eviction
pub mod Invariant
pub mod Finish
pub mod Runs
use ithiltir_node.Base.{
  ℕ, zero, suc, ◌+◌, ◌-◌, ◌*◌, Bool, true, false, ◌&&◌, ◌||◌, not, Option, none, some, List, [],
  ◌∷◌, Text, Time, second, ℤ, ltb, leb, ◌==◌, if◌then◌else◌, length, keep,
}
use ithiltir_node.Pve.Query.{HistoryQuery, Err, canceled, query_eq}

-- An expiry time of 0 is Go's zero time: the call is running.
pub record Call : Type 0 where
  pub waiters : ℕ
  pub cancelled : Bool
  pub raw : Text
  pub error : Option Err
  pub expires : Time

pub record Cache : Type 0 where
  pub calls : List (HistoryQuery × Call)
  pub failures : List (ℤ × Time)
  pub active : ℕ
  pub bytes : ℕ

abbrev pub max_active : ℕ
max_active = 32

abbrev pub max_calls : ℕ
max_calls = 128

abbrev pub max_bytes : ℕ
max_bytes = 16777216

abbrev pub is_done : Call → Bool
is_done c = ltb 0 c.expires

unfoldable pub find_call : HistoryQuery → List (HistoryQuery × Call) → Option Call
find_call q [] = none
find_call q ((k, c) ∷ calls) = if query_eq k q then some c else find_call q calls

pub delete_call : HistoryQuery → List (HistoryQuery × Call) → List (HistoryQuery × Call)
delete_call q [] = []
delete_call q ((k, c) ∷ calls) =
    if query_eq k q then delete_call q calls else (k, c) ∷ delete_call q calls

pub update_call :
    HistoryQuery → (Call → Call) → List (HistoryQuery × Call) → List (HistoryQuery × Call)
update_call q f [] = []
update_call q f ((k, c) ∷ calls) = (k, if query_eq k q then f c else c) ∷ update_call q f calls

-- The loop of evictOldest over the completed calls.
pub is_older : Call → Option (HistoryQuery × Call) → Bool
is_older c none = is_done c
is_older c (some (k, best)) = is_done c && ltb c.expires best.expires

pub oldest_from :
    Option (HistoryQuery × Call) → List (HistoryQuery × Call) → Option (HistoryQuery × Call)
unfolding is_older
oldest_from best [] = best
oldest_from best ((k, c) ∷ calls) =
    oldest_from (if is_older c best then some (k, c) else best) calls

-- `none` is the nil pointer that evictOldest dereferences if no call is completed.
pub drop_oldest : Cache → Option (HistoryQuery × Call) → Option Cache
unfolding delete_call
drop_oldest h none = none
drop_oldest h (some (k, c)) =
    some (record h { bytes = h.bytes - length c.raw; calls = delete_call k h.calls })

unfoldable pub evict_oldest : Cache → Option Cache
unfolding drop_oldest oldest_from
evict_oldest h = drop_oldest h (oldest_from none h.calls)

-- The loop of get over the calls: the bytes and entries after the expired ones are deleted.
pub expire_calls : Time → ℕ → List (HistoryQuery × Call) → ℕ × List (HistoryQuery × Call)
expire_calls now bytes [] = (bytes, [])
expire_calls now bytes ((k, c) ∷ calls) =
    let gone = is_done c && leb c.expires now in
    let (bytes', calls') = expire_calls now (if gone then bytes - length c.raw else bytes) calls in
    (bytes', if gone then calls' else (k, c) ∷ calls')

pub expire : Time → Cache → Cache
unfolding expire_calls
expire now h =
    let (bytes, calls) = expire_calls now h.bytes h.calls in
    record h { failures = keep (λ f. ltb now f.1) h.failures; bytes = bytes; calls = calls }

pub new_call : Call
new_call = record { waiters = 1; cancelled = false; raw = []; error = none; expires = 0 }

pub admit : HistoryQuery → Cache → Cache
unfolding new_call
admit q h = record h { calls = (q, new_call) ∷ h.calls; active = h.active + 1 }

pub make_room : Cache → Option Cache
unfolding evict_oldest
make_room h = if leb max_calls (length h.calls) then evict_oldest h else some h

-- What get makes of a request: an error at once, or an entry to wait for.
pub data Admission : Type 0 where
  refused waits : Cache → Admission
  panicked : Admission

pub admit_into : HistoryQuery → Option Cache → Admission
unfolding admit
admit_into q none = panicked
admit_into q (some h) = waits (admit q h)

pub request_known : HistoryQuery → Cache → Option Call → Admission
unfolding make_room admit_into update_call
request_known q h none = if leb max_active h.active then refused h else admit_into q (make_room h)
request_known q h (some c) =
    waits (record h { calls = update_call q (λ c. record c { waiters = c.waiters + 1 }) h.calls })

-- The first locked part of get.
unfoldable pub request : Time → HistoryQuery → Cache → Admission
unfolding request_known expire find_call
request now q h = let h' = expire now h in request_known q h' (find_call q h'.calls)

-- The deferred part of get: the last waiter of a running call cancels it.
pub leave_call : Call → Call
leave_call c =
    let n = c.waiters - 1 in
    record c { waiters = n; cancelled = c.cancelled || (n == 0 && not (is_done c)) }

pub leave : HistoryQuery → Cache → Cache
unfolding leave_call update_call
leave q h = record h { calls = update_call q leave_call h.calls }

-- `for h.bytes > 16<<20 { h.evictOldest() }`; each round drops an entry, so the fuel is their number.
pub shrink : ℕ → Cache → Option Cache
shrink zero h = if ltb max_bytes h.bytes then none else some h
shrink (suc fuel) h = elim (ltb max_bytes h.bytes) [
  | false ↦ some h
  | true ↦ elim (evict_oldest h) [ none ↦ none | some h' ↦ shrink fuel h' ]
]

pub is_canceled : Option Err → Bool
is_canceled (some canceled) = true
is_canceled _ = false

has_error : Option Err → Bool
has_error none = false
has_error (some _) = true

pub completed : Time → Text → Option Err → Call → Call
unfolding has_error
completed now raw error c = record c {
  raw = raw;
  error = error;
  expires = now + (if has_error error then 10 * second else 30 * second);
}

-- The locked part of run, when the request of the running call `q` has ended.
unfoldable pub finish : Time → HistoryQuery → Text → Option Err → Cache → Option Cache
unfolding is_canceled completed shrink update_call delete_call
finish now q raw error h =
    let h₁ = record h {
      calls = update_call q (completed now raw error) h.calls;
      active = h.active - 1;
      bytes = h.bytes + length raw;
    } in
    let h₂ =
      if is_canceled error
      then record h₁ { calls = delete_call q h₁.calls; bytes = h₁.bytes - length raw }
      else h₁ in
    shrink (length h₂.calls) h₂
