-- ===== src/Collect/Sampler/Lifecycle.antt =====
-- Start and Stop of the sampler, as steps of calls that run at the same time: what stands between
-- runMu.Lock and runMu.Unlock is one step, and so are what follows it and the end of a loop. The
-- four loops of Start are one.
pub mod Once
use ithiltir_node.Base.{ℕ, suc, ◌≡◌, Bool, true, false, ◌||◌, not}

pub data RunState : Type 0 where
  created running stopped : RunState

-- `cancel` is whether runCancel is set; `starting` are the calls of Start that have not launched
-- their loop yet, `launched` the loops that run and `ended` those that returned; `stopping` are the
-- calls of Stop that are about to call what they took of runCancel, and `took_nil` is whether one
-- took nil; `cancelled` is whether the context is.
pub record Run : Type 0 where
  pub state : RunState
  pub cancel : Bool
  pub starting : ℕ
  pub launched : ℕ
  pub ended : ℕ
  pub stopping : ℕ
  pub took_nil : Bool
  pub cancelled : Bool

unfoldable pub new_run : Run
new_run = record {
  state = created;
  cancel = false;
  starting = 0;
  launched = 0;
  ended = 0;
  stopping = 0;
  took_nil = false;
  cancelled = false;
}

-- Start, to the unlock.
unfoldable pub begin_start : RunState → Run → Run
begin_start created r = record r { state = running; cancel = true; starting = suc r.starting }
begin_start running r = r
begin_start stopped r = r

-- Stop, to the unlock.
pub begin_stop : RunState → Run → Run
begin_stop created r = r
begin_stop running r = record r {
  state = stopped;
  cancel = false;
  stopping = suc r.stopping;
  took_nil = r.took_nil || not r.cancel;
}
begin_stop stopped r = r

-- The steps of the calls and the loops.
pub data Step : Run → Run → Type 0 where
  start : (r : Run) → Step r (begin_start r.state r)
  launch :
      (r : Run) (n : ℕ)
      → r.starting ≡ suc n
      → Step r (record r { starting = n; launched = suc r.launched })
  stop : (r : Run) → Step r (begin_stop r.state r)
  call_cancel :
      (r : Run) (n : ℕ) → r.stopping ≡ suc n → Step r (record r { stopping = n; cancelled = true })
  end_loop :
      (r : Run) (n : ℕ)
      → r.launched ≡ suc n
      → r.cancelled ≡ true
      → Step r (record r { launched = n; ended = suc r.ended })

pub data Reach : Run → Type 0 where
  at_first : Reach new_run
  then : {r next : Run} → Reach r → Step r next → Reach next
