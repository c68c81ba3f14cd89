-- ===== src/Push/Round.antt =====
-- internal/push/push.go, sendRound: what one round does with the results of its targets, which come
-- in any order. The report, the update that is applied and the errors enter as values.
pub mod Decision
use ithiltir_node.Base.{
  Bool, true, false, ◌&&◌, ◌||◌, not, Option, none, some, Text, if◌then◌else◌, is_empty, is_some,
  List, [], ◌∷◌,
}
use ithiltir_node.Push.Update.{Manifest, Plan, no_plan, add}

pub record TargetResult : Type 0 where
  pub ok : Bool
  pub retry : Bool
  pub manifest : Option Manifest
  pub failed : Bool
  pub secret : Text

-- What selfupdate.Apply returns.
pub data Applied : Type 0 where
  nothing_to_do restart apply_error : Applied

-- The result of sendRound: an error, ErrRestart, or whether the next round starts at once.
pub data RoundEnd : Type 0 where
  error restarts : RoundEnd
  ended : Bool → RoundEnd

-- `cache` is nil without the debug page; the report in it may be missing.
pub record Agent (Report : Type 0) : Type 0 where
  pub cache : Option (Option Report)
  pub update_noop_logged : Bool

pub record Tally : Type 0 where
  pub success : Bool
  pub retry : Bool
  pub plan : Plan

-- The loop over the results; `none` is an early return of an error.
pub tally : Text → List TargetResult → Tally → Option Tally
tally current [] t = some t
tally current (r ∷ rs) t =
    let rest = tally current rs (record {
      success = t.success || r.ok;
      retry = t.retry || r.retry;
      plan = add current r.manifest r.secret t.plan;
    }) in
    if r.failed then none else rest

-- The update that is applied: the chosen one, unless the offers are in conflict.
pub chosen : Plan → Option Manifest
chosen p = if p.conflict then none else p.manifest

notes_noop : Plan → Bool
notes_noop p = not p.conflict && p.skipped_current && not (is_some p.manifest)

pub set_cache : {Report : Type 0} → Report → Option (Option Report) → Option (Option Report)
set_cache report none = none
set_cache report (some _) = some (some report)

-- The end of sendRound, after the update.
pub conclude : {Report : Type 0} → Report → Tally → Agent Report → Agent Report × RoundEnd
unfolding set_cache
conclude report t a =
    (if t.success then record a { cache = set_cache report a.cache } else a, ended t.retry)

applied_end : {Report : Type 0} → Report → Tally → Agent Report → Applied → Agent Report × RoundEnd
unfolding conclude
applied_end report t a nothing_to_do = conclude report t a
applied_end report t a restart = (a, restarts)
applied_end report t a apply_error = conclude report t a

pub decide :
    {Report : Type 0}
    → (Manifest → Applied)
    → Report
    → Tally
    → Agent Report
    → Option Manifest
    → Agent Report × RoundEnd
unfolding applied_end
decide apply report t a none = conclude report t a
decide apply report t a (some m) = applied_end report t a (apply m)

pub note_noop : {Report : Type 0} → Plan → Agent Report → Agent Report
unfolding notes_noop
note_noop p a = if notes_noop p then record a { update_noop_logged = true } else a

pub finish :
    {Report : Type 0}
    → (Manifest → Applied)
    → Report
    → Agent Report
    → Option Tally
    → Agent Report × RoundEnd
unfolding decide chosen note_noop
finish apply report a none = (a, error)
finish apply report a (some t) = decide apply report t (note_noop t.plan a) (chosen t.plan)

-- What buildReport gives: no snapshot yet, an error, or a report.
pub data Built (Report : Type 0) : Type 0 where
  not_ready build_error : Built Report
  built : Report → Built Report

pub send_built :
    {Report : Type 0}
    → (Manifest → Applied)
    → Text
    → List TargetResult
    → Agent Report
    → Built Report
    → Agent Report × RoundEnd
unfolding finish tally
send_built apply current results a not_ready = (a, ended false)
send_built apply current results a build_error = (a, error)
send_built apply current results a (built report) =
    finish apply report a
      (tally current results (record { success = false; retry = false; plan = no_plan }))

-- sendRound, given the results of the targets: none if there are no targets.
unfoldable pub send_round :
    {Report : Type 0}
    → (Manifest → Applied)
    → Text
    → List TargetResult
    → Agent Report
    → Built Report
    → Agent Report × RoundEnd
unfolding send_built
send_round apply current results a b =
    if is_empty results then (a, ended false) else send_built apply current results a b
