-- ===== src/Push/Round/Decision.antt =====
-- What a round reports and does, said of its results as a whole.
use ithiltir_node.Base.{
  ◌≡◌, ◌⊎◌, inl, inr, refl, ◌∙◌, ap, Bool, true, false, ◌||◌, not, Option, none, some, Text,
  if◌then◌else◌, is_empty, is_some, List, [], ◌∷◌, map, exists_in, arith, Bool-cases,
}
use ithiltir_node.Push.Update.{Manifest, Plan, no_plan, add}
use ithiltir_node.Push.Update.Agreement.{Offer, add_all, others, disagree, plan_lem}
use ithiltir_node.Push.Round.{
  TargetResult, Applied, error, ended, Agent, Tally, tally, chosen, note_noop, set_cache, conclude,
  decide, finish, built, send_built, send_round,
}

abbrev offer : TargetResult → Offer
offer r = (r.manifest, r.secret)

rest_ok :
    (b : Bool) (rs : List TargetResult)
    → b || exists_in (λ r. r.failed) rs ≡ false
    → exists_in (λ r. r.failed) rs ≡ false
rest_ok true rs h = ground arith
rest_ok false rs h = h

rest_failed :
    (b : Bool) (rs : List TargetResult)
    → b ≡ false
    → b || exists_in (λ r. r.failed) rs ≡ true
    → exists_in (λ r. r.failed) rs ≡ true
rest_failed b rs e h = rw e at h

or_assoc : (a b c : Bool) → (a || b) || c ≡ a || (b || c)
or_assoc true b c = refl
or_assoc false b c = refl

abbrev tallied : Plan → Bool → Bool → Option Tally
tallied p s r = some (record { success = s; retry = r; plan = p })

flags : {p : Plan} {s s' r r' : Bool} → s ≡ s' → r ≡ r' → tallied p s r ≡ tallied p s' r'
flags e f = cc

-- Without a failed result the loop gathers the flags and the plan of all.
tally_lem :
    (current : Text) (rs : List TargetResult) (t : Tally)
    → exists_in (λ r. r.failed) rs ≡ false
    → tally current rs t
      ≡ some (record {
        success = t.success || exists_in (λ r. r.ok) rs;
        retry = t.retry || exists_in (λ r. r.retry) rs;
        plan = add_all current (map offer rs) t.plan;
      })
unfolding tally add_all
tally_lem current [] t h = ground arith
tally_lem current (r ∷ rs) t h = elim (Bool-cases r.failed) [
  | inl e ↦ ground (arith, e, h)
  | inr e ↦
      let u : Tally = record {
        success = t.success || r.ok;
        retry = t.retry || r.retry;
        plan = add current r.manifest r.secret t.plan;
      } in
      rw e (
        tally_lem current rs u (rest_ok r.failed rs h)
        ∙ flags (or_assoc t.success r.ok _) (or_assoc t.retry r.retry _))
]

tally_failed :
    (current : Text) (rs : List TargetResult) (t : Tally)
    → exists_in (λ r. r.failed) rs ≡ true
    → tally current rs t ≡ none
unfolding tally
tally_failed current [] t h = ground arith
tally_failed current (r ∷ rs) t h = elim (Bool-cases r.failed) [
  | inl e ↦ rw e refl
  | inr e ↦ rw e (tally_failed current rs _ (rest_failed r.failed rs e h))
]

abbrev start : Tally
start = record { success = false; retry = false; plan = no_plan }

finish_quiet :
    {Report : Type 0}
    → (apply : Manifest → Applied) (report : Report) (a : Agent Report) (t : Tally)
    → chosen t.plan ≡ none
    → ((finish apply report a (some t)).1 ≡ ended t.retry)
      × ((finish apply report a (some t)).0.cache
          ≡ (if t.success then set_cache report a.cache else a.cache))
unfolding finish decide conclude note_noop
finish_quiet apply report a t h = rw h (ground arith)

chosen-none : (p : Plan) → p.conflict ≡ true ⊎ is_some p.manifest ≡ false → chosen p ≡ none
unfolding chosen
chosen-none p (inl e) = rw e refl
chosen-none p (inr e) = ground (arith, e)

quiet_plan :
    (current : Text) (os : List Offer) (p : Plan)
    → p ≡ add_all current os no_plan
    → (disagree (others current os) ≡ true) ⊎ (is_empty (others current os) ≡ true)
    → (p.conflict ≡ true) ⊎ (is_some p.manifest ≡ false)
quiet_plan current os p e (inl h) =
    inl (ap (λ (q : Plan). q.conflict) e ∙ (plan_lem current os).0 ∙ h)
quiet_plan current os p e (inr h) =
    inr (ap (λ (q : Plan). is_some q.manifest) e ∙ (plan_lem current os).2 ∙ ap not h)

-- A round whose targets all succeeded, and whose offers of other versions are in conflict or
-- missing, applies no update whatever applying it would do: it ends without an error, the next round
-- starts at once exactly when some target asks for it, and the debug page has the report if some
-- target took it.
send_round_quiet :
    {Report : Type 0}
    → (apply : Manifest → Applied) (current : Text) (rs : List TargetResult) (a : Agent Report)
      (report : Report)
    → is_empty rs ≡ false
    → exists_in (λ r. r.failed) rs ≡ false
    → (disagree (others current (map offer rs)) ≡ true)
      ⊎ (is_empty (others current (map offer rs)) ≡ true)
    → let end = send_round apply current rs a (built report) in
      (end.1 ≡ ended (exists_in (λ r. r.retry) rs))
      × (end.0.cache ≡ (if exists_in (λ r. r.ok) rs then set_cache report a.cache else a.cache))
unfolding send_round send_built
send_round_quiet apply current rs a report h ok quiet =
    let os = map offer rs in
    let plan = add_all current os no_plan in
    let t : Tally = record {
      success = exists_in (λ r. r.ok) rs;
      retry = exists_in (λ r. r.retry) rs;
      plan = plan;
    } in
    let tallied : tally current rs start ≡ some t = tally_lem current rs start ok in
    rw (h, tallied)
      (finish_quiet apply report a t (chosen-none plan (quiet_plan current os plan refl quiet)))

-- A round ends in an error when the result of some target is one, and nothing of the agent changes.
send_round_failed :
    {Report : Type 0}
    → (apply : Manifest → Applied) (current : Text) (rs : List TargetResult) (a : Agent Report)
      (report : Report)
    → exists_in (λ r. r.failed) rs ≡ true
    → send_round apply current rs a (built report) ≡ (a, error)
unfolding send_round send_built finish
send_round_failed apply current [] a report h = ground arith
send_round_failed apply current (r ∷ rs) a report h =
    rw (tally_failed current (r ∷ rs) start h) refl
