-- ===== src/Collect/Usage/Probes.antt =====
-- The probes of one path, in every run of the reader.
use ithiltir_node.Base.{
  ℕ, suc, ◌≤◌, ◌≡◌, ◌≢◌, inl, inr, refl, sym, ap, ◌∙◌, true, false, Option, none, some, List, [],
  ◌∷◌, Text, Result, ok, err, length, Bool-cases, arith,
}
use ithiltir_node.Collect.Usage.{
  UsageEntry, Start, given, deadline, waits, new_entry, cached_or, join_probe, read_free, read,
  new_cached, run_probe, is_probe, time_out,
}

-- The probes that run after a read started.
abbrev pub started : {U : Type 0} → Start U → List ℕ → List ℕ
started (waits true p cached) running = p ∷ running
started (waits false p cached) running = running
started (given u) running = running
started deadline running = running

-- The usages that probes found, the newest first.
abbrev pub found : {U : Type 0} → Result Text (Option U) → List U → List U
found (err m) us = us
found (ok none) us = us
found (ok (some u)) us = u ∷ us

abbrev pub newest : {U : Type 0} → List U → Option U
newest [] = none
newest (u ∷ us) = some u

-- What a read gives at once after these usages, the newest first.
abbrev pub at_once : {U : Type 0} → List U → Start U
at_once [] = deadline
at_once (u ∷ us) = given u

-- `Reach U fresh e running us`: the reader can come to the entry `e` while the probes `running` run,
-- after the usages `us`.
pub data Reach (U : Type 0) : ℕ → UsageEntry U → List ℕ → List U → Type 0 where
  starts : Reach U 0 new_entry [] []
  reads :
      {fresh : ℕ} {e : UsageEntry U} {running : List ℕ} {us : List U}
      → Reach U fresh e running us
      → Reach U (suc fresh) (read fresh e).1 (started (read fresh e).0 running) us
  ends :
      {fresh : ℕ} {e : UsageEntry U} {p : ℕ} {running : List ℕ} {us : List U}
      (r : Result Text (Option U))
      → Reach U fresh e (p ∷ running) us
      → Reach U fresh (run_probe r e) running (found r us)
  fires :
      {fresh : ℕ} {e : UsageEntry U} {running : List ℕ} {us : List U} (p : ℕ)
      → Reach U fresh e running us
      → Reach U fresh (time_out p e) running us

abbrev of_probe : Option ℕ → List ℕ
of_probe none = []
of_probe (some p) = p ∷ []

tail_nil :
    (p : ℕ) (running : List ℕ) (o : Option ℕ) → p ∷ running ≡ of_probe o → running ≡ of_probe none
tail_nil p running none h = ground arith
tail_nil p running (some q) h = ground arith

held :
    (o : Option ℕ) (p : ℕ) (running : List ℕ)
    → is_probe o p ≡ true
    → running ≡ of_probe o
    → running ≢ []
unfolding is_probe
held none p running h e z = cc
held (some q) p running h e z = cc (sym e ∙ z)

few : (running : List ℕ) (o : Option ℕ) → running ≡ of_probe o → length running ≤ 1
few running none e = ground arith
few running (some p) e = ground arith

one : (running : List ℕ) (o : Option ℕ) → running ≡ of_probe o → running ≢ [] → length running ≡ 1
one running none e n = absurd (n e)
one running (some p) e n = ground arith

none_of : (o : Option ℕ) → of_probe o ≡ [] → o ≡ none
none_of none e = refl
none_of (some p) e = ground arith

module _ {U : Type 0} where
  -- The one probe that runs is the entry's; a stuck entry has one.
  abbrev Sound : UsageEntry U → List ℕ → List U → Type 0
  Sound e running us =
      (running ≡ of_probe e.probe) × (e.stuck ≡ true → running ≢ []) × (e.cached ≡ newest us)

  read-Sound :
      (fresh : ℕ) (e : UsageEntry U) (running : List ℕ) (us : List U)
      → Sound e running us
      → Sound (read fresh e).1 (started (read fresh e).0 running) us
  unfolding read cached_or read_free join_probe
  read-Sound fresh e running us s = ground (arith, s)

  ends-Sound :
      (r : Result Text (Option U)) (e : UsageEntry U) (p : ℕ) (running : List ℕ) (us : List U)
      → Sound e (p ∷ running) us
      → Sound (run_probe r e) running (found r us)
  unfolding run_probe new_cached
  ends-Sound (err m) e p running us s = (tail_nil p running e.probe s.0, λ h. cc, s.2)
  ends-Sound (ok none) e p running us s = (tail_nil p running e.probe s.0, λ h. cc, s.2)
  ends-Sound (ok (some u)) e p running us s = (tail_nil p running e.probe s.0, λ h. cc, refl)

  fires-Sound :
      (p : ℕ) (e : UsageEntry U) (running : List ℕ) (us : List U)
      → Sound e running us
      → Sound (time_out p e) running us
  unfolding time_out
  fires-Sound p e running us s = elim (Bool-cases (is_probe e.probe p)) [
    | inl f ↦ rw f (s.0, λ h. held e.probe p running f s.0, s.2)
    | inr f ↦ rw f s
  ]

  Reach-Sound :
      {fresh : ℕ} {e : UsageEntry U} {running : List ℕ} {us : List U}
      → Reach U fresh e running us
      → Sound e running us
  unfolding new_entry
  Reach-Sound starts = (refl, λ h. cc, refl)
  Reach-Sound (reads {fresh} {e} {running} {us} r) = read-Sound fresh e running us (Reach-Sound r)
  Reach-Sound (ends {fresh} {e} {p} {running} {us} q r) =
      ends-Sound q e p running us (Reach-Sound r)
  Reach-Sound (fires {fresh} {e} {running} {us} p r) = fires-Sound p e running us (Reach-Sound r)

  cached_lem : (us : List U) → cached_or (newest us) ≡ at_once us
  unfolding cached_or
  cached_lem [] = refl
  cached_lem (u ∷ us) = refl

  -- In every run of reads, ends of probes and timers, at most one probe of a path runs; if it hangs
  -- the reads give at once the newest usage that a probe found, or the error of the deadline, and
  -- start no other; and when it ends the next read starts a probe.
  pub one_probe :
      {fresh : ℕ} {e : UsageEntry U} {running : List ℕ} {us : List U}
      → Reach U fresh e running us
      → (length running ≤ 1)
        × (e.stuck ≡ true → (length running ≡ 1) × (read fresh e ≡ (at_once us, e)))
        × (running ≡ [] → (read fresh e).0 ≡ waits true fresh (newest us))
  unfolding read
  one_probe {fresh} {e} {running} {us} r =
      let (own, hung, cached) = Reach-Sound r in
      (
        few running e.probe own,
        λ s. (one running e.probe own (hung s), rw (s, cached, cached_lem us) refl),
        λ idle.
            let free : e.stuck ≡ false = elim (Bool-cases e.stuck) [
              | inl s ↦ absurd (hung s idle)
              | inr s ↦ s
            ] in
            let no_probe : e.probe ≡ none = none_of e.probe (sym own ∙ idle) in
            rw (free, no_probe) (unfold read_free in ap (waits true fresh) cached),
      )
