-- ===== src/Collect/Usage/Jobs.antt =====
-- Which filesystems are read.
use ithiltir_node.Base.{
  ◌≡◌, ◌≢◌, inl, inr, sym, subst, Bool, true, false, ◌&&◌, ◌||◌, List, [], ◌∷◌, Text, text_eq,
  text_eq_refl, trim_space, trim_space_idem, is_empty, exists_in, All, Bool-cases, arith,
}
use ithiltir_node.Collect.Usage.{Partition, is_pseudo_fs_type, usage_jobs}

-- A job has a trimmed mountpoint that is not in `seen`, and no pseudo filesystem if these are
-- skipped.
record IsJob (skip_pseudo : Bool) (seen : List Text) (p : Partition) : Type 0 where
  pub filled : is_empty p.mountpoint ≡ false
  pub trimmed : trim_space p.mountpoint ≡ p.mountpoint
  pub unseen : exists_in (text_eq p.mountpoint) seen ≡ false
  pub real : skip_pseudo && is_pseudo_fs_type p.fs_type ≡ false

abbrev DistinctMounts : List Partition → Type 0
DistinctMounts [] = Unit
DistinctMounts (p ∷ jobs) = All (λ q. p.mountpoint ≢ q.mountpoint) jobs × DistinctMounts jobs

or_false : (a b : Bool) → a || b ≡ false → b ≡ false
or_false a b h = ground arith

or_false_left : (a b : Bool) → a || b ≡ false → a ≡ false
or_false_left a b h = ground arith

later_jobs :
    (skip : Bool) (mp : Text) (seen : List Text) (jobs : List Partition)
    → All (IsJob skip (mp ∷ seen)) jobs
    → All (IsJob skip seen) jobs × All (λ q. mp ≢ q.mountpoint) jobs
later_jobs skip mp seen [] h = (tt, tt)
later_jobs skip mp seen (q ∷ jobs) (j, h) =
    let (js, ds) = later_jobs skip mp seen jobs h in
    (
      (
        record {
          filled = j.filled;
          trimmed = j.trimmed;
          unseen = or_false (text_eq q.mountpoint mp) _ j.unseen;
          real = j.real;
        },
        js,
      ),
      (
        λ same.
            let first = or_false_left (text_eq q.mountpoint mp) _ j.unseen in
            cc (
              first,
              subst (λ t. text_eq q.mountpoint t ≡ true) (sym same) (text_eq_refl q.mountpoint),
            ),
        ds,
      ),
    )

-- The mountpoints that are read are trimmed, not empty and distinct, and of no pseudo filesystem
-- if these are skipped.
usage_jobs_lem :
    (skip : Bool) (seen : List Text) (parts : List Partition)
    → All (IsJob skip seen) (usage_jobs skip seen parts)
      × DistinctMounts (usage_jobs skip seen parts)
unfolding usage_jobs
usage_jobs_lem skip seen [] = (tt, tt)
usage_jobs_lem skip seen (p ∷ parts) =
    let mp = trim_space p.mountpoint in
    elim (Bool-cases (is_empty mp || exists_in (text_eq mp) seen)) [
      | inl e ↦ rw e (usage_jobs_lem skip seen parts)
      | inr e ↦
          let (jobs, distinct) = usage_jobs_lem skip (mp ∷ seen) parts in
          let (js, ds) = later_jobs skip mp seen (usage_jobs skip (mp ∷ seen) parts) jobs in
          elim (Bool-cases (skip && is_pseudo_fs_type p.fs_type)) [
            | inl f ↦ rw (e, f) (js, distinct)
            | inr f ↦
                rw (e, f)
                  (
                    (
                      record {
                        filled = or_false_left (is_empty mp) _ e;
                        trimmed = trim_space_idem p.mountpoint;
                        unseen = or_false (is_empty mp) _ e;
                        real = f;
                      },
                      js,
                    ),
                    (ds, distinct),
                  )
          ]
    ]
