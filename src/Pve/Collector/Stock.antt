-- ===== src/Pve/Collector/Stock.antt =====
-- Every machine in the order has its entry, so that no nil entry is read.
use ithiltir_node.Base.{
  ℕ, ◌+◌, ◌≡◌, inl, inr, refl, sym, ◌∙◌, Bool, true, ◌||◌, List, [], ◌∷◌, map, Text, ℤ, int_eq,
  int_eq_iff, Time, Result, ok, err, is_some, All, exists_in, Bool-cases, arith,
}
use ithiltir_node.Pve.Snapshot.{Vm}
use ithiltir_node.Pve.Collector.{
  VmConfig, Observation, Collector, find_entry, put_entry, all_ids, kept_entry, refresh_entries,
  refresh_inventory, update_entry, complete, Choice, take_choice, chosen, idle, panicked,
}

abbrev pub has_entry {ℓ} : {A : Type ℓ} → ℤ → List (ℤ × A) → Bool
has_entry id m = is_some (find_entry id m)

-- Each of `ids` has an entry in `m`.
abbrev pub Stocked {ℓ} : {A : Type ℓ} → List ℤ → List (ℤ × A) → Type 0
Stocked ids m = All (λ id. has_entry id m ≡ true) ids

find-put_same {ℓ} :
    {A : Type ℓ} (id : ℤ) (a : A) (m : List (ℤ × A)) → has_entry id (put_entry id a m) ≡ true
unfolding find_entry put_entry
find-put_same id a [] = rw ((int_eq_iff id id).1 refl) refl
find-put_same id a ((k, b) ∷ m) = elim (Bool-cases (int_eq id k)) [
  | inl e ↦ rw (e, e) refl
  | inr e ↦ rw (e, e) (find-put_same id a m)
]

find-put_keeps {ℓ} :
    {A : Type ℓ} (x id : ℤ) (a : A) (m : List (ℤ × A))
    → has_entry x m ≡ true
    → has_entry x (put_entry id a m) ≡ true
unfolding find_entry put_entry
find-put_keeps x id a [] h = ground arith
find-put_keeps x id a ((k, b) ∷ m) h = elim (Bool-cases (int_eq id k)) [
  | inl e ↦
      rw e (elim (Bool-cases (int_eq x k)) [ inl f ↦ rw f refl | inr f ↦ rw f (ground arith) ])
  | inr e ↦ rw e (elim (Bool-cases (int_eq x k)) [
    | inl f ↦ rw f refl
    | inr f ↦ rw f (find-put_keeps x id a m (ground arith))
  ])
]

update_keeps :
    {Float Rest Process : Type 0}
    (f : Observation Float Rest Process → Observation Float Rest Process) (x id : ℤ)
    (m : List (ℤ × Observation Float Rest Process))
    → has_entry x (update_entry f id m) ≡ has_entry x m
unfolding find_entry update_entry
update_keeps f x id [] = refl
update_keeps f x id ((k, b) ∷ m) = elim (Bool-cases (int_eq id k)) [
  | inl e ↦ rw e (elim (Bool-cases (int_eq x k)) [ inl g ↦ rw g refl | inr g ↦ rw g refl ])
  | inr e ↦
      rw e (elim (Bool-cases (int_eq x k)) [
        | inl g ↦ rw g refl
        | inr g ↦ rw g (update_keeps f x id m)
      ])
]

module _ {Float Rest Process : Type 0} (new_process : Process) where
  refresh_keeps :
      (tag : ℕ) (old : List (ℤ × Observation Float Rest Process))
      (configs : List (VmConfig Float Rest)) (new : List (ℤ × Observation Float Rest Process))
      (x : ℤ)
      → has_entry x new ≡ true
      → has_entry x (refresh_entries new_process tag old configs new) ≡ true
  unfolding refresh_entries
  refresh_keeps tag old [] new x h = h
  refresh_keeps tag old (config ∷ configs) new x h =
      refresh_keeps (tag + 1) old configs _ x (find-put_keeps x config.vm.id _ new h)

  -- Each configured machine gets an entry.
  refresh_stocks :
      (tag : ℕ) (old : List (ℤ × Observation Float Rest Process))
      (configs : List (VmConfig Float Rest)) (new : List (ℤ × Observation Float Rest Process))
      → Stocked
          (map (λ config. config.vm.id) configs)
          (refresh_entries new_process tag old configs new)
  unfolding refresh_entries
  refresh_stocks tag old [] new = tt
  refresh_stocks tag old (config ∷ configs) new = (
    refresh_keeps (tag + 1) old configs _ config.vm.id (find-put_same config.vm.id _ new),
    refresh_stocks (tag + 1) old configs _,
  )

update_stocks :
    {Float Rest Process : Type 0}
    (f : Observation Float Rest Process → Observation Float Rest Process) (id : ℤ) (ids : List ℤ)
    (m : List (ℤ × Observation Float Rest Process))
    → Stocked ids m
    → Stocked ids (update_entry f id m)
update_stocks f id [] m h = tt
update_stocks f id (x ∷ ids) m h = (update_keeps f x id m ∙ h.0, update_stocks f id ids m h.1)

abbrev pub IsStocked : {Float Rest Process : Type 0} → Collector Float Rest Process → Type 0
IsStocked c = Stocked (all_ids c.order) c.entries

module _ {Float Rest Process : Type 0} where
  pub refresh-IsStocked :
      (new_process : Process) (found : Result Text (List (VmConfig Float Rest))) (now : Time)
      (c : Collector Float Rest Process)
      → IsStocked c
      → IsStocked (refresh_inventory new_process found now c)
  unfolding refresh_inventory all_ids
  refresh-IsStocked new_process (err e) now c h = h
  refresh-IsStocked new_process (ok configs) now c h =
      refresh_stocks new_process c.fresh c.entries configs []

  pub complete-IsStocked :
      (stopping : Bool) (id : ℤ) (tag : ℕ) (vm : Vm Float) (process : Process) (started : Time)
      (c : Collector Float Rest Process)
      → IsStocked c
      → IsStocked (complete stopping id tag vm process started c)
  unfolding complete
  complete-IsStocked stopping id tag vm process started c h =
      update_stocks _ id (all_ids c.order) c.entries h

  pub take_choice-IsStocked :
      (choice : Choice Float Rest Process) (c : Collector Float Rest Process)
      → IsStocked c
      → IsStocked (take_choice choice c)
  unfolding take_choice
  take_choice-IsStocked (chosen i id entry) c h = h
  take_choice-IsStocked (idle wait) c h = h
  take_choice-IsStocked panicked c h = h

find-put_only {ℓ} :
    {A : Type ℓ} (x id : ℤ) (a : A) (m : List (ℤ × A))
    → has_entry x (put_entry id a m) ≡ true
    → int_eq x id || has_entry x m ≡ true
unfolding find_entry put_entry
find-put_only x id a [] h = ground arith
find-put_only x id a ((k, b) ∷ m) h = elim (Bool-cases (int_eq id k)) [
  | inl e ↦ ground arith
  | inr e ↦ ground (arith, find-put_only x id a m)
]

module _ {Float Rest Process : Type 0} (new_process : Process) where
  -- Only configured machines get an entry.
  refresh_only :
      (tag : ℕ) (old : List (ℤ × Observation Float Rest Process))
      (configs : List (VmConfig Float Rest)) (new : List (ℤ × Observation Float Rest Process))
      (x : ℤ)
      → has_entry x (refresh_entries new_process tag old configs new) ≡ true
      → has_entry x new || exists_in (int_eq x) (map (λ config. config.vm.id) configs) ≡ true
  unfolding refresh_entries
  refresh_only tag old [] new x h = ground arith
  refresh_only tag old (config ∷ configs) new x h = ground (
    arith,
    refresh_only (tag + 1) old configs _ x h,
    find-put_only x config.vm.id (kept_entry new_process tag config (find_entry config.vm.id old))
        new,
  )

-- Only machines in the order have an entry.
abbrev pub IsListed : {Float Rest Process : Type 0} → Collector Float Rest Process → Type 0
IsListed c = (x : ℤ) → has_entry x c.entries ≡ true → exists_in (int_eq x) (all_ids c.order) ≡ true

module _ {Float Rest Process : Type 0} where
  pub refresh-IsListed :
      (new_process : Process) (found : Result Text (List (VmConfig Float Rest))) (now : Time)
      (c : Collector Float Rest Process)
      → IsListed c
      → IsListed (refresh_inventory new_process found now c)
  unfolding refresh_inventory all_ids find_entry
  refresh-IsListed new_process (err e) now c h = h
  refresh-IsListed new_process (ok configs) now c h =
      λ x e. refresh_only new_process c.fresh c.entries configs [] x e

  pub complete-IsListed :
      (stopping : Bool) (id : ℤ) (tag : ℕ) (vm : Vm Float) (process : Process) (started : Time)
      (c : Collector Float Rest Process)
      → IsListed c
      → IsListed (complete stopping id tag vm process started c)
  unfolding complete
  complete-IsListed stopping id tag vm process started c h =
      λ x e. h x (sym (update_keeps _ x id c.entries) ∙ e)

  pub take_choice-IsListed :
      (choice : Choice Float Rest Process) (c : Collector Float Rest Process)
      → IsListed c
      → IsListed (take_choice choice c)
  unfolding take_choice
  take_choice-IsListed (chosen i id entry) c h = h
  take_choice-IsListed (idle wait) c h = h
  take_choice-IsListed panicked c h = h
