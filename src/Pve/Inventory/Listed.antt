-- ===== src/Pve/Inventory/Listed.antt =====
-- The machines that inventory lists.
use ithiltir_node.Base.{
  ℕ, zero, suc, ◌≡◌, refl, inl, inr, sym, subst, Bool, true, false, Option, none, some, List, [],
  ◌∷◌, Text, ℤ, pos, negsuc, is_positive, All, if◌then◌else◌, and_then-some, some_inj,
  either_branch, Bool-cases, arith,
}
use ithiltir_node.Pve.Collector.{VmConfig}
use ithiltir_node.Pve.Config.{Rest, parse_config}
use ithiltir_node.Pve.Config.Bounds.{parse_config-id}
use ithiltir_node.Pve.Process.{FileRead, missing, unreadable, contents}
use ithiltir_node.Pve.Inventory.{
  usable_id, file_id, int_less, ConfigRead, absent, broken, config, config_of, put_config,
  insert_config, sort_configs, parsed_config, read_config, put_file, gather_configs, inventory,
}

not_less_trans : (a b c : ℤ) → int_less a b ≡ false → int_less b c ≡ false → int_less a c ≡ false
unfolding int_less
not_less_trans (pos a) (pos b) (pos c) h k = ground arith
not_less_trans (pos a) (pos b) (negsuc c) h k = refl
not_less_trans (pos a) (negsuc b) (pos c) h k = cc k
not_less_trans (pos a) (negsuc b) (negsuc c) h k = refl
not_less_trans (negsuc a) (pos b) c h k = cc h
not_less_trans (negsuc a) (negsuc b) (pos c) h k = cc k
not_less_trans (negsuc a) (negsuc b) (negsuc c) h k = ground arith

less_asym : (a b : ℤ) → int_less a b ≡ true → int_less b a ≡ false
unfolding int_less
less_asym (pos a) (pos b) h = ground arith
less_asym (pos a) (negsuc b) h = cc h
less_asym (negsuc a) (pos b) h = refl
less_asym (negsuc a) (negsuc b) h = ground arith

usable_id_positive : (o : Option ℤ) (id : ℤ) → usable_id o ≡ some id → is_positive id ≡ true
unfolding usable_id
usable_id_positive none id h = cc h
usable_id_positive (some (negsuc n)) id h = cc h
usable_id_positive (some (pos zero)) id h = cc h
usable_id_positive (some (pos (suc n))) id h =
    subst (λ k. is_positive k ≡ true) (some_inj (pos (suc n)) id h) (ground arith)

module _ {Float : Type 0} where
  NotBefore : ℤ → List (VmConfig Float Rest) → Type 0
  NotBefore id cs = All (λ d. int_less d.vm.id id ≡ false) cs

  -- No configuration has a smaller id than one before it.
  pub IsSorted : List (VmConfig Float Rest) → Type 0
  IsSorted [] = Unit
  IsSorted (c ∷ cs) = NotBefore c.vm.id cs × IsSorted cs

  insert-All :
      (P : VmConfig Float Rest → Type 0) (c : VmConfig Float Rest) (cs : List (VmConfig Float Rest))
      → P c
      → All P cs
      → All P (insert_config c cs)
  unfolding insert_config
  insert-All P c [] p ps = (p, tt)
  insert-All P c (d ∷ ds) p ps =
      either_branch (All P) (int_less d.vm.id c.vm.id) (d ∷ insert_config c ds) (c ∷ d ∷ ds)
        (ps.0, insert-All P c ds p ps.1) (p, ps)

  weaker :
      (low id : ℤ) (cs : List (VmConfig Float Rest))
      → int_less low id ≡ false
      → NotBefore low cs
      → NotBefore id cs
  unfolding NotBefore
  weaker low id [] h k = tt
  weaker low id (c ∷ cs) h k = (not_less_trans c.vm.id low id k.0 h, weaker low id cs h k.1)

  insert-IsSorted :
      (c : VmConfig Float Rest) (cs : List (VmConfig Float Rest))
      → IsSorted cs
      → IsSorted (insert_config c cs)
  unfolding insert_config IsSorted NotBefore
  insert-IsSorted c [] h = (tt, tt)
  insert-IsSorted c (d ∷ ds) h = elim (Bool-cases (int_less d.vm.id c.vm.id)) [
    | inl e ↦ rw e (
      insert-All (λ x. int_less x.vm.id d.vm.id ≡ false) c ds (less_asym d.vm.id c.vm.id e) h.0,
      insert-IsSorted c ds h.1,
    )
    | inr e ↦ rw e ((e, weaker d.vm.id c.vm.id ds e h.0), h)
  ]

  sort-IsSorted : (cs : List (VmConfig Float Rest)) → IsSorted (sort_configs cs)
  unfolding sort_configs IsSorted
  sort-IsSorted [] = tt
  sort-IsSorted (c ∷ cs) = insert-IsSorted c (sort_configs cs) (sort-IsSorted cs)

  sort-All :
      (P : VmConfig Float Rest → Type 0) (cs : List (VmConfig Float Rest))
      → All P cs
      → All P (sort_configs cs)
  unfolding sort_configs
  sort-All P [] h = tt
  sort-All P (c ∷ cs) h = insert-All P c (sort_configs cs) h.0 (sort-All P cs h.1)

module _ (itoa : ℤ → Text) {Float : Type 0} (zero_rate : Float) (parse_rate : Text → Option Float)
    (is_nan is_inf is_negative : Float → Bool) (to_mbps : Float → Float) (read_file : ℤ → FileRead)
    (host_cpus : ℕ) where
  abbrev config_at : ℤ → ConfigRead Float
  config_at id =
      read_config itoa zero_rate parse_rate is_nan is_inf is_negative to_mbps read_file host_cpus id

  -- A machine that is no template, under its positive id, as its file is read.
  pub IsListed : VmConfig Float Rest → Type 0
  IsListed c =
      (c.vm.template ≡ false) × (is_positive c.vm.id ≡ true) × (config_at c.vm.id ≡ config c)

  config_of-id :
      (id : ℤ) (raw : Text) (o : Option (VmConfig Float Rest)) (c : VmConfig Float Rest)
      → parse_config itoa zero_rate parse_rate is_nan is_inf is_negative to_mbps id raw host_cpus
        ≡ o
      → config_of o ≡ config c
      → c.vm.id ≡ id
  unfolding config_of
  config_of-id id raw none c e h = cc h
  config_of-id id raw (some d) c e h =
      parse_config-id itoa zero_rate parse_rate is_nan is_inf is_negative to_mbps id raw host_cpus c
        (cc (e, h))

  parsed_config-id :
      (id : ℤ) (file : FileRead) (c : VmConfig Float Rest)
      → parsed_config itoa zero_rate parse_rate is_nan is_inf is_negative to_mbps read_file
          host_cpus id file
        ≡ config c
      → c.vm.id ≡ id
  unfolding parsed_config
  parsed_config-id id missing c h = cc h
  parsed_config-id id unreadable c h = cc h
  parsed_config-id id (contents raw) c h = config_of-id id raw _ c refl h

  unless-All :
      (b : Bool) (c : VmConfig Float Rest) (cs : List (VmConfig Float Rest))
      → (b ≡ false → IsListed c)
      → All IsListed cs
      → All IsListed (if b then cs else c ∷ cs)
  unless-All true c cs k h = h
  unless-All false c cs k h = (k refl, h)

  put_config-All :
      (id : ℤ) (r : ConfigRead Float) (cs ds : List (VmConfig Float Rest))
      → config_at id ≡ r
      → is_positive id ≡ true
      → All IsListed cs
      → put_config r cs ≡ some ds
      → All IsListed ds
  unfolding put_config IsListed read_config
  put_config-All id absent cs ds e p h k = subst (All IsListed) (some_inj cs ds k) h
  put_config-All id broken cs ds e p h k = cc k
  put_config-All id (config c) cs ds e p h k =
      let same = sym (parsed_config-id id (read_file id) c e) in
      subst (All IsListed) (some_inj _ ds k) (
        unless-All c.vm.template c cs
          (λ t. (
            t,
            subst (λ i. is_positive i ≡ true) same p,
            subst (λ i. config_at i ≡ config c) same e,
          ))
          h)

  put_file-All :
      (o : Option ℤ) (cs ds : List (VmConfig Float Rest))
      → ((id : ℤ) → o ≡ some id → is_positive id ≡ true)
      → All IsListed cs
      → put_file itoa zero_rate parse_rate is_nan is_inf is_negative to_mbps read_file host_cpus o
          cs
        ≡ some ds
      → All IsListed ds
  unfolding put_file
  put_file-All none cs ds p h k = subst (All IsListed) (some_inj cs ds k) h
  put_file-All (some id) cs ds p h k = put_config-All id _ cs ds refl (p id refl) h k

  gather-All :
      (names : List Text) (cs : List (VmConfig Float Rest))
      → gather_configs itoa zero_rate parse_rate is_nan is_inf is_negative to_mbps read_file
          host_cpus names
        ≡ some cs
      → All IsListed cs
  unfolding gather_configs file_id
  gather-All [] cs h = subst (All IsListed) (some_inj [] cs h) tt
  gather-All (name ∷ names) cs h =
      let (rest, e, last) =
        and_then-some
          (gather_configs itoa zero_rate parse_rate is_nan is_inf is_negative to_mbps read_file
            host_cpus names)
          _ h in
      put_file-All (file_id name) rest cs (λ id k. usable_id_positive _ id k)
        (gather-All names rest e) last

  -- The configurations that inventory gives are those of machines that are no templates, each under
  -- the positive id that its file is named by, as the file is read, in the order of the ids.
  pub inventory-IsListed :
      (names : List Text) (cs : List (VmConfig Float Rest))
      → inventory itoa zero_rate parse_rate is_nan is_inf is_negative to_mbps read_file host_cpus
          names
        ≡ some cs
      → All IsListed cs × IsSorted cs
  unfolding inventory
  inventory-IsListed names cs h =
      let (found, e, last) =
        and_then-some
          (gather_configs itoa zero_rate parse_rate is_nan is_inf is_negative to_mbps read_file
            host_cpus names)
          _ h in
      let same = some_inj (sort_configs found) cs last in
      (
        subst (All IsListed) same (sort-All IsListed found (gather-All names found e)),
        subst IsSorted same (sort-IsSorted found),
      )
