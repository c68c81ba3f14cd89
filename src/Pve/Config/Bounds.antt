-- ===== src/Pve/Config/Bounds.antt =====
-- The numbers of a configuration, and the lines that count.
use ithiltir_node.Base.{
  ℕ, zero, suc, ◌+◌, ◌*◌, ◌≤◌, ◌<◌, ◌^◌, min, ◌≡◌, inl, inr, refl, sym, ap, subst, Bool, true,
  Option, none, some, List, [], ◌∷◌, ◌++◌, Text, codes, trim_space, ℤ, pos, negsuc, is_empty,
  starts_with, cut_at, split_at, parse_int, without_prefix, and_then-some, Bool-cases, some_inj,
  Option-cases, arith,
}
use ithiltir_node.Pve.Collector.{VmConfig}
use ithiltir_node.Pve.Config.{
  Rest, config_fields, field, in_range, number, numbers, named_vm, with_numbers,
  network_rate_limits, limit_line, limits_from, parse_config,
}

range_lem : (o : Option ℤ) (n : ℕ) → in_range o ≡ some n → (1 ≤ n) × (n < 2 ^ 31)
unfolding in_range
range_lem none n h = ground arith
range_lem (some (negsuc k)) n h = ground arith
range_lem (some (pos k)) n h = ground arith

number_lem :
    (prefix value : Text) (fallback n low high : ℕ)
    → number prefix value fallback ≡ some n
    → low ≤ fallback
    → fallback < high
    → low ≤ 1
    → 2 ^ 31 ≤ high
    → (low ≤ n) × (n < high)
unfolding number
number_lem prefix value fallback n low high e a b c d = elim (Bool-cases (is_empty value)) [
  | inl f ↦ ground arith
  | inr f ↦
      let r = range_lem (parse_int (without_prefix prefix value)) n (rw f at e) in
      (omega (arith, r.0), omega (arith, r.1))
]

product_low : (a b : ℕ) → 1 ≤ a → 1 ≤ b → 1 ≤ a * b
product_low zero b h k = absurd (omega arith)
product_low (suc a) zero h k = absurd (omega arith)
product_low (suc a) (suc b) h k = ground arith

product_high : (a b n : ℕ) → a < n → b < n → a * b < n * n
product_high a b n h k = grind arith

section_ends :
    (lines more : List Text) (section : Text) (m : List (Text × Text))
    → starts_with (codes "[") (trim_space section) ≡ true
    → config_fields (lines ++ section ∷ more) m ≡ config_fields lines m
unfolding config_fields
section_ends [] more section m h = rw h refl
section_ends (raw ∷ lines) more section m h =
    elim (Bool-cases (starts_with (codes "[") (trim_space raw))) [
      | inl e ↦ rw e refl
      | inr e ↦ rw e (section_ends lines more section _ h)
    ]

pair_inj : (a b c d : ℕ) → ◌≡◌ {A = Option (ℕ × ℕ)} (some (a, b)) (some (c, d)) → (a ≡ c) × (b ≡ d)
pair_inj a b c d h = ground arith

module _ (itoa : ℤ → Text) {Float : Type 0} (zero_rate : Float) (parse_rate : Text → Option Float)
    (is_nan is_inf is_negative : Float → Bool) (to_mbps : Float → Float) where
  -- The numbers of a configuration that is read.
  pub record InRange (host_cpus cpus memory : ℕ) : Type 0 where
    pub some_cpus : 1 ≤ cpus
    pub few_cpus : cpus < 2 ^ 31 + host_cpus
    pub some_memory : 1 ≤ memory
    pub few_memory : memory < 2 ^ 31

  numbers_lem :
      (m : List (Text × Text)) (host_cpus cpus memory : ℕ)
      → numbers itoa zero_rate parse_rate is_nan is_inf is_negative to_mbps m host_cpus
        ≡ some (cpus, memory)
      → 1 ≤ host_cpus
      → InRange host_cpus cpus memory
  unfolding numbers
  numbers_lem m host_cpus cpus memory h k =
      let (cores, c, h₁) = and_then-some (number [] (field (codes "cores") m) 1) _ h in
      let (sockets, s, h₂) = and_then-some (number [] (field (codes "sockets") m) 1) _ h₁ in
      let (n, v, h₃) =
        and_then-some (number [] (field (codes "vcpus") m) (min (cores * sockets) host_cpus)) _
          h₂ in
      let (size, z, h₄) =
        and_then-some (number (codes "current=") (field (codes "memory") m) 512) _ h₃ in
      let cores_range =
        number_lem [] (field (codes "cores") m) 1 cores 1 (2 ^ 31) c (omega arith) (omega arith)
          (omega arith) (omega arith) in
      let sockets_range =
        number_lem [] (field (codes "sockets") m) 1 sockets 1 (2 ^ 31) s (omega arith) (omega arith)
          (omega arith) (omega arith) in
      let some_product = product_low cores sockets cores_range.0 sockets_range.0 in
      let cpus_range =
        number_lem [] (field (codes "vcpus") m) (min (cores * sockets) host_cpus) n 1
          (2 ^ 31 + host_cpus) v (ground (arith, some_product)) (ground arith) (omega arith)
          (omega arith) in
      let memory_range =
        number_lem (codes "current=") (field (codes "memory") m) 512 size 1 (2 ^ 31) z (omega arith)
          (omega arith) (omega arith) (omega arith) in
      let same = pair_inj n size cpus memory h₄ in
      record {
        some_cpus = subst (λ (t : ℕ). 1 ≤ t) same.0 cpus_range.0;
        few_cpus = subst (λ (t : ℕ). t < 2 ^ 31 + host_cpus) same.0 cpus_range.1;
        some_memory = subst (λ (t : ℕ). 1 ≤ t) same.1 memory_range.0;
        few_memory = subst (λ (t : ℕ). t < 2 ^ 31) same.1 memory_range.1;
      }

  -- On a host of at least one processor, a configuration that is read gives the machine at least
  -- one processor and fewer than 2^31 more than the host has, and a memory of at least one and
  -- fewer than 2^31 times 2^20 bytes.
  pub parse_config-InRange :
      (id : ℤ) (raw : Text) (host_cpus : ℕ) (cfg : VmConfig Float Rest)
      → parse_config itoa zero_rate parse_rate is_nan is_inf is_negative to_mbps id raw host_cpus
        ≡ some cfg
      → 1 ≤ host_cpus
      → (cpus : ℕ) × (memory : ℕ) × (cfg.vm.cpus ≡ some (pos cpus))
        × (cfg.vm.memory_limit ≡ some (pos (memory * 1024 * 1024)))
        × InRange host_cpus cpus memory
  unfolding parse_config with_numbers
  parse_config-InRange id raw host_cpus cfg h k =
      let m = config_fields (split_at b'\n' raw) [] in
      let ((cpus, memory), n, last) =
        and_then-some
          (numbers itoa zero_rate parse_rate is_nan is_inf is_negative to_mbps m host_cpus) _ h in
      let same = some_inj _ cfg last in
      (
        cpus,
        memory,
        ap (λ c. c.vm.cpus) (sym same),
        ap (λ c. c.vm.memory_limit) (sym same),
        numbers_lem m host_cpus cpus memory n k,
      )

  -- A configuration that is read has the id that it was asked for.
  pub parse_config-id :
      (id : ℤ) (raw : Text) (host_cpus : ℕ) (cfg : VmConfig Float Rest)
      → parse_config itoa zero_rate parse_rate is_nan is_inf is_negative to_mbps id raw host_cpus
        ≡ some cfg
      → cfg.vm.id ≡ id
  unfolding parse_config with_numbers named_vm
  parse_config-id id raw host_cpus cfg h =
      let m = config_fields (split_at b'\n' raw) [] in
      let (n, e, last) =
        and_then-some
          (numbers itoa zero_rate parse_rate is_nan is_inf is_negative to_mbps m host_cpus) _ h in
      ap (λ c. c.vm.id) (sym (some_inj _ cfg last))

  limits_end :
      (lines more : List Text) (section : Text) (limits : List (Text × Float))
      → starts_with (codes "[") (trim_space section) ≡ true
      → limits_from itoa zero_rate parse_rate is_nan is_inf is_negative to_mbps
          (lines ++ section ∷ more)
          limits
        ≡ limits_from itoa zero_rate parse_rate is_nan is_inf is_negative to_mbps lines limits
  unfolding limits_from
  limits_end [] more section limits h = rw h refl
  limits_end (raw ∷ lines) more section limits h =
      elim (Bool-cases (starts_with (codes "[") (trim_space raw))) [
        | inl e ↦ rw e refl
        | inr e ↦
            elim (Option-cases (
              limit_line itoa zero_rate parse_rate is_nan is_inf is_negative to_mbps
                (cut_at b':' (trim_space raw)) limits)) [
                  | inl f ↦ rw (e, f) refl
                  | inr (next, f) ↦ rw (e, f) (limits_end lines more section next h)
                ]
      ]

  -- Pending changes and saved snapshots, which follow a line that starts with a bracket, change
  -- nothing of what is read.
  parse_config_sections :
      (id : ℤ) (raw current : Text) (host_cpus : ℕ) (section : Text) (more : List Text)
      → starts_with (codes "[") (trim_space section) ≡ true
      → split_at b'\n' raw ≡ split_at b'\n' current ++ section ∷ more
      → parse_config itoa zero_rate parse_rate is_nan is_inf is_negative to_mbps id raw host_cpus
        ≡ parse_config itoa zero_rate parse_rate is_nan is_inf is_negative to_mbps id current
            host_cpus
  unfolding parse_config network_rate_limits
  parse_config_sections id raw current host_cpus section more h e =
      let lines = split_at b'\n' current in
      rw (e, section_ends lines more section [] h, limits_end lines more section [] h) refl
