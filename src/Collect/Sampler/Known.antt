-- ===== src/Collect/Sampler/Known.antt =====
-- What the sampler keeps of the host when it is read again.
use ithiltir_node.Base.{
  ◌≡◌, ◌⊎◌, refl, inl, inr, Bool, true, false, ◌&&◌, ◌||◌, not, [], ◌∷◌, Text, ℤ, is_positive,
  is_empty, if◌then◌else◌, Bool-cases, arith,
}
use ithiltir_node.Collect.Sampler.{
  SysInfo, or_kept, merge_system, CpuInfo, or_count, or_one, normalize_cpu_info, merge_cpu,
  refresh_static,
}

-- A text that is the one that was read, or the old one if none was read.
IsKept : Text → Text → Text → Type 0
IsKept old read new =
    ((is_empty read ≡ false) × (new ≡ read)) ⊎ ((is_empty read ≡ true) × (new ≡ old))

-- With cores there are sockets.
HasSockets : {Float : Type 0} → CpuInfo Float → Type 0
HasSockets info =
    is_positive info.cores_logical || is_positive info.cores_physical ≡ true
    → is_positive info.sockets ≡ true

or_kept-IsKept : (old read : Text) → IsKept old read (or_kept old read)
unfolding or_kept IsKept
or_kept-IsKept old [] = inr (refl, refl)
or_kept-IsKept old (c ∷ s) = inl (refl, refl)

or_kept_twice : (old read : Text) → or_kept (or_kept old read) read ≡ or_kept old read
unfolding or_kept
or_kept_twice old [] = refl
or_kept_twice old (c ∷ s) = refl

or_count_twice : (old read : ℤ) → or_count (or_count old read) read ≡ or_count old read
unfolding or_count
or_count_twice old read = elim (Bool-cases (is_positive read)) [
  | inl e ↦ rw e refl
  | inr e ↦ rw e refl
]

or_count_positive :
    (old read : ℤ)
    → is_positive old || is_positive read ≡ true
    → is_positive (or_count old read) ≡ true
unfolding or_count
or_count_positive old read h = elim (Bool-cases (is_positive read)) [
  | inl e ↦ rw e e
  | inr e ↦ rw e (ground arith)
]

or_one_positive : (b : Bool) (n : ℤ) → b ≡ true → is_positive (or_one b n) ≡ true
unfolding or_one
or_one_positive b n h = elim (Bool-cases (is_positive n)) [
  | inl e ↦ rw e e
  | inr e ↦ rw (e, h) refl
]

or_count_read : (old read : ℤ) → is_positive read ≡ true → or_count old read ≡ read
unfolding or_count
or_count_read old read h = rw h refl

or_count_old : (old read : ℤ) → is_positive read ≡ false → or_count old read ≡ old
unfolding or_count
or_count_old old read h = rw h refl

or_one_idem : (b : Bool) (n : ℤ) → or_one b (or_one b n) ≡ or_one b n
unfolding or_one
or_one_idem b n = elim (Bool-cases (not (is_positive n) && b)) [
  | inl e ↦ rw e refl
  | inr e ↦ rw (e, e) refl
]

or_one_twice :
    (b : Bool) (old read : ℤ)
    → or_one b (or_count (or_one b (or_count old read)) read) ≡ or_one b (or_count old read)
or_one_twice b old read = elim (Bool-cases (is_positive read)) [
  | inl e ↦ rw (or_count_read (or_one b (or_count old read)) read e, or_count_read old read e) refl
  | inr e ↦
      rw (or_count_old (or_one b (or_count old read)) read e, or_count_old old read e)
        (or_one_idem b old)
]

ap2_pair {ℓ} :
    {A B : Type ℓ} {a a' : A} {b b' : B} → a ≡ a' → b ≡ b' → ◌≡◌ {A = A × B} (a, b) (a', b')
ap2_pair p q = rw (p, q) refl

module _ {Float : Type 0} (is_above : Float → Bool) where
  frequency_twice :
      (old read : Float)
      → (if is_above read then read else (if is_above read then read else old))
        ≡ (if is_above read then read else old)
  frequency_twice old read = elim (Bool-cases (is_above read)) [
    | inl e ↦ rw e refl
    | inr e ↦ rw e refl
  ]

  merge_cpu_twice :
      (old read : CpuInfo Float)
      → merge_cpu is_above (merge_cpu is_above old read) read ≡ merge_cpu is_above old read
  unfolding merge_cpu normalize_cpu_info
  merge_cpu_twice old read =
      rw
        (
          or_kept_twice old.model_name read.model_name,
          or_kept_twice old.vendor_id read.vendor_id,
          or_count_twice old.cores_physical read.cores_physical,
          or_count_twice old.cores_logical read.cores_logical,
          or_one_twice _ old.sockets read.sockets,
          frequency_twice old.frequency_mhz read.frequency_mhz,
        )
        refl

  merge_system_twice :
      (old read : SysInfo) → merge_system (merge_system old read) read ≡ merge_system old read
  unfolding merge_system
  merge_system_twice old read =
      rw
        (
          or_kept_twice old.hostname read.hostname,
          or_kept_twice old.os read.os,
          or_kept_twice old.platform read.platform,
          or_kept_twice old.platform_version read.platform_version,
          or_kept_twice old.kernel_version read.kernel_version,
          or_kept_twice old.arch read.arch,
        )
        refl

  -- What reading the host makes of what was known.
  pub IsRefreshed :
      SysInfo × CpuInfo Float → SysInfo × CpuInfo Float → SysInfo × CpuInfo Float → Type 0
  IsRefreshed old read new =
      IsKept old.0.hostname read.0.hostname new.0.hostname
      × IsKept old.0.os read.0.os new.0.os
      × IsKept old.0.platform read.0.platform new.0.platform
      × IsKept old.0.platform_version read.0.platform_version new.0.platform_version
      × IsKept old.0.kernel_version read.0.kernel_version new.0.kernel_version
      × IsKept old.0.arch read.0.arch new.0.arch
      × IsKept old.1.model_name read.1.model_name new.1.model_name
      × IsKept old.1.vendor_id read.1.vendor_id new.1.vendor_id
      × HasSockets new.1
      × (refresh_static is_above new read ≡ new)

  -- Reading the host again keeps of each text the last that was not empty, gives sockets wherever
  -- there are cores, and a second time with the same reading changes nothing.
  pub refresh_static-IsRefreshed :
      (old read : SysInfo × CpuInfo Float) → IsRefreshed old read (refresh_static is_above old read)
  unfolding IsRefreshed refresh_static merge_system merge_cpu normalize_cpu_info HasSockets
  refresh_static-IsRefreshed old read =
      let (sys, cpu) = old in
      let (read_sys, read_cpu) = read in
      (
        or_kept-IsKept sys.hostname read_sys.hostname,
        or_kept-IsKept sys.os read_sys.os,
        or_kept-IsKept sys.platform read_sys.platform,
        or_kept-IsKept sys.platform_version read_sys.platform_version,
        or_kept-IsKept sys.kernel_version read_sys.kernel_version,
        or_kept-IsKept sys.arch read_sys.arch,
        or_kept-IsKept cpu.model_name read_cpu.model_name,
        or_kept-IsKept cpu.vendor_id read_cpu.vendor_id,
        (λ h. or_one_positive _ (or_count cpu.sockets read_cpu.sockets) h),
        ap2_pair (merge_system_twice sys read_sys) (merge_cpu_twice cpu read_cpu),
      )
