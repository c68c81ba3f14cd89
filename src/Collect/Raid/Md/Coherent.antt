-- ===== src/Collect/Raid/Md/Coherent.antt =====
-- The counts and the health of an array of /proc/mdstat agree with its members.
use ithiltir_node.Base.{
  ◌+◌, ◌-◌, leb, if◌then◌else◌, either_branch, ℕ, zero, suc, ◌≤◌, ◌<◌, ◌≡◌, ◌⊎◌, refl, inl, inr,
  Bool, true, false, ◌&&◌, ◌||◌, not, Option, none, some, List, [], ◌∷◌, Text, trim_space, ℤ, pos,
  negsuc, All, ltb, ◌==◌, is_empty, length, fields, split_at, cut_at, starts_with, codes, text_eq,
  subst, and_then-some, Bool-cases, some_inj, Option-cases, arith,
}
use ithiltir_node.Collect.Raid.{
  MemberState, up, down, unclear, Health, healthy, degraded, unknown_health, Member, RaidArray,
  difference, in_state, is_down, progress, ends_with,
}
use ithiltir_node.Collect.Raid.Md.{
  inner_of, is_syncing, with_progress, status_words, new_array, after_name, without_suffix,
  line_words, is_other, has_devices, is_short, bracket, word, tokens, with_sync, is_indented,
  details, working_of, with_states, health_of, finished, put_array, member_names, array_line,
  arrays_from, parse_md_line, parse_md_stat,
}

-- No member yet, and none failed or working.
IsBare : RaidArray → Type 0
IsBare a = (a.members ≡ []) × (a.failed_count ≡ 0) × (a.working ≡ pos 0)

-- The health that fits the counts: `n` devices, if positive.
Fits : Health → ℤ → ℤ → ℕ → Type 0
Fits unknown_health devices active failed_count =
    (devices ≡ pos 0) ⊎ ((n : ℕ) × (devices ≡ negsuc n))
Fits degraded devices active failed_count =
    (n : ℕ) × (devices ≡ pos n)
    × (0 < n)
    × ((0 < failed_count) ⊎ (a : ℕ) × (active ≡ pos a) × (0 < a) × (a < n))
Fits healthy devices active failed_count =
    (n : ℕ) × (devices ≡ pos n)
    × (0 < n)
    × (failed_count ≡ 0)
    × ((a : ℕ) → active ≡ pos a → (a ≡ 0) ⊎ (n ≤ a))

-- The members that are down.
down_one : MemberState → ℕ
down_one up = 0
down_one down = 1
down_one unclear = 0

downs : List Member → ℕ
downs [] = 0
downs (m ∷ ms) = down_one m.state + downs ms

-- The devices less the failed members, as an int; none if there are no devices.
Remain : ℤ → ℕ → ℤ → Type 0
Remain (negsuc n) failed_count working = working ≡ pos 0
Remain (pos zero) failed_count working = working ≡ pos 0
Remain (pos (suc n)) failed_count working =
    (k : ℕ) × (((working ≡ pos k) × (k + failed_count ≡ suc n))
      ⊎ ((working ≡ negsuc k) × (suc n + suc k ≡ failed_count)))

-- The number of failed members is that of the members that are down; with devices and members, the
-- working ones are the devices less the failed ones; and the health fits the counts.
pub IsCoherent : RaidArray → Type 0
IsCoherent a =
    (a.failed_count ≡ downs a.members)
    × ((a.members ≡ []) ⊎ Remain a.devices a.failed_count a.working)
    × Fits a.health a.devices a.active a.failed_count

pos_inj : (m n : ℕ) → pos m ≡ pos n → m ≡ n
pos_inj m n h = cc

short_cases :
    (active : ℤ) (n : ℕ)
    → (((a : ℕ) × (active ≡ pos a) × (0 < a) × (a < n)) × (is_short active n ≡ true))
      ⊎ (((a : ℕ) → active ≡ pos a → (a ≡ 0) ⊎ (n ≤ a)) × (is_short active n ≡ false))
unfolding is_short
short_cases (negsuc a) n = inr (λ b e. cc e, refl)
short_cases (pos a) n = elim (Bool-cases (ltb 0 a && ltb a n)) [
  | inl e ↦ inl ((a, refl, ground arith, ground arith), e)
  | inr e ↦ inr (λ b f. let same = pos_inj a b f in ground arith, e)
]

health-Fits :
    (devices active : ℤ) (failed_count : ℕ)
    → Fits (health_of devices active failed_count) devices active failed_count
unfolding health_of Fits has_devices
health-Fits (negsuc n) active f = inr (n, refl)
health-Fits (pos zero) active f = inl refl
health-Fits (pos (suc n)) active f = elim (Bool-cases (ltb 0 f)) [
  | inl e ↦ rw e (suc n, refl, omega arith, inl (ground arith))
  | inr e ↦ elim (short_cases active (suc n)) [
    | inl (a, s) ↦ rw (e, s) (suc n, refl, omega arith, inr a)
    | inr (a, s) ↦ rw (e, s) (suc n, refl, omega arith, ground arith, a)
  ]
]

down_case :
    (s : MemberState) (ms : List Member)
    → in_state is_down ms ≡ downs ms
    → (if is_down s then suc (in_state is_down ms) else in_state is_down ms) ≡ down_one s + downs ms
unfolding down_one
down_case up ms h = omega (arith, h)
down_case down ms h = omega (arith, h)
down_case unclear ms h = omega (arith, h)

downs_lem : (ms : List Member) → in_state is_down ms ≡ downs ms
unfolding in_state downs down_one
downs_lem [] = refl
downs_lem (m ∷ ms) = down_case m.state ms (downs_lem ms)

working-Remain : (devices : ℤ) (f : ℕ) → Remain devices f (working_of devices f (pos 0))
unfolding Remain working_of difference
working-Remain (negsuc n) f = refl
working-Remain (pos zero) f = refl
working-Remain (pos (suc n)) f = elim (Bool-cases (leb f (suc n))) [
  | inl e ↦ rw e (suc n - f, inl (refl, ground arith))
  | inr e ↦ rw e (f - suc n - 1, inr (refl, ground arith))
]

finished-IsCoherent :
    (names : List Text) (states : Text) (a : RaidArray)
    → IsBare a
    → IsCoherent (finished names states a)
unfolding finished with_states IsBare IsCoherent downs in_state
finished-IsCoherent names states a (m, f, w) =
    elim (Bool-cases (not (is_empty states) && length names == length states)) [
      | inl e ↦
          rw (e, w)
            (downs_lem _, inr (working-Remain a.devices _), health-Fits a.devices a.active _)
      | inr e ↦ rw (e, m, f) (refl, inl refl, health-Fits a.devices a.active 0)
    ]

bracket-IsBare :
    (cut : Option (Text × Text)) (inner : Text) (a : RaidArray) (states : Text)
    → IsBare a
    → IsBare (bracket cut inner a states).0
unfolding bracket IsBare
bracket-IsBare none inner a states h = h
bracket-IsBare (some (t, b)) inner a states h = h

word-IsBare :
    (inner : Option Text) (a : RaidArray) (states : Text)
    → IsBare a
    → IsBare (word inner a states).0
unfolding word IsBare
word-IsBare none a states h = h
word-IsBare (some inner) a states h = bracket-IsBare (cut_at b'/' inner) inner a states h

tokens-IsBare :
    (ts : List Text) (a : RaidArray) (states : Text) → IsBare a → IsBare (tokens ts a states).0
unfolding tokens
tokens-IsBare [] a states h = h
tokens-IsBare (t ∷ ts) a states h =
    tokens-IsBare ts (word (inner_of t) a states).0 (word (inner_of t) a states).1
      (word-IsBare (inner_of t) a states h)

with_progress-IsBare : (s : Text) (a : RaidArray) → IsBare a → IsBare (with_progress s a)
unfolding with_progress IsBare
with_progress-IsBare [] a h = h
with_progress-IsBare (c ∷ s) a h = h

with_sync-IsBare : (l : Text) (a : RaidArray) → IsBare a → IsBare (with_sync l a)
unfolding with_sync IsBare
with_sync-IsBare l a h = elim (Bool-cases (is_syncing l)) [
  | inl e ↦ rw e (with_progress-IsBare (progress l) (record a { sync_status = l }) h)
  | inr e ↦ rw e h
]

details-IsBare :
    (lines : List Text) (a : RaidArray) (states : Text)
    → IsBare a
    → IsBare (details lines a states).0
unfolding details
details-IsBare [] a states h = h
details-IsBare (raw ∷ lines) a states h =
    let l = trim_space raw in
    let seen = tokens (fields l) a states in
    let later =
      details-IsBare lines (with_sync l seen.0) seen.1
        (with_sync-IsBare l seen.0 (tokens-IsBare (fields l) a states h)) in
    elim (Bool-cases (is_empty raw)) [
      | inl e ↦ rw e h
      | inr e ↦ elim (Bool-cases (is_indented raw)) [
        | inl f ↦ rw (e, f) later
        | inr f ↦ rw (e, f) h
      ]
    ]

-- An array that a line starts, if it starts one, is bare.
StartsBare : Option (RaidArray × List Text) → Type 0
StartsBare none = Unit
StartsBare (some (a, words)) = IsBare a

status_words-bare : (name : Text) (words : List Text) → StartsBare (status_words name words)
unfolding status_words new_array StartsBare IsBare
status_words-bare name [] = tt
status_words-bare name (status ∷ words) = (refl, refl, refl)

after_name-bare :
    (name : Text) (b : Bool) (second : Text) (words : List Text)
    → StartsBare (after_name name b second words)
unfolding after_name StartsBare
after_name-bare name true second words = status_words-bare name (second ∷ words)
after_name-bare name false second words =
    either_branch StartsBare (text_eq second (codes ":")) (status_words name words) none
      (status_words-bare name words) tt

line_words-bare : (words : List Text) → StartsBare (line_words words)
unfolding line_words StartsBare
line_words-bare [] = tt
line_words-bare (first ∷ []) = tt
line_words-bare (first ∷ second ∷ words) =
    let name = without_suffix (codes ":") first in
    either_branch StartsBare (starts_with (codes "md") name)
      (after_name name (ends_with (codes ":") first) second words) none
      (after_name-bare name (ends_with (codes ":") first) second words) tt

array_line-bare : (line : Text) → StartsBare (array_line line)
unfolding array_line parse_md_line StartsBare
array_line-bare line =
    either_branch StartsBare (is_other line) none (line_words (fields line)) tt
      (line_words-bare (fields line))

put_array-IsCoherent :
    (names : List Text) (a : RaidArray) (arrays : List RaidArray)
    → IsCoherent a
    → All IsCoherent arrays
    → All IsCoherent (put_array names a arrays)
unfolding put_array
put_array-IsCoherent names a arrays h k =
    elim (Bool-cases (has_devices a.devices || not (is_empty names))) [
      | inl e ↦ rw e (h, k)
      | inr e ↦ rw e k
    ]

arrays_from-IsCoherent :
    (fuel : ℕ) (lines : List Text) (arrays : List RaidArray)
    → arrays_from fuel lines ≡ some arrays
    → All IsCoherent arrays
unfolding arrays_from StartsBare
arrays_from-IsCoherent zero lines arrays h = cc h
arrays_from-IsCoherent (suc fuel) [] arrays h = subst (All IsCoherent) (some_inj [] arrays h) tt
arrays_from-IsCoherent (suc fuel) (raw ∷ lines) arrays h =
    elim (Option-cases (array_line (trim_space raw))) [
      | inl e ↦ arrays_from-IsCoherent fuel lines arrays (rw (arrays_from, e) at h)
      | inr ((a, words), e) ↦
          let bare = subst StartsBare e (array_line-bare (trim_space raw)) in
          let d = details lines a [] in
          let (rest, r, last) = and_then-some (arrays_from fuel d.2) _ (rw (arrays_from, e) at h) in
          let done = finished (member_names words) d.1 d.0 in
          subst (All IsCoherent) (some_inj _ arrays last) (
            put_array-IsCoherent (member_names words) done rest
              (finished-IsCoherent (member_names words) d.1 d.0 (details-IsBare lines a [] bare))
              (arrays_from-IsCoherent fuel d.2 rest r))
    ]

-- Every array that parseMDStat gives for whatever text has counts and a health that agree with
-- each other: as many failed members as are down; with members, as many working ones as devices
-- less the failed ones, if there are devices; degraded only if there are devices and some member
-- failed or fewer than the devices but more than none are active; healthy only with devices, no
-- failed member, and no such shortage; unknown only without devices.
pub parse_md_stat-IsCoherent :
    (s : Text) (arrays : List RaidArray) → parse_md_stat s ≡ some arrays → All IsCoherent arrays
unfolding parse_md_stat
parse_md_stat-IsCoherent s arrays h =
    arrays_from-IsCoherent (suc (length (split_at b'\n' s))) (split_at b'\n' s) arrays h
