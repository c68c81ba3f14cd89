-- ===== src/Collect/Raid/Zfs/Pools.antt =====
-- What parseZFSStatus gives for the pools of its text.
use ithiltir_node.Base.{
  either_branch, ℕ, suc, ◌+◌, ◌≡◌, ◌≢◌, refl, inl, inr, sym, ap, ◌∙◌, not, Option, none, some, List,
  [], ◌∷◌, ◌++◌, Text, codes, text_eq, trim_space, pos, int_eq, All, All-append, ltb, is_some,
  subst, length, starts_with, fields, split_at, if◌then◌else◌, Bool-cases, arith,
}
use ithiltir_node.Collect.Raid.{
  Health, healthy, degraded, unknown_health, Member, RaidArray, in_state, is_up, is_down, progress,
  to_upper,
}
use ithiltir_node.Collect.Raid.Zfs.{
  Zfs, counted_devices, counted_states, known_health, no_pools, flushed, flush_onto, flush,
  with_level, with_member, leaf, config_words, is_header, with_status, with_scan, new_pool,
  pool_line, inner_line, is_pool, start_pool, zfs_line, zfs_lines, parse_zfs_status,
}

-- A pool before flush: nothing is counted.
IsUncounted : RaidArray → Type 0
IsUncounted a =
    (a.devices ≡ pos 0) × (a.active ≡ pos 0) × (a.working ≡ pos 0) × (a.failed_count ≡ 0)

-- A pool after flush: as many devices as members, as many working and active as are up, as many
-- failed as are down, and a health.
pub IsSettled : RaidArray → Type 0
IsSettled a =
    (a.devices ≡ pos (length a.members))
    × (a.active ≡ pos (in_state is_up a.members))
    × (a.working ≡ pos (in_state is_up a.members))
    × (a.failed_count ≡ in_state is_down a.members)
    × (a.health ≢ unknown_health)

known : (h : Health) (n : ℕ) → known_health h n ≢ unknown_health
unfolding known_health
known healthy n e = cc e
known degraded n e = cc e
known unknown_health n e = elim (Bool-cases (ltb 0 n)) [
  | inl b ↦ cc (rw b at e)
  | inr b ↦ cc (rw b at e)
]

flushed_members :
    (name level status : Text) (h : Health) (ms : List Member) (sync progress : Text)
    → IsSettled (
        flushed (record {
          name = name;
          level = level;
          status = status;
          devices = pos 0;
          active = pos 0;
          working = pos 0;
          failed_count = 0;
          health = h;
          members = ms;
          sync_status = sync;
          sync_progress = progress;
        }))
unfolding flushed counted_devices counted_states IsSettled in_state int_eq
flushed_members name level status h [] sync progress = (refl, refl, refl, refl, known h 0)
flushed_members name level status h (m ∷ ms) sync progress =
    (refl, refl, refl, refl, known h (in_state is_down (m ∷ ms)))

flushed-IsSettled : (a : RaidArray) → IsUncounted a → IsSettled (flushed a)
unfolding IsUncounted
flushed-IsSettled a (d, c, w, f) =
    rw (d, c, w, f)
      (flushed_members a.name a.level a.status a.health a.members a.sync_status a.sync_progress)

with_level-IsUncounted :
    (name : Text) (a : RaidArray) → IsUncounted a → IsUncounted (with_level name a)
unfolding with_level IsUncounted
with_level-IsUncounted name a h = elim (Bool-cases (text_eq a.level (codes "unknown"))) [
  | inl e ↦ rw e h
  | inr e ↦ rw e h
]

with_member-IsUncounted :
    (name state : Text) (a : RaidArray) → IsUncounted a → IsUncounted (with_member name state a)
unfolding with_member IsUncounted
with_member-IsUncounted name state a h = elim (Bool-cases (leaf a.name name)) [
  | inl e ↦ rw e h
  | inr e ↦ rw e h
]

config_words-IsUncounted :
    (words : List Text) (a : RaidArray) → IsUncounted a → IsUncounted (config_words words a)
unfolding config_words
config_words-IsUncounted [] a h = h
config_words-IsUncounted (name ∷ []) a h = h
config_words-IsUncounted (name ∷ state ∷ words) a h =
    with_member-IsUncounted name (to_upper state) (with_level name a)
      (with_level-IsUncounted name a h)

-- The pool of the lines, if there is one, is not counted yet, and those before it are settled.
OpenPool : Option RaidArray → Type 0
OpenPool none = Unit
OpenPool (some a) = IsUncounted a

IsReading : Zfs → Type 0
IsReading z = OpenPool z.cur × All IsSettled z.res

-- What a line within a pool keeps: the pools before it, a pool, and that it is not counted.
Stays : Zfs → Zfs → Type 0
Stays z next = (next.res ≡ z.res) × OpenPool next.cur × (is_some next.cur ≡ is_some z.cur)

pool_line-Stays :
    (trim : Text) (a : RaidArray) (z : Zfs)
    → z.cur ≡ some a
    → IsUncounted a
    → Stays z (pool_line trim a z)
unfolding pool_line with_status with_scan OpenPool Stays IsUncounted
pool_line-Stays trim a z c h =
    let pool = subst OpenPool (sym c) h in
    let is_open = sym (ap is_some c) in
    let kept : Stays z z = (refl, pool, refl) in
    let P = Stays z in
    either_branch P (starts_with (codes "state:") trim) _ _ (refl, h, is_open)
      (either_branch P (starts_with (codes "scan:") trim) _ _ (refl, h, is_open)
        (either_branch P (text_eq trim (codes "config:")) _ _ kept (
          either_branch P (starts_with (codes "errors:") trim) _ _ kept (
            either_branch P (not z.in_config) _ _ kept (
              either_branch P (is_header z.skip_header trim) _ _ kept
                (refl, config_words-IsUncounted (fields trim) a h, is_open))))))

-- The lines that start a pool.
pub pools_of : List Text → ℕ
pools_of [] = 0
pools_of (raw ∷ lines) =
    let rest = pools_of lines in if is_pool (trim_space raw) then suc rest else rest

-- The pools that were read: those before, and the one of the lines.
pub count : Zfs → ℕ
count z = length z.res + (if is_some z.cur then 1 else 0)

length-onto : (res : List RaidArray) (a : RaidArray) → length (res ++ a ∷ []) ≡ length res + 1
length-onto [] a = refl
length-onto (r ∷ res) a = let rest = length-onto res a in omega arith

flush_onto-IsSettled :
    (cur : Option RaidArray) (res : List RaidArray)
    → OpenPool cur
    → All IsSettled res
    → All IsSettled (flush_onto cur res)
      × (length (flush_onto cur res) ≡ length res + (if is_some cur then 1 else 0))
unfolding flush_onto OpenPool
flush_onto-IsSettled none res h k = (k, omega arith)
flush_onto-IsSettled (some a) res h k = (
  All-append IsSettled res (flushed a ∷ []) k (flushed-IsSettled a h, tt),
  length-onto res (flushed a),
)

inner_line-reads :
    (trim : Text) (cur : Option RaidArray) (z : Zfs)
    → z.cur ≡ cur
    → IsReading z
    → IsReading (inner_line cur trim z) × (count (inner_line cur trim z) ≡ count z)
unfolding inner_line IsReading count Stays OpenPool
inner_line-reads trim none z e h = (h, refl)
inner_line-reads trim (some a) z e h =
    let (r, o, s) = pool_line-Stays trim a z e (subst OpenPool e h.0) in
    ((o, rw r h.1), rw (r, s) refl)

zfs_line-reads :
    (raw : Text) (z : Zfs)
    → IsReading z
    → IsReading (zfs_line raw z) × (count (zfs_line raw z) ≡ count z + pools_of (raw ∷ []))
unfolding zfs_line start_pool flush new_pool IsReading count pools_of OpenPool IsUncounted
zfs_line-reads raw z h = elim (Bool-cases (is_pool (trim_space raw))) [
  | inl e ↦
      let (a, n) = flush_onto-IsSettled z.cur z.res h.0 h.1 in
      rw e (((refl, refl, refl, refl), a), rw n refl)
  | inr e ↦ let (a, n) = inner_line-reads (trim_space raw) z.cur z refl h in rw e (a, omega arith)
]

pools_split :
    (raw : Text) (lines : List Text) (n : ℕ)
    → n + pools_of (raw ∷ []) + pools_of lines ≡ n + pools_of (raw ∷ lines)
unfolding pools_of
pools_split raw lines n = elim (Bool-cases (is_pool (trim_space raw))) [
  | inl e ↦ rw e (omega arith)
  | inr e ↦ rw e (omega arith)
]

zfs_lines-reads :
    (lines : List Text) (z : Zfs)
    → IsReading z
    → IsReading (zfs_lines lines z) × (count (zfs_lines lines z) ≡ count z + pools_of lines)
unfolding zfs_lines count pools_of
zfs_lines-reads [] z h = (h, omega arith)
zfs_lines-reads (raw ∷ lines) z h =
    let (a, n) = zfs_line-reads raw z h in
    let (b, m) = zfs_lines-reads lines (zfs_line raw z) a in
    (b, m ∙ ap (λ k. k + pools_of lines) n ∙ pools_split raw lines (count z))

-- parseZFSStatus gives one array for each line that starts a pool, whatever the other lines are,
-- and each is settled: as many devices as members, as many working and active ones as are up, as
-- many failed ones as are down, and a health that is not unknown.
pub parse_zfs_status-IsSettled :
    (s : Text)
    → All IsSettled (parse_zfs_status s)
      × (length (parse_zfs_status s) ≡ pools_of (split_at b'\n' s))
unfolding parse_zfs_status flush IsReading OpenPool count no_pools
parse_zfs_status-IsSettled s =
    let (h, n) = zfs_lines-reads (split_at b'\n' s) no_pools (tt, tt) in
    let z = zfs_lines (split_at b'\n' s) no_pools in
    let (a, m) = flush_onto-IsSettled z.cur z.res h.0 h.1 in (a, omega arith)
