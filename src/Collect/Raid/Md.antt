-- ===== src/Collect/Raid/Md.antt =====
-- parseMDStat and parseMDLine of internal/collect/storage_raid_linux.go, on the lines of
-- /proc/mdstat. The outer loop is recursion on fuel.
pub mod Enough
pub mod Coherent
use ithiltir_node.Base.{
  ℕ, zero, suc, Bool, true, false, ◌&&◌, ◌||◌, not, Option, none, some, List, [], ◌∷◌, Text, codes,
  text_eq, trim_space, ℤ, pos, negsuc, ltb, ◌==◌, if◌then◌else◌, is_empty, length, starts_with,
  after_prefix, before_suffix, has_part, cut_at, fields, split_at, parse_int, and_then,
}
use ithiltir_node.Collect.Raid.{
  MemberState, up, down, unclear, Health, healthy, degraded, unknown_health, Member, RaidArray,
  difference, in_state, is_down, ends_with, progress, to_lower,
}

md_level : Text → Bool
md_level raw =
    let s = to_lower (trim_space raw) in
    starts_with (codes "raid") s || text_eq s (codes "linear") || text_eq s (codes "multipath")

-- The loop for the level: the level, and the words that are left.
pub level_of : List Text → Text × List Text
unfolding md_level
level_of [] = ([], [])
level_of (f ∷ fs) =
    let later = level_of fs in
    if md_level f then (f, fs) else if has_part (codes "[") f then ([], f ∷ fs) else later

pub new_array : Text → Text → Text → RaidArray
new_array name status level = record {
  name = name;
  level = level;
  status = status;
  devices = pos 0;
  active = pos 0;
  working = pos 0;
  failed_count = 0;
  health = unknown_health;
  members = [];
  sync_status = [];
  sync_progress = [];
}

-- From the status on.
pub status_words : Text → List Text → Option (RaidArray × List Text)
unfolding level_of new_array
status_words name [] = none
status_words name (status ∷ words) =
    let (level, left) = level_of words in some (new_array name status level, left)

-- From the second word on, with the name and whether the colon is on it.
pub after_name : Text → Bool → Text → List Text → Option (RaidArray × List Text)
unfolding status_words
after_name name true second words = status_words name (second ∷ words)
after_name name false second words =
    if text_eq second (codes ":") then status_words name words else none

-- strings.TrimSuffix.
pub without_suffix : Text → Text → Text
without_suffix p s = elim (before_suffix p s) [ none ↦ s | some rest ↦ rest ]

pub line_words : List Text → Option (RaidArray × List Text)
unfolding after_name without_suffix
line_words [] = none
line_words (first ∷ []) = none
line_words (first ∷ second ∷ words) =
    let name = without_suffix (codes ":") first in
    if starts_with (codes "md") name
    then after_name name (ends_with (codes ":") first) second words
    else none

-- parseMDLine: the array and the words of its members; `none` is false.
pub parse_md_line : Text → Option (RaidArray × List Text)
unfolding line_words
parse_md_line line = line_words (fields line)

put_name : Option (Text × Text) → List Text → List Text
put_name none names = names
put_name (some ([], _)) names = names
put_name (some (c ∷ name, _)) names = (c ∷ name) ∷ names

-- `members`: what stands before the `[` of each word.
pub member_names : List Text → List Text
unfolding put_name
member_names [] = []
member_names (f ∷ fs) = put_name (cut_at b'[' f) (member_names fs)

or_number : Option ℤ → ℤ → ℤ
or_number none old = old
or_number (some n) old = n

-- The inner text of a word in brackets: two counts, or the states.
pub bracket : Option (Text × Text) → Text → RaidArray → Text → RaidArray × Text
unfolding or_number
bracket (some (total, active)) inner array states = (
  record array {
    devices = or_number (parse_int total) array.devices;
    active = or_number (parse_int active) array.active;
  },
  states,
)
bracket none inner array states = (array, inner)

pub word : Option Text → RaidArray → Text → RaidArray × Text
unfolding bracket
word none array states = (array, states)
word (some inner) array states = bracket (cut_at b'/' inner) inner array states

-- The text between `[` and `]`.
pub inner_of : Text → Option Text
inner_of t = and_then (after_prefix (codes "[") t) (before_suffix (codes "]"))

-- The loop over the words of one line.
pub tokens : List Text → RaidArray → Text → RaidArray × Text
unfolding word inner_of
tokens [] array states = (array, states)
tokens (t ∷ ts) array states =
    let (next, later) = word (inner_of t) array states in tokens ts next later

pub is_syncing : Text → Bool
is_syncing l =
    has_part (codes "resync") l
    || has_part (codes "recovery") l
    || has_part (codes "reshape") l
    || has_part (codes "check") l

pub with_progress : Text → RaidArray → RaidArray
with_progress [] array = array
with_progress (c ∷ s) array = record array { sync_progress = c ∷ s }

pub with_sync : Text → RaidArray → RaidArray
unfolding is_syncing with_progress
with_sync l array =
    if is_syncing l then with_progress (progress l) (record array { sync_status = l }) else array

pub is_indented : Text → Bool
is_indented raw = starts_with (codes " ") raw || starts_with (b'\t' ∷ []) raw

-- `details`, from the line after that of the array: the array, the states, and the lines that the
-- outer loop goes on with. A blank line is passed, a line of another array is not.
pub details : List Text → RaidArray → Text → RaidArray × Text × List Text
unfolding tokens with_sync is_indented
details [] array states = (array, states, [])
details (raw ∷ lines) array states =
    let l = trim_space raw in
    let (counted, seen) = tokens (fields l) array states in
    let later = details lines (with_sync l counted) seen in
    if is_empty raw
    then (array, states, lines)
    else if is_indented raw
    then later
    else (array, states, raw ∷ lines)

state_of : ℕ → MemberState
state_of ch = if ch == b'U' || ch == b'u' then up else if ch == b'_' then down else unclear

member_states : List Text → Text → List Member
unfolding state_of
member_states [] states = []
member_states (name ∷ names) [] = []
member_states (name ∷ names) (ch ∷ states) =
    record { name = name; state = state_of ch } ∷ member_states names states

-- `array.Devices - failed` if there are devices.
pub working_of : ℤ → ℕ → ℤ → ℤ
working_of (pos zero) failed_count old = old
working_of (pos (suc n)) failed_count old = difference (suc n) failed_count
working_of (negsuc n) failed_count old = old

pub with_states : List Text → Text → RaidArray → RaidArray
unfolding member_states working_of
with_states names states array =
    let members = member_states names states in
    let failed_count = in_state is_down members in
    if not (is_empty states) && length names == length states
    then record array {
      members = members;
      failed_count = failed_count;
      working = working_of array.devices failed_count array.working;
    }
    else array

-- `array.Active > 0 && array.Active < array.Devices`, of positive devices.
pub is_short : ℤ → ℕ → Bool
is_short (pos a) n = ltb 0 a && ltb a n
is_short (negsuc a) n = false

pub health_of : ℤ → ℤ → ℕ → Health
unfolding is_short
health_of (pos zero) active failed_count = unknown_health
health_of (pos (suc n)) active failed_count =
    if ltb 0 failed_count || is_short active (suc n) then degraded else healthy
health_of (negsuc n) active failed_count = unknown_health

-- What follows the details of an array.
pub finished : List Text → Text → RaidArray → RaidArray
unfolding with_states health_of
finished names states array =
    let a = with_states names states array in
    record a { health = health_of a.devices a.active a.failed_count }

pub has_devices : ℤ → Bool
has_devices (pos n) = ltb 0 n
has_devices (negsuc n) = false

pub put_array : List Text → RaidArray → List RaidArray → List RaidArray
unfolding has_devices
put_array names array arrays =
    if has_devices array.devices || not (is_empty names) then array ∷ arrays else arrays

pub is_other : Text → Bool
is_other line =
    is_empty line
    || starts_with (codes "Personalities") line
    || starts_with (codes "unused devices") line
    || starts_with (codes "read_ahead") line
    || not (starts_with (codes "md") line)

-- The array that a line starts, if it does.
pub array_line : Text → Option (RaidArray × List Text)
unfolding is_other parse_md_line
array_line line = if is_other line then none else parse_md_line line

-- The outer loop; `none` is out of fuel.
pub arrays_from : ℕ → List Text → Option (List RaidArray)
unfolding details finished put_array member_names array_line
arrays_from zero lines = none
arrays_from (suc fuel) [] = some []
arrays_from (suc fuel) (raw ∷ lines) = elim (array_line (trim_space raw)) [
  | none ↦ arrays_from fuel lines
  | some (array, words) ↦
      let (detailed, states, left) = details lines array [] in
      let names = member_names words in
      and_then (arrays_from fuel left)
        (λ arrays. some (put_array names (finished names states detailed) arrays))
]

-- parseMDStat.
unfoldable pub parse_md_stat : Text → Option (List RaidArray)
unfolding arrays_from
parse_md_stat s = let lines = split_at b'\n' s in arrays_from (suc (length lines)) lines
