-- ===== src/Collect/Raid/Md/Enough.antt =====
-- The fuel of the loop over /proc/mdstat is enough.
use ithiltir_node.Base.{
  ℕ, zero, suc, ◌≤◌, ◌<◌, ◌≡◌, refl, inl, inr, some, List, [], ◌∷◌, Text, trim_space, is_empty,
  length, fields, split_at, Bool-cases, Option-cases, arith,
}
use ithiltir_node.Collect.Raid.{RaidArray}
use ithiltir_node.Collect.Raid.Md.{
  tokens, with_sync, is_indented, details, finished, put_array, member_names, array_line,
  arrays_from, parse_md_stat,
}

-- The lines after the details of an array are no more than before.
left_fewer :
    (lines : List Text) (array : RaidArray) (states : Text)
    → length (details lines array states).2 ≤ length lines
unfolding details
left_fewer [] array states = omega arith
left_fewer (raw ∷ lines) array states =
    let (counted, seen) = tokens (fields (trim_space raw)) array states in
    let later = left_fewer lines (with_sync (trim_space raw) counted) seen in
    elim (Bool-cases (is_empty raw)) [
      | inl e ↦ rw e (omega arith)
      | inr e ↦ elim (Bool-cases (is_indented raw)) [
        | inl f ↦ rw (e, f) (omega arith)
        | inr f ↦ rw (e, f) (omega arith)
      ]
    ]

fuel_enough :
    (fuel : ℕ) (lines : List Text)
    → length lines < fuel
    → (arrays : List RaidArray) × (arrays_from fuel lines ≡ some arrays)
unfolding arrays_from
fuel_enough zero lines h = absurd (omega arith)
fuel_enough (suc fuel) [] h = ([], refl)
fuel_enough (suc fuel) (raw ∷ lines) h = elim (Option-cases (array_line (trim_space raw))) [
  | inl e ↦
      let (arrays, r) = fuel_enough fuel lines (omega arith) in (arrays, rw (arrays_from, e) r)
  | inr ((array, words), e) ↦
      let fewer = left_fewer lines array [] in
      let (detailed, states, left) = details lines array [] in
      let (arrays, r) = fuel_enough fuel (details lines array []).2 (omega arith) in
      let names = member_names words in
      (put_array names (finished names states detailed) arrays, rw (arrays_from, e, r) refl)
]

-- parseMDStat returns on every text: of the fuel of one step for each line and one more, the loop
-- over the lines never runs out, though the details of an array take lines away from it.
pub parse_md_stat_returns : (s : Text) → (arrays : List RaidArray) × (parse_md_stat s ≡ some arrays)
unfolding parse_md_stat
parse_md_stat_returns s =
    fuel_enough (suc (length (split_at b'\n' s))) (split_at b'\n' s) (omega arith)
