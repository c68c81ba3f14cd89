-- ===== src/Collect/Counters/Merge.antt =====
-- The counters of one network interface.
use ithiltir_node.Base.{
  ℕ, ◌+◌, ◌%◌, ◌^◌, ◌<◌, ◌≡◌, Option, none, some, List, [], ◌∷◌, Text, text_eq, if◌then◌else◌, All,
}
use ithiltir_node.Collect.Counters.{NetCounter, add_counter}

-- The reference: the counters of one name, added up in their order.
add_found : Option NetCounter → NetCounter → Option NetCounter
add_found none n = some n
add_found (some c) n = some (add_counter c n)

sum_named : Text → Option NetCounter → List NetCounter → Option NetCounter
unfolding add_found
sum_named name total [] = total
sum_named name total (n ∷ ns) =
    sum_named name (if text_eq name n.name then add_found total n else total) ns

-- What one field of the counters of a name adds up to.
pub total_by : (NetCounter → ℕ) → Text → List NetCounter → ℕ
total_by field name [] = 0
total_by field name (n ∷ ns) = (if text_eq name n.name then field n else 0) + total_by field name ns

-- All fields of the counters fit 64 bits.
pub record Fit (ns : List NetCounter) : Type 0 where
  pub fit_bytes_recv : All (λ (n : NetCounter). n.bytes_recv < 2 ^ 64) ns
  pub fit_bytes_sent : All (λ (n : NetCounter). n.bytes_sent < 2 ^ 64) ns
  pub fit_packets_recv : All (λ (n : NetCounter). n.packets_recv < 2 ^ 64) ns
  pub fit_packets_sent : All (λ (n : NetCounter). n.packets_sent < 2 ^ 64) ns
  pub fit_err_in : All (λ (n : NetCounter). n.err_in < 2 ^ 64) ns
  pub fit_err_out : All (λ (n : NetCounter). n.err_out < 2 ^ 64) ns
  pub fit_drop_in : All (λ (n : NetCounter). n.drop_in < 2 ^ 64) ns
  pub fit_drop_out : All (λ (n : NetCounter). n.drop_out < 2 ^ 64) ns

-- The fields of one counter are those of a name added up.
pub record IsTotal (name : Text) (ns : List NetCounter) (d : NetCounter) : Type 0 where
  pub sum_bytes_recv : d.bytes_recv ≡ total_by (λ n. n.bytes_recv) name ns % 2 ^ 64
  pub sum_bytes_sent : d.bytes_sent ≡ total_by (λ n. n.bytes_sent) name ns % 2 ^ 64
  pub sum_packets_recv : d.packets_recv ≡ total_by (λ n. n.packets_recv) name ns % 2 ^ 64
  pub sum_packets_sent : d.packets_sent ≡ total_by (λ n. n.packets_sent) name ns % 2 ^ 64
  pub sum_err_in : d.err_in ≡ total_by (λ n. n.err_in) name ns % 2 ^ 64
  pub sum_err_out : d.err_out ≡ total_by (λ n. n.err_out) name ns % 2 ^ 64
  pub sum_drop_in : d.drop_in ≡ total_by (λ n. n.drop_in) name ns % 2 ^ 64
  pub sum_drop_out : d.drop_out ≡ total_by (λ n. n.drop_out) name ns % 2 ^ 64
