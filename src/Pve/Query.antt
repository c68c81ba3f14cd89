-- ===== src/Pve/Query.antt =====
-- internal/virt/history.go, the query, and the errors of internal/virt/client.go.
use ithiltir_node.Base.{
  ◌≡◌, ◌↔◌, Bool, true, ◌&&◌, ◌||◌, not, List, [], ◌∷◌, Text, codes, text_eq, text_eq_iff, ℤ,
  int_eq, int_eq_iff, is_positive, pos_part, ltb, arith, exists_in,
}

pub record HistoryQuery : Type 0 where
  pub vmid : ℤ
  pub timeframe : Text
  pub consolidation : Text

-- The errors of a history request.
pub data Err : Type 0 where
  busy source_unavailable vm_not_found unsupported : Err
  canceled deadline_exceeded : Err
  other : Err

-- `a == b` on the struct.
unfoldable pub query_eq : HistoryQuery → HistoryQuery → Bool
query_eq a b =
    int_eq a.vmid b.vmid
    && text_eq a.timeframe b.timeframe
    && text_eq a.consolidation b.consolidation

pub query_eq_iff : (a b : HistoryQuery) → (query_eq a b ≡ true) ↔ (a ≡ b)
unfolding query_eq
query_eq_iff a b = ground (
  arith,
  int_eq_iff a.vmid b.vmid,
  text_eq_iff a.timeframe b.timeframe,
  text_eq_iff a.consolidation b.consolidation,
)

-- slices.Contains.
pub contains : List Text → Text → Bool
contains xs s = exists_in (λ x. text_eq x s) xs

abbrev timeframes : List Text
timeframes = codes "hour" ∷ codes "day" ∷ codes "week" ∷ codes "month" ∷ codes "year" ∷ []

abbrev consolidations : List Text
consolidations = codes "AVERAGE" ∷ codes "MAX" ∷ []

-- Validate; `true` is no error.
unfoldable pub is_valid_query : HistoryQuery → Bool
unfolding contains
is_valid_query q = not (
    not (is_positive q.vmid)
    || ltb 4294967295 (pos_part q.vmid)
    || not (contains timeframes q.timeframe)
    || not (contains consolidations q.consolidation))
