-- ===== src/Pve/Client/Examples.antt =====
-- The theorem on replies at a small result.
use ithiltir_node.Base.{ℕ, ◌≡◌, Text, codes, ok, err, arith}
use ithiltir_node.Pve.Query.{other, source_unavailable}
use ithiltir_node.Pve.Client.{call, respond, call-respond}

abbrev bad_gateway : ℕ → Text
bad_gateway status = codes "Bad Gateway"

call-respond_example :
    (call 2097152 (respond bad_gateway (ok (codes "[]"))) ≡ ok (codes "[]"))
    × (call 2097152 (respond bad_gateway (err other)) ≡ err source_unavailable)
call-respond_example = call-respond 2097152 bad_gateway (codes "[]") other (omega arith) (λ h. cc h)
