-- ===== src/Pve/Monitor/Examples.antt =====
-- A monitor and a guest at concrete values.
use ithiltir_node.Base.{
  some_inj, ℕ, zero, suc, ◌≤◌, ◌≡◌, refl, sym, ap, ◌∙◌, Bool, true, false, Option, none, some, [],
  ◌∷◌, Text, codes, text_eq, text_less, ℤ, length, arith,
}
use ithiltir_node.Pve.Snapshot.{Addr, are_addresses}
use ithiltir_node.Pve.Monitor.{MonitorReply, answer_of, call_monitor, decode_ips}
use ithiltir_node.Pve.Monitor.Calls.{IsStale, stale_passed}
use ithiltir_node.Pve.Monitor.Addresses.{decode_ips-are_addresses}

-- A number as so many strokes.
abbrev strokes : ℕ → Text
strokes zero = []
strokes (suc n) = b'|' ∷ strokes n

length-strokes : (n : ℕ) → length (strokes n) ≡ n
length-strokes zero = refl
length-strokes (suc n) = ap (λ (k : ℕ). suc k) (length-strokes n)

strokes_inj : (m n : ℕ) → strokes m ≡ strokes n → m ≡ n
strokes_inj m n h = sym (length-strokes m) ∙ ap (λ (s : Text). length s) h ∙ length-strokes n

abbrev late : MonitorReply
late = record { id = strokes 1; error = none; result = some (codes "old") }

abbrev reply : MonitorReply
reply = record { id = strokes 3; error = none; result = some (codes "{}") }

stale_passed_example :
    call_monitor strokes false 2 (late ∷ reply ∷ []) ≡ (3, (answer_of reply.error reply.result, []))
unfolding IsStale
stale_passed_example =
    stale_passed strokes strokes_inj 2 (late ∷ []) [] reply ((1, omega arith, refl), tt) refl

abbrev as_is : Text → Option Addr
as_is s = some (record { zoned = false; is_global_unicast = true; unmapped = s })

abbrev never : ℕ → Bool
never n = false

abbrev no_number : Text → Option ℤ
no_number s = none

abbrev no_text : ℤ → Text
no_text n = []

as_is_back :
    (raw : Text) (a : Addr)
    → as_is raw ≡ some a
    → as_is a.unmapped
      ≡ some
          (record { zoned = false; is_global_unicast = a.is_global_unicast; unmapped = a.unmapped })
as_is_back raw a h =
    let global : a.is_global_unicast ≡ true =
      ap (λ (b : Addr). b.is_global_unicast) (sym (some_inj _ a h)) in
    rw global refl

decode_ips-are_addresses_example :
    (are_addresses as_is no_number no_text never never never []
        (codes "10.0.0.2" ∷ codes "10.0.0.3" ∷ [])
      ≡ true)
    × (length (codes "10.0.0.2" ∷ codes "10.0.0.3" ∷ []) ≤ 1024)
unfolding decode_ips text_eq text_less
decode_ips-are_addresses_example =
    decode_ips-are_addresses as_is as_is no_number no_text never never never
      (some (codes "10.0.0.3" ∷ codes "10.0.0.2" ∷ codes "10.0.0.3" ∷ []))
      (codes "10.0.0.2" ∷ codes "10.0.0.3" ∷ []) refl (λ raw a h z. as_is_back raw a h)
