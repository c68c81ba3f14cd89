-- ===== src/Pve/Client.antt =====
-- How a history request crosses the socket: the answer that internal/pve/serve.go gives to the
-- result of the cache, and what `call` of internal/virt/client.go makes of a reply.
mod Examples
use ithiltir_node.Base.{
  ℕ, ◌≤◌, ◌≡◌, ◌≢◌, refl, Option, none, some, [], Text, Result, ok, err, ◌==◌, leb, length,
  if◌then◌else◌, arith,
}
use ithiltir_node.Pve.Query.{
  Err, busy, source_unavailable, vm_not_found, unsupported, canceled, deadline_exceeded, other,
}

-- No response, or a status with a body; `none` is a body that is not read to its end.
pub data Reply : Type 0 where
  unanswered : Reply
  answered : ℕ → Option Text → Reply

-- The body, read up to one byte more than the limit, and refused if that byte is there.
read_limited : ℕ → Option Text → Result Err Text
read_limited limit none = err other
read_limited limit (some body) = if leb (length body) limit then ok body else err other

-- The switch of `call` on the status.
of_status : ℕ → ℕ → Option Text → Result Err Text
unfolding read_limited
of_status limit status body =
    if status == 200
    then read_limited limit body
    else if status == 429
    then err busy
    else if status == 501
    then err unsupported
    else if status == 404
    then err vm_not_found
    else if status == 504
    then err deadline_exceeded
    else err source_unavailable

pub call : ℕ → Reply → Result Err Text
unfolding of_status
call limit unanswered = err other
call limit (answered status body) = of_status limit status body

-- The status of an error of the cache.
status_of : Err → ℕ
status_of busy = 429
status_of vm_not_found = 404
status_of deadline_exceeded = 504
status_of _ = 502

-- The end of the history handler; a canceled request gets no answer of its own.
pub respond : (ℕ → Text) → Result Err Text → Reply
unfolding status_of
respond status_text (ok raw) = answered 200 (some raw)
respond status_text (err canceled) = answered 200 (some [])
respond status_text (err e) = answered (status_of e) (some (status_text (status_of e)))

-- What the client can tell of an error.
abbrev pub seen : Err → Err
seen busy = busy
seen vm_not_found = vm_not_found
seen deadline_exceeded = deadline_exceeded
seen _ = source_unavailable

respond_lem :
    (limit : ℕ) (status_text : ℕ → Text) (e : Err)
    → e ≢ canceled
    → call limit (respond status_text (err e)) ≡ err (seen e)
unfolding call respond
respond_lem limit status_text busy h = refl
respond_lem limit status_text source_unavailable h = refl
respond_lem limit status_text vm_not_found h = refl
respond_lem limit status_text unsupported h = refl
respond_lem limit status_text canceled h = absurd (h refl)
respond_lem limit status_text deadline_exceeded h = refl
respond_lem limit status_text other h = refl

-- A result of at most `limit` bytes reaches the client as it is; and of an error other than a
-- cancellation the client learns whether it was busy, an unknown machine or a deadline, and
-- otherwise that the source is unavailable.
pub call-respond :
    (limit : ℕ) (status_text : ℕ → Text) (raw : Text) (e : Err)
    → length raw ≤ limit
    → e ≢ canceled
    → (call limit (respond status_text (ok raw)) ≡ ok raw)
      × (call limit (respond status_text (err e)) ≡ err (seen e))
unfolding call respond
call-respond limit status_text raw e short h = (ground arith, respond_lem limit status_text e h)
