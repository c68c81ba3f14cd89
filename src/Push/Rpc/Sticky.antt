-- ===== src/Push/Rpc/Sticky.antt =====
-- The transport of a target is chosen once.
use ithiltir_node.Base.{
  ◌+◌, ◌≤◌, ◌<◌, ◌≡◌, ◌⊎◌, inl, inr, refl, sym, ◌∙◌, true, false, none, some, List, [], ◌∷◌, minute,
  arith,
}
use ithiltir_node.Push.Rpc.{
  auto, Code, unauthenticated, permission_denied, resource_exhausted, probe_failed, Rpc, Env,
  Answer, over_rpc, over_http, no_client, rpc_client, new_rpc, is_http_mode,
}

-- The state after a sequence of calls.
pub run : List Env → Rpc → Rpc
run [] s = s
run (e ∷ es) s = run es (rpc_client e s).0

-- A state that has chosen gRPC, or HTTP.
abbrev OnRpc : Rpc → Type 0
OnRpc s =
    (s.client ≡ true) × (s.use_http ≡ false) × (is_http_mode s.mode ≡ false) × (s.probe_err ≡ none)

abbrev OnHttp : Rpc → Type 0
OnHttp s = ((s.use_http ≡ true) ⊎ (is_http_mode s.mode ≡ true)) × (s.probe_err ≡ none)

-- The server has refused the credentials.
abbrev Rejected : Code → Rpc → Type 0
Rejected code s = (s.probe_err ≡ some code) × (s.retry_at ≡ 0)

OnRpc-step : (e : Env) (s : Rpc) → OnRpc s → rpc_client e s ≡ (s, over_rpc)
unfolding rpc_client
OnRpc-step e s h = ground arith

OnHttp-step : (e : Env) (s : Rpc) → OnHttp s → rpc_client e s ≡ (s, over_http)
unfolding rpc_client
OnHttp-step e s h = ground arith

Rejected-step :
    (e : Env) (s : Rpc) (code : Code)
    → Rejected code s
    → rpc_client e s ≡ (s, no_client (probe_failed code))
unfolding rpc_client
Rejected-step e s code h = ground arith

over_rpc-OnRpc : (e : Env) (s : Rpc) → (rpc_client e s).1 ≡ over_rpc → OnRpc (rpc_client e s).0
unfolding rpc_client is_http_mode
over_rpc-OnRpc e s h = ground arith

over_http-OnHttp : (e : Env) (s : Rpc) → (rpc_client e s).1 ≡ over_http → OnHttp (rpc_client e s).0
unfolding rpc_client is_http_mode
over_http-OnHttp e s h = ground arith

OnRpc-run : (es : List Env) (s : Rpc) → OnRpc s → run es s ≡ s
unfolding run
OnRpc-run [] s h = refl
OnRpc-run (e ∷ es) s h = rw (OnRpc-step e s h) (OnRpc-run es s h)

OnHttp-run : (es : List Env) (s : Rpc) → OnHttp s → run es s ≡ s
unfolding run
OnHttp-run [] s h = refl
OnHttp-run (e ∷ es) s h = rw (OnHttp-step e s h) (OnHttp-run es s h)

Rejected-run : (es : List Env) (s : Rpc) (code : Code) → Rejected code s → run es s ≡ s
unfolding run
Rejected-run [] s code h = refl
Rejected-run (e ∷ es) s code h = rw (Rejected-step e s code h) (Rejected-run es s code h)

-- Once a call has chosen a transport, every later call, after any calls in between and whatever
-- the server and the library answer, chooses the same one.
pub transport_fixed :
    (s : Rpc) (e e' : Env) (es : List Env) (a : Answer)
    → (a ≡ over_rpc) ⊎ (a ≡ over_http)
    → (rpc_client e s).1 ≡ a
    → (rpc_client e' (run es (rpc_client e s).0)).1 ≡ a
transport_fixed s e e' es a (inl is) h =
    let on = over_rpc-OnRpc e s (h ∙ is) in
    rw (OnRpc-run es (rpc_client e s).0 on, OnRpc-step e' (rpc_client e s).0 on) (sym is)
transport_fixed s e e' es a (inr is) h =
    let on = over_http-OnHttp e s (h ∙ is) in
    rw (OnHttp-run es (rpc_client e s).0 on, OnHttp-step e' (rpc_client e s).0 on) (sym is)

first_refusal :
    (e : Env) (code : Code)
    → (code ≡ unauthenticated) ⊎ (code ≡ permission_denied)
    → (rpc_client e (new_rpc auto)).1 ≡ no_client (probe_failed code)
    → Rejected code (rpc_client e (new_rpc auto)).0
unfolding rpc_client new_rpc
first_refusal e code is h = ground arith

-- When the server refuses the credentials of a new target, every later call reports that
-- refusal: no other probe is made, and no transport is used.
refusal_final :
    (e e' : Env) (es : List Env) (code : Code)
    → (code ≡ unauthenticated) ⊎ (code ≡ permission_denied)
    → (rpc_client e (new_rpc auto)).1 ≡ no_client (probe_failed code)
    → (rpc_client e' (run es (rpc_client e (new_rpc auto)).0)).1 ≡ no_client (probe_failed code)
refusal_final e e' es code is h =
    let s = (rpc_client e (new_rpc auto)).0 in
    let r : Rejected code s = first_refusal e code is h in
    rw (Rejected-run es s code r, Rejected-step e' s code r)

-- After an exhausted server's answer no probe is made for a minute: until then each call gives
-- that error and leaves the state. From then on a call probes like the first one.
exhausted_retry :
    (e e' : Env)
    → (rpc_client e (new_rpc auto)).1 ≡ no_client (probe_failed resource_exhausted)
    → let s = (rpc_client e (new_rpc auto)).0 in
      ((e'.now < e.now + minute)
        × (rpc_client e' s ≡ (s, no_client (probe_failed resource_exhausted))))
      ⊎ ((e.now + minute ≤ e'.now) × (rpc_client e' s ≡ rpc_client e' (new_rpc auto)))
unfolding rpc_client new_rpc
exhausted_retry e e' h = ground arith

pub rpc_client-mode : (e : Env) (s : Rpc) → (rpc_client e s).0.mode ≡ s.mode
unfolding rpc_client
rpc_client-mode e s = ground arith

pub rpc_client-http :
    (e : Env) (s : Rpc)
    → is_http_mode s.mode ≡ true
    → s.probe_err ≡ none
    → rpc_client e s ≡ (s, over_http)
rpc_client-http e s h p = OnHttp-step e s (inr h, p)
