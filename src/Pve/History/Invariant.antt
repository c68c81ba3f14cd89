-- ===== src/Pve/History/Invariant.antt =====
-- The bounds of the history cache, kept by every locked part of its operations.
use ithiltir_node.Base.{
  ℕ, ◌+◌, ◌-◌, ◌≤◌, ◌<◌, ◌≡◌, inl, inr, refl, sym, ap, subst, false, ◌&&◌, Option, none, some, [],
  ◌∷◌, Time, leb, if◌then◌else◌, length, arith, Bool-cases,
}
use ithiltir_node.Pve.Query.{HistoryQuery, query_eq, query_eq_iff}
use ithiltir_node.Pve.History.{
  Call, Cache, Admission, refused, waits, panicked, max_active, max_calls, max_bytes, is_done,
  find_call, update_call, expire_calls, expire, new_call, admit, make_room, admit_into,
  request_known, request, leave_call, leave,
}
use ithiltir_node.Pve.History.Entries.{
  Calls, total, running, Absent, Distinct, Absent-delete, find_call-Absent,
}
use ithiltir_node.Pve.History.Eviction.{evict_oldest_lem}

-- The counters agree with the entries.
pub record Counted (h : Cache) : Type 0 where
  pub distinct : Distinct h.calls
  pub bytes_exact : h.bytes ≡ total h.calls
  pub active_exact : h.active ≡ running h.calls

pub record Inv (h : Cache) : Type 0 where
  pub counted : Counted h
  pub active_bounded : h.active ≤ max_active
  pub calls_bounded : length h.calls ≤ max_calls
  pub bytes_bounded : h.bytes ≤ max_bytes

expire_Absent :
    (now b : ℕ) (q : HistoryQuery) (calls : Calls)
    → Absent q calls
    → Absent q (expire_calls now b calls).1
unfolding expire_calls
expire_Absent now b q [] a = tt
expire_Absent now b q ((k, c) ∷ calls) a =
    let gone = is_done c && leb c.expires now in
    ground (arith, expire_Absent now (if gone then b - length c.raw else b) q calls a.1)

-- Dropping the expired entries keeps the accounts exact and every running call.
expire_calls_lem :
    (now b : ℕ) (calls : Calls)
    → Distinct calls
    → total calls ≤ b
    → let r = expire_calls now b calls in
      Distinct r.1
      × (r.0 + total calls ≡ b + total r.1)
      × (running r.1 ≡ running calls)
      × (length r.1 ≤ length calls)
      × (r.0 ≤ b)
unfolding expire_calls
expire_calls_lem now b [] d h = (tt, refl, refl, omega arith, omega arith)
expire_calls_lem now b ((k, c) ∷ calls) d h =
    let gone = is_done c && leb c.expires now in
    let b' = if gone then b - length c.raw else b in
    ground (arith, expire_calls_lem now b' calls d.1, expire_Absent now b' k calls d.0)

expire-Inv : (now : Time) (h : Cache) → Inv h → Inv (expire now h)
unfolding expire
expire-Inv now h v =
    let (d, b, r, l, m) = expire_calls_lem now h.bytes h.calls v.counted.distinct (omega arith) in
    record {
      counted = record { distinct = d; bytes_exact = omega arith; active_exact = omega arith };
      active_bounded = v.active_bounded;
      calls_bounded = omega arith;
      bytes_bounded = omega arith;
    }

-- A change that keeps what a call accounts for changes no count.
update_counts :
    (q : HistoryQuery) (f : Call → Call) (calls : Calls)
    → ((c : Call) → (is_done (f c) ≡ is_done c) × ((f c).raw ≡ c.raw))
    → (total (update_call q f calls) ≡ total calls)
      × (running (update_call q f calls) ≡ running calls)
      × (length (update_call q f calls) ≡ length calls)
unfolding update_call
update_counts q f [] h = (refl, refl, refl)
update_counts q f ((k, c) ∷ calls) h = ground (arith, update_counts q f calls h, h c)

update_Absent :
    (q p : HistoryQuery) (f : Call → Call) (calls : Calls)
    → Absent p calls
    → Absent p (update_call q f calls)
unfolding update_call
update_Absent q p f [] a = tt
update_Absent q p f ((k, c) ∷ calls) a = (a.0, update_Absent q p f calls a.1)

pub update_Distinct :
    (q : HistoryQuery) (f : Call → Call) (calls : Calls)
    → Distinct calls
    → Distinct (update_call q f calls)
unfolding update_call
update_Distinct q f [] d = tt
update_Distinct q f ((k, c) ∷ calls) d =
    (update_Absent q k f calls d.0, update_Distinct q f calls d.1)

update-Inv :
    (q : HistoryQuery) (f : Call → Call) (h : Cache)
    → ((c : Call) → (is_done (f c) ≡ is_done c) × ((f c).raw ≡ c.raw))
    → Inv h
    → Inv (record h { calls = update_call q f h.calls })
update-Inv q f h keeps v =
    let (t, r, l) = update_counts q f h.calls keeps in
    record {
      counted = record {
        distinct = update_Distinct q f h.calls v.counted.distinct;
        bytes_exact = omega arith;
        active_exact = omega arith;
      };
      active_bounded = v.active_bounded;
      calls_bounded = omega arith;
      bytes_bounded = v.bytes_bounded;
    }

-- A waiter that leaves, the last one included, keeps the accounts and bounds of the cache.
pub leave-Inv : (q : HistoryQuery) (h : Cache) → Inv h → Inv (leave q h)
unfolding leave leave_call
leave-Inv q h v = update-Inv q leave_call h (λ c. (refl, refl)) v

-- Room is made without a nil pointer: a full map of which fewer than 32 calls run has a completed
-- call to evict.
make_room_lem :
    (q : HistoryQuery) (h : Cache)
    → Inv h
    → h.active < max_active
    → Absent q h.calls
    → (h' : Cache) × (make_room h ≡ some h')
      × Inv h'
      × (length h'.calls < max_calls)
      × (h'.active ≡ h.active)
      × Absent q h'.calls
unfolding make_room
make_room_lem q h v few fresh = elim (Bool-cases (leb max_calls (length h.calls))) [
  | inl full ↦ elim (evict_oldest_lem h v.counted.distinct v.counted.bytes_exact) [
    | inl (_, _, all_run) ↦ absurd (ground (arith, v.counted.active_exact))
    | inr (k, c, h', e, _, is, d, b, r, l) ↦
        let same : h'.active ≡ h.active = ap (λ (m : Cache). m.active) is in
        let less : h'.bytes ≤ h.bytes =
          subst (λ (m : Cache). m.bytes ≤ h.bytes) (sym is) (omega arith) in
        (
          h',
          rw full e,
          record {
            counted = record { distinct = d; bytes_exact = b; active_exact = omega arith };
            active_bounded = omega arith;
            calls_bounded = omega arith;
            bytes_bounded = omega arith;
          },
          omega arith,
          same,
          subst (λ (m : Cache). Absent q m.calls) (sym is) (Absent-delete q k h.calls fresh),
        )
  ]
  | inr room ↦ (h, rw room, v, ground arith, refl, fresh)
]

-- What a request may leave: a cache within its bounds.
abbrev pub Admits : Admission → Type 0
Admits (refused h) = Inv h
Admits (waits h) = Inv h
Admits panicked = ⊥

Absent-sym : (p q : HistoryQuery) → query_eq p q ≡ false → query_eq q p ≡ false
Absent-sym p q h = ground (arith, query_eq_iff p q, query_eq_iff q p)

admit-Inv :
    (q : HistoryQuery) (h : Cache)
    → Inv h
    → h.active < max_active
    → length h.calls < max_calls
    → Absent q h.calls
    → Inv (admit q h)
unfolding admit new_call
admit-Inv q h v few room fresh = record {
  counted = record {
    distinct = (fresh, v.counted.distinct);
    bytes_exact = ground (arith, v.counted.bytes_exact);
    active_exact = ground (arith, v.counted.active_exact);
  };
  active_bounded = ground arith;
  calls_bounded = ground arith;
  bytes_bounded = v.bytes_bounded;
}

known-Inv :
    (q : HistoryQuery) (h : Cache) (c : Option Call)
    → find_call q h.calls ≡ c
    → Inv h
    → Admits (request_known q h c)
unfolding request_known
known-Inv q h none e v = elim (Bool-cases (leb max_active h.active)) [
  | inl full ↦ rw full v
  | inr few ↦
      let (h', room, v', l, a, fresh) =
        make_room_lem q h v (ground arith) (find_call-Absent q h.calls e) in
      rw few (rw (room, admit_into) (admit-Inv q h' v' (ground arith) l fresh))
]
known-Inv q h (some c) e v =
    update-Inv q (λ c. record c { waiters = c.waiters + 1 }) h (λ c. (refl, refl)) v

-- A request never meets the nil pointer of evictOldest, and leaves the cache with exact accounts,
-- at most 32 running calls, at most 128 calls and at most 16 MiB of results.
pub request-Inv : (now : Time) (q : HistoryQuery) (h : Cache) → Inv h → Admits (request now q h)
unfolding request
request-Inv now q h v = known-Inv q (expire now h) _ refl (expire-Inv now h v)
