-- ===== src/Policy/Bounds.antt =====
-- The length of the pending queues (crates/cbcl-core/src/policy.rs).
use cbcl_rs.Prelude.{
  List, Map, Option, String, String-cases, [], ap, arith, eq_iff, get, get_or, get_or-insert,
  if◌then◌else◌, inl, inr, leb, length, length-append, max, none, refl, some, subst, ℕ, ◌++◌, ◌+◌,
  ◌-◌, ◌==◌, ◌↔◌, ◌∙◌, ◌∷◌, ◌≡◌, ◌≤◌,
}
use cbcl_rs.Policy.{
  PendingEntry, PendingQueue, entries, enqueue, pop_front, expire, expire_all, drain_expired,
  re_evaluate_with, sift_all, sift, Decide, DropReason, evicted,
}

abbrev pub IsBounded : PendingQueue → Type 0
IsBounded q = (thread : String) → length (entries q thread) ≤ q.max_pending

abbrev dropped : List PendingEntry → List PendingEntry
dropped [] = []
dropped (e ∷ es) = es

abbrev oldest : List PendingEntry → Option (PendingEntry × DropReason)
oldest [] = none
oldest (e ∷ es) = some (e, evicted)

pop_front_lem : (l : List PendingEntry) → pop_front l ≡ (oldest l, dropped l)
unfolding pop_front
pop_front_lem [] = refl
pop_front_lem (e ∷ es) = refl

-- An enqueue puts the entry at the end of its thread's queue, takes the oldest one off if the queue
-- is full, and leaves the queues of the other threads and the bounds alone.
pub enqueue_lem :
    (e : PendingEntry) (q : PendingQueue) (thread : String)
    → (entries (enqueue e q).0 thread ≡ (
        if e.thread == thread
        then (if leb q.max_pending (length (entries q thread))
            then dropped (entries q thread)
            else entries q thread)
          ++ e ∷ []
        else entries q thread))
      × ((enqueue e q).1 ≡ (
          if leb q.max_pending (length (entries q e.thread))
          then oldest (entries q e.thread)
          else none))
      × ((enqueue e q).0.max_pending ≡ q.max_pending)
      × ((enqueue e q).0.ttl ≡ q.ttl)
unfolding enqueue
enqueue_lem e q thread = (
  let l = entries q e.thread in
      get_or-insert thread e.thread []
        ((if leb q.max_pending (length l) then pop_front l else (none, l)).1 ++ e ∷ []) q.queues
      ∙ elim (String-cases e.thread thread) [
        | inl p ↦ rw p (ground (arith, eq_iff thread thread, pop_front_lem (entries q thread)))
        | inr p ↦ ground arith
      ],
  ground (arith, pop_front_lem (entries q e.thread)),
  refl,
  refl,
)

length-dropped : (l : List PendingEntry) → length (dropped l) ≡ length l - 1
length-dropped [] = omega arith
length-dropped (e ∷ es) = omega arith

length-enqueue :
    (e : PendingEntry) (q : PendingQueue)
    → length (entries (enqueue e q).0 e.thread) ≡ (
        if leb q.max_pending (length (entries q e.thread))
        then max (length (entries q e.thread)) 1
        else length (entries q e.thread) + 1)
length-enqueue e q =
    let l = entries q e.thread in
    ground (
      arith,
      (enqueue_lem e q e.thread).0,
      eq_iff e.thread e.thread,
      length-append l (e ∷ []),
      length-append (dropped l) (e ∷ []),
      length-dropped l,
    )

pub get-expire_all :
    (now ttl : ℕ) (m : Map (List PendingEntry)) (t : String)
    → get_or t [] (expire_all now ttl m).0 ≡ (drain_expired now ttl (get_or t [] m)).1
unfolding expire_all get drain_expired
get-expire_all now ttl [] t = refl
get-expire_all now ttl ((t', l) ∷ m) t = ground (arith, get-expire_all now ttl m t)

pub get-sift_all :
    (decide : Decide) (m : Map (List PendingEntry)) (t : String)
    → get_or t [] (sift_all decide m).0 ≡ (sift decide t (get_or t [] m)).0
unfolding sift_all get sift
get-sift_all decide [] t = refl
get-sift_all decide ((t', l) ∷ m) t = elim (String-cases t' t) [
  | inl p ↦ ground (arith, eq_iff t' t)
  | inr p ↦ ground (arith, get-sift_all decide m t)
]

pub length-drain_expired :
    (now ttl : ℕ) (l : List PendingEntry)
    → length (drain_expired now ttl l).0 + length (drain_expired now ttl l).1 ≡ length l
unfolding drain_expired
length-drain_expired now ttl [] = omega arith
length-drain_expired now ttl (e ∷ es) = ground (arith, length-drain_expired now ttl es)

pub length-sift :
    (decide : Decide) (t : String) (l : List PendingEntry)
    → length (sift decide t l).0 + length (sift decide t l).1 ≡ length l
unfolding sift
length-sift decide t [] = omega arith
length-sift decide t (e ∷ es) = ground (arith, length-sift decide t es)

-- After an enqueue on a queue within its bounds, the thread's queue has at most max_pending entries
-- exactly if max_pending is not 0: at 0 the entry is put into the queue all the same.
pub enqueue-fits_iff :
    (e : PendingEntry) (q : PendingQueue)
    → IsBounded q
    → (length (entries (enqueue e q).0 e.thread) ≤ q.max_pending) ↔ (1 ≤ q.max_pending)
enqueue-fits_iff e q b =
    (λ h. ground (arith, length-enqueue e q), λ h. ground (arith, length-enqueue e q, b e.thread))

-- Where each thread has at most max_pending entries, an expiry and a re-evaluation keep it so, and
-- an enqueue does so exactly if max_pending is not 0.
pub IsBounded-kept :
    (q : PendingQueue) (e : PendingEntry) (now : ℕ) (decide : Decide)
    → IsBounded q
    → (IsBounded (enqueue e q).0 ↔ (1 ≤ q.max_pending))
      × IsBounded (expire now q).0
      × IsBounded (re_evaluate_with decide q).0
unfolding expire re_evaluate_with
IsBounded-kept q e now decide b = (
  (
    λ k. (enqueue-fits_iff e q b).0 (
        subst (λ m. length (entries (enqueue e q).0 e.thread) ≤ m) (enqueue_lem e q e.thread).2
          (k e.thread)),
    λ k t. elim (String-cases e.thread t) [
      | inl p ↦ ground (arith, b t, k, length-enqueue e q, (enqueue_lem e q t).2)
      | inr p ↦ ground (arith, b t, (enqueue_lem e q t).0, (enqueue_lem e q t).2)
    ],
  ),
  λ t. omega (
    arith,
    b t,
    ap length (get-expire_all now q.ttl q.queues t),
    length-drain_expired now q.ttl (entries q t),
  ),
  λ t.
      omega (
        arith,
        b t,
        ap length (get-sift_all decide q.queues t),
        length-sift decide t (entries q t),
      ),
)
