-- ===== src/Policy/Resolve.antt =====
-- Which entries leave the pending queue, and how (crates/cbcl-core/src/policy.rs).
use cbcl_rs.Prelude.{
  All, All-append, Bool, Bool-cases, List, Map, Option, String, [], ap, arith, false, inl, inr, leb,
  length, length-append, none, refl, some, subst, suc, sym, true, ℕ, ◌++◌, ◌+◌, ◌-◌, ◌∷◌, ◌≡◌, ◌≤◌,
}
use cbcl_rs.Protocol.{VerificationResult, CausalViolation, valid, unknown, violation}
use cbcl_rs.Policy.{
  PendingEntry, PendingQueue, PolicyOutcome, DropReason, entries, expire, expire_all, drain_expired,
  timed_out, causal_timeout, re_evaluate_with, sift_all, sift, Decide, resolution, total, queue_len,
}
use cbcl_rs.Policy.Bounds.{get-expire_all, length-drain_expired}

abbrev pub has_expired : ℕ → ℕ → PendingEntry → Bool
has_expired now ttl e = leb ttl (now - e.inserted_at)

-- The entries stand in the order of their insertion times.
abbrev pub InOrder : List PendingEntry → Type 0
InOrder [] = Unit
InOrder (e ∷ es) = All (λ (x : PendingEntry). e.inserted_at ≤ x.inserted_at) es × InOrder es

abbrev Expired : ℕ → ℕ → PendingEntry → Type 0
Expired now ttl e = has_expired now ttl e ≡ true

abbrev pub Live : ℕ → ℕ → PendingEntry → Type 0
Live now ttl e = has_expired now ttl e ≡ false

later-Live :
    (now ttl : ℕ) (e : PendingEntry) (l : List PendingEntry)
    → Live now ttl e
    → All (λ (x : PendingEntry). e.inserted_at ≤ x.inserted_at) l
    → All (Live now ttl) l
later-Live now ttl e [] h o = o
later-Live now ttl e (x ∷ l) h o = (ground arith, later-Live now ttl e l h o.1)

drain_expired-Live :
    (now ttl : ℕ) (l : List PendingEntry)
    → InOrder l
    → All (Live now ttl) (drain_expired now ttl l).1
unfolding drain_expired
drain_expired-Live now ttl [] o = tt
drain_expired-Live now ttl (e ∷ es) o = elim (Bool-cases (has_expired now ttl e)) [
  | inl h ↦ rw h (drain_expired-Live now ttl es o.1)
  | inr h ↦ rw h (h, later-Live now ttl e es h o.0)
]

drain_expired-Expired :
    (now ttl : ℕ) (l : List PendingEntry) → All (Expired now ttl) (drain_expired now ttl l).0
unfolding drain_expired
drain_expired-Expired now ttl [] = tt
drain_expired-Expired now ttl (e ∷ es) = elim (Bool-cases (has_expired now ttl e)) [
  | inl h ↦ rw h (h, drain_expired-Expired now ttl es)
  | inr h ↦ rw h tt
]

abbrev pub TimedOut : ℕ → ℕ → PendingEntry × DropReason → Type 0
TimedOut now ttl (e, r) = (has_expired now ttl e ≡ true) × (r ≡ causal_timeout)

timed_out-TimedOut :
    (now ttl : ℕ) (l : List PendingEntry)
    → All (Expired now ttl) l
    → All (TimedOut now ttl) (timed_out l)
unfolding timed_out
timed_out-TimedOut now ttl [] h = tt
timed_out-TimedOut now ttl (e ∷ es) h = ((h.0, refl), timed_out-TimedOut now ttl es h.1)

expire_all-TimedOut :
    (now ttl : ℕ) (m : Map (List PendingEntry)) → All (TimedOut now ttl) (expire_all now ttl m).1
unfolding expire_all
expire_all-TimedOut now ttl [] = tt
expire_all-TimedOut now ttl ((t, l) ∷ m) =
    All-append (TimedOut now ttl) (timed_out (drain_expired now ttl l).0) (expire_all now ttl m).1
      (timed_out-TimedOut now ttl (drain_expired now ttl l).0 (drain_expired-Expired now ttl l))
      (expire_all-TimedOut now ttl m)

length-timed_out : (l : List PendingEntry) → length (timed_out l) ≡ length l
unfolding timed_out
length-timed_out [] = refl
length-timed_out (e ∷ es) = ap suc (length-timed_out es)

total-expire_all :
    (now ttl : ℕ) (m : Map (List PendingEntry))
    → total (expire_all now ttl m).0 + length (expire_all now ttl m).1 ≡ total m
unfolding expire_all total
total-expire_all now ttl [] = omega arith
total-expire_all now ttl ((t, l) ∷ m) = omega (
  arith,
  total-expire_all now ttl m,
  length-drain_expired now ttl l,
  length-timed_out (drain_expired now ttl l).0,
  length-append (timed_out (drain_expired now ttl l).0) (expire_all now ttl m).1,
)

-- An expiry returns only entries whose time is up, as timeouts, neither loses nor doubles an entry,
-- and leaves no expired entry in a queue that stands in the order of insertion times.
pub expire_lem :
    (now : ℕ) (q : PendingQueue)
    → All (TimedOut now q.ttl) (expire now q).1
      × (queue_len (expire now q).0 + length (expire now q).1 ≡ queue_len q)
      × ((t : String) → InOrder (entries q t) → All (Live now q.ttl) (entries (expire now q).0 t))
unfolding expire queue_len
expire_lem now q = (
  expire_all-TimedOut now q.ttl q.queues,
  total-expire_all now q.ttl q.queues,
  λ t o. rw (get-expire_all now q.ttl q.queues t) (drain_expired-Live now q.ttl (entries q t) o),
)

-- A verdict that is absent or Unknown decides nothing.
pub data Undecided : Option VerificationResult → Type 0 where
  absent : Undecided none
  open_verdict : Undecided (some unknown)

-- What a verdict that decides asks for.
pub data Decides : VerificationResult → PolicyOutcome → Type 0 where
  accepts : Decides valid PolicyOutcome.accept
  rejects : (v : CausalViolation) → Decides (violation v) (PolicyOutcome.reject v)

-- A pass over the queue of a thread: each entry, in the order of the queue, is either kept, with an
-- undecided verdict, or returned with what its verdict asks for.
pub data Sifted (decide : Decide) (t : String)
    : List PendingEntry → List PendingEntry → List (PendingEntry × PolicyOutcome) → Type 0 where
  done : Sifted decide t [] [] []
  kept :
      {es rest : List PendingEntry} {out : List (PendingEntry × PolicyOutcome)} (e : PendingEntry)
      → Undecided (decide e t)
      → Sifted decide t es rest out
      → Sifted decide t (e ∷ es) (e ∷ rest) out
  returned :
      {es rest : List PendingEntry} {out : List (PendingEntry × PolicyOutcome)} (e : PendingEntry)
      (r : VerificationResult) (o : PolicyOutcome)
      → decide e t ≡ some r
      → Decides r o
      → Sifted decide t es rest out
      → Sifted decide t (e ∷ es) rest ((e, o) ∷ out)

-- The passes over the queues of all threads, one after the other.
pub data SiftedAll (decide : Decide)
    : Map (List PendingEntry)
      → Map (List PendingEntry)
      → List (PendingEntry × PolicyOutcome)
      → Type 0 where
  no_queues : SiftedAll decide [] [] []
  queue :
      {m m' : Map (List PendingEntry)} {later : List (PendingEntry × PolicyOutcome)} (t : String)
      (es rest : List PendingEntry) (out : List (PendingEntry × PolicyOutcome))
      → Sifted decide t es rest out
      → SiftedAll decide m m' later
      → SiftedAll decide ((t, es) ∷ m) ((t, rest) ∷ m') (out ++ later)

sift-one :
    (decide : Decide) (t : String) (e : PendingEntry) (es : List PendingEntry)
    → (d : Option VerificationResult) → decide e t ≡ d
    → Sifted decide t es (sift decide t es).0 (sift decide t es).1
    → Sifted decide t (e ∷ es) (sift decide t (e ∷ es)).0 (sift decide t (e ∷ es)).1
unfolding sift resolution
sift-one decide t e es none h s = rw (h, sift) (kept e (subst Undecided (sym h) absent) s)
sift-one decide t e es (some unknown) h s =
    rw (h, sift) (kept e (subst Undecided (sym h) open_verdict) s)
sift-one decide t e es (some valid) h s =
    rw (h, sift) (returned e valid PolicyOutcome.accept h accepts s)
sift-one decide t e es (some (violation v)) h s =
    rw (h, sift) (returned e (violation v) (PolicyOutcome.reject v) h (rejects v) s)

sift-Sifted :
    (decide : Decide) (t : String) (es : List PendingEntry)
    → Sifted decide t es (sift decide t es).0 (sift decide t es).1
unfolding sift
sift-Sifted decide t [] = done
sift-Sifted decide t (e ∷ es) = sift-one decide t e es (decide e t) refl (sift-Sifted decide t es)

sift_all-SiftedAll :
    (decide : Decide) (m : Map (List PendingEntry))
    → SiftedAll decide m (sift_all decide m).0 (sift_all decide m).1
unfolding sift_all
sift_all-SiftedAll decide [] = no_queues
sift_all-SiftedAll decide ((t, es) ∷ m) =
    queue t es (sift decide t es).0 (sift decide t es).1 (sift-Sifted decide t es)
      (sift_all-SiftedAll decide m)

-- A re-evaluation goes through the queues of all threads, in order: each entry of a queue stays in
-- it, in its place, if its verdict is Unknown or absent, and else leaves it and is returned, as
-- accepted for Valid and as rejected with the violation for a violation; nothing else is kept or
-- returned, and the bounds stay.
pub re_evaluate_with_lem :
    (decide : Decide) (q : PendingQueue)
    → SiftedAll decide q.queues (re_evaluate_with decide q).0.queues (re_evaluate_with decide q).1
      × ((re_evaluate_with decide q).0.max_pending ≡ q.max_pending)
      × ((re_evaluate_with decide q).0.ttl ≡ q.ttl)
unfolding re_evaluate_with
re_evaluate_with_lem decide q = (sift_all-SiftedAll decide q.queues, refl, refl)
