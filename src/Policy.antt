-- ===== src/Policy.antt =====
-- The policy on unknown predecessors and the pending queue (crates/cbcl-core/src/policy.rs). A deque
-- is the list of its entries, its front first.
pub mod Bounds
pub mod Resolve
mod Tests
use cbcl_rs.Prelude.{
  List, Map, Option, String, [], get_or, if◌then◌else◌, insert, leb, length, none, some, ℕ, ◌++◌,
  ◌+◌, ◌-◌, ◌∷◌,
}
use cbcl_rs.Message.{Message, CausedBy}
use cbcl_rs.Protocol.{
  CausalProtocol, CausalViolation, VerificationResult, valid, unknown, violation,
}
use cbcl_rs.Verify.{MessageStore, RepeatVerify, verify_causal}

pub data UnknownPredecessorPolicy : Type 0 where
  reject : UnknownPredecessorPolicy
  -- max_pending, ttl
  buffer : ℕ → ℕ → UnknownPredecessorPolicy

abbrev pub default_buffer : ℕ → UnknownPredecessorPolicy
default_buffer ttl = buffer 64 ttl

pub data PendingReason : Type 0 where
  causal_pending : PendingReason

pub data DropReason : Type 0 where
  causal_timeout evicted : DropReason

pub data PolicyOutcome : Type 0 where
  accept : PolicyOutcome
  reject : CausalViolation → PolicyOutcome
  pending : PendingReason → PolicyOutcome
  buffered : PolicyOutcome

unfoldable pub apply_policy : VerificationResult → UnknownPredecessorPolicy → PolicyOutcome
apply_policy valid policy = PolicyOutcome.accept
apply_policy (violation v) policy = PolicyOutcome.reject v
apply_policy unknown UnknownPredecessorPolicy.reject = PolicyOutcome.pending causal_pending
apply_policy unknown (buffer max_pending ttl) = PolicyOutcome.buffered

pub record PendingEntry : Type 0 where
  pub hash : String
  pub message : Message
  pub thread : String
  pub performative : String
  pub caused_by : Option CausedBy
  pub inserted_at : ℕ

pub record PendingQueue : Type 0 where
  pub max_pending : ℕ
  pub ttl : ℕ
  pub queues : Map (List PendingEntry)

abbrev pub empty_queue : ℕ → ℕ → PendingQueue
empty_queue max_pending ttl = record { max_pending = max_pending; ttl = ttl; queues = [] }

-- `none` stands for the panic on `Reject`.
unfoldable pub from_policy : UnknownPredecessorPolicy → Option PendingQueue
from_policy UnknownPredecessorPolicy.reject = none
from_policy (buffer max_pending ttl) = some (empty_queue max_pending ttl)

abbrev pub entries : PendingQueue → String → List PendingEntry
entries q thread = get_or thread [] q.queues

pop_front : List PendingEntry → Option (PendingEntry × DropReason) × List PendingEntry
pop_front [] = (none, [])
pop_front (e ∷ es) = (some (e, evicted), es)

unfoldable pub enqueue :
    PendingEntry → PendingQueue → PendingQueue × Option (PendingEntry × DropReason)
unfolding pop_front
enqueue entry q =
    let queue = entries q entry.thread in
    let (out, kept) = if leb q.max_pending (length queue) then pop_front queue else (none, queue) in
    (record q { queues = insert entry.thread (kept ++ entry ∷ []) q.queues }, out)

-- The expired entries at the front, and what is left from the first that has not expired.
unfoldable pub drain_expired : ℕ → ℕ → List PendingEntry → List PendingEntry × List PendingEntry
drain_expired now ttl [] = ([], [])
drain_expired now ttl (e ∷ es) =
    let (out, rest) = drain_expired now ttl es in
    if leb ttl (now - e.inserted_at) then (e ∷ out, rest) else ([], e ∷ es)

timed_out : List PendingEntry → List (PendingEntry × DropReason)
timed_out [] = []
timed_out (e ∷ es) = (e, causal_timeout) ∷ timed_out es

unfoldable pub expire_all :
    ℕ → ℕ → Map (List PendingEntry) → Map (List PendingEntry) × List (PendingEntry × DropReason)
unfolding drain_expired timed_out
expire_all now ttl [] = ([], [])
expire_all now ttl ((thread, queue) ∷ queues) =
    let (out, rest) = drain_expired now ttl queue in
    let (queues', later) = expire_all now ttl queues in
    ((thread, rest) ∷ queues', timed_out out ++ later)

unfoldable pub expire : ℕ → PendingQueue → PendingQueue × List (PendingEntry × DropReason)
unfolding expire_all
expire now q =
    let (queues', out) = expire_all now q.ttl q.queues in (record q { queues = queues' }, out)

-- What a verdict does to an entry: `none` leaves it in the queue.
unfoldable pub resolution : Option VerificationResult → Option PolicyOutcome
resolution none = none
resolution (some unknown) = none
resolution (some valid) = some PolicyOutcome.accept
resolution (some (violation v)) = some (PolicyOutcome.reject v)

abbrev pub Decide : Type 0
Decide = PendingEntry → String → Option VerificationResult

-- The pass over one queue: what stays, and what leaves with its outcome.
unfoldable pub sift :
    Decide → String → List PendingEntry → List PendingEntry × List (PendingEntry × PolicyOutcome)
unfolding resolution
sift decide thread [] = ([], [])
sift decide thread (e ∷ es) =
    let (kept, out) = sift decide thread es in
    elim (resolution (decide e thread)) [ none ↦ (e ∷ kept, out) | some o ↦ (kept, (e, o) ∷ out) ]

unfoldable pub sift_all :
    Decide → Map (List PendingEntry) → Map (List PendingEntry) × List (PendingEntry × PolicyOutcome)
unfolding sift
sift_all decide [] = ([], [])
sift_all decide ((thread, queue) ∷ queues) =
    let (kept, out) = sift decide thread queue in
    let (queues', later) = sift_all decide queues in ((thread, kept) ∷ queues', out ++ later)

unfoldable pub re_evaluate_with :
    Decide → PendingQueue → PendingQueue × List (PendingEntry × PolicyOutcome)
unfolding sift_all
re_evaluate_with decide q =
    let (queues', out) = sift_all decide q.queues in (record q { queues = queues' }, out)

-- A panic of the verifier would be read as an absent verdict; on protocols without repeat copies it
-- always returns one.
unfoldable pub re_evaluate :
    RepeatVerify
    → MessageStore
    → CausalProtocol
    → PendingQueue
    → PendingQueue × List (PendingEntry × PolicyOutcome)
unfolding re_evaluate_with
re_evaluate rep store protocol q =
    re_evaluate_with
      (λ e thread. verify_causal rep e.performative e.caused_by store protocol thread) q

total : Map (List PendingEntry) → ℕ
total [] = 0
total ((thread, queue) ∷ queues) = length queue + total queues

unfoldable pub queue_len : PendingQueue → ℕ
unfolding total
queue_len q = total q.queues

unfoldable pub thread_len : String → PendingQueue → ℕ
thread_len thread q = length (entries q thread)
