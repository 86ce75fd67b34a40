-- ===== src/Policy/Tests.antt =====
-- The pending queue at concrete entries (crates/cbcl-core/src/policy.rs).
use cbcl_rs.Prelude.{arith, get, some, ◌↔◌, ◌≡◌, ◌≤◌}
use cbcl_rs.Message.{CausedBy}
use cbcl_rs.Protocol.{VerificationResult}
use cbcl_rs.Policy.{
  PendingEntry, PendingQueue, empty_queue, enqueue, expire, re_evaluate_with, Decide,
}
use cbcl_rs.Policy.Bounds.{IsBounded, IsBounded-kept}
use cbcl_rs.Policy.Resolve.{re_evaluate_with_lem, SiftedAll}
use cbcl_rs.Sexpr.{SExpr, nil}
use cbcl_rs.Message.{Message}

abbrev entry : PendingEntry
entry = record {
  hash = "h";
  message = Message.meta (SExpr.list nil);
  thread = "t";
  performative = "bid";
  caused_by = some (CausedBy.single "g");
  inserted_at = 5;
}

-- A queue with one slot, which the entry fills.
abbrev one_slot : PendingQueue
one_slot = empty_queue 1 10

one_slot-IsBounded : IsBounded one_slot
unfolding get
one_slot-IsBounded t = omega arith

abbrev full : PendingQueue
full = (enqueue entry one_slot).0

abbrev all_valid : Decide
all_valid e t = some VerificationResult.valid

full-IsBounded : IsBounded full
full-IsBounded = (IsBounded-kept one_slot entry 20 all_valid one_slot-IsBounded).0.1 (omega arith)

IsBounded-kept_example :
    (IsBounded (enqueue entry full).0 ↔ (1 ≤ full.max_pending))
    × IsBounded (expire 20 full).0
    × IsBounded (re_evaluate_with all_valid full).0
IsBounded-kept_example = IsBounded-kept full entry 20 all_valid full-IsBounded

abbrev one_entry : PendingQueue
one_entry = (enqueue entry (empty_queue 2 10)).0

re_evaluate_with_lem_example :
    SiftedAll all_valid one_entry.queues
      (re_evaluate_with all_valid one_entry).0.queues
      (re_evaluate_with all_valid one_entry).1
    × ((re_evaluate_with all_valid one_entry).0.max_pending ≡ one_entry.max_pending)
    × ((re_evaluate_with all_valid one_entry).0.ttl ≡ one_entry.ttl)
re_evaluate_with_lem_example = re_evaluate_with_lem all_valid one_entry
