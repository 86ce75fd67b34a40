-- ===== src/Protocol/Tests.antt =====
-- The verdict operations at concrete verdicts (crates/cbcl-core/src/protocol.rs).
use cbcl_rs.Prelude.{
  String, [], arith, contains, false, get, insert, is_empty, refl, some, true, ◌==◌, ◌↔◌, ◌∷◌, ◌≡◌,
}
use cbcl_rs.Protocol.{VerificationResult, CausalViolation, partial_cmp, unknown, valid, violation}
use cbcl_rs.Protocol.{NodeRef, StepDecl, CausalProtocol, begin_keyword, repeat_base_name}
use cbcl_rs.Protocol.Checks.{
  check_performative_definedness, check_acyclicity, check_reachability, cycle, unreachable,
}
use cbcl_rs.Protocol.Checks.Defined.{check_performative_definedness_iff, mentions}
use cbcl_rs.Protocol.Lattice.{Below}

abbrev missing : VerificationResult
missing = violation CausalViolation.missing_caused_by

unknown-Below_valid : Below unknown valid
unfolding partial_cmp
unknown-Below_valid = ground arith

missing-Below-missing : Below missing missing
unfolding partial_cmp
missing-Below-missing = ground arith

abbrev open_step : StepDecl
open_step = record {
  performative = "begin";
  predecessors = [];
  successors = NodeRef.single "bid#2" ∷ [];
}

abbrev opening : CausalProtocol
opening = record { steps = ("begin", open_step) ∷ [] }

check_performative_definedness_iff_example :
    (is_empty (check_performative_definedness ("bid" ∷ []) opening) ≡ true) ↔ (
      (n : String)
      → mentions opening.steps n ≡ true
      → (n == begin_keyword) ≡ false
      → contains ("bid" ∷ []) (repeat_base_name n) ≡ true)
check_performative_definedness_iff_example = check_performative_definedness_iff ("bid" ∷ []) opening

-- The copies of a step pass by their base name, and a cycle is found.
copies_defined : check_performative_definedness ("bid" ∷ []) opening ≡ []
unfolding check_performative_definedness
copies_defined = refl

abbrev looping : CausalProtocol
looping = record {
  steps =
      ("a", record { performative = "a"; predecessors = []; successors = NodeRef.single "a" ∷ [] })
      ∷ [];
}

cycle_found : check_acyclicity 9 looping ≡ some (cycle ("a" ∷ []) ∷ [])
unfolding check_acyclicity get insert
cycle_found = refl

loop_unreachable : check_reachability 9 looping ≡ some (unreachable "a" ∷ [])
unfolding check_reachability get insert
loop_unreachable = refl
