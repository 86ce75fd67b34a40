-- ===== src/Verify.antt =====
-- `verify_causal` and what it calls (crates/cbcl-core/src/protocol.rs). A result of `none` stands
-- for a panic (`unreachable!`, `expect`). The verifier of protocols with repeat copies, another
-- component (repeat.rs), is an argument.
pub mod Scan
pub mod Total
pub mod Monotone
pub mod Exact
mod Tests
use cbcl_rs.Prelude.{
  Bool, List, Option, String, [], any, contains, false, get, if◌then◌else◌, is_empty, is_some, keys,
  none, not, retain, set_insert, some, true, ◌==◌, ◌∷◌,
}
use cbcl_rs.Message
use cbcl_rs.Message.{Message, CausedBy, innermost_simple, name}
use cbcl_rs.Envelope.{RedactedEnvelope, OpenedEnvelope, opened_performative}
use cbcl_rs.Kernel
use cbcl_rs.Kernel.{Lookup, FanIn, Decision}
use cbcl_rs.Protocol.{
  NodeRef, StepDecl, CausalProtocol, CausalViolation, VerificationResult, begin_keyword,
  allowed_single_predecessors, repeat_separator, contains_char,
}

-- What a verifier reads of a store.
pub record MessageStore : Type 0 where
  pub lookup_in_thread : String → String → Option Message
  pub envelope_in_thread : String → String → Option RedactedEnvelope
  pub opened_in_thread : String → String → Option OpenedEnvelope

abbrev simple_type : Option Message → String
simple_type none = ""
simple_type (some m) = elim (Message.performative m) [ none ↦ "" | some p ↦ name p ]

-- The type of a stored message, through its wrappers.
unfoldable pub message_type : Message → String
unfolding Message.performative innermost_simple
message_type m = simple_type (innermost_simple m)

unfoldable pub predecessor_type : MessageStore → String → String → Option String
predecessor_type store hash thread = elim (store.lookup_in_thread hash thread) [
  | some m ↦ some (message_type m)
  | none ↦ elim (store.envelope_in_thread hash thread) [
    | some e ↦ some (e.header.performative)
    | none ↦ elim (store.opened_in_thread hash thread) [
      | some o ↦ opened_performative o
      | none ↦ none
    ]
  ]
]

unfoldable pub absent_result : Decision → Option VerificationResult
absent_result Decision.valid = some VerificationResult.valid
absent_result Decision.missing_caused_by =
    some (VerificationResult.violation CausalViolation.missing_caused_by)
absent_result _ = none

unfoldable pub allows_begin : NodeRef → Bool
allows_begin (NodeRef.single s) = s == begin_keyword
allows_begin (NodeRef.any_of names) = contains names begin_keyword
allows_begin (NodeRef.all_of names) = false

unfoldable pub begin_result : StepDecl → Decision → Option VerificationResult
begin_result step Decision.valid = some VerificationResult.valid
begin_result step Decision.invalid_predecessor = some (
    VerificationResult.violation (
      CausalViolation.invalid_predecessor begin_keyword (allowed_single_predecessors step)
        begin_keyword))
begin_result step _ = none

unfoldable pub single_lookup : Option String → List String → Lookup
single_lookup none names = Lookup.missing
single_lookup (some p) names = if contains names p then Lookup.allowed else Lookup.wrong

unfoldable pub single_result :
    Decision → String → List String → Option String → Option VerificationResult
single_result Decision.valid hash names found = some VerificationResult.valid
single_result Decision.unknown hash names found = some VerificationResult.unknown
single_result Decision.extraneous_predecessor hash names (some p) =
    some (VerificationResult.violation (CausalViolation.extraneous_predecessor hash p))
single_result Decision.invalid_predecessor hash names (some p) =
    some (VerificationResult.violation (CausalViolation.invalid_predecessor hash names p))
single_result _ hash names found = none

unfoldable pub verify_single : StepDecl → String → Option String → Option VerificationResult
unfolding single_lookup single_result Kernel.single
verify_single step hash found =
    let names = if is_some found then allowed_single_predecessors step else [] in
    single_result (Kernel.single (not (is_empty step.predecessors)) (single_lookup found names))
      hash names found

-- The first `(all …)` clause of a step.
unfoldable pub first_all : List NodeRef → Option (List String)
first_all [] = none
first_all (NodeRef.all_of names ∷ rest) = some names
first_all (_ ∷ rest) = first_all rest

-- The variables of the fan-in loop.
pub record FanInScan : Type 0 where
  pub state : FanIn
  pub found_types : List String
  pub first_error : Option CausalViolation

abbrev pub no_scan : FanInScan
no_scan = record { state = FanIn.clear; found_types = []; first_error = none }

-- One round of the loop, at a hash and the type that it resolves to.
unfoldable pub scan_one : List String → String → Option String → FanInScan → FanInScan
unfolding Kernel.observe
scan_one names hash none s = record s { state = Kernel.observe s.state Lookup.missing }
scan_one names hash (some p) s =
    if contains names p
    then record s {
      state = Kernel.observe s.state Lookup.allowed;
      found_types = set_insert p s.found_types;
    }
    else record s {
      state = Kernel.observe s.state Lookup.wrong;
      first_error = elim s.first_error [
        | none ↦ some (CausalViolation.invalid_predecessor hash names p)
        | some e ↦ some e
      ];
    }

unfoldable pub scan_all :
    List String → (String → Option String) → List String → FanInScan → FanInScan
scan_all names type_of [] s = s
scan_all names type_of (h ∷ hs) s = scan_all names type_of hs (scan_one names h (type_of h) s)

unfoldable pub is_clear : FanIn → Bool
is_clear FanIn.clear = true
is_clear _ = false

unfoldable pub missing_types : List String → FanInScan → List String
unfolding is_clear
missing_types names s =
    if is_clear s.state then retain (λ t. not (contains s.found_types t)) names else []

unfoldable pub fan_in_result :
    Decision → String → Option CausalViolation → List String → Option VerificationResult
fan_in_result Decision.valid perf err missing = some VerificationResult.valid
fan_in_result Decision.unknown perf err missing = some VerificationResult.unknown
fan_in_result Decision.invalid_predecessor perf (some e) missing =
    some (VerificationResult.violation e)
fan_in_result Decision.incomplete_fan_in perf err missing =
    some (VerificationResult.violation (CausalViolation.incomplete_fan_in missing))
fan_in_result Decision.fan_in_without_all_decl perf err missing =
    some (VerificationResult.violation (CausalViolation.fan_in_without_all_decl perf))
fan_in_result _ perf err missing = none

unfoldable pub finish_scan : String → List String → FanInScan → Option VerificationResult
unfolding fan_in_result missing_types Kernel.finish
finish_scan perf names s =
    let missing = missing_types names s in
    fan_in_result (Kernel.finish true s.state (is_empty missing)) perf s.first_error missing

unfoldable pub verify_multiple :
    String → StepDecl → (String → Option String) → List String → Option VerificationResult
unfolding first_all scan_all scan_one finish_scan
verify_multiple perf step type_of hashes = elim (first_all step.predecessors) [
  | none ↦ fan_in_result (Kernel.finish false FanIn.clear true) perf none []
  | some names ↦ finish_scan perf names (scan_all names type_of hashes no_scan)
]

-- The verdict for a message whose performative has a step.
unfoldable pub verify_step :
    String → StepDecl → Option CausedBy → (String → Option String) → Option VerificationResult
unfolding absent_result begin_result allows_begin verify_single verify_multiple Kernel.absent
    Kernel.literal_begin
verify_step perf step none type_of =
    absent_result (Kernel.absent (not (is_empty step.predecessors)))
verify_step perf step (some CausedBy.begin) type_of =
    begin_result step (Kernel.literal_begin (any allows_begin step.predecessors))
verify_step perf step (some (CausedBy.single h)) type_of = verify_single step h (type_of h)
verify_step perf step (some (CausedBy.multiple hs)) type_of = verify_multiple perf step type_of hs

-- Does the protocol have names that a repeat macro made?
unfoldable pub has_repeat : CausalProtocol → Bool
unfolding contains_char
has_repeat protocol = any (contains_char repeat_separator) (keys protocol.steps)

-- The verifier that takes over for such a protocol.
abbrev pub RepeatVerify : Type 0
RepeatVerify =
    String → Option CausedBy → MessageStore → CausalProtocol → String → VerificationResult

unfoldable pub verify_causal :
    RepeatVerify
    → String
    → Option CausedBy
    → MessageStore
    → CausalProtocol
    → String
    → Option VerificationResult
unfolding verify_step has_repeat
verify_causal repeat_verify perf caused_by store protocol thread =
    if has_repeat protocol
    then some (repeat_verify perf caused_by store protocol thread)
    else elim (get perf protocol.steps) [
      | none ↦ some VerificationResult.valid
      | some step ↦ verify_step perf step caused_by (λ h. predecessor_type store h thread)
    ]
