-- ===== src/Verify/Tests.antt =====
-- The verifier on a protocol of three steps (crates/cbcl-core/src/protocol.rs).
use cbcl_rs.Prelude.{
  Option, String, [], false, get, if◌then◌else◌, none, refl, some, true, ◌==◌, ◌∷◌, ◌≡◌,
}
use cbcl_rs.Sexpr.{SExpr, nil}
use cbcl_rs.Message.{Message, CausedBy, Performative}
use cbcl_rs.Protocol.{
  allowed_single_predecessors, NodeRef, StepDecl, CausalProtocol, VerificationResult,
}
use cbcl_rs.Verify.{
  MessageStore, RepeatVerify, verify_causal, message_type, predecessor_type, has_repeat,
}
use cbcl_rs.Verify.Exact.{covers}
use cbcl_rs.Verify.Total.{verify_causal-Returns}

abbrev bid : StepDecl
bid = record {
  performative = "bid";
  predecessors = NodeRef.single "begin" ∷ [];
  successors = NodeRef.single "award" ∷ [];
}

abbrev award : StepDecl
award = record { performative = "award"; predecessors = NodeRef.single "bid" ∷ []; successors = [] }

abbrev auction : CausalProtocol
auction = record { steps = ("bid", bid) ∷ ("award", award) ∷ [] }

abbrev bid_message : Message
bid_message =
    Message.simple (Performative.custom "bid") none (SExpr.list nil) [] none none
      (some CausedBy.begin)

abbrev no_messages : MessageStore
no_messages = record {
  lookup_in_thread = λ h t. none;
  envelope_in_thread = λ h t. none;
  opened_in_thread = λ h t. none;
}

abbrev one_bid : MessageStore
one_bid = record no_messages {
  lookup_in_thread = λ h t. if h == "h1" then some bid_message else none;
}

abbrev never : RepeatVerify
never perf cb store protocol thread = VerificationResult.unknown

abbrev after_bid : Option CausedBy
after_bid = some (CausedBy.single "h1")

auction-plain : has_repeat auction ≡ false
unfolding has_repeat
auction-plain = refl

award-unknown :
    verify_causal never "award" after_bid no_messages auction "t" ≡ some VerificationResult.unknown
unfolding verify_causal predecessor_type get
award-unknown = refl

award-valid :
    verify_causal never "award" after_bid one_bid auction "t" ≡ some VerificationResult.valid
unfolding verify_causal predecessor_type get allowed_single_predecessors message_type
award-valid = refl

verify_causal-Returns_example :
    (r : VerificationResult) × (verify_causal never "award" after_bid one_bid auction "t" ≡ some r)
verify_causal-Returns_example =
    verify_causal-Returns never "award" after_bid one_bid auction "t" auction-plain

abbrev close_step : StepDecl
close_step = record {
  performative = "close";
  predecessors = NodeRef.all_of ("bid" ∷ "ask" ∷ []) ∷ [];
  successors = [];
}

abbrev types : String → Option String
types h = if h == "h1" then some "bid" else if h == "h2" then some "ask" else none

close-covered : covers ("bid" ∷ "ask" ∷ []) types ("h1" ∷ "h2" ∷ []) ≡ true
close-covered = refl
