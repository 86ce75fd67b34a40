-- ===== src/Store/Tests.antt =====
-- A store of two messages (crates/cbcl-core/src/store.rs).
use cbcl_rs.Prelude.{
  List, Option, String, [], arith, contains, eq_iff, get, insert, none, not, refl, some, true, ◌&&◌,
  ◌∷◌, ◌≡◌,
}
use cbcl_rs.Sexpr.{SExpr, nil}
use cbcl_rs.Message.{Message, CausedBy, Performative, CorePerformative, caused_by}
use cbcl_rs.Protocol.{NodeRef, StepDecl, CausalProtocol, VerificationResult}
use cbcl_rs.Verify.{RepeatVerify}
use cbcl_rs.Envelope.{RedactedEnvelope, OpenedEnvelope, SignatureSuite}
use cbcl_rs.Store.{
  ThreadedMessageStore, empty_store, append, lookup_in_thread, store_contains, messages, frontier,
  links, causal_closure,
}
use cbcl_rs.Store.Refinement.{append_each, put_each, no_table, in_thread, append_each-put_each}
use cbcl_rs.Store.Valid.{IsValid, append-IsValid, empty_store-IsValid, cites}
use cbcl_rs.Store.Lookup.{append_comm}
use cbcl_rs.Store.Frontier.{contains-frontier, holds}
use cbcl_rs.Store.Closure.{Reach, Each, causal_closure_sound, causal_closure_complete}
use cbcl_rs.Store.Closure.Fuel.{enough, causal_closure-ends}

abbrev question : Message
question =
    Message.simple (Performative.core CorePerformative.ask) none (SExpr.list nil) [] (some "t") none
      (some CausedBy.begin)

abbrev answer : Message
answer =
    Message.simple (Performative.core CorePerformative.reply) none (SExpr.list nil) [] (some "t")
      none (some (CausedBy.single "q"))

abbrev asked : ThreadedMessageStore
asked = (append "q" "t" question empty_store).0

abbrev answered : ThreadedMessageStore
answered = (append "r" "t" answer asked).0

asked-IsValid : IsValid asked
asked-IsValid = append-IsValid "q" "t" question empty_store empty_store-IsValid

append-IsValid_example : IsValid answered
append-IsValid_example = append-IsValid "r" "t" answer asked asked-IsValid

append_comm_example :
    lookup_in_thread "q" "t" (append "r" "t" answer (append "q" "t" question empty_store).0).0
    ≡ lookup_in_thread "q" "t" (append "q" "t" question (append "r" "t" answer empty_store).0).0
append_comm_example =
    append_comm "q" "t" question "r" "t" answer empty_store "q" "t" empty_store-IsValid
      (λ e. absurd (ground (arith, (eq_iff "q" "r").1 e)))

contains-frontier_example :
    contains (frontier "t" answered) "r"
    ≡ (holds (messages answered "t") "r" && not (cites (messages answered "t") "r"))
contains-frontier_example = contains-frontier "t" "r" answered append-IsValid_example

answer-stored : store_contains "r" "t" answered ≡ true
unfolding store_contains append get insert
answer-stored = refl

closed : causal_closure 5 "r" "t" answered ≡ some ("r" ∷ "q" ∷ [])
unfolding causal_closure append get insert
closed = refl

causal_closure_sound_example : Each (Reach (links answered "t") "r") ("r" ∷ "q" ∷ [])
causal_closure_sound_example = causal_closure_sound answered "t" "r" answer-stored 5 closed

answer-cites : contains (links answered "t" "r") "q" ≡ true
unfolding links append get insert
answer-cites = refl

causal_closure_complete_example : contains ("r" ∷ "q" ∷ []) "q" ≡ true
causal_closure_complete_example =
    causal_closure_complete answered "t" "r" answer-stored 5 closed "q"
      (Reach.follow Reach.here answer-cites)

causal_closure-ends_example :
    (found : List String) × (causal_closure (enough asked "t") "q" "t" asked ≡ some found)
causal_closure-ends_example = causal_closure-ends asked "t" asked-IsValid "q"

abbrev reply_step : StepDecl
reply_step = record {
  performative = "reply";
  predecessors = NodeRef.single "ask" ∷ [];
  successors = [];
}

abbrev exchange : CausalProtocol
exchange = record { steps = ("reply", reply_step) ∷ [] }

abbrev never : RepeatVerify
never perf cb store protocol thread = VerificationResult.unknown

abbrev sealed : RedactedEnvelope
sealed = record {
  header = record {
    content_hash = "q";
    performative = "ask";
    sender = record { suite = SignatureSuite.ed25519; name = "@a" };
    recipients = [];
    thread = "t";
    caused_by = none;
  };
  signature = [];
}

abbrev all_verified : RedactedEnvelope → Option String
all_verified e = none

abbrev threadless : OpenedEnvelope
threadless = record { root = "q"; suite = SignatureSuite.ed25519; signature = []; openings = [] }

abbrev all_opened : OpenedEnvelope → Option String
all_opened e = none

append_each-put_each_example :
    ((append_each (("q", "t", question) ∷ ("q", "u", answer) ∷ []) empty_store).1
      ≡ (put_each (("q", "t", question) ∷ ("q", "u", answer) ∷ []) no_table).1)
    × (lookup_in_thread "q" "u"
          (append_each (("q", "t", question) ∷ ("q", "u", answer) ∷ []) empty_store).0
        ≡ in_thread "u"
            ((put_each (("q", "t", question) ∷ ("q", "u", answer) ∷ []) no_table).0 "q"))
append_each-put_each_example =
    append_each-put_each (("q", "t", question) ∷ ("q", "u", answer) ∷ []) "q" "u"
