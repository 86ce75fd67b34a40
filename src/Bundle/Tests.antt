-- ===== src/Bundle/Tests.antt =====
-- A bundle of two messages (crates/cbcl-core/src/store.rs).
use cbcl_rs.Prelude.{String, [], get, if◌then◌else◌, none, some, ◌+◌, ◌==◌, ◌∷◌, ◌≡◌}
use cbcl_rs.Sexpr.{SExpr, nil}
use cbcl_rs.Message.{Message, CausedBy, Performative, CorePerformative}
use cbcl_rs.Protocol.{CausalProtocol, VerificationResult}
use cbcl_rs.Verify.{RepeatVerify}
use cbcl_rs.Store.{empty_store, lookup_in_thread}
use cbcl_rs.Store.Valid.{IsValid, empty_store-IsValid, is_known}
use cbcl_rs.Bundle.{CausalClosureBundle, merge}
use cbcl_rs.Bundle.Merge.{merge_lem}

abbrev question : Message
question =
    Message.simple (Performative.core CorePerformative.ask) none (SExpr.list nil) [] (some "t") none
      (some CausedBy.begin)

abbrev answer : Message
answer =
    Message.simple (Performative.core CorePerformative.reply) none (SExpr.list nil) [] (some "t")
      none (some (CausedBy.single "q"))

abbrev bundle : CausalClosureBundle
bundle = record { target = "r"; thread = "t"; messages = ("q", question) ∷ ("r", answer) ∷ [] }

abbrev small_bundle : CausalClosureBundle
small_bundle = record { target = "q"; thread = "t"; messages = ("q", question) ∷ [] }

abbrev no_steps : CausalProtocol
no_steps = record { steps = [] }

abbrev never : RepeatVerify
never perf cb store protocol thread = VerificationResult.unknown

merge_lem_example :
    IsValid (merge bundle empty_store).1
    × ((merge bundle empty_store).0.added + (merge bundle empty_store).0.deduplicated ≡ 2)
    × ((h t : String)
        → lookup_in_thread h t (merge bundle empty_store).1 ≡ (
            if is_known h empty_store
            then lookup_in_thread h t empty_store
            else if "t" == t
            then get h bundle.messages
            else none))
merge_lem_example = merge_lem bundle empty_store empty_store-IsValid

same_question :
    (m m' : Message)
    → get "q" small_bundle.messages ≡ some m
    → get "q" bundle.messages ≡ some m'
    → m ≡ m'
unfolding get
same_question m m' e e' = cc (e, e')
