-- ===== src/Bundle.antt =====
-- Causal closure bundles: their checks and their merge into a store
-- (crates/cbcl-core/src/store.rs). The extraction of a bundle is not here.
pub mod Complete
pub mod Merge
mod Tests
use cbcl_rs.Prelude.{
  List, Option, String, [], contains, if◌then◌else◌, keys, none, some, ℕ, ◌++◌, ◌+◌, ◌==◌, ◌∷◌,
}
use cbcl_rs.Message
use cbcl_rs.Message.{Message, name, caused_by, refs}
use cbcl_rs.Protocol.{CausalProtocol, CausalViolation, VerificationResult, violation}
use cbcl_rs.Verify
use cbcl_rs.Verify.{RepeatVerify}
use cbcl_rs.Store.{ThreadedMessageStore, empty_store, append, as_message_store}

pub data BundleVerificationError : Type 0 where
  -- hash, expected, computed
  hash_mismatch : String → String → String → BundleVerificationError
  dangling_reference : String → BundleVerificationError
  causal_violation : CausalViolation → BundleVerificationError

-- `Result<(), Vec<BundleVerificationError>>`
pub data Checked : Type 0 where
  ok : Checked
  err : List BundleVerificationError → Checked

unfoldable pub to_checked : List BundleVerificationError → Checked
to_checked [] = ok
to_checked (e ∷ es) = err (e ∷ es)

pub record CausalClosureBundle : Type 0 where
  pub target : String
  pub thread : String
  pub messages : List (String × Message)

unfoldable pub dangling : List String → List String → List BundleVerificationError
dangling known [] = []
dangling known (r ∷ rs) =
    let rest = dangling known rs in if contains known r then rest else dangling_reference r ∷ rest

unfoldable pub all_dangling : List String → List (String × Message) → List BundleVerificationError
unfolding dangling
all_dangling known [] = []
all_dangling known ((h, m) ∷ msgs) = dangling known (refs (caused_by m)) ++ all_dangling known msgs

unfoldable pub verify_completeness : CausalClosureBundle → Checked
unfolding all_dangling to_checked
verify_completeness b = to_checked (all_dangling (keys b.messages) b.messages)

unfoldable pub mismatches :
    (Message → String) → List (String × Message) → List BundleVerificationError
mismatches hasher [] = []
mismatches hasher ((expected, m) ∷ msgs) =
    let rest = mismatches hasher msgs in
    if hasher m == expected then rest else hash_mismatch expected expected (hasher m) ∷ rest

unfoldable pub verify_hashes : (Message → String) → CausalClosureBundle → Checked
unfolding mismatches to_checked
verify_hashes hasher b = to_checked (mismatches hasher b.messages)

-- The messages are appended in their order; the counts are of the new and of the known ones.
pub record MergeResult : Type 0 where
  pub added : ℕ
  pub deduplicated : ℕ

unfoldable pub merge_all :
    String
    → List (String × Message)
    → MergeResult
    → ThreadedMessageStore
    → MergeResult × ThreadedMessageStore
merge_all thread [] counts s = (counts, s)
merge_all thread ((h, m) ∷ msgs) counts s =
    let (s', fresh) = append h thread m s in
    merge_all thread msgs
      (if fresh
        then record counts { added = counts.added + 1 }
        else record counts { deduplicated = counts.deduplicated + 1 })
      s'

unfoldable pub merge :
    CausalClosureBundle → ThreadedMessageStore → MergeResult × ThreadedMessageStore
unfolding merge_all
merge b s = merge_all b.thread b.messages (record { added = 0; deduplicated = 0 }) s

unfoldable pub append_all :
    String → List (String × Message) → ThreadedMessageStore → ThreadedMessageStore
append_all thread [] s = s
append_all thread ((h, m) ∷ msgs) s = append_all thread msgs (append h thread m s).0

-- The name of the outer message itself, if it is simple.
unfoldable pub outer_name : Message → String
outer_name m = elim (Message.performative m) [ none ↦ "" | some p ↦ name p ]

unfoldable pub violation_error : VerificationResult → List BundleVerificationError
violation_error (violation v) = causal_violation v ∷ []
violation_error _ = []

-- `none` if the verifier panics on some message.
unfoldable pub causal_errors :
    RepeatVerify
    → ThreadedMessageStore
    → CausalProtocol
    → String
    → List (String × Message)
    → Option (List BundleVerificationError)
unfolding outer_name violation_error
causal_errors rep s protocol thread [] = some []
causal_errors rep s protocol thread ((h, m) ∷ msgs) =
    elim (Verify.verify_causal rep (outer_name m) (caused_by m) (as_message_store s) protocol
      thread) [
        | none ↦ none
        | some r ↦ elim (causal_errors rep s protocol thread msgs) [
          | none ↦ none
          | some es ↦ some (violation_error r ++ es)
        ]
      ]

abbrev checked_errors : Option (List BundleVerificationError) → Option Checked
checked_errors none = none
checked_errors (some es) = some (to_checked es)

unfoldable pub verify_causal : RepeatVerify → CausalProtocol → CausalClosureBundle → Option Checked
unfolding causal_errors append_all to_checked
verify_causal rep protocol b =
    checked_errors
      (causal_errors rep (append_all b.thread b.messages empty_store) protocol b.thread b.messages)

unfoldable pub errors_of : Checked → List BundleVerificationError
errors_of ok = []
errors_of (err es) = es

unfoldable pub verify_full :
    RepeatVerify → (Message → String) → CausalProtocol → CausalClosureBundle → Option Checked
unfolding verify_completeness verify_hashes verify_causal errors_of
verify_full rep hasher protocol b = elim (verify_causal rep protocol b) [
  | none ↦ none
  | some c ↦ some (
      to_checked
        (errors_of (verify_completeness b) ++ errors_of (verify_hashes hasher b) ++ errors_of c))
]
