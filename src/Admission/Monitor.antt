-- ===== src/Admission/Monitor.antt =====
-- The monitor of one thread at one endpoint (crates/cbcl-core/src/admission.rs). The gate and the
-- role verifier (projection.rs, with the dialect, the cast and the endpoint fixed) are arguments.
use cbcl_rs.Prelude.{
  Bool, List, Map, Option, String, [], all, false, get, if◌then◌else◌, inl, inr, insert, length,
  none, some, suc, true, zero, ℕ, ◌++◌, ◌==◌, ◌∷◌, ◌⊎◌,
}
use cbcl_rs.Message.{Message, CausedBy, innermost_simple, caused_by}
use cbcl_rs.Message.Equal.{same_message}
use cbcl_rs.Protocol.{CausalViolation, VerificationResult}
use cbcl_rs.Verify.{MessageStore}
use cbcl_rs.Store.{ThreadedMessageStore, append, store_contains, as_message_store}
use cbcl_rs.Admission.Check.{Context, AdmissionError, check_message}

pub data AdmissionState : Type 0 where
  pending accepted : AdmissionState
  rejected : CausalViolation → AdmissionState

pub record AdmissionEvent : Type 0 where
  pub hash : String
  pub state : AdmissionState

pub record Candidate : Type 0 where
  pub message : Message
  pub state : AdmissionState

-- `context` holds the fields that never change.
pub record AdmissionMonitor : Type 0 where
  pub context : Context
  pub received : Map Candidate
  pub pending : List String
  pub accepted : ThreadedMessageStore

-- The content hash of an authentic message, or the reason of a refusal.
abbrev pub AdmissionGate : Type 0
AdmissionGate = Message → String ⊎ String

-- The verdict on a message, given the store, the thread and the root.
abbrev pub RoleVerify : Type 0
RoleVerify = Message → MessageStore → String → String → VerificationResult

abbrev pub new_candidate : Message → Candidate
new_candidate m = record { message = m; state = AdmissionState.pending }

unfoldable pub receive_as :
    String → Message → AdmissionMonitor → AdmissionMonitor × (AdmissionError ⊎ String)
receive_as hash m a = elim (get hash a.received) [
  | some existing ↦ (
    a,
    if same_message existing.message m
        then inr hash
        else inl (AdmissionError.conflicting_identity hash),
  )
  | none ↦ elim (check_message a.context hash m) [
    | some e ↦ (a, inl (AdmissionError.message e))
    | none ↦ (
      record a {
        received = insert hash (new_candidate m) a.received;
        pending = a.pending ++ hash ∷ [];
      },
      inr hash,
    )
  ]
]

unfoldable pub receive_with :
    String ⊎ String → Message → AdmissionMonitor → AdmissionMonitor × (AdmissionError ⊎ String)
receive_with (inl e) m a = (a, inl (AdmissionError.authentication e))
receive_with (inr hash) m a = receive_as hash m a

unfoldable pub receive :
    AdmissionGate → Message → AdmissionMonitor → AdmissionMonitor × (AdmissionError ⊎ String)
unfolding receive_with receive_as
receive gate m a = receive_with (gate m) m a

abbrev pub reference : Option Message → Option CausedBy
reference none = none
reference (some m) = caused_by m

abbrev pub cited_in_store : ThreadedMessageStore → String → Option CausedBy → Bool
cited_in_store s thread (some (CausedBy.single h)) = store_contains h thread s
cited_in_store s thread (some (CausedBy.multiple hs)) = all (λ h. store_contains h thread s) hs
cited_in_store s thread _ = false

unfoldable pub resolved : Context → ThreadedMessageStore → String → Message → Bool
unfolding innermost_simple caused_by
resolved c s hash m =
    if hash == c.root
    then true
    else if store_contains c.root c.thread s
    then cited_in_store s c.thread (reference (innermost_simple m))
    else false

abbrev pub outcome : VerificationResult → AdmissionState
outcome VerificationResult.valid = AdmissionState.accepted
outcome VerificationResult.unknown = AdmissionState.pending
outcome (VerificationResult.violation e) = AdmissionState.rejected e

-- The verifier reads the store as it is before the message goes in.
unfoldable pub verdict : RoleVerify → String → Message → AdmissionMonitor → AdmissionState
verdict verify hash m a =
    if resolved a.context a.accepted hash m
    then outcome (verify m (as_message_store a.accepted) (a.context.thread) (a.context.root))
    else AdmissionState.pending

unfoldable pub settle : String → Message → AdmissionState → AdmissionMonitor → AdmissionMonitor
settle hash m AdmissionState.accepted a = record a {
  accepted = (append hash (a.context.thread) m a.accepted).0;
}
settle hash m AdmissionState.pending a = record a { pending = a.pending ++ hash ∷ [] }
settle hash m (AdmissionState.rejected e) a = a

unfoldable pub mark : String → Candidate → AdmissionState → AdmissionMonitor → AdmissionMonitor
mark hash c state a = record a { received = insert hash (record c { state = state }) a.received }

-- What a step comes to; `panicked` is the `expect` on the candidate of a queued hash.
pub data Visit : Type 0 where
  idle panicked : Visit
  visited : AdmissionMonitor → AdmissionEvent → Visit

unfoldable pub visit : RoleVerify → String → Option Candidate → AdmissionMonitor → Visit
unfolding settle mark
visit verify hash none a = panicked
visit verify hash (some c) a =
    let state = verdict verify hash c.message a in
    visited (mark hash c state (settle hash c.message state a))
      (record { hash = hash; state = state })

unfoldable pub step_from : RoleVerify → List String → AdmissionMonitor → Visit
step_from verify [] a = idle
step_from verify (hash ∷ rest) a =
    visit verify hash (get hash a.received) (record a { pending = rest })

unfoldable pub step : RoleVerify → AdmissionMonitor → Visit
unfolding step_from visit
step verify a = step_from verify a.pending a

abbrev pub is_pending : AdmissionState → Bool
is_pending AdmissionState.pending = true
is_pending _ = false

abbrev pub report :
    AdmissionEvent
    → Option (AdmissionMonitor × List AdmissionEvent)
    → Option (AdmissionMonitor × List AdmissionEvent)
report e none = none
report e (some (a, es)) = some (a, if is_pending e.state then es else e ∷ es)

-- The inner loop, of as many steps as it is given; `none` is the panic of a step or on no step.
unfoldable pub round :
    RoleVerify → ℕ → AdmissionMonitor → Option (AdmissionMonitor × List AdmissionEvent)
unfolding step
round verify zero a = some (a, [])
round verify (suc n) a = elim (step verify a) [
  | visited a' e ↦ report e (round verify n a')
  | _ ↦ none
]

-- The outer loop; `none` is a panic or fuel that ran out.
unfoldable pub drain_ready :
    ℕ → RoleVerify → AdmissionMonitor → Option (AdmissionMonitor × List AdmissionEvent)
unfolding round
drain_ready zero verify a = none
drain_ready (suc fuel) verify a = elim (round verify (length a.pending) a) [
  | none ↦ none
  | some (a', []) ↦ some (a', [])
  | some (a', e ∷ es) ↦ elim (drain_ready fuel verify a') [
    | none ↦ none
    | some (a'', later) ↦ some (a'', e ∷ es ++ later)
  ]
]
