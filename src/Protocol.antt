-- ===== src/Protocol.antt =====
-- Protocol declarations and verdicts (crates/cbcl-core/src/protocol.rs). The ordered sets of names
-- are the lists of their members in their order.
pub mod Lattice
pub mod Checks
mod Tests
use cbcl_rs.Prelude.{
  Bool, List, Map, Option, String, [], eqb, false, if◌then◌else◌, none, some, true, ℕ, ◌++◌, ◌∷◌,
}
use Prim.Native.Char.{code}

abbrev pub begin_keyword : String
begin_keyword = "begin"

-- '#', as a code point.
abbrev pub repeat_separator : ℕ
repeat_separator = 35

unfoldable pub contains_char : ℕ → String → Bool
contains_char c String.[] = false
contains_char c (String.◌∷◌ x s) = if eqb (code x) c then true else contains_char c s

-- What stands before the first separator.
unfoldable pub repeat_base_name : String → String
repeat_base_name String.[] = String.[]
repeat_base_name (String.◌∷◌ x s) =
    if eqb (code x) repeat_separator then String.[] else String.◌∷◌ x (repeat_base_name s)

pub data NodeRef : Type 0 where
  single : String → NodeRef
  any_of : List String → NodeRef
  all_of : List String → NodeRef

unfoldable pub performatives : NodeRef → List String
performatives (single s) = s ∷ []
performatives (any_of names) = names
performatives (all_of names) = names

pub record StepDecl : Type 0 where
  pub performative : String
  pub predecessors : List NodeRef
  pub successors : List NodeRef

pub record CausalProtocol : Type 0 where
  pub steps : Map StepDecl

pub data CausalViolation : Type 0 where
  unknown_predecessor : String → CausalViolation
  invalid_predecessor : String → List String → String → CausalViolation
  missing_caused_by : CausalViolation
  incomplete_fan_in : List String → CausalViolation
  extraneous_predecessor : String → String → CausalViolation
  fan_in_without_all_decl : String → CausalViolation
  role_conformance : String → CausalViolation

pub data VerificationResult : Type 0 where
  unknown : VerificationResult
  valid : VerificationResult
  violation : CausalViolation → VerificationResult

-- Strong Kleene conjunction.
unfoldable pub meet : VerificationResult → VerificationResult → VerificationResult
meet (violation v) other = violation v
meet _ (violation w) = violation w
meet unknown _ = unknown
meet valid unknown = unknown
meet valid valid = valid

-- Strong Kleene disjunction.
unfoldable pub join : VerificationResult → VerificationResult → VerificationResult
join valid _ = valid
join _ valid = valid
join unknown _ = unknown
join (violation v) unknown = unknown
join (violation v) (violation w) = violation v

unfoldable pub is_resolved : VerificationResult → Bool
is_resolved unknown = false
is_resolved _ = true

-- What `partial_cmp` returns; `none` for verdicts that cannot be compared.
pub data Order : Type 0 where
  less equal greater : Order

unfoldable pub partial_cmp : VerificationResult → VerificationResult → Option Order
partial_cmp unknown unknown = some Order.equal
partial_cmp valid valid = some Order.equal
partial_cmp (violation v) (violation w) = some Order.equal
partial_cmp unknown _ = some Order.less
partial_cmp _ unknown = some Order.greater
partial_cmp valid (violation w) = none
partial_cmp (violation v) valid = none

-- The names that may stand as a single predecessor of the step.
unfoldable pub allowed_single : List NodeRef → List String
allowed_single [] = []
allowed_single (single s ∷ refs) = s ∷ allowed_single refs
allowed_single (any_of names ∷ refs) = names ++ allowed_single refs
allowed_single (all_of names ∷ refs) = allowed_single refs

unfoldable pub allowed_single_predecessors : StepDecl → List String
unfolding allowed_single
allowed_single_predecessors step = allowed_single step.predecessors
