-- ===== src/Admission/Check.antt =====
-- The checks on a message before it becomes a candidate (`check_message` of
-- crates/cbcl-core/src/admission.rs, with what it reads of dialect.rs and role.rs).
use cbcl_rs.Prelude.{
  Bool, List, Option, String, any, contains, false, if◌then◌else◌, inl, inr, is_empty, keys, none,
  not, some, true, ◌&&◌, ◌==◌, ◌||◌, ◌∷◌, ◌⊎◌,
}
use cbcl_rs.Sexpr.{SExpr, atom, symbol}
use cbcl_rs.Message
use cbcl_rs.Message.{
  Message, CausedBy, WrapperType, innermost_simple, wrapper_type, caused_by, recipient_set, name,
}
use cbcl_rs.Dialect.{PerformativeDef, RoleAnnotation, find_performative}
use cbcl_rs.Protocol.{CausalProtocol, begin_keyword, repeat_base_name}

-- The fields of a dialect that a monitor reads.
pub record Dialect : Type 0 where
  pub dialect_name : String
  pub performatives : List PerformativeDef
  pub causal_protocol : CausalProtocol

-- What a monitor fixes when it is made.
pub record Context : Type 0 where
  pub dialect : Dialect
  pub role : String
  pub endpoint_key : String
  pub thread : String
  pub root : String

-- The texts of the errors, one constructor each.
pub data Refusal : Type 0 where
  simple_payload_required : Refusal
  other_thread : Refusal
  cast_off_root : Refusal
  nested_signatures : Refusal
  signer_key_required : Refusal
  wrong_dialect : Refusal
  unsigned : Refusal
  not_a_nomination : Refusal
  no_predecessors : Refusal
  not_a_step : Refusal
  missing_annotation : Refusal
  not_relevant : Refusal

pub data AdmissionError : Type 0 where
  authentication : String → AdmissionError
  message : Refusal → AdmissionError
  conflicting_identity : String → AdmissionError

abbrev pub is_text : Option String → String → Bool
is_text none t = false
is_text (some s) t = s == t

abbrev pub first_symbol : List SExpr → Option String
first_symbol (atom (symbol key) ∷ params) = some key
first_symbol _ = none

-- The key that a `signed` wrapper adds to the one found so far.
abbrev pub sign : Option String → List SExpr → Refusal ⊎ Option String
sign (some key) params = inl nested_signatures
sign none params = elim (first_symbol params) [
  | none ↦ inl signer_key_required
  | some key ↦ inr (some key)
]

-- The descent through the wrappers; `outer` holds on the outermost message of the root alone.
unfoldable pub find_signer : String → Bool → Option String → Message → Refusal ⊎ Option String
find_signer dialect outer signer (Message.wrapped WrapperType.with_roles params content) =
    let rest = find_signer dialect false signer content in if outer then rest else inl cast_off_root
find_signer dialect outer signer (Message.wrapped WrapperType.signed params content) =
    elim (sign signer params) [ inl e ↦ inl e | inr key ↦ find_signer dialect false key content ]
find_signer dialect outer signer (Message.wrapped w params content) =
    find_signer dialect false signer content
find_signer dialect outer signer (Message.dialect d inner) =
    let rest = find_signer dialect false signer inner in
    if d == dialect then rest else inl wrong_dialect
find_signer dialect outer signer _ = inr signer

abbrev is_with_roles : Option WrapperType → Bool
is_with_roles (some WrapperType.with_roles) = true
is_with_roles _ = false

abbrev pub is_begin : Option CausedBy → Bool
is_begin (some CausedBy.begin) = true
is_begin _ = false

abbrev pub cites_predecessors : Option CausedBy → Bool
cites_predecessors (some (CausedBy.single h)) = true
cites_predecessors (some (CausedBy.multiple hs)) = not (is_empty hs)
cites_predecessors _ = false

abbrev performative_name : Message → String
performative_name m = elim (Message.performative m) [ none ↦ "" | some p ↦ name p ]

unfoldable pub is_step : String → CausalProtocol → Bool
unfolding repeat_base_name
is_step perf protocol =
    any (λ k. repeat_base_name k == perf) (keys protocol.steps) && not (perf == begin_keyword)

abbrev annotation_of : Option PerformativeDef → Option RoleAnnotation
annotation_of none = none
annotation_of (some p) = p.role

unfoldable pub is_relevant : Context → String → Message → RoleAnnotation → Bool
unfolding recipient_set
is_relevant c signer payload ann =
    (ann.sender == c.role && signer == c.endpoint_key)
    || (contains ann.receivers c.role && contains (recipient_set payload) c.endpoint_key)

abbrev pub root_check : Message → Message → Option Refusal
root_check m payload =
    if is_with_roles (wrapper_type m) && is_begin (caused_by payload)
    then none
    else some not_a_nomination

unfoldable pub step_check : Context → String → Message → Option Refusal
unfolding caused_by is_step is_relevant find_performative Message.performative
step_check c signer payload =
    if not (cites_predecessors (caused_by payload))
    then some no_predecessors
    else if not (is_step (performative_name payload) c.dialect.causal_protocol)
    then some not_a_step
    else elim (annotation_of
        (find_performative (performative_name payload) c.dialect.performatives)) [
          | none ↦ some missing_annotation
          | some ann ↦ if is_relevant c signer payload ann then none else some not_relevant
        ]

-- `none` where the m passes.
unfoldable pub check_message : Context → String → Message → Option Refusal
unfolding innermost_simple Message.thread find_signer wrapper_type caused_by step_check
check_message c hash m = elim (innermost_simple m) [
  | none ↦ some simple_payload_required
  | some payload ↦
      if not (is_text (Message.thread payload) c.thread)
      then some other_thread
      else elim (find_signer c.dialect.dialect_name (hash == c.root) none m) [
        | inl e ↦ some e
        | inr none ↦ some unsigned
        | inr (some signer) ↦
            if hash == c.root then root_check m payload else step_check c signer payload
      ]
]
