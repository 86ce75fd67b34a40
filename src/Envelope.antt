-- ===== src/Envelope.antt =====
-- Redacted and opened envelopes (crates/cbcl-core/src/envelope.rs, with the header of attest.rs,
-- the openings of typed_addr.rs and the keys of keyid.rs). Signatures and hashes are byte lists;
-- the check of a signature is the caller's argument wherever it is needed.
use cbcl_rs.Prelude.{Bool, List, Option, String, [], false, if◌then◌else◌, none, some, true, ℕ, ◌∷◌}
use cbcl_rs.Sexpr.{symbol, str, SExpr, atom, list, nil, cons}
use cbcl_rs.Message.{CausedBy}

pub data SignatureSuite : Type 0 where
  ed25519 : SignatureSuite
  other : String → SignatureSuite

pub record KeyId : Type 0 where
  pub suite : SignatureSuite
  pub name : String

pub record AttestationHeader : Type 0 where
  pub content_hash : String
  pub performative : String
  pub sender : KeyId
  pub recipients : List KeyId
  pub thread : String
  pub caused_by : Option CausedBy

pub record RedactedEnvelope : Type 0 where
  pub header : AttestationHeader
  pub signature : List ℕ

pub data FieldId : Type 0 where
  performative sender recipients caused_by thread payload : FieldId

pub data Side : Type 0 where
  left right : Side

pub record Opening : Type 0 where
  pub field : FieldId
  pub value : SExpr
  pub path : List (List ℕ × Side)

pub record OpenedEnvelope : Type 0 where
  pub root : String
  pub suite : SignatureSuite
  pub signature : List ℕ
  pub openings : List Opening

abbrev same_field : FieldId → FieldId → Bool
same_field FieldId.performative FieldId.performative = true
same_field FieldId.sender FieldId.sender = true
same_field FieldId.recipients FieldId.recipients = true
same_field FieldId.caused_by FieldId.caused_by = true
same_field FieldId.thread FieldId.thread = true
same_field FieldId.payload FieldId.payload = true
same_field _ _ = false

-- The first opening for the field.
find_opening : FieldId → List Opening → Option Opening
find_opening f [] = none
find_opening f (o ∷ os) = if same_field o.field f then some o else find_opening f os

symbol_value : SExpr → Option String
symbol_value (atom (symbol s)) = some s
symbol_value _ = none

opt_leaf_str : SExpr → Option String
opt_leaf_str (list (cons (atom (str s)) nil)) = some s
opt_leaf_str (list (cons (atom (symbol s)) nil)) = some s
opt_leaf_str _ = none

unfoldable pub opened_performative : OpenedEnvelope → Option String
unfolding find_opening symbol_value
opened_performative e = elim (find_opening FieldId.performative e.openings) [
  | none ↦ none
  | some o ↦ symbol_value o.value
]

unfoldable pub opened_thread : OpenedEnvelope → Option String
unfolding find_opening opt_leaf_str
opened_thread e = elim (find_opening FieldId.thread e.openings) [
  | none ↦ none
  | some o ↦ opt_leaf_str o.value
]
