-- ===== src/Dialect/Signable/State.antt =====
-- The clauses of the state layer as they are signed (crates/cbcl-core/src/canonical.rs, with the
-- data of state.rs and escrow.rs).
use cbcl_rs.Prelude.{List, Option, String, [], if◌then◌else◌, map, none, some, ℕ, ◌==◌, ◌∷◌}
use cbcl_rs.Sexpr.{SExpr, ℤ, atom, keyword, list, nil, num}
use cbcl_rs.Message.Print.{word}
use cbcl_rs.Certification.{Certification, canonical_option}
use cbcl_rs.Dialect.Signable.Forms.{form, text, number, option_map, segment}

pub data Ownership : Type 0 where
  account collective : Ownership

pub record CounterRule : Type 0 where
  pub ownership : Ownership
  pub certification : Certification
  pub floor : ℤ
  pub ceiling : Option ℤ
  pub initial_verb : String
  pub initial_key : String
  pub headroom_key : Option String
  pub issuer : String
  pub increment : String × String
  pub decrement : String × String
  pub transfer : Option (String × String × String)
  pub transfer_headroom : Option (String × String × String)

-- The fields of a rule stand in the order of the source.
pub data Rule : Type 0 where
  bounded_counter : CounterRule → Rule
  lww_register lww_per_signer : String → String → String → Rule
  lww_map : String → String → String → String → Option String → Rule
  initial : String → String → Rule
  exists count progress : String → Rule
  events set_union values : String → String → Rule
  values_per_key : String → String → String → Option String → Rule
  observed_set counter : String → String → String → Rule
  histogram sum : String → Rule

unfoldable pub head : Rule → String
head (bounded_counter c) = "bounded-counter"
head (lww_register verb key clock) = "lww-register"
head (lww_per_signer verb key clock) = "lww-per-signer"
head (lww_map verb key value clock delete) = "lww-map"
head (initial verb key) = "initial"
head (exists verb) = "exists"
head (count verb) = "count"
head (progress verb) = "progress"
head (events verb key) = "events"
head (set_union verb key) = "set-union"
head (values verb key) = "values"
head (values_per_key verb key value delete) = "values-per-key"
head (observed_set add remove key) = "observed-set"
head (counter inc dec key) = "counter"
head (histogram name) = "histogram"
head (sum name) = "sum"

-- The name and the rule of a field; the verb, the key and the field of a domain.
pub data Entry : Type 0 where
  field : String → Rule → Entry
  domain : String → String → String → Entry

pub record StateClause : Type 0 where
  pub entries : List Entry

pub record StateBounds : Type 0 where
  pub max_string : ℕ
  pub max_list : ℕ
  pub max_number : ℤ
  pub max_fields : ℕ

abbrev pub of_verb : String → String × String → SExpr
of_verb name (verb, k) = form name (word verb ∷ atom (keyword k) ∷ [])

abbrev pub of_transfer : String → String × String × String → SExpr
of_transfer name (verb, j, k) = form name (word verb ∷ atom (keyword j) ∷ atom (keyword k) ∷ [])

abbrev pub limit : String → ℤ → SExpr
limit name n = form name (atom (num n) ∷ [])

abbrev pub ownership_part : Ownership → Option SExpr
ownership_part account = none
ownership_part collective = some (form "ownership" (word "collective" ∷ []))

abbrev pub initial_name : Ownership → String
initial_name account = "initial-rights"
initial_name collective = "initial"

abbrev pub issuer_part : String → SExpr
issuer_part issuer = if issuer == "" then list nil else word issuer

unfoldable pub canonical_options : CounterRule → List SExpr
unfolding canonical_option
canonical_options c =
    limit "floor" c.floor
    ∷ segment (option_map (limit "ceiling") c.ceiling) (
        segment (canonical_option c.certification) (
          segment (ownership_part c.ownership) (
            of_verb (initial_name c.ownership) (c.initial_verb, c.initial_key)
            ∷ segment
                (option_map (λ k. of_verb "initial-headroom" (c.initial_verb, k)) c.headroom_key)
                (form "issuers" (issuer_part c.issuer ∷ [])
                  ∷ of_verb "increment" c.increment
                  ∷ of_verb "decrement" c.decrement
                  ∷ segment (option_map (of_transfer "transfer") c.transfer) (
                      segment (option_map (of_transfer "transfer-headroom") c.transfer_headroom)
                        [])))))

-- What stands behind the head of a rule.
unfoldable pub arguments : Rule → List SExpr
unfolding canonical_options
arguments (bounded_counter c) = canonical_options c
arguments (lww_register verb key clock) = text verb ∷ text key ∷ text clock ∷ []
arguments (lww_per_signer verb key clock) = text verb ∷ text key ∷ text clock ∷ []
arguments (lww_map verb key value clock delete) =
    text verb ∷ text key ∷ text value ∷ text clock ∷ segment (option_map text delete) []
arguments (initial verb key) = text verb ∷ text key ∷ []
arguments (exists verb) = text verb ∷ []
arguments (count verb) = text verb ∷ []
arguments (progress verb) = text verb ∷ []
arguments (events verb key) = text verb ∷ text key ∷ []
arguments (set_union verb key) = text verb ∷ text key ∷ []
arguments (values verb key) = text verb ∷ text key ∷ []
arguments (values_per_key verb key value delete) =
    text verb ∷ text key ∷ text value ∷ segment (option_map text delete) []
arguments (observed_set add remove key) = text add ∷ text remove ∷ text key ∷ []
arguments (counter inc dec key) = text inc ∷ text dec ∷ text key ∷ []
arguments (histogram name) = text name ∷ []
arguments (sum name) = text name ∷ []

unfoldable pub entry_to_sexpr : Entry → SExpr
unfolding arguments head
entry_to_sexpr (domain verb key name) = form "domain" (text verb ∷ text key ∷ text name ∷ [])
entry_to_sexpr (field name rule) = form "field" (text name ∷ form (head rule) (arguments rule) ∷ [])

unfoldable pub state_to_sexpr : StateClause → SExpr
unfolding entry_to_sexpr
state_to_sexpr clause = form "state" (map entry_to_sexpr clause.entries)

unfoldable pub state_bounds_to_sexpr : StateBounds → SExpr
state_bounds_to_sexpr b =
    form "state-bounds"
      (number b.max_string ∷ number b.max_list ∷ atom (num b.max_number) ∷ number b.max_fields ∷ [])
