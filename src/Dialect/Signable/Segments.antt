-- ===== src/Dialect/Signable/Segments.antt =====
-- The optional segments of what is signed can be told apart, and determine what they are written
-- for (crates/cbcl-core/src/canonical.rs).
use cbcl_rs.Prelude.{
  All, Bool, List, Option, String, [], ap, false, map, none, refl, some, sym, true, ◌∙◌, ◌∷◌, ◌≡◌,
  ◌≢◌,
}
use cbcl_rs.Dialect.Signable.State.{
  StateClause, StateBounds, state_to_sexpr, state_bounds_to_sexpr, entry_to_sexpr,
}
use cbcl_rs.Sexpr.{num, SExpr, atom, cons, list, symbol}
use cbcl_rs.Protocol.{CausalProtocol, StepDecl}
use cbcl_rs.Resources.{ResourceBounds}
use cbcl_rs.Shape.{ShapeConstraint}
use cbcl_rs.Dialect.Signable.{
  unless_empty, locality_segment, values, step_to_sexpr, protocol_to_sexpr, shape_to_sexpr,
  shapes_to_sexpr, RoleDecl, role_decl_to_sexpr, roles_to_sexpr, resources_to_sexpr, CausalLocality,
  reject, derive,
}
use cbcl_rs.Dialect.Signable.Forms.{number, form, option_map, segment}
use cbcl_rs.Dialect.Signable.Parts.{
  of_list_injective, map_injective, step_injective, shape_injective, role_decl_injective,
}

-- The symbol at the head of a list.
unfoldable pub head_symbol : SExpr → String
head_symbol (list (cons (atom (symbol s)) items)) = s
head_symbol _ = ""

abbrev pub NoneHas : String → List SExpr → Type 0
NoneHas t es = All (λ e. head_symbol e ≢ t) es

-- An optional segment of one head, before segments of other heads, can be told from them.
pub segment_cancel :
    (t : String) (o p : Option SExpr) (r s : List SExpr)
    → ((e : SExpr) → o ≡ some e → head_symbol e ≡ t)
    → ((e : SExpr) → p ≡ some e → head_symbol e ≡ t)
    → NoneHas t r
    → NoneHas t s
    → segment o r ≡ segment p s
    → (o ≡ p) × (r ≡ s)
segment_cancel t none none r s a b nr ns h = (refl, h)
segment_cancel t none (some e) [] s a b nr ns h = cc h
segment_cancel t none (some e) (x ∷ r) s a b nr ns h =
    absurd (nr.0 (ap head_symbol (cc h) ∙ b e refl))
segment_cancel t (some e) none r [] a b nr ns h = cc h
segment_cancel t (some e) none r (x ∷ s) a b nr ns h =
    absurd (ns.0 (ap head_symbol (cc h) ∙ a e refl))
segment_cancel t (some e) (some f) r s a b nr ns h = (cc h, cc h)

pub NoneHas-segment :
    (t : String) (o : Option SExpr) (r : List SExpr)
    → ((e : SExpr) → o ≡ some e → head_symbol e ≢ t)
    → NoneHas t r
    → NoneHas t (segment o r)
NoneHas-segment t none r a nr = nr
NoneHas-segment t (some e) r a nr = (a e refl, nr)

-- The mode, without the routes that are derived from the rest.
pub derives : CausalLocality → Bool
derives reject = false
derives (derive routes) = true

pub locality_injective :
    (x y : CausalLocality) → locality_segment x ≡ locality_segment y → derives x ≡ derives y
unfolding derives
locality_injective reject reject h = refl
locality_injective reject (derive r) h = cc h
locality_injective (derive r) reject h = cc h
locality_injective (derive r) (derive s) h = refl

protocol_injective :
    (x y : CausalProtocol)
    → protocol_to_sexpr x ≡ protocol_to_sexpr y
    → values x.steps ≡ values y.steps
unfolding protocol_to_sexpr
protocol_injective x y h =
    map_injective step_to_sexpr step_injective (values x.steps) (values y.steps) (
      of_list_injective (map step_to_sexpr (values x.steps)) (map step_to_sexpr (values y.steps))
        (cc h))

abbrev pub steps_of : Option CausalProtocol → Option (List StepDecl)
steps_of p = option_map (λ (q : CausalProtocol). values q.steps) p

pub protocol_option :
    (x y : Option CausalProtocol)
    → option_map protocol_to_sexpr x ≡ option_map protocol_to_sexpr y
    → steps_of x ≡ steps_of y
protocol_option none none h = refl
protocol_option none (some y) h = cc h
protocol_option (some x) none h = cc h
protocol_option (some x) (some y) h = ap some (protocol_injective x y (cc h))

pub unless_empty_injective :
    {A : Type 0} (write : List A → SExpr)
    → ((x y : List A) → write x ≡ write y → x ≡ y)
    → (x y : List A) → unless_empty write x ≡ unless_empty write y
    → x ≡ y
unless_empty_injective write one [] [] h = refl
unless_empty_injective write one [] (y ∷ ys) h = cc h
unless_empty_injective write one (x ∷ xs) [] h = cc h
unless_empty_injective write one (x ∷ xs) (y ∷ ys) h = one (x ∷ xs) (y ∷ ys) (cc h)

pub shapes_injective : (x y : List ShapeConstraint) → shapes_to_sexpr x ≡ shapes_to_sexpr y → x ≡ y
unfolding shapes_to_sexpr
shapes_injective x y h =
    map_injective shape_to_sexpr shape_injective x y
      (of_list_injective (map shape_to_sexpr x) (map shape_to_sexpr y) (cc h))

pub roles_injective : (x y : List RoleDecl) → roles_to_sexpr x ≡ roles_to_sexpr y → x ≡ y
unfolding roles_to_sexpr
roles_injective x y h =
    map_injective role_decl_to_sexpr role_decl_injective x y
      (of_list_injective (map role_decl_to_sexpr x) (map role_decl_to_sexpr y) (cc h))

pub resources_injective :
    (x y : ResourceBounds) → resources_to_sexpr x ≡ resources_to_sexpr y → x ≡ y
unfolding resources_to_sexpr
resources_injective x y h = cc h

form_head :
    (t : String) (es : List SExpr) (e : SExpr) → some (form t es) ≡ some e → head_symbol e ≡ t
unfolding head_symbol
form_head t es e h = let q : form t es ≡ e = cc h in ap head_symbol (sym q)

-- The heads of the optional segments.
pub protocol_head :
    (o : Option CausalProtocol) (e : SExpr)
    → option_map protocol_to_sexpr o ≡ some e
    → head_symbol e ≡ "causal-protocol"
unfolding protocol_to_sexpr head_symbol
protocol_head none e h = cc h
protocol_head (some p) e h = form_head "causal-protocol" (map step_to_sexpr (values p.steps)) e h

pub shapes_head :
    (xs : List ShapeConstraint) (e : SExpr)
    → unless_empty shapes_to_sexpr xs ≡ some e
    → head_symbol e ≡ "shapes"
unfolding shapes_to_sexpr head_symbol
shapes_head [] e h = cc h
shapes_head (x ∷ xs) e h = form_head "shapes" (map shape_to_sexpr (x ∷ xs)) e h

pub roles_head :
    (xs : List RoleDecl) (e : SExpr)
    → unless_empty roles_to_sexpr xs ≡ some e
    → head_symbol e ≡ "roles"
unfolding roles_to_sexpr head_symbol
roles_head [] e h = cc h
roles_head (x ∷ xs) e h = form_head "roles" (map role_decl_to_sexpr (x ∷ xs)) e h

pub locality_head :
    (m : CausalLocality) (e : SExpr)
    → locality_segment m ≡ some e
    → head_symbol e ≡ "causal-locality"
unfolding head_symbol
locality_head reject e h = cc h
locality_head (derive r) e h = form_head "causal-locality" (atom (symbol "derive") ∷ []) e h

pub state_head :
    (o : Option StateClause) (e : SExpr)
    → option_map state_to_sexpr o ≡ some e
    → head_symbol e ≡ "state"
unfolding state_to_sexpr head_symbol
state_head none e h = cc h
state_head (some c) e h = form_head "state" (map entry_to_sexpr c.entries) e h

pub bounds_head :
    (o : Option StateBounds) (e : SExpr)
    → option_map state_bounds_to_sexpr o ≡ some e
    → head_symbol e ≡ "state-bounds"
unfolding state_bounds_to_sexpr head_symbol
bounds_head none e h = cc h
bounds_head (some b) e h =
    form_head "state-bounds"
      (number b.max_string ∷ number b.max_list ∷ atom (num b.max_number) ∷ number b.max_fields ∷ [])
      e h
