-- ===== src/Shape/Conforms.antt =====
-- The shape check is exact (`ShapeConstraint::check` of crates/cbcl-core/src/shape.rs).
use cbcl_rs.Prelude.{
  Bool, Option, Option-cases, String, String-cases, ap, arith, eq_iff, false, inl, inr, ne_of_test,
  none, refl, some, subst, sym, true, ◌<◌, ◌↔◌, ◌≡◌, ◌≢◌, ◌≤◌, ◌⊎◌,
}
use cbcl_rs.Sexpr.{ℤ, Atom, Items, SExpr, atom, cons, depth, deepest, nil}
use cbcl_rs.Canonical.{as_bytes}
use cbcl_rs.Hlc
use cbcl_rs.Resources.{u32_range}
use cbcl_rs.Shape.{
  on_required, on_optional, ShapeViolation, TypeConstraint, ShapeRule, require, optional, max_depth,
  Rules, no_rules, more_rules, ShapeConstraint, matches, check_type, check_rule, check_rules, check,
  find_keyword_value, find_in, first_of, is_key, or_else,
}

-- The expressions of a type.
pub data HasType : TypeConstraint → SExpr → Type 0 where
  is_string : (s : String) → HasType TypeConstraint.string (atom (Atom.str s))
  is_hlc :
      (s : String) (h : Hlc.Hlc)
      → Hlc.parse (as_bytes s) ≡ some h
      → HasType TypeConstraint.hlc (atom (Atom.str s))
  is_number : (n : ℤ) → HasType TypeConstraint.number (atom (Atom.num n))
  is_bool : (b : Bool) → HasType TypeConstraint.bool (atom (Atom.bool b))
  is_a_symbol : (s : String) → HasType TypeConstraint.symbol (atom (Atom.symbol s))
  is_a_keyword : (k : String) → HasType TypeConstraint.keyword (atom (Atom.keyword k))
  is_list : (items : Items) → HasType TypeConstraint.list (SExpr.list items)

-- The value of a keyword: what stands behind its first occurrence, wherever that is.
pub data ValueIn (key : String) : Items → SExpr → Type 0 where
  here : (v : SExpr) (items : Items) → ValueIn key (cons (atom (Atom.keyword key)) (cons v items)) v
  there :
      (e v : SExpr) (items : Items)
      → e ≢ atom (Atom.keyword key)
      → ValueIn key items v
      → ValueIn key (cons e items) v

abbrev pub ValueOf : String → SExpr → SExpr → Type 0
ValueOf key (atom a) v = ⊥
ValueOf key (SExpr.list items) v = ValueIn key items v

abbrev pub TypeFits : Option TypeConstraint → SExpr → Type 0
TypeFits none v = Unit
TypeFits (some tc) v = HasType tc v

abbrev mutual
  pub Conforms : ShapeRule → SExpr → Type 0
  Conforms (require key tc children) e =
      (v : SExpr) × ValueOf key e v × TypeFits tc v × AllConform children v
  Conforms (optional key tc default children) e =
      (v : SExpr) → ValueOf key e v → TypeFits tc v × AllConform children v
  Conforms (max_depth most) e = depth e ≤ most

  pub AllConform : Rules → SExpr → Type 0
  AllConform no_rules e = Unit
  AllConform (more_rules rule rules) e = Conforms rule e × AllConform rules e

matches_sound : (tc : TypeConstraint) (v : SExpr) → matches tc v ≡ true → HasType tc v
unfolding matches
matches_sound TypeConstraint.string (atom (Atom.str s)) h = is_string s
matches_sound TypeConstraint.hlc (atom (Atom.str s)) h =
    elim (Option-cases (Hlc.parse (as_bytes s))) [
      | inl e ↦ absurd (ground (arith, h, e))
      | inr (t, e) ↦ is_hlc s t e
    ]
matches_sound TypeConstraint.number (atom (Atom.num n)) h = is_number n
matches_sound TypeConstraint.bool (atom (Atom.bool b)) h = is_bool b
matches_sound TypeConstraint.symbol (atom (Atom.symbol s)) h = is_a_symbol s
matches_sound TypeConstraint.keyword (atom (Atom.keyword k)) h = is_a_keyword k
matches_sound TypeConstraint.list (SExpr.list items) h = is_list items
matches_sound _ _ h = absurd (ground (arith, h))

matches_complete : {tc : TypeConstraint} {v : SExpr} → HasType tc v → matches tc v ≡ true
unfolding matches
matches_complete (is_string s) = refl
matches_complete (is_hlc s t e) = rw e
matches_complete (is_number n) = refl
matches_complete (is_bool b) = refl
matches_complete (is_a_symbol s) = refl
matches_complete (is_a_keyword k) = refl
matches_complete (is_list items) = refl

is_key_iff :
    (key : String) (e : SExpr)
    → (e ≡ atom (Atom.keyword key)) ⊎ (e ≢ atom (Atom.keyword key)) × (is_key key e ≡ false)
unfolding is_key
is_key_iff key (atom (Atom.keyword k)) = elim (String-cases k key) [
  | inl same ↦ inl (ap (λ x. atom (Atom.keyword x)) same)
  | inr other ↦ inr (λ e. ne_of_test k key other (cc e), other)
]
is_key_iff key (atom (Atom.symbol s)) = inr (λ e. cc, refl)
is_key_iff key (atom (Atom.str s)) = inr (λ e. cc, refl)
is_key_iff key (atom (Atom.num n)) = inr (λ e. cc, refl)
is_key_iff key (atom (Atom.bool b)) = inr (λ e. cc, refl)
is_key_iff key (SExpr.list items) = inr (λ e. cc, refl)

at_keyword :
    (key : String) (items : Items) (v : SExpr)
    → find_in key (cons (atom (Atom.keyword key)) items) ≡ some v
    → ValueIn key (cons (atom (Atom.keyword key)) items) v
unfolding find_in is_key first_of
at_keyword key nil v h = absurd (ground (arith, h, eq_iff key key))
at_keyword key (cons w items) v h =
    let e : w ≡ v = ground (arith, h, eq_iff key key) in
    subst (λ x. ValueIn key (cons (atom (Atom.keyword key)) (cons w items)) x) e (here w items)

find_in_sound :
    (key : String) (items : Items) (v : SExpr) → find_in key items ≡ some v → ValueIn key items v
unfolding find_in is_key first_of
find_in_sound key nil v h = cc
find_in_sound key (cons e items) v h = elim (is_key_iff key e) [
  | inl same ↦ rw same (at_keyword key items v (rw same at h))
  | inr (other, test) ↦ there e v items other (find_in_sound key items v (rw test at h))
]

find_in_complete :
    {key : String} {items : Items} {v : SExpr} → ValueIn key items v → find_in key items ≡ some v
unfolding find_in is_key first_of
find_in_complete {key} (here v items) = ground (arith, eq_iff key key)
find_in_complete {key} (there e v items ne w) = elim (is_key_iff key e) [
  | inl same ↦ absurd (ne same)
  | inr (other, test) ↦ rw test (find_in_complete w)
]

find_sound : (key : String) (e v : SExpr) → find_keyword_value key e ≡ some v → ValueOf key e v
unfolding find_keyword_value
find_sound key (atom a) v h = cc
find_sound key (SExpr.list items) v h = find_in_sound key items v h

find_complete : (key : String) (e v : SExpr) → ValueOf key e v → find_keyword_value key e ≡ some v
unfolding find_keyword_value
find_complete key (atom a) v w = elim w [ ]
find_complete key (SExpr.list items) v w = find_in_complete w

-- A value is no deeper than what it stands in.
depth-ValueIn :
    {key : String} {items : Items} {v : SExpr} → ValueIn key items v → depth v ≤ deepest items
unfolding depth
depth-ValueIn (here v items) = omega arith
depth-ValueIn (there e v items ne w) = omega (arith, depth-ValueIn w)

depth-ValueOf : (key : String) (e v : SExpr) → ValueOf key e v → depth v ≤ depth e
unfolding depth
depth-ValueOf key (atom a) v w = elim w [ ]
depth-ValueOf key (SExpr.list items) v w = omega (arith, depth-ValueIn w)

check_type_iff :
    (key : String) (tc : Option TypeConstraint) (v : SExpr)
    → (check_type key tc v ≡ none) ↔ TypeFits tc v
unfolding check_type
check_type_iff key none v = (λ _. tt, λ _. refl)
check_type_iff key (some tc) v =
    (λ h. matches_sound tc v (ground arith), λ t. rw (matches_complete t))

pub or_else-none : (a b : Option ShapeViolation) → (or_else a b ≡ none) ↔ ((a ≡ none) × (b ≡ none))
or_else-none none b = (λ h. (refl, h), λ (_, h). h)
or_else-none (some v) b = (λ h. cc, λ (h, _). cc)

module _ (key : String) (tc : Option TypeConstraint) (children : Rules)
    (inner : SExpr → Option ShapeViolation) (e : SExpr)
    (inner_iff : (v : SExpr) → depth v ≤ depth e → (inner v ≡ none) ↔ AllConform children v) where
  value_iff :
      (v : SExpr)
      → depth v ≤ depth e
      → (or_else (check_type key tc v) (inner v) ≡ none) ↔ (TypeFits tc v × AllConform children v)
  value_iff v d =
      let both = or_else-none (check_type key tc v) (inner v) in
      let typed = check_type_iff key tc v in
      (
        λ h. (typed.0 (both.0 h).0, (inner_iff v d).0 (both.0 h).1),
        λ (t, c). both.1 (typed.1 t, (inner_iff v d).1 c),
      )

  found_at : (v w : SExpr) → find_keyword_value key e ≡ some v → ValueOf key e w → w ≡ v
  found_at v w h x = cc (h, find_complete key e w x)

  required_iff :
      (on_required key tc inner (find_keyword_value key e) ≡ none)
      ↔ Conforms (require key tc children) e
  unfolding on_required
  required_iff = elim (Option-cases (find_keyword_value key e)) [
    | inl absent ↦ rw absent (λ h. cc, λ (v, w, t, c). cc (absent, find_complete key e v w))
    | inr (v, found) ↦
        let w = find_sound key e v found in
        let iff = value_iff v (depth-ValueOf key e v w) in
        rw found (
          λ h. (v, w, (iff.0 h).0, (iff.0 h).1),
          λ (v', w', t, c).
              iff.1 (
                subst (λ x. TypeFits tc x × AllConform children x) (found_at v v' found w') (t, c)),
        )
  ]

  optional_iff :
      (default : Option SExpr)
      → (on_optional key tc inner (find_keyword_value key e) ≡ none)
        ↔ Conforms (optional key tc default children) e
  unfolding on_optional
  optional_iff default = elim (Option-cases (find_keyword_value key e)) [
    | inl absent ↦ rw absent (λ _ v w. absurd (cc (absent, find_complete key e v w)), λ _. refl)
    | inr (v, found) ↦
        let w = find_sound key e v found in
        let iff = value_iff v (depth-ValueOf key e v w) in
        rw found (
          λ h v' w'.
              subst (λ x. TypeFits tc x × AllConform children x) (sym (found_at v v' found w'))
                (iff.0 h),
          λ fits. iff.1 (fits v w),
        )
  ]

mutual
  unfolding check_rule

  check_rule_iff :
      (rule : ShapeRule) (e : SExpr)
      → depth e < u32_range
      → (check_rule rule e ≡ none) ↔ Conforms rule e
  check_rule_iff (max_depth most) e d = (λ h. ground (arith, h), λ h. ground (arith, h))
  check_rule_iff (require key tc children) e d =
      required_iff key tc children (check_rules children) e
        (λ v le. check_rules_iff children v (omega arith))
  check_rule_iff (optional key tc default children) e d =
      optional_iff key tc children (check_rules children) e
        (λ v le. check_rules_iff children v (omega arith)) default

  check_rules_iff :
      (rules : Rules) (e : SExpr)
      → depth e < u32_range
      → (check_rules rules e ≡ none) ↔ AllConform rules e
  check_rules_iff no_rules e d = (λ _. tt, λ _. refl)
  check_rules_iff (more_rules rule rules) e d =
      let both = or_else-none (check_rule rule e) (check_rules rules e) in
      let first = check_rule_iff rule e d in
      let rest = check_rules_iff rules e d in
      (λ h. (first.0 (both.0 h).0, rest.0 (both.0 h).1), λ h. both.1 (first.1 h.0, rest.1 h.1))

-- A shape check passes exactly on the expressions, of a depth that a u32 holds, that conform to
-- every rule: a required keyword has a value after its first occurrence, of its type and conforming
-- to the inner rules, an optional one likewise if it has a value there, and a depth is within its
-- bound.
pub check_iff :
    (c : ShapeConstraint) (e : SExpr)
    → depth e < u32_range
    → (check c e ≡ none) ↔ AllConform c.rules e
unfolding check
check_iff c e d = check_rules_iff c.rules e d
