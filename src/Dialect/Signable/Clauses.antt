-- ===== src/Dialect/Signable/Clauses.antt =====
-- What the signed form of the state layer determines (crates/cbcl-core/src/canonical.rs).
use cbcl_rs.Prelude.{
  List, Option, String, [], ap, if◌then◌else◌, inl, inr, map, ne_of_test, none, refl, some, sym,
  ◌==◌, ◌∙◌, ◌∷◌, ◌≡◌, ◌⊎◌,
}
use cbcl_rs.Dialect.Signable.Counters.{CounterForm, counter_form, counter_determines}
use cbcl_rs.Sexpr.{SExpr, atom, str}
use cbcl_rs.Dialect.Signable.Forms.{form, option_map}
use cbcl_rs.Dialect.Signable.Parts.{form_injective, of_list_injective}
use cbcl_rs.Dialect.Signable.State.{
  CounterRule, Rule, bounded_counter, lww_register, lww_per_signer, lww_map, initial, exists, count,
  progress, events, set_union, values, values_per_key, observed_set, counter, histogram, sum, head,
  Entry, field, domain, StateClause, StateBounds, canonical_options, arguments, entry_to_sexpr,
  state_to_sexpr, state_bounds_to_sexpr,
}

-- A rule, where the certification of a bounded counter is as it is written.
unfoldable pub normal_rule : Rule → Rule ⊎ CounterForm
unfolding counter_form
normal_rule (bounded_counter c) = inr (counter_form c)
normal_rule rule = inl rule

-- A rule, or the options of a bounded counter.
coarse_rule : Rule → Rule ⊎ List SExpr
coarse_rule (bounded_counter c) = inr (canonical_options c)
coarse_rule rule = inl rule

pub data Normal : Type 0 where
  normal_field : String → Rule ⊎ CounterForm → Normal
  normal_domain : String → String → String → Normal

unfoldable pub normal : Entry → Normal
unfolding normal_rule
normal (field name rule) = normal_field name (normal_rule rule)
normal (domain verb key name) = normal_domain verb key name

-- A rule is read back from its head and its arguments.
texts_in : List SExpr → List String
texts_in [] = []
texts_in (atom (str s) ∷ es) = s ∷ texts_in es
texts_in (e ∷ es) = texts_in es

one_of : (String → Rule) → List String → Rule
one_of f (a ∷ []) = f a
one_of f _ = exists ""

two_of : (String → String → Rule) → List String → Rule
two_of f (a ∷ b ∷ []) = f a b
two_of f _ = exists ""

three_of : (String → String → String → Rule) → List String → Rule
three_of f (a ∷ b ∷ c ∷ []) = f a b c
three_of f _ = exists ""

per_key_of : List String → Rule
per_key_of (a ∷ b ∷ c ∷ []) = values_per_key a b c none
per_key_of (a ∷ b ∷ c ∷ d ∷ []) = values_per_key a b c (some d)
per_key_of _ = exists ""

map_of : List String → Rule
map_of (a ∷ b ∷ c ∷ d ∷ []) = lww_map a b c d none
map_of (a ∷ b ∷ c ∷ d ∷ e ∷ []) = lww_map a b c d (some e)
map_of _ = exists ""

read_texts : String → List String → Rule
unfolding one_of two_of three_of per_key_of map_of
read_texts h ts =
    if h == "lww-register"
    then three_of lww_register ts
    else if h == "lww-per-signer"
    then three_of lww_per_signer ts
    else if h == "lww-map"
    then map_of ts
    else if h == "initial"
    then two_of initial ts
    else if h == "exists"
    then one_of exists ts
    else if h == "count"
    then one_of count ts
    else if h == "progress"
    then one_of progress ts
    else if h == "events"
    then two_of events ts
    else if h == "set-union"
    then two_of set_union ts
    else if h == "values"
    then two_of values ts
    else if h == "values-per-key"
    then per_key_of ts
    else if h == "observed-set"
    then three_of observed_set ts
    else if h == "counter"
    then three_of counter ts
    else if h == "histogram"
    then one_of histogram ts
    else one_of sum ts

read_rule : String → List SExpr → Rule ⊎ List SExpr
unfolding read_texts texts_in
read_rule h es = if h == "bounded-counter" then inr es else inl (read_texts h (texts_in es))

read_rule-head : (r : Rule) → read_rule (head r) (arguments r) ≡ coarse_rule r
unfolding read_rule head arguments coarse_rule
read_rule-head (bounded_counter c) = refl
read_rule-head (lww_register a b c) = refl
read_rule-head (lww_per_signer a b c) = refl
read_rule-head (lww_map a b c d none) = refl
read_rule-head (lww_map a b c d (some e)) = refl
read_rule-head (initial a b) = refl
read_rule-head (exists a) = refl
read_rule-head (count a) = refl
read_rule-head (progress a) = refl
read_rule-head (events a b) = refl
read_rule-head (set_union a b) = refl
read_rule-head (values a b) = refl
read_rule-head (values_per_key a b c none) = refl
read_rule-head (values_per_key a b c (some d)) = refl
read_rule-head (observed_set a b c) = refl
read_rule-head (counter a b c) = refl
read_rule-head (histogram a) = refl
read_rule-head (sum a) = refl

CounterOrPlain : Rule → Type 0
CounterOrPlain r =
    ((c : CounterRule) × (r ≡ bounded_counter c))
    ⊎ ((coarse_rule r ≡ inl r) × (normal_rule r ≡ inl r))

counter_or_plain : (r : Rule) → CounterOrPlain r
unfolding CounterOrPlain coarse_rule normal_rule
counter_or_plain (bounded_counter c) = inl (c, refl)
counter_or_plain (lww_register a b c) = inr (refl, refl)
counter_or_plain (lww_per_signer a b c) = inr (refl, refl)
counter_or_plain (lww_map a b c d e) = inr (refl, refl)
counter_or_plain (initial a b) = inr (refl, refl)
counter_or_plain (exists a) = inr (refl, refl)
counter_or_plain (count a) = inr (refl, refl)
counter_or_plain (progress a) = inr (refl, refl)
counter_or_plain (events a b) = inr (refl, refl)
counter_or_plain (set_union a b) = inr (refl, refl)
counter_or_plain (values a b) = inr (refl, refl)
counter_or_plain (values_per_key a b c d) = inr (refl, refl)
counter_or_plain (observed_set a b c) = inr (refl, refl)
counter_or_plain (counter a b c) = inr (refl, refl)
counter_or_plain (histogram a) = inr (refl, refl)
counter_or_plain (sum a) = inr (refl, refl)

coarse_determines : (r q : Rule) → coarse_rule r ≡ coarse_rule q → normal_rule r ≡ normal_rule q
unfolding CounterOrPlain coarse_rule normal_rule
coarse_determines r q h = elim (counter_or_plain r) [
  | inl (c, p) ↦ elim (counter_or_plain q) [
    | inl (d, p') ↦
        let options : inr (canonical_options c) ≡ inr (canonical_options d) =
          sym (ap coarse_rule p) ∙ h ∙ ap coarse_rule p' in
        ap normal_rule p ∙ ap inr (counter_determines c d (cc options)) ∙ sym (ap normal_rule p')
    | inr (k, n) ↦
        let mixed : inr (canonical_options c) ≡ inl q = sym (ap coarse_rule p) ∙ h ∙ k in cc mixed
  ]
  | inr (k, n) ↦ elim (counter_or_plain q) [
    | inl (d, p') ↦
        let mixed : inl r ≡ inr (canonical_options d) = sym k ∙ h ∙ ap coarse_rule p' in cc mixed
    | inr (k', n') ↦ let same : inl r ≡ inl q = sym k ∙ h ∙ k' in ap normal_rule (cc same)
  ]
]

rule_determines :
    (r q : Rule)
    → form (head r) (arguments r) ≡ form (head q) (arguments q)
    → normal_rule r ≡ normal_rule q
rule_determines r q h =
    let (same, args) = form_injective (head r) (head q) (arguments r) (arguments q) h in
    coarse_determines r q (
      sym (read_rule-head r)
      ∙ ap (λ x. read_rule x (arguments r)) same
      ∙ ap (read_rule (head q)) args
      ∙ read_rule-head q)

entry_determines : (x y : Entry) → entry_to_sexpr x ≡ entry_to_sexpr y → normal x ≡ normal y
unfolding entry_to_sexpr normal
entry_determines (field n r) (field m q) h =
    let name : n ≡ m = cc h in
    let rule : normal_rule r ≡ normal_rule q = rule_determines r q (cc h) in cc (name, rule)
entry_determines (field n r) (domain a b c) h = absurd (ne_of_test "field" "domain" refl (cc h))
entry_determines (domain a b c) (field n r) h = absurd (ne_of_test "domain" "field" refl (cc h))
entry_determines (domain a b c) (domain d e f) h = cc h

entries_determine :
    (xs ys : List Entry)
    → map entry_to_sexpr xs ≡ map entry_to_sexpr ys
    → map normal xs ≡ map normal ys
entries_determine [] [] h = refl
entries_determine [] (y ∷ ys) h = cc h
entries_determine (x ∷ xs) [] h = cc h
entries_determine (x ∷ xs) (y ∷ ys) h =
    cc (entry_determines x y (cc h), entries_determine xs ys (cc h))

abbrev pub normal_entries : Option StateClause → Option (List Normal)
normal_entries o = option_map (λ (c : StateClause). map normal c.entries) o

pub state_determines :
    (x y : Option StateClause)
    → option_map state_to_sexpr x ≡ option_map state_to_sexpr y
    → normal_entries x ≡ normal_entries y
unfolding state_to_sexpr
state_determines none none h = refl
state_determines none (some y) h = cc h
state_determines (some x) none h = cc h
state_determines (some x) (some y) h = ap some (
    entries_determine x.entries y.entries
      (of_list_injective (map entry_to_sexpr x.entries) (map entry_to_sexpr y.entries) (cc h)))

pub state_bounds_injective :
    (x y : StateBounds) → state_bounds_to_sexpr x ≡ state_bounds_to_sexpr y → x ≡ y
unfolding state_bounds_to_sexpr
state_bounds_injective x y h = cc h
