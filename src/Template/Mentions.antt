-- ===== src/Template/Mentions.antt =====
-- An expansion brings no name from nowhere (crates/cbcl-core/src/template.rs): what it mentions is
-- mentioned in the template or in an argument, so that R1 on templates bounds what can be expanded.
use cbcl_rs.Prelude.{
  Bool, List, Option, Option-cases, String, [], any, ap, arith, false, get, if_both, if◌then◌else◌,
  inl, inr, insert, none, refl, some, subst, sym, true, ◌++◌, ◌||◌, ◌∷◌, ◌≡◌, ◌⊎◌,
}
use cbcl_rs.Template.Bounds.{expr_of-some, eval_template_lem}
use cbcl_rs.Sexpr.{Items, SExpr, atom, bool, cons, is_symbol, keyword, list, nil, num, str, symbol}
use cbcl_rs.Resources.{ResourceState}
use cbcl_rs.Dialect.{PerformativeDef}
use cbcl_rs.Dialect.Recursion.{contains_self_reference, any_self_reference}
use cbcl_rs.Template.{
  ExpandedTemplate, single, sequence, eval_literal, is_sequence_template, outputs, in_sequence,
  then_outputs, dispatch_form, eval_form, eval_clauses, eval_cond, eval_sequence, eval_template,
  items_of, to_expr, expand_template,
}
use cbcl_rs.Template.Conditions.{
  Bindings, bind_all, build_bindings, resolve_value, substitute_expr, substitute_all,
  eval_condition,
}

module _ (y : String) where
  abbrev pub mentions : SExpr → Bool
  mentions = contains_self_reference y

  abbrev pub bound_mentions : Bindings → Bool
  bound_mentions b = any (λ e. mentions e.1) b

  abbrev pub outputs_mention : ExpandedTemplate → Bool
  outputs_mention r = any mentions (outputs r)

  get_src :
      (name : String) (b : Bindings) (v : SExpr)
      → get name b ≡ some v
      → mentions v ≡ true
      → bound_mentions b ≡ true
  unfolding get
  get_src name [] v h m = cc h
  get_src name ((k, w) ∷ b) v h m =
      ground (arith, h, m, ap mentions {x = w} {y = v}, get_src name b v)

  resolve_src :
      (e : SExpr) (b : Bindings)
      → mentions (resolve_value e b) ≡ true
      → (mentions e ≡ true) ⊎ (bound_mentions b ≡ true)
  unfolding resolve_value
  resolve_src (atom (symbol name)) b m = elim (Option-cases (get name b)) [
    | inl free ↦ inl (rw (free, resolve_value) at m)
    | inr (v, e) ↦ inr (get_src name b v e (rw (e, resolve_value) at m))
  ]
  resolve_src (atom (str s)) b m = inl m
  resolve_src (atom (num n)) b m = inl m
  resolve_src (atom (bool c)) b m = inl m
  resolve_src (atom (keyword k)) b m = inl m
  resolve_src (list items) b m = inl m

  -- What both parts allow, the pair allows.
  either :
      (head rest : Bool) (p q P : Bool)
      → (if head then true else rest) ≡ true
      → (head ≡ true → (p ≡ true) ⊎ (P ≡ true))
      → (rest ≡ true → (q ≡ true) ⊎ (P ≡ true))
      → ((if p then true else q) ≡ true) ⊎ (P ≡ true)
  either true rest p q P h f g = ground (arith, f refl)
  either false rest p q P h f g = ground (arith, g h)

  mutual
    unfolding substitute_expr contains_self_reference

    substitute_src :
        (t : SExpr) (b : Bindings)
        → mentions (substitute_expr t b) ≡ true
        → (mentions t ≡ true) ⊎ (bound_mentions b ≡ true)
    substitute_src (atom (symbol name)) b m = elim (Option-cases (get name b)) [
      | inl free ↦ inl (rw (free, substitute_expr) at m)
      | inr (v, e) ↦ inr (get_src name b v e (rw (e, substitute_expr) at m))
    ]
    substitute_src (atom (str s)) b m = inl m
    substitute_src (atom (num n)) b m = inl m
    substitute_src (atom (bool c)) b m = inl m
    substitute_src (atom (keyword k)) b m = inl m
    substitute_src (list items) b m = substitute_all_src items b m

    substitute_all_src :
        (items : Items) (b : Bindings)
        → any_self_reference y (substitute_all items b) ≡ true
        → (any_self_reference y items ≡ true) ⊎ (bound_mentions b ≡ true)
    substitute_all_src nil b m = inl m
    substitute_all_src (cons e items) b m =
        either (mentions (substitute_expr e b)) (any_self_reference y (substitute_all items b))
          (mentions e) (any_self_reference y items) (bound_mentions b) m (substitute_src e b)
          (substitute_all_src items b)

  any-append : (xs ys : List SExpr) → any mentions (xs ++ ys) ≡ (any mentions xs || any mentions ys)
  any-append [] ys = refl
  any-append (x ∷ xs) ys = ground (arith, any-append xs ys)

  -- What a result may mention, if it is there.
  abbrev From : Bool → Bindings → Option ExpandedTemplate → Type 0
  From here b o =
      (r : ExpandedTemplate)
      → o ≡ some r
      → outputs_mention r ≡ true
      → (here ≡ true) ⊎ (bound_mentions b ≡ true)

  From-single :
      (here : Bool) (b : Bindings) (e : SExpr)
      → (mentions e ≡ true → (here ≡ true) ⊎ (bound_mentions b ≡ true))
      → From here b (some (single e))
  From-single here b e f r h m =
      let q : single e ≡ r = cc h in
      let m' = subst (λ x. outputs_mention x ≡ true) (sym q) m in f (ground (arith, m'))

  From-none : (here : Bool) (b : Bindings) → From here b none
  From-none here b r h m = cc h

  From-weaken :
      (here there : Bool) (b : Bindings) (o : Option ExpandedTemplate)
      → (here ≡ true → there ≡ true)
      → From here b o
      → From there b o
  From-weaken here there b o w f r h m = elim (f r h m) [ inl a ↦ inl (w a) | inr c ↦ inr c ]

  literal_src :
      (items : Items) (b : Bindings) → From (any_self_reference y items) b (eval_literal items b)
  unfolding eval_literal contains_self_reference
  literal_src nil b = From-none _ b
  literal_src (cons head nil) b = From-none _ b
  literal_src (cons head (cons body nil)) b = From-single _ b (substitute_expr body b) (λ m.
      elim (substitute_src body b m) [
        | inl here ↦ inl (ground (arith, here))
        | inr bound ↦ inr bound
      ])
  literal_src (cons head (cons body (cons e rest))) b = From-none _ b

  dispatch_form_src :
      (items : Items) (b : Bindings) (clauses all_items : Option ExpandedTemplate)
      → From (any_self_reference y items) b clauses
      → From (any_self_reference y items) b all_items
      → From (any_self_reference y items) b (dispatch_form items b clauses all_items)
  unfolding dispatch_form contains_self_reference
  dispatch_form_src nil b clauses all_items c s = From-single _ b (list nil) (λ m. inl m)
  dispatch_form_src (cons head rest) b clauses all_items c s =
      let P = From (any_self_reference y (cons head rest)) b in
      if_both P (is_symbol "literal" head) _ _ (literal_src (cons head rest) b) (
        if_both P (is_symbol "cond" head) _ _ c (
          if_both P (is_sequence_template (cons head rest)) _ _ s (
            From-single _ b (substitute_expr (list (cons head rest)) b)
              (λ m. substitute_src (list (cons head rest)) b m))))

  both_src :
      (p q : Bool) (b : Bindings) (first : Option ExpandedTemplate) (rest : Option (List SExpr))
      → From p b first
      → From q b (in_sequence rest)
      → From (if p then true else q) b (in_sequence (then_outputs first rest))
  both_src p q b none rest f g r h m = cc h
  both_src p q b (some e) none f g r h m = cc h
  both_src p q b (some e) (some es) f g r h m =
      let same : sequence (outputs e ++ es) ≡ r = cc h in
      let m' : any mentions (outputs e ++ es) ≡ true =
        subst (λ x. outputs_mention x ≡ true) (sym same) m in
      either (outputs_mention e) (any mentions es) p q (bound_mentions b)
        (ground (arith, m', any-append (outputs e) es)) (f e refl) (g (sequence es) refl)

  mutual
    unfolding eval_form contains_self_reference

    form_src : (t : SExpr) (b : Bindings) → From (mentions t) b (eval_form t b)
    form_src (atom a) b = From-single _ b (resolve_value (atom a) b) (resolve_src (atom a) b)
    form_src (list items) b =
        dispatch_form_src items b (eval_clauses items b) (in_sequence (eval_sequence items b))
          (clauses_src items b) (sequence_src items b)

    clauses_src :
        (items : Items) (b : Bindings) → From (any_self_reference y items) b (eval_clauses items b)
    clauses_src nil b = From-none _ b
    clauses_src (cons head clauses) b =
        From-weaken (any_self_reference y clauses) _ b (eval_cond clauses b)
          (λ h. ground (arith, h)) (cond_src clauses b)

    cond_src :
        (items : Items) (b : Bindings) → From (any_self_reference y items) b (eval_cond items b)
    cond_src nil b = From-none _ b
    cond_src (cons (atom a) clauses) b = From-none _ b
    cond_src (cons (list nil) clauses) b = From-none _ b
    cond_src (cons (list (cons test nil)) clauses) b = From-none _ b
    cond_src (cons (list (cons test (cons body (cons e rest)))) clauses) b = From-none _ b
    cond_src (cons (list (cons test (cons body nil))) clauses) b =
        let whole = any_self_reference y (cons (list (cons test (cons body nil))) clauses) in
        let chosen =
          From-weaken (mentions body) whole b (eval_form body b) (λ h. ground (arith, h))
            (form_src body b) in
        let later =
          From-weaken (any_self_reference y clauses) whole b (eval_cond clauses b)
            (λ h. ground (arith, h)) (cond_src clauses b) in
        if_both (From whole b) (is_symbol "else" test) _ _ chosen
          (if_both (From whole b) (eval_condition test b) _ _ chosen later)

    sequence_src :
        (items : Items) (b : Bindings)
        → From (any_self_reference y items) b (in_sequence (eval_sequence items b))
    sequence_src nil b r h m =
        let same : sequence [] ≡ r = cc h in
        absurd (ground (arith, subst (λ x. outputs_mention x ≡ true) (sym same) m))
    sequence_src (cons item items) b r h m =
        both_src (mentions item) (any_self_reference y items) b (eval_form item b)
          (eval_sequence items b) (form_src item b) (sequence_src items b) r h m

  bound-insert :
      (name : String) (v : SExpr) (b : Bindings)
      → bound_mentions (insert name v b) ≡ true
      → (mentions v ≡ true) ⊎ (bound_mentions b ≡ true)
  unfolding insert
  bound-insert name v [] h = ground (arith, h)
  bound-insert name v ((k, w) ∷ b) h = ground (arith, h, bound-insert name v b)

  bind_all_src :
      (params args : List SExpr) (b : Bindings)
      → bound_mentions (bind_all params args b) ≡ true
      → (any mentions args ≡ true) ⊎ (bound_mentions b ≡ true)
  unfolding bind_all
  bind_all_src [] args b h = inr h
  bind_all_src (param ∷ params) [] b h = inr h
  bind_all_src (atom (symbol name) ∷ params) (arg ∷ args) b h =
      elim (bind_all_src params args (insert name arg b) h) [
        | inl here ↦ inl (ground (arith, here))
        | inr bound ↦ elim (bound-insert name arg b bound) [
          | inl now ↦ inl (ground (arith, now))
          | inr old ↦ inr old
        ]
      ]
  bind_all_src (atom (str s) ∷ params) (arg ∷ args) b h =
      ground (arith, bind_all_src params args b h)
  bind_all_src (atom (num n) ∷ params) (arg ∷ args) b h =
      ground (arith, bind_all_src params args b h)
  bind_all_src (atom (bool c) ∷ params) (arg ∷ args) b h =
      ground (arith, bind_all_src params args b h)
  bind_all_src (atom (keyword k) ∷ params) (arg ∷ args) b h =
      ground (arith, bind_all_src params args b h)
  bind_all_src (list items ∷ params) (arg ∷ args) b h = ground (arith, bind_all_src params args b h)

  items_of-mentions : (es : List SExpr) → any_self_reference y (items_of es) ≡ any mentions es
  unfolding contains_self_reference
  items_of-mentions [] = refl
  items_of-mentions (e ∷ es) = ground (arith, items_of-mentions es)

  to_expr-mentions : (r : ExpandedTemplate) → mentions (to_expr r) ≡ true → outputs_mention r ≡ true
  unfolding contains_self_reference
  to_expr-mentions (single e) h = ground (arith, h)
  to_expr-mentions (sequence es) h = ground (arith, h, items_of-mentions es)

  -- A symbol that an expansion mentions is mentioned by the template or by one of the arguments.
  pub expand_template-mentions :
      (def : PerformativeDef) (args : List SExpr) (rs : ResourceState) (e : SExpr)
      → (expand_template def args rs).0 ≡ some e
      → mentions e ≡ true
      → (mentions def.template ≡ true) ⊎ (any mentions args ≡ true)
  unfolding expand_template build_bindings
  expand_template-mentions def args rs e h m =
      let b = build_bindings def.params args in
      let (r, found, same) = expr_of-some (eval_template def.template b rs).0 e h in
      let (inner, entered, form, paid) = eval_template_lem def.template b rs r found in
      let m' = to_expr-mentions r (subst (λ x. mentions x ≡ true) (sym same) m) in
      elim (form_src def.template b r form m') [
        | inl here ↦ inl here
        | inr bound ↦ elim (bind_all_src def.params args [] bound) [
          | inl arg ↦ inr arg
          | inr nothing ↦ cc nothing
        ]
      ]
