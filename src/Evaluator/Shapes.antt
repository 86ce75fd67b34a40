-- ===== src/Evaluator/Shapes.antt =====
-- What the shape checks of an evaluation ensure (crates/cbcl-core/src/evaluator.rs).
use cbcl_rs.Prelude.{
  List, Option, Option-cases, String, [], ap, get_elem?, if◌then◌else◌, inl, inr, none, refl, some,
  subst, suc, sym, true, zero, ℕ, ◌<◌, ◌==◌, ◌∙◌, ◌∷◌, ◌≡◌,
}
use cbcl_rs.Sexpr.{SExpr, depth, list, nil}
use cbcl_rs.Message.{
  CausedBy, Message, Performative, Recipients, dialect, innermost_simple, recipient_set, meta, name,
  simple, wrapped,
}
use cbcl_rs.Resources.{u32_range}
use cbcl_rs.Shape.{ShapeConstraint, check}
use cbcl_rs.Shape.Conforms.{AllConform, check_iff, or_else-none}
use cbcl_rs.Dialect.{Dialect}
use cbcl_rs.Dialect.Registry.{Registry, find_by_name}
use cbcl_rs.Evaluator
use cbcl_rs.Evaluator.{EvalResult, Outcome, evaluated, failed, ◌>>=◌}

>>=-eq-evaluated :
    {A B : Type 0} (m : Outcome A) (f : A → Outcome B) {b : B}
    → (m >>= f) ≡ evaluated b
    → (a : A) × (m ≡ evaluated a) × (f a ≡ evaluated b)
>>=-eq-evaluated (evaluated a) f h = (a, refl, h)
>>=-eq-evaluated (failed e) f h = cc h

abbrev expanded_of : Outcome EvalResult → SExpr
expanded_of (evaluated result) = result.expanded
expanded_of (failed e) = list nil

-- A check of a list of shapes that passes is a check of each shape for the performative.
check_dialect-at :
    (perf : String) (e : SExpr) (shapes : List ShapeConstraint)
    → Evaluator.check_dialect perf e shapes ≡ none
    → (j : ℕ) (s : ShapeConstraint) → get_elem? shapes j ≡ some s
    → (s.performative == perf) ≡ true
    → check s e ≡ none
unfolding Evaluator.check_dialect
check_dialect-at perf e [] h j s at same = cc at
check_dialect-at perf e (x ∷ xs) h zero s at same =
    let first = if x.performative == perf then check x e else none in
    let eq : x ≡ s = cc at in
    let same' : (x.performative == perf) ≡ true =
      subst (λ y. (y.performative == perf) ≡ true) (sym eq) same in
    let here : first ≡ none = ((or_else-none first (Evaluator.check_dialect perf e xs)).0 h).0 in
    subst (λ y. check y e ≡ none) eq (rw same' at here)
check_dialect-at perf e (x ∷ xs) h (suc j) s at same =
    let first = if x.performative == perf then check x e else none in
    let rest = ((or_else-none first (Evaluator.check_dialect perf e xs)).0 h).1 in
    check_dialect-at perf e xs rest j s at same

check_shapes-at :
    {X : Type 0} (perf : String) (e : SExpr) (r : Registry X)
    → Evaluator.check_shapes perf e r ≡ none
    → (i : ℕ) (d : Dialect X) → get_elem? r i ≡ some d
    → Evaluator.check_dialect perf e d.shapes ≡ none
unfolding Evaluator.check_shapes
check_shapes-at perf e [] h i d at = cc at
check_shapes-at perf e (x ∷ xs) h zero d at =
    let first = Evaluator.check_dialect perf e x.shapes in
    let here = ((or_else-none first (Evaluator.check_shapes perf e xs)).0 h).0 in
    let eq : x ≡ d = cc at in subst (λ y. Evaluator.check_dialect perf e y.shapes ≡ none) eq here
check_shapes-at perf e (x ∷ xs) h (suc i) d at =
    let first = Evaluator.check_dialect perf e x.shapes in
    let rest = ((or_else-none first (Evaluator.check_shapes perf e xs)).0 h).1 in
    check_shapes-at perf e xs rest i d at

module _ {X : Type 0} (r : Registry X) where
  shape_checked-none :
      (perf : String) (e e' : SExpr)
      → Evaluator.shape_checked r true perf e ≡ evaluated e'
      → (Evaluator.check_shapes perf e r ≡ none) × (e ≡ e')
  unfolding Evaluator.shape_checked
  shape_checked-none perf e e' h = elim (Option-cases (Evaluator.check_shapes perf e r)) [
    | inl fits ↦ (fits, cc (rw (fits, Evaluator.shape_checked) at h))
    | inr (v, q) ↦ cc (rw (q, Evaluator.shape_checked) at h)
  ]

  evaluate_simple-shaped :
      (scope : Option (Dialect X)) (p : Performative) (rs : List String) (c : SExpr)
      (ps : List SExpr) (t : Option String) (result : EvalResult)
      → Evaluator.evaluate_simple r scope true p rs c ps t ≡ evaluated result
      → Evaluator.check_shapes (name p) result.expanded r ≡ none
  unfolding Evaluator.evaluate_simple
  evaluate_simple-shaped scope p rs c ps t result h =
      let (e, passed, done) = >>=-eq-evaluated _ _ h in
      let (e0, expanded, fits) =
        >>=-eq-evaluated _ (Evaluator.shape_checked r true (name p)) passed in
      let (found, same) = shape_checked-none (name p) e0 e fits in
      let out : e ≡ result.expanded = ap expanded_of done in
      subst (λ x. Evaluator.check_shapes (name p) x r ≡ none) (same ∙ out) found

  evaluate_with_scope-shaped :
      (m : Message) (scope : Option (Dialect X)) (result : EvalResult)
      → Evaluator.evaluate_with_scope r scope true m ≡ evaluated result
      → (p : Performative) (to : Option Recipients) (c : SExpr) (ps : List SExpr)
        (t s : Option String) (cb : Option CausedBy)
      → innermost_simple m ≡ some (simple p to c ps t s cb)
      → Evaluator.check_shapes (name p) result.expanded r ≡ none
  unfolding Evaluator.evaluate_with_scope innermost_simple
  evaluate_with_scope-shaped (simple q to' c' ps' t' s' cb') scope result h p to c ps t s cb e =
      let eq : q ≡ p = cc e in
      let fits =
        evaluate_simple-shaped scope q (recipient_set (simple q to' c' ps' t' s' cb')) c' ps' t'
          result h in
      subst (λ x. Evaluator.check_shapes (name x) result.expanded r ≡ none) eq fits
  evaluate_with_scope-shaped (meta d) scope result h p to c ps t s cb e = cc e
  evaluate_with_scope-shaped (dialect n inner) scope result h p to c ps t s cb e =
      elim (Option-cases (find_by_name n r)) [
        | inl gone ↦ cc (rw (gone, Evaluator.evaluate_with_scope) at h)
        | inr (d, here) ↦
            evaluate_with_scope-shaped inner (some d) result
              (rw (here, Evaluator.evaluate_with_scope) at h) p to c ps t s cb e
      ]
  evaluate_with_scope-shaped (wrapped w ws inner) scope result h p to c ps t s cb e =
      evaluate_with_scope-shaped inner scope result h p to c ps t s cb e

  -- If a message with a simple message under its wrappers and scopes is evaluated with a result, of
  -- a depth that a u32 holds, the expanded form conforms to each shape that any dialect of the
  -- registry has for the performative of the simple message.
  pub evaluate-conforms :
      (m : Message) (result : EvalResult)
      → Evaluator.evaluate r m ≡ evaluated result
      → depth result.expanded < u32_range
      → (p : Performative) (to : Option Recipients) (c : SExpr) (ps : List SExpr)
        (t s : Option String) (cb : Option CausedBy)
      → innermost_simple m ≡ some (simple p to c ps t s cb)
      → (i j : ℕ) (d : Dialect X) (shape : ShapeConstraint) → get_elem? r i ≡ some d
      → get_elem? d.shapes j ≡ some shape
      → (shape.performative == name p) ≡ true
      → AllConform shape.rules result.expanded
  unfolding Evaluator.evaluate
  evaluate-conforms m result h fits p to c ps t s cb e i j d shape at at' same =
      let passed = evaluate_with_scope-shaped m none result h p to c ps t s cb e in
      let here = check_shapes-at (name p) result.expanded r passed i d at in
      (check_iff shape result.expanded fits).0
        (check_dialect-at (name p) result.expanded d.shapes here j shape at' same)
