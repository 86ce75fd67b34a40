-- ===== src/Template/Bounds.antt =====
-- An expansion stays within the resource bounds (R2, crates/cbcl-core/src/template.rs).
use cbcl_rs.Prelude.{
  List, Option, Option-cases, [], ap, arith, inl, inr, none, refl, some, subst, ℕ, ◌%◌, ◌+◌, ◌<◌,
  ◌∙◌, ◌∷◌, ◌≡◌,
}
use cbcl_rs.Sexpr.{SExpr, list}
use cbcl_rs.Resources.{ResourceState, enter_depth, add_expansion, byte_size, u32_range}
use cbcl_rs.Dialect.{PerformativeDef}
use cbcl_rs.Template.{
  ExpandedTemplate, single, sequence, eval_form, eval_template, charge, size_of, sum_sizes, to_expr,
  items_of, expr_of, expand_template,
}
use cbcl_rs.Template.Conditions.{Bindings, build_bindings}

charge_lem :
    (o : Option ExpandedTemplate) (rs : ResourceState) (r : ExpandedTemplate)
    → (charge o rs).0 ≡ some r
    → (o ≡ some r) × (add_expansion (size_of r) rs ≡ some (charge o rs).1)
charge_lem none rs r h = cc h
charge_lem (some e) rs r h = elim (Option-cases (add_expansion (size_of e) rs)) [
  | inl full ↦ cc (rw full at h)
  | inr (after, q) ↦
      let same : e ≡ r = cc (rw q at h) in
      (cc same, rw q (subst (λ x. add_expansion (size_of x) rs ≡ some after) same q))
]

-- The evaluation enters one level, and charges the size of the result of the form.
pub eval_template_lem :
    (t : SExpr) (b : Bindings) (rs : ResourceState) (r : ExpandedTemplate)
    → (eval_template t b rs).0 ≡ some r
    → (inner : ResourceState) × (enter_depth rs ≡ some inner)
      × (eval_form t b ≡ some r)
      × (add_expansion (size_of r) inner ≡ some (eval_template t b rs).1)
unfolding eval_template
eval_template_lem t b rs r h = elim (Option-cases (enter_depth rs)) [
  | inl full ↦ cc (rw (full, eval_template) at h)
  | inr (inner, q) ↦
      let (form, paid) = charge_lem (eval_form t b) inner r (rw (q, eval_template) at h) in
      (inner, q, form, rw (q, eval_template) paid)
]

sum_sizes-byte_size : (es : List SExpr) → sum_sizes es ≡ byte_size (list (items_of es)) % u32_range
unfolding sum_sizes byte_size
sum_sizes-byte_size [] = omega arith
sum_sizes-byte_size (e ∷ es) = omega (arith, sum_sizes-byte_size es)

size_of-byte_size : (r : ExpandedTemplate) → size_of r ≡ byte_size (to_expr r) % u32_range
unfolding size_of
size_of-byte_size (single e) = refl
size_of-byte_size (sequence es) = sum_sizes-byte_size es

pub expr_of-some :
    (o : Option ExpandedTemplate) (e : SExpr)
    → expr_of o ≡ some e
    → (r : ExpandedTemplate) × (o ≡ some r) × (to_expr r ≡ e)
expr_of-some none e h = cc h
expr_of-some (some r) e h = (r, refl, cc h)

-- One level and one charge, where neither number leaves its u32.
within :
    (rs inner after : ResourceState) (size : ℕ)
    → rs.current_depth + 1 < u32_range
    → rs.expansion_size + size < u32_range
    → enter_depth rs ≡ some inner
    → add_expansion (size % u32_range) inner ≡ some after
    → (after.current_depth ≡ rs.current_depth + 1)
      × (after.current_depth < rs.max_depth)
      × (after.expansion_size ≡ rs.expansion_size + size)
      × (after.expansion_size < rs.max_exp_size)
unfolding enter_depth add_expansion
within rs inner after size d s e a = ground (arith, e, a)

-- Where a u32 holds the next depth and the expansion size with the byte size of the result, an
-- expansion that returns raised the depth by one, to below the greatest depth, and the expansion
-- size by the byte size of the result, to below its limit.
pub expand_template_bounds :
    (def : PerformativeDef) (args : List SExpr) (rs : ResourceState) (e : SExpr)
    → rs.current_depth + 1 < u32_range
    → rs.expansion_size + byte_size e < u32_range
    → (expand_template def args rs).0 ≡ some e
    → let after = (expand_template def args rs).1 in
      (after.current_depth ≡ rs.current_depth + 1)
      × (after.current_depth < rs.max_depth)
      × (after.expansion_size ≡ rs.expansion_size + byte_size e)
      × (after.expansion_size < rs.max_exp_size)
unfolding expand_template
expand_template_bounds def args rs e d s h =
    let b = build_bindings def.params args in
    let (r, found, same) = expr_of-some (eval_template def.template b rs).0 e h in
    let (inner, entered, form, paid) = eval_template_lem def.template b rs r found in
    let size : size_of r ≡ byte_size e % u32_range =
      size_of-byte_size r ∙ ap (λ x. byte_size x % u32_range) same in
    within rs inner (eval_template def.template b rs).1 (byte_size e) d s entered
      (subst (λ x. add_expansion x inner ≡ some (eval_template def.template b rs).1) size paid)
