-- ===== src/Evaluator/Agreement.antt =====
-- What the evaluation of a message depends on (crates/cbcl-core/src/evaluator.rs).
use cbcl_rs.Prelude.{Option, Option-cases, false, inl, inr, none, refl, some, ◌≡◌}
use cbcl_rs.Message.{Message, Performative, core, custom, dialect, meta, simple, wrapped}
use cbcl_rs.Dialect.{Dialect}
use cbcl_rs.Dialect.Registry.{Layers, Registry, find_by_name}
use cbcl_rs.Dialect.Registry.Core.{Grown}
use cbcl_rs.Evaluator
use cbcl_rs.Evaluator.Core.{core_definer}

-- Two registries find the same dialects under the names that a message has as its scopes.
abbrev pub Agree : {X : Type 0} → Registry X → Registry X → Message → Type 0
Agree r r' (simple p to c ps t s cb) = Unit
Agree r r' (meta d) = Unit
Agree r r' (dialect n inner) = (find_by_name n r ≡ find_by_name n r') × Agree r r' inner
Agree r r' (wrapped w ps inner) = Agree r r' inner

module _ {X V W : Type 0} (l : Layers X V W) {r r' : Registry X} (g : Grown l r)
    (g' : Grown l r') where
  resolves-same :
      (p : Performative) (scope : Option (Dialect X))
      → Evaluator.resolve_performative_dialect r p scope
        ≡ Evaluator.resolve_performative_dialect r' p scope
  unfolding Evaluator.resolve_performative_dialect
  resolves-same (core c) scope = rw (core_definer l g c) (rw (core_definer l g' c) refl)
  resolves-same (custom n) none = refl
  resolves-same (custom n) (some d) = refl

  pub evaluate_with_scope-Agree :
      (m : Message) (scope : Option (Dialect X))
      → Agree r r' m
      → Evaluator.evaluate_with_scope r scope false m
        ≡ Evaluator.evaluate_with_scope r' scope false m
  unfolding Evaluator.evaluate_with_scope Evaluator.evaluate_simple Evaluator.shape_checked
      Evaluator.expand_in
  evaluate_with_scope-Agree (simple p to c ps t s cb) scope same = rw (resolves-same p scope) refl
  evaluate_with_scope-Agree (meta d) scope same = refl
  evaluate_with_scope-Agree (dialect n inner) scope (found, same) =
      elim (Option-cases (find_by_name n r')) [
        | inl gone ↦
            rw (found, Evaluator.evaluate_with_scope)
              (rw (gone, Evaluator.evaluate_with_scope) refl)
        | inr (d, here) ↦
            rw (found, Evaluator.evaluate_with_scope)
              (rw (here, Evaluator.evaluate_with_scope)
                (evaluate_with_scope-Agree inner (some d) same))
      ]
  evaluate_with_scope-Agree (wrapped w ps inner) scope same =
      evaluate_with_scope-Agree inner scope same

  -- In two registries that have grown from the base dialect by installations of dialects that are
  -- not named cbcl-base, and that find the same dialects under the names that a message has as its
  -- scopes, the message is evaluated without shape checks to the same result, whatever else is
  -- installed.
  pub evaluate_without_shape_check-Agree :
      (m : Message)
      → Agree r r' m
      → Evaluator.evaluate_without_shape_check r m ≡ Evaluator.evaluate_without_shape_check r' m
  unfolding Evaluator.evaluate_without_shape_check
  evaluate_without_shape_check-Agree m same = evaluate_with_scope-Agree m none same
