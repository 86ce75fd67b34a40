-- ===== src/Evaluator/Core.antt =====
-- Core messages (crates/cbcl-core/src/evaluator.rs): what they mean, whatever was installed.
use cbcl_rs.Prelude.{
  Bool, List, Option, String, [], false, get, map, none, refl, some, true, ◌++◌, ◌∷◌, ◌≡◌,
}
use cbcl_rs.Sexpr.{is_symbol, SExpr}
use cbcl_rs.Message.{
  CausedBy, CorePerformative, Recipients, ask, as_str, bye, cancel, core, error, hello, ok,
  recipient_set, reply, simple, tell,
}
use cbcl_rs.Resources.{initial}
use cbcl_rs.Dialect.{Dialect, is_core_performative_name}
use cbcl_rs.Dialect.Registry.{Layers, Registry, base_definer_of, base_dialect, effect_template}
use cbcl_rs.Dialect.Registry.Core.{Grown, Grown-IsCore}
use cbcl_rs.Template.{dispatch_form}
use cbcl_rs.Evaluator

-- What each core performative asks for, and what it is expanded to.
abbrev pub action_of : CorePerformative → String
action_of tell = "send-message"
action_of ask = "send-query"
action_of reply = "send-reply"
action_of error = "signal-error"
action_of ok = "acknowledge"
action_of cancel = "cancel-conversation"
action_of hello = "announce-presence"
action_of bye = "announce-departure"

abbrev pub meaning : CorePerformative → List (Option String) → SExpr → List Evaluator.Effect
meaning tell targets content =
    map (λ to. Evaluator.send_message to content) targets ++ Evaluator.store_belief content ∷ []
meaning ask targets content = map (λ to. Evaluator.send_query to content) targets
meaning reply targets content = map (λ to. Evaluator.send_reply to content) targets
meaning error targets content = Evaluator.signal_error content ∷ []
meaning ok targets content = Evaluator.acknowledge ∷ []
meaning cancel targets content = Evaluator.cancel_conversation ∷ []
meaning hello targets content = Evaluator.announce_presence ∷ []
meaning bye targets content = Evaluator.announce_departure ∷ []

core_name : (c : CorePerformative) → is_core_performative_name (as_str c) ≡ true
unfolding is_core_performative_name
core_name tell = refl
core_name ask = refl
core_name reply = refl
core_name error = refl
core_name ok = refl
core_name cancel = refl
core_name hello = refl
core_name bye = refl

interpret_effects-core :
    (c : CorePerformative) (recipients : List String) (content : SExpr)
    → Evaluator.interpret_effects (effect_template (action_of c)) recipients content
      ≡ meaning c (Evaluator.targets_of recipients) content
unfolding Evaluator.interpret_effects
interpret_effects-core tell rs x = refl
interpret_effects-core ask rs x = refl
interpret_effects-core reply rs x = refl
interpret_effects-core error rs x = refl
interpret_effects-core ok rs x = refl
interpret_effects-core cancel rs x = refl
interpret_effects-core hello rs x = refl
interpret_effects-core bye rs x = refl

module _ {X V W : Type 0} (l : Layers X V W) where
  expand_in-core :
      (r : Registry X) (c : CorePerformative) (args : List SExpr)
      → Evaluator.expand_in r (as_str c) args (base_dialect l)
        ≡ Evaluator.evaluated (effect_template (action_of c))
  unfolding Evaluator.expand_in base_dialect initial dispatch_form is_symbol get
  expand_in-core r tell args = refl
  expand_in-core r ask args = refl
  expand_in-core r reply args = refl
  expand_in-core r error args = refl
  expand_in-core r ok args = refl
  expand_in-core r cancel args = refl
  expand_in-core r hello args = refl
  expand_in-core r bye args = refl

  pub core_definer :
      {r : Registry X}
      → Grown l r
      → (c : CorePerformative) → base_definer_of (as_str c) r ≡ some (base_dialect l)
  core_definer g c = (Grown-IsCore l (as_str c) (core_name c) g).1

  -- In a registry that has grown from the base dialect by installations of dialects that are not
  -- named cbcl-base, and in every scope, a core message has the effects of its performative on its
  -- recipients and its content, provided that no shape for the performative refuses the form that
  -- it expands to.
  pub evaluate-core :
      {r : Registry X}
      → Grown l r
      → (c : CorePerformative) (scope : Option (Dialect X)) (to : Option Recipients)
        (content : SExpr) (params : List SExpr) (t s : Option String) (cb : Option CausedBy)
      → Evaluator.check_shapes (as_str c) (effect_template (action_of c)) r ≡ none
      → (check_shape : Bool)
      → Evaluator.evaluate_with_scope r scope check_shape (simple (core c) to content params t s cb)
        ≡ Evaluator.evaluated (record {
          expanded = effect_template (action_of c);
          effects =
              meaning c
                (Evaluator.targets_of (recipient_set (simple (core c) to content params t s cb)))
                content;
          thread_id = t;
        })
  unfolding Evaluator.evaluate_with_scope Evaluator.evaluate_simple Evaluator.shape_checked
      Evaluator.resolve_performative_dialect
  evaluate-core {r} g c scope to content params t s cb fits true =
      rw (core_definer g c)
        (rw (expand_in-core r c (content ∷ params)) (rw fits (rw (interpret_effects-core c) refl)))
  evaluate-core {r} g c scope to content params t s cb fits false =
      rw (core_definer g c)
        (rw (expand_in-core r c (content ∷ params)) (rw (interpret_effects-core c) refl))
