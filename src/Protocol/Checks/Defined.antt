-- ===== src/Protocol/Checks/Defined.antt =====
-- Which protocols pass the check of the performatives (crates/cbcl-core/src/protocol.rs).
use cbcl_rs.Prelude.{
  Bool, List, Map, String, String-cases, [], arith, contains, contains-set_insert, eq_iff, eq_refl,
  false, if◌then◌else◌, inl, inr, is_empty, not, refl, set_insert, subst, true, ◌&&◌, ◌++◌, ◌==◌,
  ◌||◌, ◌↔◌, ◌∷◌, ◌≡◌,
}
use cbcl_rs.Protocol.{
  StepDecl, NodeRef, CausalProtocol, performatives, begin_keyword, repeat_base_name,
}
use cbcl_rs.Protocol.Checks.{
  undefined_names, check_performative_definedness, all_referenced_performatives, referenced_from,
  add_refs, add_names,
}

-- Does one of the references name the performative?
abbrev pub names_in : List NodeRef → String → Bool
names_in [] n = false
names_in (r ∷ rs) n = contains (performatives r) n || names_in rs n

-- Is the performative a step's, or named in a step's clauses?
abbrev pub mentions : Map StepDecl → String → Bool
mentions [] n = false
mentions ((name, step) ∷ steps) n =
    name == n || names_in step.predecessors n || names_in step.successors n || mentions steps n

contains-add_names :
    (ps names : List String) (n : String)
    → contains (add_names ps names) n
      ≡ (contains names n || (contains ps n && not (n == begin_keyword)))
unfolding add_names
contains-add_names [] names n = ground arith
contains-add_names (p ∷ ps) names n = ground (
  arith,
  contains-add_names ps (if p == begin_keyword then names else set_insert p names) n,
  contains-set_insert p names n,
  eq_iff p n,
  eq_iff p begin_keyword,
  eq_iff n begin_keyword,
)

names_in-append :
    (rs rs' : List NodeRef) (n : String)
    → names_in (rs ++ rs') n ≡ (names_in rs n || names_in rs' n)
names_in-append [] rs' n = refl
names_in-append (r ∷ rs) rs' n = ground (arith, names_in-append rs rs' n)

contains-add_refs :
    (rs : List NodeRef) (names : List String) (n : String)
    → contains (add_refs rs names) n
      ≡ (contains names n || (names_in rs n && not (n == begin_keyword)))
unfolding add_refs
contains-add_refs [] names n = ground arith
contains-add_refs (r ∷ rs) names n = ground (
  arith,
  contains-add_refs rs (add_names (performatives r) names) n,
  contains-add_names (performatives r) names n,
)

contains-referenced_from :
    (steps : Map StepDecl) (names : List String) (n : String)
    → contains (referenced_from steps names) n
      ≡ (contains names n || (mentions steps n && not (n == begin_keyword)))
unfolding referenced_from
contains-referenced_from [] names n = ground arith
contains-referenced_from ((name, step) ∷ steps) names n = ground (
  arith,
  contains-referenced_from steps
      (add_refs (step.predecessors ++ step.successors) (add_names (name ∷ []) names)) n,
  contains-add_refs (step.predecessors ++ step.successors) (add_names (name ∷ []) names) n,
  contains-add_names (name ∷ []) names n,
  names_in-append step.predecessors step.successors n,
)

undefined_names-empty :
    (defined flagged names : List String)
    → (is_empty (undefined_names defined flagged names) ≡ true) ↔ (
        (n : String)
        → contains names n ≡ true
        → (contains defined (repeat_base_name n) || contains flagged (repeat_base_name n)) ≡ true)
unfolding undefined_names
undefined_names-empty defined flagged [] = (λ e n h. cc h, λ h. refl)
undefined_names-empty defined flagged (m ∷ names) =
    let again = undefined_names-empty defined flagged names in
    (
      λ e n h. elim (String-cases m n) [
        | inl q ↦
            subst
              (λ x.
                (contains defined (repeat_base_name x) || contains flagged (repeat_base_name x))
                ≡ true)
              q (ground arith)
        | inr q ↦ again.0 (ground arith) n (ground arith)
      ],
      λ h. ground (arith, h m (ground (arith, eq_refl m)), again.1 (λ n k. h n (ground arith))),
    )

-- The check finds no undefined performative exactly if the base name of each performative that the
-- protocol mentions, as a step or in a clause, is defined; begin need not be.
pub check_performative_definedness_iff :
    (defined : List String) (protocol : CausalProtocol)
    → (is_empty (check_performative_definedness defined protocol) ≡ true) ↔ (
        (n : String)
        → mentions protocol.steps n ≡ true
        → (n == begin_keyword) ≡ false
        → contains defined (repeat_base_name n) ≡ true)
unfolding check_performative_definedness all_referenced_performatives
check_performative_definedness_iff defined protocol =
    let flagless = undefined_names-empty defined [] (all_referenced_performatives protocol) in
    (
      λ e n h b.
          ground
            (arith, flagless.0 e n (ground (arith, contains-referenced_from protocol.steps [] n))),
      λ h. flagless.1 (λ n k. ground (
        arith,
        contains-referenced_from protocol.steps [] n,
        h n (ground (arith, contains-referenced_from protocol.steps [] n))
            (ground (arith, contains-referenced_from protocol.steps [] n)),
      )),
    )
