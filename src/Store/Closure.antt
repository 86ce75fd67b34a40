-- ===== src/Store/Closure.antt =====
-- The causal closure of a message (crates/cbcl-core/src/store.rs): what the loop over the stack
-- collects.
pub mod Fuel
use cbcl_rs.Prelude.{
  Bool-cases, List, String, String-cases, [], ap, arith, contains, contains-append,
  contains-set_insert, eq_iff, false, if◌then◌else◌, inl, inr, not, refl, set_insert, some, subst,
  suc, sym, true, zero, ℕ, ◌&&◌, ◌++◌, ◌||◌, ◌∙◌, ◌∷◌, ◌≡◌,
}
use cbcl_rs.Store.{
  ThreadedMessageStore, push_refs, links, closure_loop, causal_closure, store_contains,
}

-- What is reached from a start by following references.
pub data Reach (next : String → List String) (start : String) : String → Type 0 where
  here : Reach next start start
  follow : {x y : String} → Reach next start x → contains (next x) y ≡ true → Reach next start y

-- The property holds of every member of the list.
abbrev pub Each {ℓ} : (String → Type ℓ) → List String → Type ℓ
Each P xs = (r : String) → contains xs r ≡ true → P r

pub contains-push_refs :
    (visited hs stack : List String) (r : String)
    → contains (push_refs visited hs stack) r
      ≡ (contains stack r || (contains hs r && not (contains visited r)))
unfolding push_refs
contains-push_refs visited [] stack r = ground arith
contains-push_refs visited (h ∷ hs) stack r = ground (
  arith,
  eq_iff h r,
  contains-push_refs visited hs (if contains visited h then stack else h ∷ stack) r,
)

module _ (s : ThreadedMessageStore) (t : String) where
  module _ (fuel : ℕ) (visited : List String) (c : String) (stack result : List String) where
    pub closure_loop-again :
        contains visited c ≡ true
        → closure_loop (suc fuel) s t visited (c ∷ stack) result
          ≡ closure_loop fuel s t visited stack result
    unfolding closure_loop
    closure_loop-again e = rw e refl

    pub closure_loop-onward :
        contains visited c ≡ false
        → closure_loop (suc fuel) s t visited (c ∷ stack) result
          ≡ closure_loop fuel s t
              (set_insert c visited)
              (push_refs (set_insert c visited) (links s t c) stack)
              (result ++ c ∷ [])
    unfolding closure_loop
    closure_loop-onward e = rw e refl

  closure_loop-Each {ℓ} :
      (P : String → Type ℓ)
      → ((x y : String) → P x → contains (links s t x) y ≡ true → P y)
      → (fuel : ℕ) (visited stack result : List String) {found : List String} → Each P stack
      → Each P result
      → closure_loop fuel s t visited stack result ≡ some found
      → Each P found
  unfolding closure_loop
  closure_loop-Each P keep zero visited stack result ps pr e = cc e
  closure_loop-Each P keep (suc fuel) visited [] result ps pr e = subst (Each P) (cc e) pr
  closure_loop-Each P keep (suc fuel) visited (c ∷ stack) result {found} ps pr e =
      elim (Bool-cases (contains visited c)) [
        | inl old ↦
            closure_loop-Each P keep fuel visited stack result {found = found}
              (λ r h. ps r (ground arith)) pr
              (sym (closure_loop-again fuel visited c stack result old) ∙ e)
        | inr new ↦
            let pc : P c = ps c (ground (arith, eq_iff c c)) in
            closure_loop-Each P keep fuel (set_insert c visited)
              (push_refs (set_insert c visited) (links s t c) stack) (result ++ c ∷ [])
              {found = found}
              (λ r h. elim (Bool-cases (contains stack r)) [
                | inl waiting ↦ ps r (ground arith)
                | inr cited ↦ keep c r pc (
                    ground (arith, contains-push_refs (set_insert c visited) (links s t c) stack r))
              ])
              (λ r h. elim (String-cases c r) [
                | inl q ↦ subst P q pc
                | inr q ↦ pr r (ground (arith, contains-append result (c ∷ []) r))
              ])
              (sym (closure_loop-onward fuel visited c stack result new) ∙ e)
      ]

  -- What the loop keeps: `result` lists `visited`, and what a visited hash cites is visited or waits
  -- on the stack.
  record Inv (visited stack result : List String) : Type 0 where
    same : (r : String) → contains result r ≡ contains visited r
    waits :
        (x y : String)
        → contains visited x ≡ true
        → contains (links s t x) y ≡ true
        → (contains visited y || contains stack y) ≡ true

  -- What is found has all that was visited or waited, and all that its members cite.
  record Closed (visited stack found : List String) : Type 0 where
    keeps : (r : String) → (contains visited r || contains stack r) ≡ true → contains found r ≡ true
    closed :
        (x y : String)
        → contains found x ≡ true
        → contains (links s t x) y ≡ true
        → contains found y ≡ true

  Inv-onward :
      (visited : List String) (c : String) (stack result : List String)
      → contains visited c ≡ false
      → Inv visited (c ∷ stack) result
      → Inv
          (set_insert c visited)
          (push_refs (set_insert c visited) (links s t c) stack)
          (result ++ c ∷ [])
  Inv-onward visited c stack result new i = record {
    same = λ r. ground (
      arith,
      contains-append result (c ∷ []) r,
      i.same r,
      contains-set_insert c visited r,
      eq_iff c r,
    );
    waits = λ x y h l. elim (String-cases c x) [
      | inl q ↦
          let l' : contains (links s t c) y ≡ true = rw q l in
          ground (arith, contains-push_refs (set_insert c visited) (links s t c) stack y)
      | inr q ↦ ground (
        arith,
        contains-push_refs (set_insert c visited) (links s t c) stack y,
        contains-set_insert c visited x,
        contains-set_insert c visited y,
        i.waits x y,
        eq_iff c y,
      )
    ];
  }

  closure_loop-Closed :
      (fuel : ℕ) (visited stack result : List String) {found : List String}
      → Inv visited stack result
      → closure_loop fuel s t visited stack result ≡ some found
      → Closed visited stack found
  unfolding closure_loop
  closure_loop-Closed zero visited stack result i e = cc e
  closure_loop-Closed (suc fuel) visited [] result {found} i e =
      let at_end : result ≡ found = cc e in
      record {
        keeps = λ r h. ap (λ f. contains f r) (sym at_end) ∙ ground (arith, i.same r);
        closed = λ x y h l.
            ap (λ f. contains f y) (sym at_end)
            ∙ (let v : contains visited x ≡ true =
                  sym (i.same x) ∙ ap (λ f. contains f x) at_end ∙ h in
                ground (arith, i.same y, i.waits x y v l));
      }
  closure_loop-Closed (suc fuel) visited (c ∷ stack) result {found} i e =
      elim (Bool-cases (contains visited c)) [
        | inl old ↦
            let rest =
              closure_loop-Closed fuel visited stack result {found = found}
                (record {
                  same = i.same;
                  waits = λ x y h l. ground (arith, i.waits x y h l, eq_iff c y);
                })
                (sym (closure_loop-again fuel visited c stack result old) ∙ e) in
            record {
              keeps = λ r h. rest.keeps r (ground (arith, eq_iff c r));
              closed = rest.closed;
            }
        | inr new ↦
            let rest =
              closure_loop-Closed fuel (set_insert c visited)
                (push_refs (set_insert c visited) (links s t c) stack) (result ++ c ∷ [])
                {found = found} (Inv-onward visited c stack result new i)
                (sym (closure_loop-onward fuel visited c stack result new) ∙ e) in
            record {
              keeps = λ r h. rest.keeps r (
                  ground (
                    arith,
                    contains-set_insert c visited r,
                    eq_iff c r,
                    contains-push_refs (set_insert c visited) (links s t c) stack r,
                  ));
              closed = rest.closed;
            }
      ]

module _ (s : ThreadedMessageStore) (t h : String) (known : store_contains h t s ≡ true) (fuel : ℕ)
    {found : List String} (done : causal_closure fuel h t s ≡ some found) where
  loop_done : closure_loop fuel s t [] (h ∷ []) [] ≡ some found
  unfolding causal_closure
  loop_done = rw known at done

  -- If the search from a stored message ends, every hash that it lists is reached from the message
  -- by causal links.
  pub causal_closure_sound : Each (Reach (links s t) h) found
  causal_closure_sound =
      closure_loop-Each s t (Reach (links s t) h) (λ x y p l. Reach.follow p l) fuel [] (h ∷ []) []
        (λ r e. elim (String-cases h r) [
          | inl q ↦ subst (Reach (links s t) h) q Reach.here
          | inr q ↦ absurd (ground arith)
        ])
        (λ r e. cc e) loop_done

  -- If the search from a stored message ends, every hash that is reached from it by causal links is
  -- listed.
  pub causal_closure_complete : (r : String) → Reach (links s t) h r → contains found r ≡ true
  causal_closure_complete r p = by_path p
    where
      all : Closed s t [] (h ∷ []) found
      all =
          closure_loop-Closed s t fuel [] (h ∷ []) []
            (record { same = λ r. refl; waits = λ x y e l. cc e }) loop_done

      by_path : {r : String} → Reach (links s t) h r → contains found r ≡ true
      by_path Reach.here = all.keeps h (ground (arith, eq_iff h h))
      by_path (Reach.follow {x} {y} p l) = all.closed x y (by_path p) l
