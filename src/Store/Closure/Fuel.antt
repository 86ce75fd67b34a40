-- ===== src/Store/Closure/Fuel.antt =====
-- The loop of the causal closure (crates/cbcl-core/src/store.rs) ends: a bound on its rounds.
use cbcl_rs.Prelude.{
  Bool-cases, List, Option-cases, String, [], arith, contains, contains-set_insert, eq_iff, false,
  get_elem?, if◌then◌else◌, inl, inr, length, refl, set_insert, some, suc, zero, ℕ, ◌++◌, ◌+◌, ◌<◌,
  ◌∷◌, ◌≡◌, ◌≤◌,
}
use cbcl_rs.Message.{Message, caused_by, refs}
use cbcl_rs.Store.{
  ThreadedMessageStore, messages, push_refs, links, lookup_in_thread, closure_loop, causal_closure,
  store_contains,
}
use cbcl_rs.Store.Valid.{IsValid}
use cbcl_rs.Store.Lookup.{lookup_in_thread-found}
use cbcl_rs.Store.Closure.{closure_loop-again, closure_loop-onward}

-- The references of the messages that are not visited.
weight : List String → List (String × Message) → ℕ
weight visited [] = 0
weight visited ((h, m) ∷ msgs) =
    (if contains visited h then 0 else length (refs (caused_by m))) + weight visited msgs

-- Enough rounds for a closure in the thread.
unfoldable pub enough : ThreadedMessageStore → String → ℕ
unfolding weight
enough s t = weight [] (messages s t) + 2

weight-set_insert :
    (c : String) (visited : List String) (msgs : List (String × Message))
    → weight (set_insert c visited) msgs ≤ weight visited msgs
unfolding weight
weight-set_insert c visited [] = omega arith
weight-set_insert c visited ((h, m) ∷ msgs) =
    ground (arith, weight-set_insert c visited msgs, contains-set_insert c visited h)

weight-visit :
    (c : String) (m : Message) (visited : List String) (msgs : List (String × Message)) (i : ℕ)
    → contains visited c ≡ false
    → get_elem? msgs i ≡ some (c, m)
    → weight (set_insert c visited) msgs + length (refs (caused_by m)) ≤ weight visited msgs
unfolding weight
weight-visit c m visited [] i n e = cc e
weight-visit c m visited ((h, m') ∷ msgs) zero n e =
    ground (arith, weight-set_insert c visited msgs, contains-set_insert c visited h, eq_iff c h)
weight-visit c m visited ((h, m') ∷ msgs) (suc i) n e =
    ground (arith, weight-visit c m visited msgs i n e, contains-set_insert c visited h)

length-push_refs :
    (visited hs stack : List String)
    → length (push_refs visited hs stack) ≤ length hs + length stack
unfolding push_refs
length-push_refs visited [] stack = omega arith
length-push_refs visited (h ∷ hs) stack =
    ground (arith, length-push_refs visited hs (if contains visited h then stack else h ∷ stack))

module _ (s : ThreadedMessageStore) (t : String) (v : IsValid s) where
  -- A visit pays for the references that it puts on the stack.
  visit-le :
      (c : String) (visited : List String)
      → contains visited c ≡ false
      → weight (set_insert c visited) (messages s t) + length (links s t c)
        ≤ weight visited (messages s t)
  unfolding links
  visit-le c visited n = elim (Option-cases (lookup_in_thread c t s)) [
    | inl e ↦ rw (e, links) (omega (arith, weight-set_insert c visited (messages s t)))
    | inr (m, e) ↦
        let (i, p) = lookup_in_thread-found c t s m v e in
        rw (e, links) (weight-visit c m visited (messages s t) i n p)
  ]

  closure_loop-ends :
      (fuel : ℕ) (visited stack result : List String)
      → weight visited (messages s t) + length stack < fuel
      → (found : List String) × (closure_loop fuel s t visited stack result ≡ some found)
  unfolding closure_loop
  closure_loop-ends zero visited stack result h = absurd (omega arith)
  closure_loop-ends (suc fuel) visited [] result h = (result, refl)
  closure_loop-ends (suc fuel) visited (c ∷ stack) result h =
      elim (Bool-cases (contains visited c)) [
        | inl old ↦
            rw (closure_loop-again s t fuel visited c stack result old)
              (closure_loop-ends fuel visited stack result (omega arith))
        | inr new ↦ rw (closure_loop-onward s t fuel visited c stack result new) (
            closure_loop-ends fuel (set_insert c visited)
              (push_refs (set_insert c visited) (links s t c) stack) (result ++ c ∷ [])
              (omega (
                arith,
                visit-le c visited new,
                length-push_refs (set_insert c visited) (links s t c) stack,
              )))
      ]

  -- In a well-formed store the search ends within a bound computed from the thread, for every
  -- start.
  pub causal_closure-ends :
      (h : String) → (found : List String) × (causal_closure (enough s t) h t s ≡ some found)
  unfolding causal_closure enough
  causal_closure-ends h =
      closure_loop-ends (weight [] (messages s t) + 2) []
        (if store_contains h t s then h ∷ [] else []) [] (ground arith)
