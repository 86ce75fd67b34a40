-- ===== src/Admission/Events.antt =====
-- What a step does to the queue, to the candidates and in its event (crates/cbcl-core/src/admission.rs).
use cbcl_rs.Prelude.{
  List, Option, Option-cases, String, String-cases, [], ap, arith, eq_refl, false, get, get-insert,
  if◌then◌else◌, inl, inr, none, refl, some, subst, sym, true, ℕ, ◌++◌, ◌+◌, ◌==◌, ◌∙◌, ◌∷◌, ◌≡◌,
}
use cbcl_rs.Admission.Monitor.{
  AdmissionState, Candidate, AdmissionMonitor, RoleVerify, Visit, idle, panicked, visited, visit,
  step, step_from, verdict, settle, mark, is_pending,
}
use cbcl_rs.Admission.Visited.{candidate-waits}
use cbcl_rs.Admission.Consistent.{IsConsistent}

-- How often a hash is in a list.
abbrev pub count : String → List String → ℕ
count h [] = 0
count h (x ∷ xs) = (if x == h then 1 else 0) + count h xs

pub count-append : (h : String) (xs ys : List String) → count h (xs ++ ys) ≡ count h xs + count h ys
count-append h [] ys = omega arith
count-append h (x ∷ xs) ys = omega (arith, count-append h xs ys)

abbrev pub state_of : Option Candidate → Option AdmissionState
state_of none = none
state_of (some c) = some c.state

-- The state of the candidate with the hash.
abbrev pub state_at : AdmissionMonitor → String → Option AdmissionState
state_at a h = state_of (get h a.received)

-- The candidates that are decided keep their states.
abbrev pub Persists : AdmissionMonitor → AdmissionMonitor → Type 0
Persists a a' =
    (h : String) (s : AdmissionState)
    → state_at a h ≡ some s
    → is_pending s ≡ false
    → state_at a' h ≡ some s

-- The event has the hash that leaves the queue, unless it is put back, and the state it has now.
abbrev pub Moved : AdmissionMonitor → Visit → Type 0
Moved a idle = Unit
Moved a panicked = Unit
Moved a (visited a' e) =
    ((h : String)
      → count h a'.pending + (if is_pending e.state then 0 else count h (e.hash ∷ []))
        ≡ count h a.pending)
    × Persists a a'
    × (state_at a' e.hash ≡ some e.state)

module _ (hash : String) (rest : List String) (c : Candidate) (a : AdmissionMonitor)
    (p : a.pending ≡ hash ∷ rest) (e : get hash a.received ≡ some c) (v : IsConsistent a) where
  count-settle :
      (s : AdmissionState) (h : String)
      → count h (mark hash c s (settle hash c.message s (record a { pending = rest }))).pending
          + (if is_pending s then 0 else count h (hash ∷ []))
        ≡ count h a.pending
  unfolding mark settle
  count-settle AdmissionState.pending h =
      omega (arith, count-append h rest (hash ∷ []), ap (count h) p)
  count-settle AdmissionState.accepted h = omega (arith, ap (count h) p)
  count-settle (AdmissionState.rejected x) h = omega (arith, ap (count h) p)

  received-settle :
      (s : AdmissionState) (h : String)
      → state_at (mark hash c s (settle hash c.message s (record a { pending = rest }))) h
        ≡ (if hash == h then some s else state_at a h)
  unfolding mark settle
  received-settle AdmissionState.pending h =
      ground (arith, get-insert h hash (record c { state = AdmissionState.pending }) a.received)
  received-settle AdmissionState.accepted h =
      ground (arith, get-insert h hash (record c { state = AdmissionState.accepted }) a.received)
  received-settle (AdmissionState.rejected x) h =
      ground (arith, get-insert h hash (record c { state = AdmissionState.rejected x }) a.received)

  Persists-settle :
      (s : AdmissionState)
      → Persists a (mark hash c s (settle hash c.message s (record a { pending = rest })))
  Persists-settle s h t was decided = elim (String-cases hash h) [
    | inl same ↦
        let waits = candidate-waits hash rest c a p e v in
        let now : some c.state ≡ some t =
          ap state_of (sym e) ∙ subst (λ x. state_at a x ≡ some t) (sym same) was in
        let eq : c.state ≡ t = cc now in
        absurd (ground (arith, subst (λ x. is_pending x ≡ true) eq waits, decided))
    | inr other ↦ received-settle s h ∙ rw other was
  ]

  visited-Moved :
      (s : AdmissionState)
      → Moved a (
          visited
            (mark hash c s (settle hash c.message s (record a { pending = rest })))
            (record { hash = hash; state = s }))
  visited-Moved s =
      (count-settle s, Persists-settle s, received-settle s hash ∙ rw (eq_refl hash) refl)

step_from-Moved :
    (verify : RoleVerify) (q : List String) (a : AdmissionMonitor)
    → a.pending ≡ q
    → IsConsistent a
    → Moved a (step_from verify q a)
unfolding step_from visit
step_from-Moved verify [] a p v = tt
step_from-Moved verify (hash ∷ rest) a p v = elim (Option-cases (get hash a.received)) [
  | inl n ↦ rw (n, step_from) tt
  | inr (c, e) ↦
      rw (e, step_from)
        (visited-Moved hash rest c a p e v
          (verdict verify hash c.message (record a { pending = rest })))
]

pub step-Moved :
    (verify : RoleVerify) (a : AdmissionMonitor) → IsConsistent a → Moved a (step verify a)
unfolding step
step-Moved verify a v = step_from-Moved verify a.pending a refl v
