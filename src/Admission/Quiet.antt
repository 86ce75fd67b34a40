-- ===== src/Admission/Quiet.antt =====
-- A round that decides nothing has found every candidate stuck (crates/cbcl-core/src/admission.rs).
use cbcl_rs.Prelude.{
  All, List, Option, Option-cases, String, [], ap, arith, contains, contains-append, eq_iff,
  eq_refl, false, get, get-insert, inl, inr, length, none, refl, some, subst, suc, sym, true, ℕ,
  ◌++◌, ◌∙◌, ◌∷◌, ◌≡◌,
}
use mathlib.Core.List.{append_assoc}
use cbcl_rs.Message.{Message}
use cbcl_rs.Admission.Monitor.{
  AdmissionState, AdmissionEvent, Candidate, AdmissionMonitor, RoleVerify, visited, visit, step,
  step_from, verdict, settle, mark, is_pending, round, report,
}
use cbcl_rs.Admission.Visited.{visited-IsConsistent}
use cbcl_rs.Admission.Consistent.{IsConsistent}

-- The candidate under the hash would stay pending if it were visited.
abbrev pub StuckAt : RoleVerify → AdmissionMonitor → String → Type 0
StuckAt verify a h =
    (c : Candidate)
    → get h a.received ≡ some c
    → verdict verify h c.message a ≡ AdmissionState.pending

-- The second monitor differs from the first in the order of its queue only.
pub record Same (a b : AdmissionMonitor) : Type 0 where
  pub accepted : b.accepted ≡ a.accepted
  pub context : b.context ≡ a.context
  pub received : (h : String) → get h b.received ≡ get h a.received
  pub pending : (h : String) → contains b.pending h ≡ contains a.pending h

-- A round without an event has found every visited candidate stuck.
abbrev pub Quiet :
    RoleVerify
    → List String
    → AdmissionMonitor
    → Option (AdmissionMonitor × List AdmissionEvent)
    → Type 0
Quiet verify xs a none = Unit
Quiet verify xs a (some (b, [])) = Same a b × All (StuckAt verify a) xs
Quiet verify xs a (some (b, e ∷ es)) = Unit

message_of : Candidate → Option Candidate → Message
message_of c none = c.message
message_of c (some d) = d.message

put_back : String → Candidate → List String → AdmissionMonitor → AdmissionMonitor
put_back h c rest a =
    mark h c AdmissionState.pending
      (settle h c.message AdmissionState.pending (record a { pending = rest }))

module _ (verify : RoleVerify) (h : String) (c : Candidate) (rest : List String)
    (a : AdmissionMonitor) (p : a.pending ≡ h ∷ rest) (g : get h a.received ≡ some c)
    (w : c.state ≡ AdmissionState.pending) where
  get-put_back : (x : String) → get x (put_back h c rest a).received ≡ get x a.received
  unfolding put_back mark settle
  get-put_back x =
      let self : record { message = c.message; state = AdmissionState.pending } ≡ c =
        ap (λ (t : AdmissionState). record { message = c.message; state = t }) (sym w) in
      ground (
        arith,
        get-insert x h (record { message = c.message; state = AdmissionState.pending }) a.received,
        eq_iff h x,
        g,
        ap (λ (d : Candidate). some d) self,
      )

  pending-put_back : (x : String) → contains (put_back h c rest a).pending x ≡ contains a.pending x
  unfolding put_back mark settle
  pending-put_back x = ground (arith, contains-append rest (h ∷ []) x, p)

  Stuck-put_back :
      (xs : List String) → All (StuckAt verify (put_back h c rest a)) xs → All (StuckAt verify a) xs
  unfolding put_back mark settle verdict
  Stuck-put_back [] k = tt
  Stuck-put_back (x ∷ xs) k = (λ c' k'. k.0 c' (get-put_back x ∙ k'), Stuck-put_back xs k.1)

  Same-put_back : (b : AdmissionMonitor) → Same (put_back h c rest a) b → Same a b
  unfolding put_back mark settle
  Same-put_back b s = record {
    accepted = s.accepted;
    context = s.context;
    received = λ x. s.received x ∙ get-put_back x;
    pending = λ x. s.pending x ∙ pending-put_back x;
  }

Quiet-on :
    (verify : RoleVerify) (h : String) (c : Candidate) (rest xs : List String)
    (a : AdmissionMonitor)
    → a.pending ≡ h ∷ rest
    → get h a.received ≡ some c
    → c.state ≡ AdmissionState.pending
    → verdict verify h c.message a ≡ AdmissionState.pending
    → (o : Option (AdmissionMonitor × List AdmissionEvent))
    → Quiet verify xs (put_back h c rest a) o
    → Quiet verify (h ∷ xs) a (report (record { hash = h; state = AdmissionState.pending }) o)
unfolding message_of
Quiet-on verify h c rest xs a p g w v none q = tt
Quiet-on verify h c rest xs a p g w v (some (b, [])) q = (
  Same-put_back verify h c rest a p g w b q.0,
  (
    λ c' k.
        subst
          (λ (d : Option Candidate). verdict verify h (message_of c d) a ≡ AdmissionState.pending)
          (sym g ∙ k) v,
    Stuck-put_back verify h c rest a p g w xs q.1,
  ),
)
Quiet-on verify h c rest xs a p g w v (some (b, e ∷ es)) q = tt

Quiet-off :
    (verify : RoleVerify) (xs : List String) (a : AdmissionMonitor) (e : AdmissionEvent)
    (o : Option (AdmissionMonitor × List AdmissionEvent))
    → is_pending e.state ≡ false
    → Quiet verify xs a (report e o)
Quiet-off verify xs a e none n = tt
Quiet-off verify xs a e (some (b, es)) n = rw n tt

-- The state that a visit gives, by its three cases.
Quiet-visit :
    (verify : RoleVerify) (h : String) (c : Candidate) (rest xs : List String)
    (a : AdmissionMonitor)
    → a.pending ≡ h ∷ rest
    → get h a.received ≡ some c
    → c.state ≡ AdmissionState.pending
    → (s : AdmissionState) → verdict verify h c.message a ≡ s
    → ((s ≡ AdmissionState.pending)
        → Quiet verify xs (put_back h c rest a) (round verify (length xs) (put_back h c rest a)))
    → Quiet verify (h ∷ xs) a (
        report
          (record { hash = h; state = s })
          (round verify
            (length xs)
            (mark h c s (settle h c.message s (record a { pending = rest })))))
unfolding put_back
Quiet-visit verify h c rest xs a p g w AdmissionState.accepted v again =
    Quiet-off verify (h ∷ xs) a (record { hash = h; state = AdmissionState.accepted }) _ refl
Quiet-visit verify h c rest xs a p g w (AdmissionState.rejected x) v again =
    Quiet-off verify (h ∷ xs) a (record { hash = h; state = AdmissionState.rejected x }) _ refl
Quiet-visit verify h c rest xs a p g w AdmissionState.pending v again =
    Quiet-on verify h c rest xs a p g w v (round verify (length xs) (put_back h c rest a))
      (again refl)

step-visited :
    (verify : RoleVerify) (h : String) (c : Candidate) (rest : List String) (a : AdmissionMonitor)
    → a.pending ≡ h ∷ rest
    → get h a.received ≡ some c
    → step verify a
      ≡ visited
          (mark h c
            (verdict verify h c.message a)
            (settle h c.message (verdict verify h c.message a) (record a { pending = rest })))
          (record { hash = h; state = verdict verify h c.message a })
unfolding step step_from visit verdict
step-visited verify h c rest a p g =
    ap (λ q. step_from verify q a) p ∙ ap (λ o. visit verify h o (record a { pending = rest })) g

round-visited :
    (verify : RoleVerify) (n : ℕ) (a b : AdmissionMonitor) (e : AdmissionEvent)
    → step verify a ≡ visited b e
    → round verify (suc n) a ≡ report e (round verify n b)
unfolding round
round-visited verify n a b e q = rw (q, round) refl

waits-pending : (s : AdmissionState) → is_pending s ≡ true → s ≡ AdmissionState.pending
waits-pending AdmissionState.pending w = refl
waits-pending AdmissionState.accepted w = cc w
waits-pending (AdmissionState.rejected x) w = cc w

-- The first candidates of the queue, one for each step.
pub round-Quiet :
    (verify : RoleVerify) (xs ys : List String) (a : AdmissionMonitor)
    → a.pending ≡ xs ++ ys
    → IsConsistent a
    → Quiet verify xs a (round verify (length xs) a)
unfolding round put_back mark settle
round-Quiet verify [] ys a p v =
    (record { accepted = refl; context = refl; received = λ x. refl; pending = λ x. refl }, tt)
round-Quiet verify (h ∷ xs) ys a p v = elim (Option-cases (get h a.received)) [
  | inl n ↦ absurd (ground (arith, v.queued h, n, p, eq_refl h))
  | inr (c, g) ↦
      let w = waits-pending c.state (ground (arith, v.queued h, g, p, eq_refl h)) in
      subst (Quiet verify (h ∷ xs) a)
        (sym (round-visited verify (length xs) a _ _ (step-visited verify h c (xs ++ ys) a p g)))
        (Quiet-visit verify h c (xs ++ ys) xs a p g w (verdict verify h c.message a) refl (λ e.
          round-Quiet verify xs (ys ++ h ∷ []) (put_back h c (xs ++ ys) a)
            (append_assoc xs ys (h ∷ []))
            (visited-IsConsistent h (xs ++ ys) c AdmissionState.pending a p g (λ k. cc k) v)))
]
