-- ===== src/Admission/Fixed.antt =====
-- A drained monitor is at a fixed point (crates/cbcl-core/src/admission.rs).
use cbcl_rs.Prelude.{
  All, List, Option, String, String-cases, [], arith, contains, inl, inr, length, none, refl, some,
  subst, suc, sym, true, zero, ℕ, ◌<◌, ◌∙◌, ◌∷◌, ◌≡◌,
}
use mathlib.Core.List.{append-nil}
use cbcl_rs.Message.{Message}
use cbcl_rs.Admission.Monitor.{
  AdmissionEvent, AdmissionMonitor, RoleVerify, verdict, round, drain_ready,
}
use cbcl_rs.Admission.Consistent.{IsConsistent}
use cbcl_rs.Admission.Drain.{then_later, Finished, round-Finished}
use cbcl_rs.Admission.Quiet.{StuckAt, Same, Quiet, round-Quiet}

-- No candidate that is left could be decided now.
abbrev pub Settled : RoleVerify → Option (AdmissionMonitor × List AdmissionEvent) → Type 0
Settled verify none = ⊥
Settled verify (some (a, es)) = (h : String) → contains a.pending h ≡ true → StuckAt verify a h

verdict-Same :
    (verify : RoleVerify) (h : String) (m : Message) (a b : AdmissionMonitor)
    → b.accepted ≡ a.accepted
    → b.context ≡ a.context
    → verdict verify h m b ≡ verdict verify h m a
unfolding verdict
verdict-Same verify h m a b s c = rw (s, c) refl

All-contains :
    (P : String → Type 0) (xs : List String) (x : String) → All P xs → contains xs x ≡ true → P x
All-contains P [] x k e = cc e
All-contains P (y ∷ ys) x k e = elim (String-cases y x) [
  | inl q ↦ subst P q k.0
  | inr n ↦ All-contains P ys x k.1 (ground arith)
]

quiet-Settled :
    (verify : RoleVerify) (a b : AdmissionMonitor)
    → Same a b
    → All (StuckAt verify a) a.pending
    → (h : String) → contains b.pending h ≡ true
    → StuckAt verify b h
quiet-Settled verify a b s k h w c g =
    verdict-Same verify h c.message a b s.accepted s.context
    ∙ All-contains (StuckAt verify a) a.pending h k (sym (s.pending h) ∙ w) c
        (sym (s.received h) ∙ g)

later-Settled :
    (verify : RoleVerify) (e : AdmissionEvent) (es : List AdmissionEvent)
    (o : Option (AdmissionMonitor × List AdmissionEvent))
    → Settled verify o
    → Settled verify (then_later e es o)
later-Settled verify e es none f = f
later-Settled verify e es (some (b, later)) f = f

-- With more fuel than the queue has candidates, draining a consistent monitor returns at a fixed
-- point: each candidate that is left in the queue would stay pending if it were visited.
pub drain_ready-Settled :
    (fuel : ℕ) (verify : RoleVerify) (a : AdmissionMonitor)
    → length a.pending < fuel
    → IsConsistent a
    → Settled verify (drain_ready fuel verify a)
unfolding drain_ready
drain_ready-Settled zero verify a l v = absurd (omega arith)
drain_ready-Settled (suc fuel) verify a l v =
    elim (round verify (length a.pending) a)
        as (λ o.
          Finished a o
          → Quiet verify a.pending a o
          → Settled verify (elim o [
            | none ↦ none
            | some (a', []) ↦ some (a', [])
            | some (a', e ∷ es) ↦ then_later e es (drain_ready fuel verify a')
          ])) [
            | none ↦ λ f q. f
            | some (b, []) ↦ λ f q. quiet-Settled verify a b q.0 q.1
            | some (b, e ∷ es) ↦ λ f q.
                later-Settled verify e es (drain_ready fuel verify b)
                  (drain_ready-Settled fuel verify b (ground (arith, f.1)) f.0)
          ]
      (round-Finished verify (length a.pending) a (omega arith) v)
      (round-Quiet verify a.pending [] a (sym (append-nil a.pending)) v)
