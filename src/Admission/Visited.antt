-- ===== src/Admission/Visited.antt =====
-- A visited candidate keeps the invariant of a monitor (crates/cbcl-core/src/admission.rs).
use cbcl_rs.Prelude.{
  List, Option, String, String-cases, [], ap, arith, contains, contains-append, eq_iff, eq_refl,
  false, get, get-insert, if◌then◌else◌, inl, inr, none, refl, some, subst, sym, true, ◌==◌, ◌∙◌,
  ◌∷◌, ◌≡◌,
}
use cbcl_rs.Message.{Message}
use cbcl_rs.Protocol.{CausalViolation}
use cbcl_rs.Store.{append}
use cbcl_rs.Store.Valid.{is_known}
use cbcl_rs.Store.Lookup.{is_known-append}
use cbcl_rs.Admission.Monitor.{
  AdmissionState, Candidate, AdmissionMonitor, resolved, is_pending, mark, settle,
}
use cbcl_rs.Admission.Consistent.{
  IsConsistent, is_waiting, is_accepted, IsUnique, IsUnique-append_end, resolved-grows,
  store_contains-append,
}

waits-not_accepted : (s : AdmissionState) → is_pending s ≡ true → is_accepted s ≡ false
waits-not_accepted AdmissionState.pending w = refl
waits-not_accepted AdmissionState.accepted w = cc w
waits-not_accepted (AdmissionState.rejected x) w = refl

message_or : Candidate → Option Candidate → Message
message_or c none = c.message
message_or c (some x) = x.message

regrounded :
    (hash : String) (c : Candidate) (a : AdmissionMonitor) (h : String) (c' : Candidate)
    → is_known hash a.accepted ≡ false
    → resolved a.context a.accepted hash c.message ≡ true
    → (get h a.received ≡ some c' → resolved a.context a.accepted h c'.message ≡ true)
    → (if hash == h then some (record c { state = AdmissionState.accepted }) else get h a.received)
      ≡ some c'
    → resolved a.context (append hash a.context.thread c.message a.accepted).0 h c'.message ≡ true
unfolding message_or
regrounded hash c a h c' new r old g =
    resolved-grows a.context a.accepted (append hash a.context.thread c.message a.accepted).0 h
      c'.message
      (λ h' k.
        ground (arith, store_contains-append hash a.context.thread c.message a.accepted h' new))
      (elim (String-cases hash h) [
        | inl q ↦
            let same : some (record c { state = AdmissionState.accepted }) ≡ some c' =
              ground (arith, eq_iff hash h) in
            cc (r, q, ap (message_or c) same)
        | inr n ↦ old (ground arith)
      ])

module _ (hash : String) (rest : List String) (c : Candidate) (a : AdmissionMonitor)
    (p : a.pending ≡ hash ∷ rest) (e : get hash a.received ≡ some c) (v : IsConsistent a) where
  rest-queued :
      (h : String) → (if hash == h then true else contains rest h) ≡ is_waiting (get h a.received)
  rest-queued h = subst (λ l. contains l h ≡ is_waiting (get h a.received)) p (v.queued h)

  rest-once : (contains rest hash ≡ false) × IsUnique rest
  rest-once = subst IsUnique p v.once

  pub candidate-waits : is_pending c.state ≡ true
  candidate-waits = ground (arith, rest-queued hash, eq_refl hash, e)

  candidate-not_taken : is_accepted c.state ≡ false
  candidate-not_taken = waits-not_accepted c.state candidate-waits

  waiting-IsConsistent : IsConsistent (
      mark hash c AdmissionState.pending
        (settle hash c.message AdmissionState.pending (record a { pending = rest })))
  unfolding mark settle
  waiting-IsConsistent =
      let get' = λ (h : String).
        get-insert h hash (record c { state = AdmissionState.pending }) a.received in
      record {
        queued = λ h.
            ground
              (arith, rest-queued h, contains-append rest (hash ∷ []) h, get' h, eq_iff hash h);
        once = IsUnique-append_end rest hash rest-once.1 rest-once.0;
        known = λ h. ground (arith, v.known h, get' h, eq_iff hash h, e, candidate-not_taken);
        stored = λ h. ground (arith, v.stored h, get' h, eq_iff hash h, e, candidate-not_taken);
        grounded = λ h c' g t. v.grounded h c' (ground (arith, get' h, eq_iff hash h)) t;
      }

  rejected-IsConsistent :
      (x : CausalViolation)
      → IsConsistent (
          mark hash c
            (AdmissionState.rejected x)
            (settle hash c.message (AdmissionState.rejected x) (record a { pending = rest })))
  unfolding mark settle
  rejected-IsConsistent x =
      let get' = λ (h : String).
        get-insert h hash (record c { state = AdmissionState.rejected x }) a.received in
      record {
        queued = λ h. ground (arith, rest-queued h, get' h, eq_iff hash h, rest-once.0);
        once = rest-once.1;
        known = λ h. ground (arith, v.known h, get' h, eq_iff hash h, e, candidate-not_taken);
        stored = λ h. ground (arith, v.stored h, get' h, eq_iff hash h, e, candidate-not_taken);
        grounded = λ h c' g t. v.grounded h c' (ground (arith, get' h, eq_iff hash h)) t;
      }

  candidate-new : is_known hash a.accepted ≡ false
  candidate-new = ground (arith, v.known hash, e, candidate-not_taken)

  accepted-IsConsistent :
      resolved a.context a.accepted hash c.message ≡ true
      → IsConsistent (
          mark hash c AdmissionState.accepted
            (settle hash c.message AdmissionState.accepted (record a { pending = rest })))
  unfolding mark settle
  accepted-IsConsistent r =
      let get' = λ (h : String).
        get-insert h hash (record c { state = AdmissionState.accepted }) a.received in
      record {
        queued = λ h. ground (arith, rest-queued h, get' h, eq_iff hash h, rest-once.0);
        once = rest-once.1;
        known = λ h. ground (
          arith,
          v.known h,
          get' h,
          eq_iff hash h,
          is_known-append hash a.context.thread c.message a.accepted h,
        );
        stored = λ h. ground (
          arith,
          v.stored h,
          get' h,
          eq_iff hash h,
          store_contains-append hash a.context.thread c.message a.accepted h candidate-new,
        );
        grounded = λ h c' g t.
            regrounded hash c a h c' candidate-new r (λ k. v.grounded h c' k t) (sym (get' h) ∙ g);
      }

-- What is left of a monitor that has taken `hash` off its queue, once the candidate has its state.
pub visited-IsConsistent :
    (hash : String) (rest : List String) (c : Candidate) (state : AdmissionState)
    (a : AdmissionMonitor)
    → a.pending ≡ hash ∷ rest
    → get hash a.received ≡ some c
    → (is_accepted state ≡ true → resolved a.context a.accepted hash c.message ≡ true)
    → IsConsistent a
    → IsConsistent (mark hash c state (settle hash c.message state (record a { pending = rest })))
visited-IsConsistent hash rest c AdmissionState.pending a p e r v =
    waiting-IsConsistent hash rest c a p e v
visited-IsConsistent hash rest c (AdmissionState.rejected x) a p e r v =
    rejected-IsConsistent hash rest c a p e v x
visited-IsConsistent hash rest c AdmissionState.accepted a p e r v =
    accepted-IsConsistent hash rest c a p e v (r refl)
