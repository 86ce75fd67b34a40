-- ===== src/Admission/Receive.antt =====
-- Receiving a message twice (crates/cbcl-core/src/admission.rs).
use cbcl_rs.Prelude.{
  Option-cases, String, [], ap, arith, eq_refl, get, get-insert, inl, inr, insert, none, refl, some,
  sym, ◌++◌, ◌∙◌, ◌∷◌, ◌≡◌, ◌⊎◌,
}
use cbcl_rs.Message.{Message}
use cbcl_rs.Message.Equal.{same_message_refl}
use cbcl_rs.Admission.Check.{AdmissionError, check_message}
use cbcl_rs.Admission.Monitor.{
  AdmissionGate, AdmissionMonitor, new_candidate, receive, receive_as, receive_with,
}

receive_as-known :
    (hash : String) (m : Message) (a : AdmissionMonitor)
    → get hash a.received ≡ some (new_candidate m)
    → receive_as hash m a ≡ (a, inr hash)
unfolding receive_as
receive_as-known hash m a e = rw (e, receive_as, same_message_refl m) refl

abbrev joined : String → Message → AdmissionMonitor → AdmissionMonitor
joined hash m a = record a {
  received = insert hash (new_candidate m) a.received;
  pending = a.pending ++ hash ∷ [];
}

receive_as-new :
    (hash : String) (m : Message) (a : AdmissionMonitor)
    → get hash a.received ≡ none
    → check_message a.context hash m ≡ none
    → receive_as hash m a ≡ (joined hash m a, inr hash)
unfolding receive_as
receive_as-new hash m a n e = rw (n, e, receive_as) refl

receive_as_idem :
    (hash : String) (m : Message) (a : AdmissionMonitor)
    → receive_as hash m (receive_as hash m a).0 ≡ receive_as hash m a
unfolding receive_as
receive_as_idem hash m a = elim (Option-cases (get hash a.received)) [
  | inr (c, e) ↦ ap (receive_as hash m) (rw (e, receive_as) refl)
  | inl n ↦ elim (Option-cases (check_message a.context hash m)) [
    | inr (r, e) ↦ ap (receive_as hash m) (rw (n, e, receive_as) refl)
    | inl e ↦
        let new = receive_as-new hash m a n e in
        ap (λ (r : AdmissionMonitor × (AdmissionError ⊎ String)). receive_as hash m r.0) new
        ∙ receive_as-known hash m (joined hash m a)
            (ground (arith, get-insert hash hash (new_candidate m) a.received, eq_refl hash))
        ∙ sym new
  ]
]

-- A message received again, right after its first receipt, has the same result and changes nothing:
-- neither its place in the queue nor an error.
pub receive_idem :
    (gate : AdmissionGate) (m : Message) (a : AdmissionMonitor)
    → receive gate m (receive gate m a).0 ≡ receive gate m a
unfolding receive receive_with
receive_idem gate m a =
    elim (gate m) as (λ r. receive_with r m (receive_with r m a).0 ≡ receive_with r m a) [
      | inl e ↦ refl
      | inr hash ↦ receive_as_idem hash m a
    ]
