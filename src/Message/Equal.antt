-- ===== src/Message/Equal.antt =====
-- The derived equality of messages and their parts (crates/cbcl-core/src/message.rs, sexpr.rs).
use cbcl_rs.Prelude.{Bool, Bool-cases, String, eq_iff, false, inl, inr, refl, true, ◌==◌, ◌≡◌}
use native.Mathlib.Decide.{ℕ_discrete}
use mathlib.Core.HLevel.{Discrete}
use cbcl_rs.Message.{Message}

unfoldable pub String-discrete : Discrete String
String-discrete a b = elim (Bool-cases (a == b)) [
  | inl e ↦ yes ((eq_iff a b).0 e)
  | inr n ↦ no (λ p. cc (n, (eq_iff a b).1 p))
]

-- The equality of messages is decided on their structure.
unfoldable pub Message-discrete : Discrete Message
Message-discrete = hlevel (ℕ_discrete, String-discrete)

abbrev decided : {A : Type 0} → Dec A → Bool
decided (yes p) = true
decided (no n) = false

unfoldable pub same_message : Message → Message → Bool
same_message a b = decided (Message-discrete a b)

pub same_message_refl : (m : Message) → same_message m m ≡ true
unfolding same_message
same_message_refl m = elim (Message-discrete m m) as (λ d. decided d ≡ true) [
  | yes p ↦ refl
  | no n ↦ absurd (n refl)
]

pub same_message→eq : (a b : Message) → same_message a b ≡ true → a ≡ b
unfolding same_message
same_message→eq a b = elim (Message-discrete a b) as (λ d. decided d ≡ true → a ≡ b) [
  | yes p ↦ λ e. p
  | no n ↦ λ e. cc e
]
