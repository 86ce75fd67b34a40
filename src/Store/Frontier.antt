-- ===== src/Store/Frontier.antt =====
-- The frontier of a thread (crates/cbcl-core/src/store.rs).
use cbcl_rs.Prelude.{
  Bool, List, Option-cases, String, String-cases, [], arith, contains, eq_iff, false, get,
  if◌then◌else◌, inl, inr, not, refl, retain, true, ◌&&◌, ◌==◌, ◌∷◌, ◌≡◌,
}
use cbcl_rs.Message.{Message}
use cbcl_rs.Store.{ThreadedMessageStore, messages, hashes, frontier}
use cbcl_rs.Store.Valid.{IsValid, cites, cited_in}

-- Does the list hold a message under the hash?
abbrev pub holds : List (String × Message) → String → Bool
holds [] r = false
holds ((h, m) ∷ msgs) r = if h == r then true else holds msgs r

contains-hashes :
    (msgs : List (String × Message)) (keep : String → Bool) (r : String)
    → contains (retain keep (hashes msgs)) r ≡ (holds msgs r && keep r)
unfolding hashes
contains-hashes [] keep r = refl
contains-hashes ((h, m) ∷ msgs) keep r = elim (String-cases h r) [
  | inl e ↦ rw e (ground (arith, contains-hashes msgs keep r, eq_iff r r))
  | inr e ↦ ground (arith, contains-hashes msgs keep r)
]

-- In a well-formed store the frontier of a thread has exactly the hashes of its messages that no
-- message of the thread cites, where a message cites what its own caused_by names.
pub contains-frontier :
    (t r : String) (s : ThreadedMessageStore)
    → IsValid s
    → contains (frontier t s) r ≡ (holds (messages s t) r && not (cites (messages s t) r))
unfolding frontier
contains-frontier t r s v = elim (Option-cases (get t s.threads)) [
  | inl e ↦ ground arith
  | inr (msgs, e) ↦
      ground (arith, v.cited t r, contains-hashes msgs (λ h. not (contains (cited_in s t) h)) r)
]
