-- ===== src/Admission/Consistent.antt =====
-- The invariant of a monitor (crates/cbcl-core/src/admission.rs).
use cbcl_rs.Prelude.{
  Bool, List, Option, Option-cases, String, [], all, arith, contains, contains-append, eq_iff,
  eq_refl, false, get, get-insert, if◌then◌else◌, inl, inr, insert, length, none, refl, some, true,
  ◌++◌, ◌==◌, ◌∷◌, ◌≡◌,
}
use cbcl_rs.Message.{Message, CausedBy, innermost_simple}
use cbcl_rs.Store.{
  index_contains, index_lookup, index_insert, messages, ThreadedMessageStore, append,
  store_contains,
}
use cbcl_rs.Store.Valid.{is_known}
use cbcl_rs.Admission.Check.{Context, check_message}
use cbcl_rs.Admission.Monitor.{
  AdmissionState, Candidate, AdmissionMonitor, resolved, is_pending, new_candidate, receive,
  receive_as, receive_with, reference, cited_in_store, AdmissionGate,
}

abbrev pub is_waiting : Option Candidate → Bool
is_waiting none = false
is_waiting (some c) = is_pending c.state

abbrev pub is_accepted : AdmissionState → Bool
is_accepted AdmissionState.accepted = true
is_accepted _ = false

abbrev pub is_taken : Option Candidate → Bool
is_taken none = false
is_taken (some c) = is_accepted c.state

abbrev pub IsUnique : List String → Type 0
IsUnique [] = Unit
IsUnique (x ∷ xs) = (contains xs x ≡ false) × IsUnique xs

pub record IsConsistent (a : AdmissionMonitor) : Type 0 where
  -- The queue holds the pending candidates, each once.
  pub queued : (h : String) → contains a.pending h ≡ is_waiting (get h a.received)
  pub once : IsUnique a.pending
  -- The accepted history holds the accepted candidates, in the thread.
  pub known : (h : String) → is_known h a.accepted ≡ is_taken (get h a.received)
  pub stored :
      (h : String) → store_contains h (a.context.thread) a.accepted ≡ is_taken (get h a.received)
  -- Each accepted candidate is the root or has its predecessors, and the root, in the history.
  pub grounded :
      (h : String) (c : Candidate)
      → get h a.received ≡ some c
      → is_taken (some c) ≡ true
      → resolved a.context a.accepted h c.message ≡ true

pub IsUnique-append_end :
    (xs : List String) (x : String) → IsUnique xs → contains xs x ≡ false → IsUnique (xs ++ x ∷ [])
IsUnique-append_end [] x u n = (refl, tt)
IsUnique-append_end (y ∷ ys) x u n = (
  ground (arith, contains-append ys (x ∷ []) y, eq_iff x y, eq_iff y x, u.0),
  IsUnique-append_end ys x u.1 (ground arith),
)

pub store_contains-append :
    (h t : String) (m : Message) (s : ThreadedMessageStore) (h' : String)
    → is_known h s ≡ false
    → store_contains h' t (append h t m s).0 ≡ (if h == h' then true else store_contains h' t s)
unfolding append store_contains index_contains index_lookup index_insert
store_contains-append h t m s h' n =
    ground
      (arith, get-insert h' h (t, length (messages s t)) s.index.positions, eq_iff h h', eq_refl t)

all-grows :
    (f g : String → Bool)
    → ((h : String) → f h ≡ true → g h ≡ true)
    → (hs : List String) → all f hs ≡ true
    → all g hs ≡ true
all-grows f g fg [] e = refl
all-grows f g fg (h ∷ hs) e = ground (arith, fg h, all-grows f g fg hs)

cited-grows :
    (s s' : ThreadedMessageStore) (thread : String)
    → ((h : String) → store_contains h thread s ≡ true → store_contains h thread s' ≡ true)
    → (cb : Option CausedBy) → cited_in_store s thread cb ≡ true
    → cited_in_store s' thread cb ≡ true
cited-grows s s' thread grows none e = e
cited-grows s s' thread grows (some CausedBy.begin) e = e
cited-grows s s' thread grows (some (CausedBy.single h)) e = grows h e
cited-grows s s' thread grows (some (CausedBy.multiple hs)) e =
    all-grows (λ h. store_contains h thread s) (λ h. store_contains h thread s') grows hs e

pub resolved-grows :
    (c : Context) (s s' : ThreadedMessageStore) (h : String) (m : Message)
    → ((h' : String) → store_contains h' c.thread s ≡ true → store_contains h' c.thread s' ≡ true)
    → resolved c s h m ≡ true
    → resolved c s' h m ≡ true
unfolding resolved
resolved-grows c s s' h m grows e =
    ground (arith, grows c.root, cited-grows s s' c.thread grows (reference (innermost_simple m)))

-- The state after a candidate that is not in the queue was received as pending.
pub joined-IsConsistent :
    (h : String) (m : Message) (a : AdmissionMonitor)
    → get h a.received ≡ none
    → IsConsistent a
    → IsConsistent (record a {
      received = insert h (new_candidate m) a.received;
      pending = a.pending ++ h ∷ [];
    })
joined-IsConsistent h m a new v = record {
  queued = λ h'. ground (
    arith,
    v.queued h',
    contains-append a.pending (h ∷ []) h',
    get-insert h' h (new_candidate m) a.received,
    eq_iff h h',
  );
  once = IsUnique-append_end a.pending h v.once (ground (arith, v.queued h));
  known =
      λ h'. ground (arith, v.known h', get-insert h' h (new_candidate m) a.received, eq_iff h h');
  stored =
      λ h'. ground (arith, v.stored h', get-insert h' h (new_candidate m) a.received, eq_iff h h');
  grounded = λ h' c e t.
      v.grounded h' c (ground (arith, get-insert h' h (new_candidate m) a.received, eq_iff h h')) t;
}

receive_as-IsConsistent :
    (hash : String) (m : Message) (a : AdmissionMonitor)
    → IsConsistent a
    → IsConsistent (receive_as hash m a).0
unfolding receive_as
receive_as-IsConsistent hash m a v = elim (Option-cases (get hash a.received)) [
  | inr (c, e) ↦ rw (e, receive_as) v
  | inl n ↦ elim (Option-cases (check_message a.context hash m)) [
    | inr (r, e) ↦ rw (n, e, receive_as) v
    | inl e ↦ rw (n, e, receive_as) (joined-IsConsistent hash m a n v)
  ]
]

-- A receipt, whatever its outcome, keeps the invariant of a monitor: the queue holds exactly the
-- pending candidates, each once, the accepted history exactly the accepted ones, and each accepted
-- candidate is the root or has its predecessors and the root in the history.
pub receive-IsConsistent :
    (gate : AdmissionGate) (m : Message) (a : AdmissionMonitor)
    → IsConsistent a
    → IsConsistent (receive gate m a).0
unfolding receive
receive-IsConsistent gate m a v = elim (gate m) as (λ r. IsConsistent (receive_with r m a).0) [
  | inl e ↦ v
  | inr hash ↦ receive_as-IsConsistent hash m a v
]
