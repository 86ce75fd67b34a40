-- ===== src/Store.antt =====
-- The message store (crates/cbcl-core/src/store.rs). A content hash and a thread identifier are the
-- texts that they wrap. A vector is the list of its items; the stack of a search has its top first.
pub mod Valid
pub mod Lookup
pub mod Frontier
pub mod Closure
pub mod Growth
pub mod Shelves
pub mod Refinement
mod Tests
use cbcl_rs.Prelude.{
  Bool, List, Map, Option, String, [], contains, false, get, get_elem?, get_or, if◌then◌else◌,
  insert, is_some, length, none, not, retain, set_insert, some, suc, true, zero, ℕ, ◌++◌, ◌==◌, ◌∷◌,
}
use cbcl_rs.Message.{Message, CausedBy, caused_by, refs}
use cbcl_rs.Envelope.{RedactedEnvelope, OpenedEnvelope, opened_thread}
use cbcl_rs.Verify.{MessageStore}

pub record HashIndex : Type 0 where
  pub positions : Map (String × ℕ)

unfoldable pub index_insert : String → String → ℕ → HashIndex → HashIndex × Bool
index_insert hash thread i index = elim (get hash index.positions) [
  | none ↦ (record { positions = insert hash (thread, i) index.positions }, true)
  | some e ↦ (index, false)
]

unfoldable pub index_lookup : String → String → HashIndex → Option ℕ
index_lookup hash thread index = elim (get hash index.positions) [
  | none ↦ none
  | some (t, i) ↦ if t == thread then some i else none
]

unfoldable pub index_contains : String → String → HashIndex → Bool
unfolding index_lookup
index_contains hash thread index = is_some (index_lookup hash thread index)

insert_all : List (String × String × ℕ) → HashIndex → HashIndex
unfolding index_insert
insert_all [] index = index
insert_all ((hash, thread, i) ∷ rest) index = insert_all rest (index_insert hash thread i index).0

-- The old entries are dropped; of two triples with one hash the first is kept.
unfoldable pub rebuild : List (String × String × ℕ) → HashIndex → HashIndex
unfolding insert_all
rebuild triples index = insert_all triples (record { positions = [] })

pub record ThreadedMessageStore : Type 0 where
  pub threads : Map (List (String × Message))
  pub index : HashIndex
  pub referenced : Map (List String)
  pub envelopes : Map RedactedEnvelope
  pub opened : Map OpenedEnvelope

abbrev pub empty_store : ThreadedMessageStore
empty_store = record {
  threads = [];
  index = record { positions = [] };
  referenced = [];
  envelopes = [];
  opened = [];
}

abbrev pub messages : ThreadedMessageStore → String → List (String × Message)
messages s thread = get_or thread [] s.threads

abbrev message_at : ℕ → List (String × Message) → Option Message
message_at i msgs = elim (get_elem? msgs i) [ none ↦ none | some (h, m) ↦ some m ]

unfoldable pub lookup : String → ThreadedMessageStore → Option Message
lookup hash s = elim (get hash s.index.positions) [
  | none ↦ none
  | some (thread, i) ↦ message_at i (messages s thread)
]

unfoldable pub lookup_in_thread : String → String → ThreadedMessageStore → Option Message
unfolding index_lookup
lookup_in_thread hash thread s = elim (index_lookup hash thread s.index) [
  | none ↦ none
  | some i ↦ message_at i (messages s thread)
]

unfoldable pub store_contains : String → String → ThreadedMessageStore → Bool
unfolding index_contains
store_contains hash thread s = index_contains hash thread s.index

unfoldable pub add_refs : List String → List String → List String
add_refs [] set = set
add_refs (h ∷ hs) set = add_refs hs (set_insert h set)

-- A causal reference, also `begin`, makes the set of its thread; a message without one does not.
unfoldable pub track : String → Option CausedBy → Map (List String) → Map (List String)
unfolding add_refs refs
track thread none referenced = referenced
track thread (some cb) referenced =
    insert thread (add_refs (refs (some cb)) (get_or thread [] referenced)) referenced

-- The thread gets its empty vector also where the hash is a duplicate.
unfoldable pub append :
    String → String → Message → ThreadedMessageStore → ThreadedMessageStore × Bool
unfolding index_insert track caused_by
append hash thread message s =
    let thread_msgs = messages s thread in
    let (index', fresh) = index_insert hash thread (length thread_msgs) s.index in
    if fresh
    then (
      record s {
        threads = insert thread (thread_msgs ++ (hash, message) ∷ []) s.threads;
        index = index';
        referenced = track thread (caused_by message) s.referenced;
      },
      true,
    )
    else (record s { threads = insert thread thread_msgs s.threads }, false)

hashes : List (String × Message) → List String
hashes [] = []
hashes ((h, m) ∷ msgs) = h ∷ hashes msgs

unfoldable pub frontier : String → ThreadedMessageStore → List String
unfolding hashes
frontier thread s = elim (get thread s.threads) [
  | none ↦ []
  | some msgs ↦ retain (λ h. not (contains (get_or thread [] s.referenced) h)) (hashes msgs)
]

-- The references that are not visited go on the stack.
unfoldable pub push_refs : List String → List String → List String → List String
push_refs visited [] stack = stack
push_refs visited (h ∷ hs) stack =
    push_refs visited hs (if contains visited h then stack else h ∷ stack)

abbrev links_of : Option Message → List String
links_of none = []
links_of (some m) = refs (caused_by m)

unfoldable pub links : ThreadedMessageStore → String → String → List String
unfolding lookup_in_thread refs caused_by
links s thread hash = links_of (lookup_in_thread hash thread s)

-- The loop over the stack; `none` means that the fuel ran out.
unfoldable pub closure_loop :
    ℕ
    → ThreadedMessageStore
    → String
    → List String
    → List String
    → List String
    → Option (List String)
unfolding push_refs links
closure_loop zero s thread visited stack result = none
closure_loop (suc fuel) s thread visited [] result = some result
closure_loop (suc fuel) s thread visited (current ∷ stack) result =
    let again = closure_loop fuel s thread visited stack result in
    let visited' = set_insert current visited in
    let onward =
      closure_loop fuel s thread visited' (push_refs visited' (links s thread current) stack)
        (result ++ current ∷ []) in
    if contains visited current then again else onward

unfoldable pub causal_closure : ℕ → String → String → ThreadedMessageStore → Option (List String)
unfolding closure_loop store_contains
causal_closure fuel hash thread s =
    closure_loop fuel s thread [] (if store_contains hash thread s then hash ∷ [] else []) []

unfoldable pub envelope_in_thread : String → String → ThreadedMessageStore → Option RedactedEnvelope
envelope_in_thread hash thread s = elim (get hash s.envelopes) [
  | none ↦ none
  | some e ↦ if e.header.thread == thread then some e else none
]

abbrev pub is_text : Option String → String → Bool
is_text none t = false
is_text (some s) t = s == t

unfoldable pub opened_in_thread : String → String → ThreadedMessageStore → Option OpenedEnvelope
unfolding opened_thread
opened_in_thread hash thread s = elim (get hash s.opened) [
  | none ↦ none
  | some e ↦ if is_text (opened_thread e) thread then some e else none
]

-- The store as a verifier reads it.
unfoldable pub as_message_store : ThreadedMessageStore → MessageStore
as_message_store s = record {
  lookup_in_thread = λ h t. lookup_in_thread h t s;
  envelope_in_thread = λ h t. envelope_in_thread h t s;
  opened_in_thread = λ h t. opened_in_thread h t s;
}
