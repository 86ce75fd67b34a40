-- ===== src/Store/Refinement.antt =====
-- The message store (crates/cbcl-core/src/store.rs) against a specification: a table that takes a
-- hash once and never changes what it has.
use cbcl_rs.Prelude.{
  Bool, List, Option, String, [], ap, arith, eq_iff, get, if◌then◌else◌, is_some, none, not, refl,
  some, sym, ◌&&◌, ◌==◌, ◌||◌, ◌∙◌, ◌∷◌, ◌≡◌,
}
use cbcl_rs.Message.{Message}
use cbcl_rs.Store.{ThreadedMessageStore, append, lookup_in_thread, empty_store}
use cbcl_rs.Store.Valid.{is_known, IsValid, append-IsValid, append-fresh, empty_store-IsValid}
use cbcl_rs.Store.Lookup.{lookup_in_thread-append, is_known-append}

-- What the table has under a hash: a thread and a message.
abbrev pub Table : Type 0
Table = String → Option (String × Message)

abbrev pub no_table : Table
no_table h = none

-- A table with one hash more, if the hash is new.
abbrev pub put : String → String → Message → Table → Table
put h t m table h' = elim (table h') [
  | some e ↦ some e
  | none ↦ if h == h' then some (t, m) else none
]

abbrev pub in_thread : String → Option (String × Message) → Option Message
in_thread t none = none
in_thread t (some (t', m)) = if t' == t then some m else none

-- The answers of a sequence of appends, and the store after it.
abbrev pub append_each :
    List (String × String × Message) → ThreadedMessageStore → ThreadedMessageStore × List Bool
append_each [] s = (s, [])
append_each ((h, t, m) ∷ ops) s =
    let (s', fresh) = append h t m s in
    let (end, answers) = append_each ops s' in (end, fresh ∷ answers)

abbrev pub put_each : List (String × String × Message) → Table → Table × List Bool
put_each [] table = (table, [])
put_each ((h, t, m) ∷ ops) table =
    let (end, answers) = put_each ops (put h t m table) in (end, not (is_some (table h)) ∷ answers)

-- The store answers as the table does.
pub record Refines (s : ThreadedMessageStore) (table : Table) : Type 0 where
  pub valid : IsValid s
  pub known : (h : String) → is_known h s ≡ is_some (table h)
  pub found : (h t : String) → lookup_in_thread h t s ≡ in_thread t (table h)

put_known :
    (h t : String) (m : Message) (table : Table) (h' : String)
    → is_some (put h t m table h') ≡ (h == h' || is_some (table h'))
put_known h t m table h' = ground arith

answer_put :
    (h t : String) (m : Message) (h' t' : String) (at_h at_h' : Option (String × Message))
    → (h ≡ h' → at_h ≡ at_h')
    → in_thread t' (elim at_h' [ some e ↦ some e | none ↦ if h == h' then some (t, m) else none ])
      ≡ (if not (is_some at_h) && (h == h' && t == t') then some m else in_thread t' at_h')
answer_put h t m h' t' none none e = ground arith
answer_put h t m h' t' none (some (t'', n)) e = ground (arith, eq_iff h h')
answer_put h t m h' t' (some x) none e = ground (arith, eq_iff h h')
answer_put h t m h' t' (some x) (some (t'', n)) e = refl

append-Refines :
    (h t : String) (m : Message) (s : ThreadedMessageStore) (table : Table)
    → Refines s table
    → Refines (append h t m s).0 (put h t m table)
append-Refines h t m s table r = record {
  valid = append-IsValid h t m s r.valid;
  known = λ h'.
      is_known-append h t m s h'
      ∙ ap (λ (b : Bool). h == h' || b) (r.known h')
      ∙ sym (put_known h t m table h');
  found = λ h' t'.
      lookup_in_thread-append h t m s h' t' r.valid
      ∙ ap
          (λ (b : Bool). if not b && (h == h' && t == t') then some m else lookup_in_thread h' t' s)
          (r.known h)
      ∙ ap
          (λ (o : Option Message).
            if not (is_some (table h)) && (h == h' && t == t') then some m else o)
          (r.found h' t')
      ∙ sym (answer_put h t m h' t' (table h) (table h') (λ p. ap table p));
}

empty-Refines : Refines empty_store no_table
unfolding lookup_in_thread get
empty-Refines = record { valid = empty_store-IsValid; known = λ h. refl; found = λ h t. refl }

append_each-Refines :
    (ops : List (String × String × Message)) (s : ThreadedMessageStore) (table : Table)
    → Refines s table
    → Refines (append_each ops s).0 (put_each ops table).0
      × ((append_each ops s).1 ≡ (put_each ops table).1)
append_each-Refines [] s table r = (r, refl)
append_each-Refines ((h, t, m) ∷ ops) s table r =
    let (r', answers) =
      append_each-Refines ops (append h t m s).0 (put h t m table)
        (append-Refines h t m s table r) in
    (r', cc (answers, append-fresh h t m s, r.known h))

-- From the empty store on, any sequence of appends answers each append, and then any look-up of a
-- hash in a thread, as a table does that takes a hash once, with its thread and message, and never
-- changes what it has.
pub append_each-put_each :
    (ops : List (String × String × Message)) (h t : String)
    → ((append_each ops empty_store).1 ≡ (put_each ops no_table).1)
      × (lookup_in_thread h t (append_each ops empty_store).0
          ≡ in_thread t ((put_each ops no_table).0 h))
append_each-put_each ops h t =
    let (r, answers) = append_each-Refines ops empty_store no_table empty-Refines in
    (answers, r.found h t)
