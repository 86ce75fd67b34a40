-- ===== src/Store/Valid.antt =====
-- The invariant of the message store (crates/cbcl-core/src/store.rs): the index, the threads and the
-- sets of cited hashes agree, and `append` keeps it so.
use cbcl_rs.Prelude.{
  Bool, Bool-cases, List, Option-cases, String, String-cases, [], ap, arith, contains,
  contains-set_insert, eq_iff, false, get, get-insert, get_elem?, get_elem?-append_end,
  get_elem?-append_inv, get_elem?-append_left, get_or, if◌then◌else◌, inl, inr, insert, is_some,
  length, not, refl, set_insert, some, true, ℕ, ◌++◌, ◌==◌, ◌||◌, ◌∷◌, ◌≡◌,
}
use cbcl_rs.Message.{Message, caused_by, refs}
use cbcl_rs.Store.{ThreadedMessageStore, messages, append, track, add_refs, empty_store}

-- Is the hash in the index, in whatever thread?
abbrev pub is_known : String → ThreadedMessageStore → Bool
is_known h s = is_some (get h s.index.positions)

-- Does a message of the list cite the hash?
abbrev pub cites : List (String × Message) → String → Bool
cites [] r = false
cites ((h, m) ∷ msgs) r = if contains (refs (caused_by m)) r then true else cites msgs r

abbrev pub cited_in : ThreadedMessageStore → String → List String
cited_in s thread = get_or thread [] s.referenced

pub record IsValid (s : ThreadedMessageStore) : Type 0 where
  pub indexed :
      (h t : String) (i : ℕ)
      → get h s.index.positions ≡ some (t, i)
      → (m : Message) × (get_elem? (messages s t) i ≡ some (h, m))
  pub filed :
      (t h : String) (i : ℕ) (m : Message)
      → get_elem? (messages s t) i ≡ some (h, m)
      → get h s.index.positions ≡ some (t, i)
  pub cited : (t r : String) → contains (cited_in s t) r ≡ cites (messages s t) r

module _ (h t : String) (m : Message) (s : ThreadedMessageStore) where
  -- A hash is appended exactly if it is new.
  pub append-fresh : (append h t m s).1 ≡ not (is_known h s)
  unfolding append
  append-fresh = ground arith

  pub messages-append_known :
      (t' : String) → is_known h s ≡ true → messages (append h t m s).0 t' ≡ messages s t'
  unfolding append
  messages-append_known t' k = ground (arith, get-insert t' t (messages s t) s.threads, eq_iff t t')

  pub messages-append_new :
      (t' : String)
      → is_known h s ≡ false
      → messages (append h t m s).0 t'
        ≡ (if t == t' then messages s t' ++ (h, m) ∷ [] else messages s t')
  unfolding append
  messages-append_new t' k =
      ground (arith, get-insert t' t (messages s t ++ (h, m) ∷ []) s.threads, eq_iff t t')

  pub positions-append_known :
      is_known h s ≡ true → (append h t m s).0.index.positions ≡ s.index.positions
  unfolding append
  positions-append_known k = ground arith

  pub positions-append_new :
      is_known h s ≡ false
      → (append h t m s).0.index.positions ≡ insert h (t, length (messages s t)) s.index.positions
  unfolding append
  positions-append_new k = ground arith

cited-append_known :
    (h t : String) (m : Message) (s : ThreadedMessageStore)
    → is_known h s ≡ true
    → (t' r : String) → contains (cited_in (append h t m s).0 t') r ≡ contains (cited_in s t') r
unfolding append
cited-append_known h t m s k t' r = ground arith

contains-add_refs :
    (hs set : List String) (r : String)
    → contains (add_refs hs set) r ≡ (contains hs r || contains set r)
unfolding add_refs
contains-add_refs [] set r = refl
contains-add_refs (h ∷ hs) set r =
    ground
      (arith, contains-add_refs hs (set_insert h set) r, contains-set_insert h set r, eq_iff h r)

cites-append :
    (xs : List (String × Message)) (h : String) (m : Message) (r : String)
    → cites (xs ++ (h, m) ∷ []) r ≡ (contains (refs (caused_by m)) r || cites xs r)
cites-append [] h m r = ground arith
cites-append ((h', m') ∷ xs) h m r = ground (arith, cites-append xs h m r)

module _ (h t : String) (m : Message) (s : ThreadedMessageStore) (new : is_known h s ≡ false) where
  cited-append_new :
      (t' r : String)
      → contains (cited_in (append h t m s).0 t') r ≡ (
          if t == t'
          then contains (refs (caused_by m)) r || contains (cited_in s t') r
          else contains (cited_in s t') r)
  unfolding append track refs
  cited-append_new t' r = elim (Option-cases (caused_by m)) [
    | inl e ↦ rw e (ground (arith, eq_iff t t'))
    | inr (cb, e) ↦ rw e (
        ground (
          arith,
          get-insert t' t (add_refs (refs (some cb)) (cited_in s t)) s.referenced,
          eq_iff t t',
          contains-add_refs (refs (some cb)) (cited_in s t) r,
        ))
  ]

  append_new-indexed :
      IsValid s
      → (h' t' : String) (i : ℕ) → get h' (append h t m s).0.index.positions ≡ some (t', i)
      → (m' : Message) × (get_elem? (messages (append h t m s).0 t') i ≡ some (h', m'))
  append_new-indexed v h' t' i e = elim (String-cases h h') [
    | inl q ↦ (
      m,
      ground (
        arith,
        messages-append_new h t m s t' new,
        positions-append_new h t m s new,
        get-insert h' h (t, length (messages s t)) s.index.positions,
        eq_iff h h',
        eq_iff t t',
        get_elem?-append_end (messages s t) (h, m),
      ),
    )
    | inr q ↦
        let (m', p) = v.indexed h' t' i (
          ground (
            arith,
            positions-append_new h t m s new,
            get-insert h' h (t, length (messages s t)) s.index.positions,
          )) in
        (
          m',
          ground (
            arith,
            messages-append_new h t m s t' new,
            get_elem?-append_left (messages s t') ((h, m) ∷ []) i p,
          ),
        )
  ]

  append_new-filed :
      IsValid s
      → (t' h' : String) (i : ℕ) (m' : Message)
      → get_elem? (messages (append h t m s).0 t') i ≡ some (h', m')
      → get h' (append h t m s).0.index.positions ≡ some (t', i)
  append_new-filed v t' h' i m' e = elim (String-cases t t') [
    | inl q ↦
        let p : get_elem? (messages s t' ++ (h, m) ∷ []) i ≡ some (h', m') =
          ground (arith, messages-append_new h t m s t' new, eq_iff t t') in
        elim (get_elem?-append_inv (messages s t') (h, m) i p) [
          | inl old ↦ ground (
            arith,
            positions-append_new h t m s new,
            get-insert h' h (t, length (messages s t)) s.index.positions,
            eq_iff h h',
            v.filed t' h' i m' old,
          )
          | inr (at_end, same) ↦ ground (
            arith,
            positions-append_new h t m s new,
            get-insert h' h (t, length (messages s t)) s.index.positions,
            eq_iff h h',
          )
        ]
    | inr q ↦ ground (
      arith,
      positions-append_new h t m s new,
      messages-append_new h t m s t' new,
      get-insert h' h (t, length (messages s t)) s.index.positions,
      eq_iff h h',
      v.filed t' h' i m',
    )
  ]

  append_new-cited :
      IsValid s
      → (t' r : String)
      → contains (cited_in (append h t m s).0 t') r ≡ cites (messages (append h t m s).0 t') r
  append_new-cited v t' r =
      rw (cited-append_new t' r, messages-append_new h t m s t' new)
        (ground (arith, v.cited t' r, cites-append (messages s t') h m r, eq_iff t t'))

IsValid-append_known :
    (h t : String) (m : Message) (s : ThreadedMessageStore)
    → is_known h s ≡ true
    → IsValid s
    → IsValid (append h t m s).0
IsValid-append_known h t m s k v = record {
  indexed = λ h' t' i e.
      let (m', p) = v.indexed h' t' i (ground (arith, positions-append_known h t m s k)) in
      (m', ground (arith, messages-append_known h t m s t' k));
  filed = λ t' h' i m' e. ground (
    arith,
    positions-append_known h t m s k,
    messages-append_known h t m s t' k,
    v.filed t' h' i m',
  );
  cited = λ t' r. cc (
    cited-append_known h t m s k t' r,
    v.cited t' r,
    ap (λ (l : List (String × Message)). cites l r) (messages-append_known h t m s t' k),
  );
}

-- An append, of a new or of a known hash, keeps a store well-formed: the index and the threads
-- agree, and the referenced sets hold exactly what the messages of a thread cite.
pub append-IsValid :
    (h t : String) (m : Message) (s : ThreadedMessageStore) → IsValid s → IsValid (append h t m s).0
append-IsValid h t m s v = elim (Bool-cases (is_known h s)) [
  | inl k ↦ IsValid-append_known h t m s k v
  | inr new ↦ record {
    indexed = append_new-indexed h t m s new v;
    filed = append_new-filed h t m s new v;
    cited = append_new-cited h t m s new v;
  }
]

-- The new store is well-formed.
pub empty_store-IsValid : IsValid empty_store
unfolding get
empty_store-IsValid = record {
  indexed = λ h t i e. cc e;
  filed = λ t h i m e. cc e;
  cited = λ t r. refl;
}
