-- ===== src/Store/Lookup.antt =====
-- What a look-up finds after appends (crates/cbcl-core/src/store.rs): the store grows as a set of
-- records, whatever the order of the appends.
use cbcl_rs.Prelude.{
  Bool-cases, Option-cases, String, String-cases, [], arith, eq_iff, false, get, get-insert,
  get_elem?, get_elem?-append_end, get_elem?-append_left, if◌then◌else◌, inl, inr, length, none,
  not, some, true, ℕ, ◌&&◌, ◌==◌, ◌||◌, ◌∷◌, ◌≡◌,
}
use cbcl_rs.Message.{Message}
use cbcl_rs.Store.{ThreadedMessageStore, messages, append, lookup_in_thread}
use cbcl_rs.Store.Valid.{
  is_known, IsValid, append-IsValid, messages-append_known, messages-append_new,
  positions-append_known, positions-append_new,
}

-- A look-up at a position that the index holds.
lookup_at :
    (h t : String) (s : ThreadedMessageStore) (i : ℕ) (m : Message)
    → get h s.index.positions ≡ some (t, i)
    → get_elem? (messages s t) i ≡ some (h, m)
    → lookup_in_thread h t s ≡ some m
unfolding lookup_in_thread
lookup_at h t s i m e p = ground (arith, eq_iff t t)

lookup_elsewhere :
    (h t t' : String) (s : ThreadedMessageStore) {i : ℕ}
    → get h s.index.positions ≡ some (t', i)
    → (t' == t) ≡ false
    → lookup_in_thread h t s ≡ none
unfolding lookup_in_thread
lookup_elsewhere h t t' s e p = ground arith

pub lookup_nowhere :
    (h t : String) (s : ThreadedMessageStore) → is_known h s ≡ false → lookup_in_thread h t s ≡ none
unfolding lookup_in_thread
lookup_nowhere h t s e = ground arith

-- What a look-up finds stands in the thread, under the hash.
pub lookup_in_thread-found :
    (h t : String) (s : ThreadedMessageStore) (m : Message)
    → IsValid s
    → lookup_in_thread h t s ≡ some m
    → (i : ℕ) × (get_elem? (messages s t) i ≡ some (h, m))
lookup_in_thread-found h t s m v e = elim (Option-cases (get h s.index.positions)) [
  | inl n ↦ cc (e, lookup_nowhere h t s (ground arith))
  | inr ((t', i), at) ↦ elim (String-cases t' t) [
    | inl q ↦
        let (m', p) = v.indexed h t i (ground arith) in
        (i, ground (arith, lookup_at h t s i m' (ground arith) p))
    | inr q ↦ cc (e, lookup_elsewhere h t t' s {i = i} at q)
  ]
]

module _ (h t : String) (m : Message) (s : ThreadedMessageStore) where
  lookup_in_thread-append_known :
      (h' t' : String)
      → is_known h s ≡ true
      → lookup_in_thread h' t' (append h t m s).0 ≡ lookup_in_thread h' t' s
  unfolding lookup_in_thread
  lookup_in_thread-append_known h' t' k =
      ground (arith, positions-append_known h t m s k, messages-append_known h t m s t' k)

  lookup_in_thread-append_self :
      is_known h s ≡ false → lookup_in_thread h t (append h t m s).0 ≡ some m
  lookup_in_thread-append_self k =
      lookup_at h t (append h t m s).0 (length (messages s t)) m
        (ground (
          arith,
          positions-append_new h t m s k,
          get-insert h h (t, length (messages s t)) s.index.positions,
          eq_iff h h,
        ))
        (ground (
          arith,
          messages-append_new h t m s t k,
          eq_iff t t,
          get_elem?-append_end (messages s t) (h, m),
        ))

  lookup_in_thread-append_ne :
      (h' t' : String)
      → IsValid s
      → is_known h s ≡ false
      → (h == h') ≡ false
      → lookup_in_thread h' t' (append h t m s).0 ≡ lookup_in_thread h' t' s
  lookup_in_thread-append_ne h' t' v k n = elim (Option-cases (get h' s.index.positions)) [
    | inl e ↦
        rw (lookup_nowhere h' t' s (ground arith))
          (lookup_nowhere h' t' (append h t m s).0 (ground (arith, same_position)))
    | inr ((t'', i), e) ↦ elim (String-cases t'' t') [
      | inl q ↦
          let (m', p) = v.indexed h' t' i (ground arith) in
          rw (lookup_at h' t' s i m' (ground arith) p) (
            lookup_at h' t' (append h t m s).0 i m' (ground (arith, same_position)) (
              ground (
                arith,
                messages-append_new h t m s t' k,
                get_elem?-append_left (messages s t') ((h, m) ∷ []) i p,
              )))
      | inr q ↦
          rw (lookup_elsewhere h' t' t'' s e q)
            (lookup_elsewhere h' t' t'' (append h t m s).0 {i = i} (cc (same_position, e)) q)
    ]
  ]
    where
      same_position : get h' (append h t m s).0.index.positions ≡ get h' s.index.positions
      same_position = ground (
        arith,
        positions-append_new h t m s k,
        get-insert h' h (t, length (messages s t)) s.index.positions,
      )

  -- After an append to a well-formed store exactly the new hash in its thread is found anew; a
  -- known hash changes no look-up at all.
  pub lookup_in_thread-append :
      (h' t' : String)
      → IsValid s
      → lookup_in_thread h' t' (append h t m s).0
        ≡ (if not (is_known h s) && (h == h' && t == t') then some m else lookup_in_thread h' t' s)
  lookup_in_thread-append h' t' v = elim (Bool-cases (is_known h s)) [
    | inl k ↦ rw k (lookup_in_thread-append_known h' t' k)
    | inr k ↦ elim (String-cases h h') [
      | inl p ↦ elim (String-cases t t') [
        | inl q ↦ ground (arith, lookup_in_thread-append_self k, eq_iff h h', eq_iff t t')
        | inr q ↦
            let at : get h' (append h t m s).0.index.positions ≡ some (t, length (messages s t)) =
              ground (
                arith,
                positions-append_new h t m s k,
                get-insert h' h (t, length (messages s t)) s.index.positions,
                eq_iff h h',
              ) in
            ground (
              arith,
              lookup_elsewhere h' t' t (append h t m s).0 at q,
              lookup_nowhere h' t' s (ground arith),
            )
      ]
      | inr p ↦ ground (arith, lookup_in_thread-append_ne h' t' v k p)
    ]
  ]

pub is_known-append :
    (h t : String) (m : Message) (s : ThreadedMessageStore) (h' : String)
    → is_known h' (append h t m s).0 ≡ (h == h' || is_known h' s)
unfolding append
is_known-append h t m s h' =
    ground (arith, get-insert h' h (t, length (messages s t)) s.index.positions, eq_iff h h')

-- Two appends to a well-formed store in either order give the same look-ups, provided that one hash
-- names one message of one thread.
pub append_comm :
    (h₁ t₁ : String) (m₁ : Message) (h₂ t₂ : String) (m₂ : Message) (s : ThreadedMessageStore)
    (h t : String)
    → IsValid s
    → (h₁ ≡ h₂ → (t₁ ≡ t₂) × (m₁ ≡ m₂))
    → lookup_in_thread h t (append h₂ t₂ m₂ (append h₁ t₁ m₁ s).0).0
      ≡ lookup_in_thread h t (append h₁ t₁ m₁ (append h₂ t₂ m₂ s).0).0
append_comm h₁ t₁ m₁ h₂ t₂ m₂ s h t v one =
    rw
      (
        lookup_in_thread-append h₂ t₂ m₂ (append h₁ t₁ m₁ s).0 h t (append-IsValid h₁ t₁ m₁ s v),
        lookup_in_thread-append h₁ t₁ m₁ (append h₂ t₂ m₂ s).0 h t (append-IsValid h₂ t₂ m₂ s v),
        lookup_in_thread-append h₁ t₁ m₁ s h t v,
        lookup_in_thread-append h₂ t₂ m₂ s h t v,
        is_known-append h₁ t₁ m₁ s h₂,
        is_known-append h₂ t₂ m₂ s h₁,
      )
      (elim (String-cases h₁ h₂) [
        | inl e ↦
            let (same_thread, same_message) = one e in
            ground (arith, eq_iff h₁ h₂, eq_iff h₂ h₁, eq_iff h₁ h, eq_iff h₂ h)
        | inr e ↦ ground (arith, eq_iff h₁ h₂, eq_iff h₂ h₁, eq_iff h₁ h, eq_iff h₂ h)
      ])
