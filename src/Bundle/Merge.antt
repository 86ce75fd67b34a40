-- ===== src/Bundle/Merge.antt =====
-- The merge of a bundle into a store (crates/cbcl-core/src/store.rs) is a union of sets of records.
use cbcl_rs.Prelude.{
  Bool-cases, List, Option-cases, String, [], arith, contains, eq_iff, get, if◌then◌else◌, inl, inr,
  is_some, is_some-get, keys, length, none, refl, some, ◌+◌, ◌==◌, ◌||◌, ◌∷◌, ◌≡◌,
}
use cbcl_rs.Message.{Message}
use cbcl_rs.Store.{ThreadedMessageStore, append, lookup_in_thread}
use cbcl_rs.Store.Valid.{IsValid, is_known, append-IsValid}
use cbcl_rs.Store.Lookup.{lookup_in_thread-append, is_known-append, lookup_nowhere}
use cbcl_rs.Bundle.{CausalClosureBundle, MergeResult, merge_all, merge, append_all}

store-merge_all :
    (t : String) (msgs : List (String × Message)) (c : MergeResult) (s : ThreadedMessageStore)
    → (merge_all t msgs c s).1 ≡ append_all t msgs s
unfolding merge_all append_all
store-merge_all t [] c s = refl
store-merge_all t ((h, m) ∷ msgs) c s =
    store-merge_all t msgs
      (if (append h t m s).1
        then record c { added = c.added + 1 }
        else record c { deduplicated = c.deduplicated + 1 })
      (append h t m s).0

counts-merge_all :
    (t : String) (msgs : List (String × Message)) (c : MergeResult) (s : ThreadedMessageStore)
    → (merge_all t msgs c s).0.added + (merge_all t msgs c s).0.deduplicated
      ≡ c.added + c.deduplicated + length msgs
unfolding merge_all
counts-merge_all t [] c s = omega arith
counts-merge_all t ((h, m) ∷ msgs) c s = ground (
  arith,
  counts-merge_all t msgs
      (if (append h t m s).1
        then record c { added = c.added + 1 }
        else record c { deduplicated = c.deduplicated + 1 })
      (append h t m s).0,
)

append_all-IsValid :
    (t : String) (msgs : List (String × Message)) (s : ThreadedMessageStore)
    → IsValid s
    → IsValid (append_all t msgs s)
unfolding append_all
append_all-IsValid t [] s v = v
append_all-IsValid t ((h, m) ∷ msgs) s v =
    append_all-IsValid t msgs (append h t m s).0 (append-IsValid h t m s v)

is_known-append_all :
    (t : String) (msgs : List (String × Message)) (s : ThreadedMessageStore) (h : String)
    → is_known h (append_all t msgs s) ≡ (contains (keys msgs) h || is_known h s)
unfolding append_all
is_known-append_all t [] s h = refl
is_known-append_all t ((h', m) ∷ msgs) s h = ground (
  arith,
  is_known-append_all t msgs (append h' t m s).0 h,
  is_known-append h' t m s h,
  eq_iff h' h,
)

lookup_in_thread-append_all :
    (t : String) (msgs : List (String × Message)) (s : ThreadedMessageStore) (h t' : String)
    → IsValid s
    → lookup_in_thread h t' (append_all t msgs s)
      ≡ (if is_known h s then lookup_in_thread h t' s else if t == t' then get h msgs else none)
unfolding append_all get
lookup_in_thread-append_all t [] s h t' v = elim (Bool-cases (is_known h s)) [
  | inl k ↦ rw k refl
  | inr k ↦ ground (arith, lookup_nowhere h t' s k)
]
lookup_in_thread-append_all t ((h', m) ∷ msgs) s h t' v =
    rw
      (
        lookup_in_thread-append_all t msgs (append h' t m s).0 h t' (append-IsValid h' t m s v),
        is_known-append h' t m s h,
        lookup_in_thread-append h' t m s h t' v,
      )
      (elim (Bool-cases (is_known h s)) [
        | inl k ↦ ground (arith, eq_iff h' h)
        | inr k ↦ ground (arith, eq_iff h' h, lookup_nowhere h t' s k)
      ])

-- A merge keeps the store well-formed, counts each message of the bundle once, and leaves a store
-- in which a look-up finds what it found before, and at a hash that was not known the first message
-- of the bundle under it.
pub merge_lem :
    (b : CausalClosureBundle) (s : ThreadedMessageStore)
    → IsValid s
    → IsValid (merge b s).1
      × ((merge b s).0.added + (merge b s).0.deduplicated ≡ length b.messages)
      × ((h t : String)
          → lookup_in_thread h t (merge b s).1 ≡ (
              if is_known h s
              then lookup_in_thread h t s
              else if b.thread == t
              then get h b.messages
              else none))
unfolding merge
merge_lem b s v =
    let c : MergeResult = record { added = 0; deduplicated = 0 } in
    let e = store-merge_all b.thread b.messages c s in
    (
      rw e (append_all-IsValid b.thread b.messages s v),
      omega (arith, counts-merge_all b.thread b.messages c s),
      λ h t. rw e (lookup_in_thread-append_all b.thread b.messages s h t v),
    )

is_known-merge :
    (b : CausalClosureBundle) (s : ThreadedMessageStore) (h : String)
    → is_known h (merge b s).1 ≡ (is_some (get h b.messages) || is_known h s)
unfolding merge
is_known-merge b s h = rw (
  store-merge_all b.thread b.messages (record { added = 0; deduplicated = 0 }) s,
  is_known-append_all b.thread b.messages s h,
  is_some-get b.messages h,
)

-- Two bundles of one thread that agree on the hashes that they share can be merged in either order:
-- every look-up finds the same.
pub merge_comm :
    (b b' : CausalClosureBundle) (s : ThreadedMessageStore) (h t : String)
    → IsValid s
    → b.thread ≡ b'.thread
    → ((m m' : Message) → get h b.messages ≡ some m → get h b'.messages ≡ some m' → m ≡ m')
    → lookup_in_thread h t (merge b' (merge b s).1).1
      ≡ lookup_in_thread h t (merge b (merge b' s).1).1
merge_comm b b' s h t v one agree =
    rw
      (
        (merge_lem b' (merge b s).1 (merge_lem b s v).0).2 h t,
        (merge_lem b (merge b' s).1 (merge_lem b' s v).0).2 h t,
        (merge_lem b s v).2 h t,
        (merge_lem b' s v).2 h t,
        is_known-merge b s h,
        is_known-merge b' s h,
        one,
      )
      (elim (Option-cases (get h b.messages)) [
        | inl n ↦ rw n (ground arith)
        | inr (m, e) ↦ elim (Option-cases (get h b'.messages)) [
          | inl n' ↦ rw (e, n') (ground arith)
          | inr (m', e') ↦ rw (e, e', agree m m' e e') (ground arith)
        ]
      ])
