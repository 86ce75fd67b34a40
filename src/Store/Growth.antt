-- ===== src/Store/Growth.antt =====
-- A verdict over the message store is permanent when the store grows (crates/cbcl-core/src/store.rs
-- with protocol.rs).
use cbcl_rs.Prelude.{
  Bool-cases, String, arith, eq_iff, false, inl, inr, not, refl, some, ◌&&◌, ◌==◌, ◌∙◌, ◌≡◌,
}
use cbcl_rs.Message.{Message}
use cbcl_rs.Verify.{predecessor_type, message_type}
use cbcl_rs.Verify.Monotone.{Grows}
use cbcl_rs.Store.{
  ThreadedMessageStore, append, lookup_in_thread, envelope_in_thread, opened_in_thread,
  as_message_store,
}
use cbcl_rs.Store.Valid.{is_known, IsValid}
use cbcl_rs.Store.Lookup.{lookup_in_thread-append}

-- Envelopes that the store has on its shelves for a hash have the type of the message that is
-- appended under it: they name the same content root.
abbrev pub Coherent : String → String → Message → ThreadedMessageStore → Type 0
Coherent h t m s =
    (p : String)
    → is_known h s ≡ false
    → predecessor_type (as_message_store s) h t ≡ some p
    → p ≡ message_type m

shelves-append :
    (h t : String) (m : Message) (s : ThreadedMessageStore) (h' t' : String)
    → (envelope_in_thread h' t' (append h t m s).0 ≡ envelope_in_thread h' t' s)
      × (opened_in_thread h' t' (append h t m s).0 ≡ opened_in_thread h' t' s)
unfolding append envelope_in_thread opened_in_thread
shelves-append h t m s h' t' = ground arith

predecessor_type-full :
    (s : ThreadedMessageStore) (h t : String) {m : Message}
    → lookup_in_thread h t s ≡ some m
    → predecessor_type (as_message_store s) h t ≡ some (message_type m)
unfolding predecessor_type as_message_store
predecessor_type-full s h t e = ground arith

predecessor_type-same :
    (s s' : ThreadedMessageStore) (h t : String)
    → lookup_in_thread h t s' ≡ lookup_in_thread h t s
    → envelope_in_thread h t s' ≡ envelope_in_thread h t s
    → opened_in_thread h t s' ≡ opened_in_thread h t s
    → predecessor_type (as_message_store s') h t ≡ predecessor_type (as_message_store s) h t
unfolding predecessor_type as_message_store
predecessor_type-same s s' h t e f g = ground arith

-- Every predecessor that resolves before an append resolves to the same type after it.
pub append-Grows :
    (h t : String) (m : Message) (s : ThreadedMessageStore) (thread : String)
    → IsValid s
    → Coherent h t m s
    → Grows (as_message_store s) (as_message_store (append h t m s).0) thread
append-Grows h t m s thread v c h' p e =
    elim (Bool-cases (not (is_known h s) && (h == h' && t == thread))) [
      | inl b ↦
          let same_hash : h ≡ h' = ground (arith, eq_iff h h') in
          let same_thread : t ≡ thread = ground (arith, eq_iff t thread) in
          let typed : p ≡ message_type m = c p (ground arith) (rw (same_hash, same_thread) e) in
          rw typed (
            predecessor_type-full (append h t m s).0 h' thread
              (lookup_in_thread-append h t m s h' thread v ∙ rw b refl))
      | inr b ↦
          predecessor_type-same s (append h t m s).0 h' thread
            (lookup_in_thread-append h t m s h' thread v ∙ rw b refl)
            (shelves-append h t m s h' thread).0 (shelves-append h t m s h' thread).1
          ∙ e
    ]
