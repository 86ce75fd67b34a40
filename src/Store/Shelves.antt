-- ===== src/Store/Shelves.antt =====
-- The shelves of redacted and opened envelopes (`append_envelope` and `append_opened` of
-- crates/cbcl-core/src/store.rs). The verification of an envelope against a signer (envelope.rs) is
-- an argument, which gives the error of an envelope that it refuses.
use cbcl_rs.Prelude.{
  Bool, Option, String, arith, eq_iff, false, get, get-insert, if◌then◌else◌, inl, inr, insert,
  is_some, none, not, some, true, ◌&&◌, ◌==◌, ◌≡◌, ◌⊎◌,
}
use cbcl_rs.Envelope.{RedactedEnvelope, OpenedEnvelope, FieldId, opened_thread}
use cbcl_rs.Store.{ThreadedMessageStore, envelope_in_thread, opened_in_thread, is_text}

unfoldable pub append_envelope :
    {E : Type 0}
    → (RedactedEnvelope → Option E)
    → RedactedEnvelope
    → ThreadedMessageStore
    → ThreadedMessageStore × (E ⊎ Bool)
append_envelope verify e s = elim (verify e) [
  | some err ↦ (s, inl err)
  | none ↦ elim (get (e.header.content_hash) s.envelopes) [
    | none ↦ (record s { envelopes = insert (e.header.content_hash) e s.envelopes }, inr true)
    | some _ ↦ (s, inr false)
  ]
]

-- `missing_field` makes the error for an envelope that does not open its thread.
unfoldable pub append_opened :
    {E : Type 0}
    → (OpenedEnvelope → Option E)
    → (FieldId → E)
    → OpenedEnvelope
    → ThreadedMessageStore
    → ThreadedMessageStore × (E ⊎ Bool)
append_opened verify missing_field e s = elim (verify e) [
  | some err ↦ (s, inl err)
  | none ↦ elim (opened_thread e) [
    | none ↦ (s, inl (missing_field FieldId.thread))
    | some _ ↦ elim (get e.root s.opened) [
      | none ↦ (record s { opened = insert e.root e s.opened }, inr true)
      | some _ ↦ (s, inr false)
    ]
  ]
]

-- A redacted envelope is found exactly under its own content hash in the thread of its header, if
-- it was verified and no envelope stood under the hash; every other look-up is as before.
pub envelope_in_thread-append_envelope :
    {E : Type 0} (verify : RedactedEnvelope → Option E) (e : RedactedEnvelope)
    (s : ThreadedMessageStore) (h t : String)
    → envelope_in_thread h t (append_envelope verify e s).0 ≡ (
        if not (is_some (verify e))
          && not (is_some (get (e.header.content_hash) s.envelopes))
          && e.header.content_hash == h
        then (if e.header.thread == t then some e else none)
        else envelope_in_thread h t s)
unfolding append_envelope envelope_in_thread
envelope_in_thread-append_envelope verify e s h t =
    ground
      (arith, get-insert h (e.header.content_hash) e s.envelopes, eq_iff (e.header.content_hash) h)

-- An opened envelope is found exactly under its own root in the thread that it opens, if it was
-- verified, opens its thread and no envelope stood under the root; every other look-up is as
-- before.
pub opened_in_thread-append_opened :
    {E : Type 0} (verify : OpenedEnvelope → Option E) (missing_field : FieldId → E)
    (e : OpenedEnvelope) (s : ThreadedMessageStore) (h t : String)
    → opened_in_thread h t (append_opened verify missing_field e s).0 ≡ (
        if not (is_some (verify e))
          && is_some (opened_thread e)
          && not (is_some (get e.root s.opened))
          && e.root == h
        then (if is_text (opened_thread e) t then some e else none)
        else opened_in_thread h t s)
unfolding append_opened opened_in_thread
opened_in_thread-append_opened verify missing_field e s h t =
    ground (arith, get-insert h e.root e s.opened, eq_iff e.root h)
