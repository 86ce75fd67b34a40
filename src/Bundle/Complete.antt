-- ===== src/Bundle/Complete.antt =====
-- What an accepted bundle satisfies (crates/cbcl-core/src/store.rs).
use cbcl_rs.Prelude.{
  List, Option, String, [], ap, arith, contains, eq_iff, is_empty, keys, none, refl, some, true,
  ◌&&◌, ◌++◌, ◌↔◌, ◌∷◌, ◌≡◌,
}
use cbcl_rs.Message.{Message, caused_by, refs}
use cbcl_rs.Protocol.{CausalProtocol}
use cbcl_rs.Verify.{RepeatVerify}
use cbcl_rs.Store.{empty_store}
use cbcl_rs.Bundle.{
  mismatches, all_dangling, append_all, causal_errors, CausalClosureBundle, BundleVerificationError,
  ok, to_checked, dangling, all_dangling, mismatches, verify_completeness, verify_hashes,
  verify_causal, verify_full, errors_of,
}
use cbcl_rs.Store.Valid.{cites}

abbrev pub Complete : List String → List (String × Message) → Type 0
Complete known msgs = (r : String) → cites msgs r ≡ true → contains known r ≡ true

to_checked-ok : (es : List BundleVerificationError) → (to_checked es ≡ ok) ↔ (is_empty es ≡ true)
unfolding to_checked
to_checked-ok [] = (λ e. refl, λ e. refl)
to_checked-ok (e ∷ es) = (λ p. cc p, λ p. cc p)

is_empty-append :
    (xs ys : List BundleVerificationError) → is_empty (xs ++ ys) ≡ (is_empty xs && is_empty ys)
is_empty-append [] ys = refl
is_empty-append (x ∷ xs) ys = refl

dangling-empty :
    (known rs : List String) (r : String)
    → is_empty (dangling known rs) ≡ true
    → contains rs r ≡ true
    → contains known r ≡ true
unfolding dangling
dangling-empty known [] r e h = cc h
dangling-empty known (x ∷ rs) r e h = ground (arith, dangling-empty known rs r, eq_iff x r)

empty-dangling :
    (known rs : List String)
    → ((r : String) → contains rs r ≡ true → contains known r ≡ true)
    → is_empty (dangling known rs) ≡ true
unfolding dangling
empty-dangling known [] h = refl
empty-dangling known (x ∷ rs) h =
    ground
      (arith, h x, eq_iff x x, empty-dangling known rs (λ r m. h r (ground (arith, eq_iff x r))))

all_dangling-empty :
    (known : List String) (msgs : List (String × Message))
    → (is_empty (all_dangling known msgs) ≡ true) ↔ Complete known msgs
unfolding all_dangling
all_dangling-empty known [] = (λ e r h. cc h, λ h. refl)
all_dangling-empty known ((h, m) ∷ msgs) = (
  λ e r c. ground (
    arith,
    is_empty-append (dangling known (refs (caused_by m))) (all_dangling known msgs),
    dangling-empty known (refs (caused_by m)) r,
    (all_dangling-empty known msgs).0
        (ground
          (arith, is_empty-append (dangling known (refs (caused_by m))) (all_dangling known msgs)))
        r,
  ),
  λ c. ground (
    arith,
    is_empty-append (dangling known (refs (caused_by m))) (all_dangling known msgs),
    empty-dangling known (refs (caused_by m)) (λ r i. c r (ground arith)),
    (all_dangling-empty known msgs).1 (λ r i. c r (ground arith)),
  ),
)

-- A bundle is complete exactly if each hash that one of its messages cites is one of its hashes.
pub verify_completeness_iff :
    (b : CausalClosureBundle) → (verify_completeness b ≡ ok) ↔ Complete (keys b.messages) b.messages
unfolding verify_completeness
verify_completeness_iff b = (
  λ e.
      (all_dangling-empty (keys b.messages) b.messages).0
        ((to_checked-ok (all_dangling (keys b.messages) b.messages)).0 e),
  λ h.
      (to_checked-ok (all_dangling (keys b.messages) b.messages)).1
        ((all_dangling-empty (keys b.messages) b.messages).1 h),
)

all_ok :
    (xs ys zs : List BundleVerificationError)
    → (to_checked
          (errors_of (to_checked xs) ++ errors_of (to_checked ys) ++ errors_of (to_checked zs))
        ≡ ok)
      ↔ ((to_checked xs ≡ ok) × (to_checked ys ≡ ok) × (to_checked zs ≡ ok))
unfolding to_checked errors_of
all_ok [] [] [] = (λ e. (refl, refl, refl), λ e. refl)
all_ok [] [] (z ∷ zs) = (λ e. cc e, λ e. cc (e.2))
all_ok [] (y ∷ ys) zs = (λ e. cc e, λ e. cc (e.1))
all_ok (x ∷ xs) ys zs = (λ e. cc e, λ e. cc (e.0))

-- The full check passes exactly if the three checks pass.
pub verify_full_iff :
    (rep : RepeatVerify) (hasher : Message → String) (protocol : CausalProtocol)
    (b : CausalClosureBundle)
    → (verify_full rep hasher protocol b ≡ some ok) ↔ (
        (verify_completeness b ≡ ok)
        × (verify_hashes hasher b ≡ ok)
        × (verify_causal rep protocol b ≡ some ok))
unfolding verify_full verify_completeness verify_hashes verify_causal
verify_full_iff rep hasher protocol b =
    by_causal
      (causal_errors rep (append_all b.thread b.messages empty_store) protocol b.thread b.messages)
      refl
  where
    by_causal :
        (o : Option (List BundleVerificationError))
        → causal_errors rep
            (append_all b.thread b.messages empty_store)
            protocol
            b.thread
            b.messages
          ≡ o
        → (verify_full rep hasher protocol b ≡ some ok) ↔ (
            (verify_completeness b ≡ ok)
            × (verify_hashes hasher b ≡ ok)
            × (verify_causal rep protocol b ≡ some ok))
    by_causal none e = rw (e, verify_causal, verify_full) (λ p. cc p, λ p. cc (p.2))
    by_causal (some es) e =
        let xs = all_dangling (keys b.messages) b.messages in
        let ys = mismatches hasher b.messages in
        let found : verify_causal rep protocol b ≡ some (to_checked es) = rw (e, verify_causal) in
        rw (found, verify_full)
          (
            λ p.
                let (complete, hashed, causal) = (all_ok xs ys es).0 (cc p) in
                (complete, hashed, ap some causal),
            λ p. ap some ((all_ok xs ys es).1 (p.0, p.1, cc (p.2))),
          )
