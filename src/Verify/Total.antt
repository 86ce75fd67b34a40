-- ===== src/Verify/Total.antt =====
-- `verify_causal` (crates/cbcl-core/src/protocol.rs) returns a verdict on protocols without
-- repeat copies.
use cbcl_rs.Prelude.{
  Bool-cases, List, Option, Option-cases, String, [], any, arith, contains, false, get, inl, inr,
  is_empty, is_some, none, refl, some, true, ◌∷◌, ◌≡◌,
}
use cbcl_rs.Message.{CausedBy}
use cbcl_rs.Kernel
use cbcl_rs.Kernel.{FanIn}
use cbcl_rs.Protocol.{
  StepDecl, CausalProtocol, CausalViolation, VerificationResult, allowed_single_predecessors,
}
use cbcl_rs.Verify.{
  MessageStore, RepeatVerify, FanInScan, no_scan, scan_all, first_all, finish_scan, missing_types,
  fan_in_result, verify_single, verify_multiple, verify_step, verify_causal, predecessor_type,
  has_repeat, allows_begin,
}
use cbcl_rs.Verify.Scan.{scan_all-has_error}

abbrev pub Returns : Option VerificationResult → Type 0
Returns o = (r : VerificationResult) × (o ≡ some r)

pub verify_single-Returns :
    (step : StepDecl) (h : String) (t : Option String) → Returns (verify_single step h t)
unfolding verify_single
verify_single-Returns step h none = (VerificationResult.unknown, refl)
verify_single-Returns step h (some p) =
    elim (Bool-cases (contains (allowed_single_predecessors step) p)) [
      | inl e ↦ (VerificationResult.valid, ground arith)
      | inr e ↦ elim (Bool-cases (is_empty step.predecessors)) [
        | inl k ↦ (
          VerificationResult.violation (CausalViolation.extraneous_predecessor h p),
          ground arith,
        )
        | inr k ↦ (
          VerificationResult.violation
              (CausalViolation.invalid_predecessor h (allowed_single_predecessors step) p),
          ground arith,
        )
      ]
    ]

pub finish_scan-Returns :
    (perf : String) (names : List String) (s : FanInScan)
    → (s.state ≡ FanIn.wrong → is_some s.first_error ≡ true)
    → Returns (finish_scan perf names s)
unfolding finish_scan
finish_scan-Returns perf names s k = fan_in (s.state) (s.first_error) (missing_types names s) k
  where
    fan_in :
        (q : FanIn) (err : Option CausalViolation) (miss : List String)
        → (q ≡ FanIn.wrong → is_some err ≡ true)
        → Returns (fan_in_result (Kernel.finish true q (is_empty miss)) perf err miss)
    fan_in FanIn.wrong (some e) miss k = (VerificationResult.violation e, refl)
    fan_in FanIn.wrong none miss k = absurd (let e = k refl in cc e)
    fan_in FanIn.missing err miss k = (VerificationResult.unknown, refl)
    fan_in FanIn.clear err [] k = (VerificationResult.valid, refl)
    fan_in FanIn.clear err (x ∷ xs) k =
        (VerificationResult.violation (CausalViolation.incomplete_fan_in (x ∷ xs)), refl)

module _ (perf : String) (step : StepDecl) (f : String → Option String) (hs : List String) where
  pub verify_multiple-none :
      first_all step.predecessors ≡ none
      → verify_multiple perf step f hs
        ≡ some (VerificationResult.violation (CausalViolation.fan_in_without_all_decl perf))
  unfolding verify_multiple
  verify_multiple-none e = rw (e, verify_multiple) refl

  pub verify_multiple-some :
      {names : List String}
      → first_all step.predecessors ≡ some names
      → verify_multiple perf step f hs ≡ finish_scan perf names (scan_all names f hs no_scan)
  unfolding verify_multiple
  verify_multiple-some e = rw (e, verify_multiple) refl

  pub verify_multiple-Returns : Returns (verify_multiple perf step f hs)
  verify_multiple-Returns = elim (Option-cases (first_all step.predecessors)) [
    | inl e ↦ (
      VerificationResult.violation (CausalViolation.fan_in_without_all_decl perf),
      verify_multiple-none e,
    )
    | inr (names, e) ↦ rw (verify_multiple-some e) (
        finish_scan-Returns perf names (scan_all names f hs no_scan)
          (scan_all-has_error names f hs no_scan (λ k. cc)))
  ]

pub verify_step-Returns :
    (perf : String) (step : StepDecl) (cb : Option CausedBy) (f : String → Option String)
    → Returns (verify_step perf step cb f)
unfolding verify_step
verify_step-Returns perf step none f = elim (Bool-cases (is_empty step.predecessors)) [
  | inl e ↦ (VerificationResult.valid, ground arith)
  | inr e ↦ (VerificationResult.violation CausalViolation.missing_caused_by, ground arith)
]
verify_step-Returns perf step (some CausedBy.begin) f =
    elim (Bool-cases (any allows_begin step.predecessors)) [
      | inl e ↦ (VerificationResult.valid, ground arith)
      | inr e ↦ (
        VerificationResult.violation (
            CausalViolation.invalid_predecessor "begin" (allowed_single_predecessors step) "begin"),
        ground arith,
      )
    ]
verify_step-Returns perf step (some (CausedBy.single h)) f = verify_single-Returns step h (f h)
verify_step-Returns perf step (some (CausedBy.multiple hs)) f =
    verify_multiple-Returns perf step f hs

-- On a protocol without repeat copies the verifier returns a verdict, for every message and every
-- store: no unreachable! and no expect is reached.
pub verify_causal-Returns :
    (rep : RepeatVerify) (perf : String) (cb : Option CausedBy) (store : MessageStore)
    (protocol : CausalProtocol) (thread : String)
    → has_repeat protocol ≡ false
    → (r : VerificationResult) × (verify_causal rep perf cb store protocol thread ≡ some r)
unfolding verify_causal
verify_causal-Returns rep perf cb store protocol thread plain =
    rw (plain, verify_causal)
      (elim (Option-cases (get perf protocol.steps)) [
        | inl n ↦ (VerificationResult.valid, rw n refl)
        | inr (step, s) ↦
            rw s (verify_step-Returns perf step cb (λ h. predecessor_type store h thread))
      ])
