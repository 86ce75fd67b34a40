-- ===== src/Certification/Quorum.antt =====
-- The committee (crates/cbcl-core/src/certification.rs): its size, and what two quorums share.
use cbcl_rs.Prelude.{
  Bool, List, Option, String, [], all, any, ap, arith, contains, eqb, false, if_cases,
  if◌then◌else◌, is_empty, length, none, not, refl, some, subst, sym, true, ℕ, ◌&&◌, ◌*◌, ◌+◌, ◌<◌,
  ◌∙◌, ◌∷◌, ◌≡◌, ◌≢◌, ◌≤◌,
}
use cbcl_rs.Message.Args.{sort}
use cbcl_rs.Message.Arguments.{is_ascending, sort_sorted}
use cbcl_rs.Message.Order.{sort-is_sorted}
use cbcl_rs.Certification.{
  Certification, Committee, CertificationError, empty_roster, not_whole_key, duplicate_validator,
  not_three_f_plus_one, Resolved, ok, err, is_key, has_double, roster, fault_bound, with_bound,
  with_roster, new_committee, pinned, declare, resolve,
}
use cbcl_rs.Certification.Sorted.{
  length-sort, contains-sort, sorted-is_ascending, all-sort, empty-sort,
}

-- How many pass the test.
abbrev pub count : (String → Bool) → List String → ℕ
count test [] = 0
count test (x ∷ xs) = (if test x then 1 else 0) + count test xs

module _ (one two : String → Bool) where
  count_overlap :
      (xs : List String) → count one xs + count two xs ≤ length xs + count (λ k. one k && two k) xs
  count_overlap [] = omega arith
  count_overlap (x ∷ xs) = ground (arith, count_overlap xs)

  -- More pass the first test than the second, so one passes the first only.
  count_excess :
      (xs : List String) → count two xs < count one xs → any (λ k. one k && not (two k)) xs ≡ true
  count_excess [] h = absurd (omega arith)
  count_excess (x ∷ xs) h = ground (arith, count_excess xs)

-- A roster that is accepted.
record IsRoster (ks vs : List String) : Type 0 where
  sorted : vs ≡ sort ks
  single : has_double (sort ks) ≡ false
  some_key : is_empty ks ≡ false
  all_keys : all is_key ks ≡ true

Accepted : List String → Resolved (List String) → Type 0
Accepted ks (ok vs) = IsRoster ks vs
Accepted ks (err x) = Unit

roster-Accepted : (ks : List String) → Accepted ks (roster ks)
unfolding roster Accepted
roster-Accepted ks =
    if_cases (Accepted ks) (is_empty ks) _ _ (λ e. tt)
      (λ full.
        if_cases (Accepted ks) (not (all is_key ks)) _ _ (λ e. tt)
          (λ whole.
            if_cases (Accepted ks) (has_double (sort ks)) _ _ (λ e. tt)
              (λ e. record {
                sorted = refl;
                single = e;
                some_key = full;
                all_keys = ground arith;
              })))

-- What a committee of these keys has.
abbrev pub IsCommittee : List String → Committee → Type 0
IsCommittee ks c =
    (length ks ≡ 3 * c.faults + 1)
    × ((length c.validators ≡ length ks)
        × ((c.quorum ≡ 2 * c.faults + 1)
            × ((is_ascending c.validators ≡ true)
                × ((k : String) → contains c.validators k ≡ contains ks k))))

abbrev Formed : List String → Resolved Committee → Type 0
Formed ks (ok c) = IsCommittee ks c
Formed ks (err x) = Unit

with_bound-Formed :
    (ks vs : List String) (f : Option ℕ) → IsRoster ks vs → Formed ks (with_bound vs f)
with_bound-Formed ks vs none r = tt
with_bound-Formed ks vs (some f) r =
    if_cases (Formed ks) (eqb (f * 3 + 1) (length vs)) _ _
      (λ e.
        let same = ap length r.sorted ∙ length-sort ks in
        (
          ground (arith, same),
          (
            same,
            (
              refl,
              (
                ap is_ascending r.sorted
                    ∙ sorted-is_ascending (sort ks) (sort-is_sorted ks) r.single,
                λ k. ap (λ (l : List String). contains l k) r.sorted ∙ contains-sort k ks,
              ),
            ),
          ),
        ))
      (λ e. tt)

with_roster-Formed :
    (ks : List String) (f : Option ℕ) (r : Resolved (List String))
    → Accepted ks r
    → Formed ks (with_roster f r)
unfolding Accepted
with_roster-Formed ks f (ok vs) a = with_bound-Formed ks vs (fault_bound f (length vs)) a
with_roster-Formed ks f (err x) a = tt

-- A committee has the ks that it is made of.
pub new_committee-IsCommittee :
    (ks : List String) (faults : Option ℕ) (c : Committee)
    → new_committee ks faults ≡ ok c
    → IsCommittee ks c
unfolding new_committee
new_committee-IsCommittee ks faults c h =
    subst (Formed ks) h (with_roster-Formed ks faults (roster ks) (roster-Accepted ks))

-- If a committee was made of a roster, any two sets of its validators that reach its quorum share a
-- validator outside any set of at most as many validators as the committee has faults.
pub quorums_meet :
    (ks : List String) (faults : Option ℕ) (c : Committee) (one two faulty : String → Bool)
    → new_committee ks faults ≡ ok c
    → c.quorum ≤ count one c.validators
    → c.quorum ≤ count two c.validators
    → count faulty c.validators ≤ c.faults
    → any (λ k. (one k && two k) && not (faulty k)) c.validators ≡ true
quorums_meet ks faults c one two faulty h a b d =
    let (n, (l, (q, _))) = new_committee-IsCommittee ks faults c h in
    count_excess (λ k. one k && two k) faulty c.validators
      (omega (arith, count_overlap one two c.validators))

roster-sort : (ks : List String) → IsRoster ks (sort ks) → roster (sort ks) ≡ ok (sort ks)
unfolding roster
roster-sort ks r =
    let again = sort_sorted (sort ks) (sort-is_sorted ks) in
    let full = empty-sort ks r.some_key in
    let whole = all-sort is_key ks r.all_keys in
    let rest =
      if has_double (sort (sort ks)) then err duplicate_validator else ok (sort (sort ks)) in
    ap
      (λ (b : Bool).
        if b
        then err empty_roster
        else (if not (all is_key (sort ks)) then err not_whole_key else rest))
      full
    ∙ ap (λ (b : Bool). if not b then err not_whole_key else rest) whole
    ∙ ap (λ (l : List String). if has_double l then err duplicate_validator else ok l) again
    ∙ ap (λ (b : Bool). if b then err duplicate_validator else ok (sort ks)) r.single

-- The committee is made again from its own roster and its own bound.
abbrev Again : Resolved Committee → Type 0
Again (ok c) = new_committee c.validators (some c.faults) ≡ ok c
Again (err x) = Unit

with_bound-Again :
    (ks : List String) (f : Option ℕ) → IsRoster ks (sort ks) → Again (with_bound (sort ks) f)
unfolding new_committee
with_bound-Again ks none r = tt
with_bound-Again ks (some f) r =
    if_cases Again (eqb (f * 3 + 1) (length (sort ks))) _ _
      (λ e.
        ap (with_roster (some f)) (roster-sort ks r)
        ∙ ap
            (λ (b : Bool).
              if b
              then ok (record { validators = sort ks; faults = f; quorum = 2 * f + 1 })
              else err not_three_f_plus_one)
            e)
      (λ e. tt)

with_roster-Again :
    (ks : List String) (f : Option ℕ) (r : Resolved (List String))
    → Accepted ks r
    → Again (with_roster f r)
unfolding Accepted
with_roster-Again ks f (ok vs) a =
    subst (λ (l : List String). IsRoster ks l → Again (with_bound l (fault_bound f (length l))))
      (sym a.sorted) (λ b. with_bound-Again ks (fault_bound f (length (sort ks))) b) a
with_roster-Again ks f (err x) a = tt

ok_injective : {a b : Certification} → ok a ≡ ok b → a ≡ b
ok_injective h = cc h

err_not_ok : {x : CertificationError} {b : Certification} → err x ≢ ok b
err_not_ok h = cc h

declared :
    (faults : Option ℕ) (r : Resolved Committee) (cert : Certification)
    → Again r
    → pinned r ≡ ok cert
    → resolve cert none ≡ r
unfolding resolve
declared faults (ok c) cert a h = subst (λ x. resolve x none ≡ ok c) (ok_injective h) a
declared faults (err x) cert a h = absurd (err_not_ok h)

-- A declaration with a roster that was accepted resolves, without a roster of the instance, to the
-- same committee that the roster was checked as.
pub resolve-declare :
    (ks : List String) (faults : Option ℕ) (cert : Certification)
    → declare (some ks) faults ≡ ok cert
    → resolve cert none ≡ new_committee ks faults
unfolding declare new_committee
resolve-declare ks faults cert h =
    declared faults (new_committee ks faults) cert
      (with_roster-Again ks faults (roster ks) (roster-Accepted ks)) h
