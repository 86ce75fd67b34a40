-- ===== src/Verify/Scan.antt =====
-- The fan-in loop of `verify_causal` (crates/cbcl-core/src/protocol.rs): what its state says of the
-- hashes that it went through.
use cbcl_rs.Prelude.{
  List, Option, String, [], arith, contains, is_some, none, refl, some, true, ◌∷◌, ◌≡◌,
}
use cbcl_rs.Kernel
use cbcl_rs.Kernel.{FanIn}
use cbcl_rs.Verify.{FanInScan, scan_one, scan_all}

-- A later reading of the store resolves all that an earlier one did, to the same types.
abbrev pub Extends : (String → Option String) → (String → Option String) → Type 0
Extends f g = (h p : String) → f h ≡ some p → g h ≡ some p

-- A state other than `clear` is kept by every round.
scan_one-ne-clear :
    (names : List String) (h : String) (t : Option String) (s : FanInScan)
    → (scan_one names h t s).state ≡ FanIn.clear
    → s.state ≡ FanIn.clear
unfolding scan_one Kernel.observe
scan_one-ne-clear names h t s e = ground arith

pub scan_all-ne-clear :
    (names : List String) (f : String → Option String) (hs : List String) (s : FanInScan)
    → (scan_all names f hs s).state ≡ FanIn.clear
    → s.state ≡ FanIn.clear
unfolding scan_all
scan_all-ne-clear names f [] s e = e
scan_all-ne-clear names f (h ∷ hs) s e =
    scan_one-ne-clear names h (f h) s (scan_all-ne-clear names f hs (scan_one names h (f h) s) e)

-- A round that ends in `clear` met an allowed type.
pub scan_one-clear :
    (names : List String) (h : String) (t : Option String) (s : FanInScan)
    → (scan_one names h t s).state ≡ FanIn.clear
    → (p : String) × (t ≡ some p) × (contains names p ≡ true)
unfolding scan_one Kernel.observe
scan_one-clear names h none s e = ground arith
scan_one-clear names h (some p) s e = (p, refl, ground arith)

-- A scan that ends in `clear` reads nothing that a larger store changes.
pub scan_all-clear-Extends :
    (names : List String) (f g : String → Option String) (hs : List String) (s : FanInScan)
    → Extends f g
    → (scan_all names f hs s).state ≡ FanIn.clear
    → scan_all names g hs s ≡ scan_all names f hs s
unfolding scan_all
scan_all-clear-Extends names f g [] s x e = refl
scan_all-clear-Extends names f g (h ∷ hs) s x e =
    let s' = scan_one names h (f h) s in
    let (p, q, _) = scan_one-clear names h (f h) s (scan_all-ne-clear names f hs s' e) in
    let same : g h ≡ f h = cc (x h p q) in rw same (scan_all-clear-Extends names f g hs s' x e)

scan_one-wrong :
    (names : List String) (h : String) (t u : Option String) (s s' : FanInScan)
    → (s.state ≡ FanIn.wrong → s'.state ≡ FanIn.wrong)
    → ((p : String) → t ≡ some p → u ≡ some p)
    → (scan_one names h t s).state ≡ FanIn.wrong
    → (scan_one names h u s').state ≡ FanIn.wrong
unfolding scan_one Kernel.observe
scan_one-wrong names h none u s s' k x e = ground arith
scan_one-wrong names h (some p) u s s' k x e = let eq = x p refl in rw eq (ground arith)

-- A wrong type stays found in a larger store, whatever else is met on the way.
pub scan_all-wrong-Extends :
    (names : List String) (f g : String → Option String) (hs : List String) (s s' : FanInScan)
    → Extends f g
    → (s.state ≡ FanIn.wrong → s'.state ≡ FanIn.wrong)
    → (scan_all names f hs s).state ≡ FanIn.wrong
    → (scan_all names g hs s').state ≡ FanIn.wrong
unfolding scan_all
scan_all-wrong-Extends names f g [] s s' x k e = k e
scan_all-wrong-Extends names f g (h ∷ hs) s s' x k e =
    scan_all-wrong-Extends names f g hs (scan_one names h (f h) s) (scan_one names h (g h) s') x
      (scan_one-wrong names h (f h) (g h) s s' k (x h)) e

scan_one-has_error :
    (names : List String) (h : String) (t : Option String) (s : FanInScan)
    → (s.state ≡ FanIn.wrong → is_some s.first_error ≡ true)
    → (scan_one names h t s).state ≡ FanIn.wrong
    → is_some (scan_one names h t s).first_error ≡ true
unfolding scan_one Kernel.observe
scan_one-has_error names h t s k e = ground arith

-- A scan that ends in `wrong` has a diagnostic.
pub scan_all-has_error :
    (names : List String) (f : String → Option String) (hs : List String) (s : FanInScan)
    → (s.state ≡ FanIn.wrong → is_some s.first_error ≡ true)
    → (scan_all names f hs s).state ≡ FanIn.wrong
    → is_some (scan_all names f hs s).first_error ≡ true
unfolding scan_all
scan_all-has_error names f [] s k e = k e
scan_all-has_error names f (h ∷ hs) s k e =
    scan_all-has_error names f hs (scan_one names h (f h) s) (scan_one-has_error names h (f h) s k)
      e
