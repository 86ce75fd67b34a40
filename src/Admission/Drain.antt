-- ===== src/Admission/Drain.antt =====
-- The steps and the draining of a monitor (crates/cbcl-core/src/admission.rs).
use cbcl_rs.Prelude.{
  All, All-append, Bool-cases, List, Option, Option-cases, String, [], ap, arith, eq_refl, false,
  get, if◌then◌else◌, inl, inr, length, length-append, map, none, refl, some, suc, true, zero, ℕ,
  ◌++◌, ◌+◌, ◌<◌, ◌∷◌, ◌≡◌, ◌≤◌,
}
use cbcl_rs.Admission.Events.{count, state_at, Persists, Moved, step-Moved}
use cbcl_rs.Admission.Monitor.{
  AdmissionState, AdmissionEvent, Candidate, AdmissionMonitor, RoleVerify, Visit, idle, panicked,
  visited, visit, step, step_from, verdict, settle, mark, resolved, is_pending, round, drain_ready,
  report,
}
use cbcl_rs.Admission.Visited.{visited-IsConsistent}
use cbcl_rs.Admission.Consistent.{IsConsistent, is_accepted}

-- What a step has to leave: no panic, a consistent monitor, and one candidate fewer in the queue
-- unless the visited one is put back; an idle step finds the queue empty.
abbrev pub Kept : AdmissionMonitor → Visit → Type 0
Kept a idle = a.pending ≡ []
Kept a panicked = ⊥
Kept a (visited a' e) =
    IsConsistent a' × (length a'.pending + (if is_pending e.state then 0 else 1) ≡ length a.pending)

verdict-resolved :
    (verify : RoleVerify) (hash : String) (c : Candidate) (a : AdmissionMonitor)
    (rest : List String)
    → is_accepted (verdict verify hash c.message (record a { pending = rest })) ≡ true
    → resolved a.context a.accepted hash c.message ≡ true
unfolding verdict
verdict-resolved verify hash c a rest h =
    elim (Bool-cases (resolved a.context a.accepted hash c.message)) [
      | inl r ↦ r
      | inr n ↦ ground arith
    ]

length-settle :
    (hash : String) (c : Candidate) (s : AdmissionState) (a : AdmissionMonitor) (rest : List String)
    → a.pending ≡ hash ∷ rest
    → length (mark hash c s (settle hash c.message s (record a { pending = rest }))).pending
        + (if is_pending s then 0 else 1)
      ≡ length a.pending
unfolding mark settle
length-settle hash c AdmissionState.pending a rest p =
    ground (arith, p, length-append rest (hash ∷ []))
length-settle hash c AdmissionState.accepted a rest p = ground (arith, p)
length-settle hash c (AdmissionState.rejected x) a rest p = ground (arith, p)

step_from-Kept :
    (verify : RoleVerify) (q : List String) (a : AdmissionMonitor)
    → a.pending ≡ q
    → IsConsistent a
    → Kept a (step_from verify q a)
unfolding step_from visit
step_from-Kept verify [] a p v = p
step_from-Kept verify (hash ∷ rest) a p v = elim (Option-cases (get hash a.received)) [
  | inl n ↦ absurd (ground (arith, v.queued hash, n, p, eq_refl hash))
  | inr (c, e) ↦
      rw (e, step_from)
        (
          visited-IsConsistent hash rest c
              (verdict verify hash c.message (record a { pending = rest })) a p e
              (verdict-resolved verify hash c a rest) v,
          length-settle hash c (verdict verify hash c.message (record a { pending = rest })) a rest
              p,
        )
]

-- A step of a consistent monitor does not panic, is idle only on an empty queue and else leaves a
-- consistent monitor, with one candidate fewer in the queue unless its state is still pending.
pub step-Kept :
    (verify : RoleVerify) (a : AdmissionMonitor) → IsConsistent a → Kept a (step verify a)
unfolding step
step-Kept verify a v = step_from-Kept verify a.pending a refl v

abbrev pub event_hashes : List AdmissionEvent → List String
event_hashes = map (λ (e : AdmissionEvent). e.hash)

-- The event says that its candidate was decided, and how.
abbrev pub Decided : AdmissionMonitor → AdmissionEvent → Type 0
Decided a e = (is_pending e.state ≡ false) × (state_at a e.hash ≡ some e.state)

-- What a loop from a monitor comes to: no panic, a consistent monitor, and for each candidate that
-- left the queue one event, with its hash and its state, which does not change again.
abbrev pub Finished : AdmissionMonitor → Option (AdmissionMonitor × List AdmissionEvent) → Type 0
Finished a none = ⊥
Finished a (some (a', es)) =
    IsConsistent a'
    × (length a'.pending + length es ≡ length a.pending)
    × ((h : String) → count h a'.pending + count h (event_hashes es) ≡ count h a.pending)
    × All (Decided a') es
    × Persists a a'

Decided-Persists :
    (a a' : AdmissionMonitor) (es : List AdmissionEvent)
    → Persists a a'
    → All (Decided a) es
    → All (Decided a') es
Decided-Persists a a' [] k d = tt
Decided-Persists a a' (e ∷ es) k ((decided, now), d) =
    ((decided, k e.hash e.state now decided), Decided-Persists a a' es k d)

report-Finished :
    (a a' : AdmissionMonitor) (e : AdmissionEvent)
    (o : Option (AdmissionMonitor × List AdmissionEvent))
    → length a'.pending + (if is_pending e.state then 0 else 1) ≡ length a.pending
    → Moved a (visited a' e)
    → Finished a' o
    → Finished a (report e o)
report-Finished a a' e none k m f = f
report-Finished a a' e (some (b, es)) k (counts, kept, now) (v, l, c, d, later) =
    let keeps : Persists a b = λ h s was decided. later h s (kept h s was decided) decided in
    elim (Bool-cases (is_pending e.state)) [
      | inl t ↦ rw t (v, ground arith, λ h. ground (arith, c h, counts h), d, keeps)
      | inr n ↦ rw n (
        v,
        ground arith,
        λ h. ground (arith, c h, counts h),
        ((n, later e.hash e.state now n), d),
        keeps,
      )
    ]

pub round-Finished :
    (verify : RoleVerify) (n : ℕ) (a : AdmissionMonitor)
    → n ≤ length a.pending
    → IsConsistent a
    → Finished a (round verify n a)
unfolding round
round-Finished verify zero a l v = (v, omega arith, λ h. omega arith, tt, λ h s was decided. was)
round-Finished verify (suc n) a l v =
    elim (step verify a)
        as (λ s.
          Kept a s
          → Moved a s
          → Finished a (elim s [ visited a' e ↦ report e (round verify n a') | _ ↦ none ])) [
            | idle ↦ λ k m. absurd (ground (arith, ap length k))
            | panicked ↦ λ k m. k
            | visited a' e ↦ λ k m.
                report-Finished a a' e (round verify n a') k.1 m
                  (round-Finished verify n a' (ground arith) k.0)
          ]
      (step-Kept verify a v) (step-Moved verify a v)

abbrev pub then_later :
    AdmissionEvent
    → List AdmissionEvent
    → Option (AdmissionMonitor × List AdmissionEvent)
    → Option (AdmissionMonitor × List AdmissionEvent)
then_later e es none = none
then_later e es (some (a, later)) = some (a, e ∷ es ++ later)

event_hashes-append :
    (es fs : List AdmissionEvent) (h : String)
    → count h (event_hashes (es ++ fs)) ≡ count h (event_hashes es) + count h (event_hashes fs)
event_hashes-append [] fs h = omega arith
event_hashes-append (e ∷ es) fs h = omega (arith, event_hashes-append es fs h)

then_later-Finished :
    (a a' : AdmissionMonitor) (e : AdmissionEvent) (es : List AdmissionEvent)
    (o : Option (AdmissionMonitor × List AdmissionEvent))
    → Finished a (some (a', e ∷ es))
    → Finished a' o
    → Finished a (then_later e es o)
then_later-Finished a a' e es none k f = f
then_later-Finished a a' e es (some (b, later)) (v, l, c, d, kept) (v', l', c', d', keeps) = (
  v',
  omega (arith, length-append es later),
  λ h. omega (arith, event_hashes-append es later h, c h, c' h),
  All-append (Decided b) (e ∷ es) later (Decided-Persists a' b (e ∷ es) keeps d) d',
  λ h s was decided. keeps h s (kept h s was decided) decided,
)

-- With more fuel than the queue has candidates, draining a consistent monitor returns, without a
-- panic, a consistent monitor, with one event for each time that a hash left the queue and no other
-- event; each event has the state that its candidate has in the end, which is not pending, and no
-- candidate that was decided before changes its state.
pub drain_ready-Finished :
    (fuel : ℕ) (verify : RoleVerify) (a : AdmissionMonitor)
    → length a.pending < fuel
    → IsConsistent a
    → Finished a (drain_ready fuel verify a)
unfolding drain_ready
drain_ready-Finished zero verify a l v = absurd (omega arith)
drain_ready-Finished (suc fuel) verify a l v =
    elim (round verify (length a.pending) a)
        as (λ o.
          Finished a o
          → Finished a (elim o [
            | none ↦ none
            | some (a', []) ↦ some (a', [])
            | some (a', e ∷ es) ↦ then_later e es (drain_ready fuel verify a')
          ])) [
            | none ↦ λ f. f
            | some (a', []) ↦ λ f. f
            | some (a', e ∷ es) ↦ λ f.
                then_later-Finished a a' e es (drain_ready fuel verify a') f
                  (drain_ready-Finished fuel verify a' (ground (arith, f.1)) f.0)
          ]
      (round-Finished verify (length a.pending) a (omega arith) v)
