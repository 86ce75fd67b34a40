-- ===== src/Admission/Tests.antt =====
-- A monitor that has received its root (crates/cbcl-core/src/admission.rs).
use cbcl_rs.Prelude.{[], arith, get, inr, insert, none, refl, some, ◌∷◌, ◌≡◌}
use cbcl_rs.Sexpr.{SExpr, nil}
use cbcl_rs.Message.{Message, CausedBy, Performative}
use cbcl_rs.Protocol.{VerificationResult}
use cbcl_rs.Store.{empty_store, store_contains}
use cbcl_rs.Admission.Check.{Context}
use cbcl_rs.Admission.Monitor.{
  AdmissionGate, AdmissionMonitor, RoleVerify, new_candidate, receive, step, drain_ready,
}
use cbcl_rs.Admission.Consistent.{IsConsistent, joined-IsConsistent, receive-IsConsistent}
use cbcl_rs.Admission.Drain.{Kept, step-Kept, Finished, drain_ready-Finished}
use cbcl_rs.Admission.Fixed.{Settled, drain_ready-Settled}

abbrev context : Context
context = record {
  dialect = record {
    dialect_name = "auction";
    performatives = [];
    causal_protocol = record { steps = [] };
  };
  role = "seller";
  endpoint_key = "@s";
  thread = "t";
  root = "h0";
}

abbrev root_message : Message
root_message =
    Message.simple (Performative.custom "open") none (SExpr.list nil) [] (some "t") none
      (some CausedBy.begin)

abbrev fresh : AdmissionMonitor
fresh = record { context = context; received = []; pending = []; accepted = empty_store }

fresh-IsConsistent : IsConsistent fresh
unfolding get store_contains
fresh-IsConsistent = record {
  queued = λ h. refl;
  once = tt;
  known = λ h. refl;
  stored = λ h. refl;
  grounded = λ h c e t. cc e;
}

nothing-received : get "h0" fresh.received ≡ none
unfolding get
nothing-received = refl

abbrev started : AdmissionMonitor
started = record fresh { received = ("h0", new_candidate root_message) ∷ []; pending = "h0" ∷ [] }

started-IsConsistent : IsConsistent started
unfolding insert
started-IsConsistent =
    joined-IsConsistent "h0" root_message fresh nothing-received fresh-IsConsistent

abbrev by_thread : AdmissionGate
by_thread m = inr "h0"

abbrev all_valid : RoleVerify
all_valid m store thread root = VerificationResult.valid

receive-IsConsistent_example : IsConsistent (receive by_thread root_message started).0
receive-IsConsistent_example =
    receive-IsConsistent by_thread root_message started started-IsConsistent

step-Kept_example : Kept started (step all_valid started)
step-Kept_example = step-Kept all_valid started started-IsConsistent

drain_ready-Finished_example : Finished started (drain_ready 2 all_valid started)
drain_ready-Finished_example =
    drain_ready-Finished 2 all_valid started (omega arith) started-IsConsistent

drain_ready-Settled_example : Settled all_valid (drain_ready 2 all_valid started)
drain_ready-Settled_example =
    drain_ready-Settled 2 all_valid started (omega arith) started-IsConsistent
