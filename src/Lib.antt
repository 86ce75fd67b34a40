-- ===== src/Lib.antt =====
-- Verification of the core of cbcl-rs, the Rust implementation of a language of agent messages:
-- its causal protocols, its messages and texts, and its dialects. The modelled code is in
-- crates/cbcl-core/src, but for the parser of texts, which is crates/cbcl-parser/src/parser.rs.
--
-- The program. A message may cite the content hashes of earlier messages of its thread. A store
-- keeps the messages of each thread; a dialect declares a protocol, a graph of message types; the
-- verifier decides whether the citations of a message follow the protocol, given what the store
-- holds, with the verdict unknown where a cited message is missing. A policy buffers what is
-- unknown, a bundle carries a message with its causal closure to another store, and the admission
-- monitor lets a message into the accepted history of a thread only after its predecessors. On the
-- wire a message is an S-expression, whose text a parser with fuel reads. A counter may be
-- certified by a committee with a quorum.
--
-- A dialect also defines performatives by templates, and shapes that their messages must have. A
-- registry starts with the base dialect, which defines the core performatives, and takes further
-- dialects by installation, after checks on recursion (R1), resources (R2), core performatives
-- (R3), the signature (R4), protocol and shapes (R5). What is signed are the canonical bytes of a
-- form of the dialect. A message is evaluated by expanding the template of its performative, in
-- the base dialect or in the one that its scope names; what comes out must have the shapes and
-- says what to do.
--
-- The files.
-- - Prelude: the libraries' names that all files share, Boolean tests, lists, texts, maps.
-- - Sexpr (sexpr.rs), Message (message.rs) with Message/Equal for the derived equality, Envelope
--   (envelope.rs, attest.rs, keyid.rs, typed_addr.rs): the data.
-- - Message/Print has a message as an S-expression, Message/Args and Message/Parse its
--   recognition; Arguments, Loop, Heads and RoundTrip are on what is printed, Order, Causes, Read
--   and Stable on what is recognised.
-- - Text (serializer.rs) has the printer, Text/Leaf and Text/Parser the parser; Leaf/Words,
--   Strings, Numbers and Progress are on its leaves, Parser/Atoms, Steps and RoundTrip on the
--   round trip, Parser/Valid and Stable on what is parsed, Parser/Total on its end and its fuel.
-- - Kernel (causal_kernel.rs): the decisions without their diagnostics.
-- - Protocol (protocol.rs): declarations and verdicts; Protocol/Lattice on `meet`, `join` and the
--   knowledge order; Protocol/Checks on the R5 install checks, with Checks/Defined.
-- - Verify (protocol.rs, `verify_causal`): one function per arm; Scan, Total, Monotone and Exact
--   are on the fan-in loop, on totality, on growth and on valid fan-ins.
-- - Store (store.rs, HashIndex and ThreadedMessageStore): Valid has the invariant, Lookup,
--   Frontier, Closure (with Closure/Fuel) and Growth one operation each, Refinement a table that
--   the store implements, Shelves the two envelope shelves.
-- - Bundle (store.rs, CausalClosureBundle): Complete on the checks, Merge on merging.
-- - Hlc (hlc.rs): Order on `advance`, Digits and Text on the wire form.
-- - Policy (policy.rs): Bounds on the length of the queues, Resolve on what leaves them.
-- - Resources (r2.rs, dialect.rs): Eval on the bounded evaluation.
-- - Admission (admission.rs): Check has `check_message`, Monitor the state and its operations,
--   Consistent and Visited the invariant, Events and Drain the steps and the loop, Quiet and Fixed
--   the end of a drain, Receive a repeated receipt.
-- - Certification (certification.rs): the committee of a counter; Sorted on the sorted roster,
--   Quorum on its size, its quorums and its resolution.
-- - Dialect (dialect.rs): the record and its look-ups. Dialect/Recursion (r1.rs): Chains, Search,
--   Templates and Exact are on chains of mentions, on the search, on what a template mentions and
--   on both together. Dialect/Checks (r3.rs, r5.rs): the checks of core performatives, protocols
--   and shapes. Dialect/Registry (dialect.rs, r4.rs): Admitted is on what an installation has
--   checked, Core on the core performatives. Dialect/Signable (canonical.rs): the form that is
--   signed, with State (state.rs, escrow.rs) for the clauses of the state layer; Forms has what both
--   share, and Parts, Segments, Options, Counters, Clauses and Binding are on what it determines.
-- - Canonical (canonical.rs): the canonical bytes; Digits, Utf8 and Injective are on what they
--   determine.
-- - Shape (shape.rs): the check of a message; Conforms is on what it means.
-- - Evaluator (evaluator.rs): Core is on core messages, Agreement on what an evaluation depends
--   on, Shapes on what it checks.
-- - Template (template.rs): the expansion, with Conditions for the bindings and tests; Bounds is
--   on its resources, Mentions on its symbols.
-- Each part's Tests has runs at concrete inputs.
--
-- The conventions. A state is a record and an operation returns the new one. A map is an
-- association list; what the program reads off the iteration order of a map is read off the order
-- of the list. An ordered set is the list of its members. A u32 or u64 is a native number with its
-- bound or its wrap-around written out. A result of `none` stands for a panic where the file says
-- so, and else for the program's None.
--
-- Bounds and fuel. The closure search of a store takes fuel; `enough`, the number of messages of
-- the thread plus the number of their citations plus two, is enough in a well-formed store. The
-- draining of a monitor takes fuel for its outer loop, and one more than the length of the queue
-- is enough. The parser's own fuel is part of its state; its recursion runs on a count besides, of
-- twice the fuel and one, which always suffices. The graph searches of the R5 checks take fuel and
-- return `none` if it runs out, also in an installation, which has it as an argument. That of R1
-- takes fuel; the number of performatives and two is enough. All other loops are structural.
--
-- Not modelled. The verifier of protocols with repeat copies (repeat.rs) is an argument of the
-- causal verifier; the role verifier (projection.rs) and the authentication gate are arguments of
-- the monitor; the verification of envelopes rests on cryptographic crates and is an argument of
-- the shelves; the hash function of a bundle check is an argument there, as it is in the program.
-- The role and state layers of a dialect, with their checks R6 and R7, its hash and its signer are
-- arguments of the installation; of the state layer only the clauses and their signed form are
-- modelled. The texts of errors and the tracing are left out. The construction of a monitor, the
-- extraction and the printing of bundles, the expansion with named bindings, patterns, the agent,
-- gossip, the folds of the state layer, the escrow verification, the other parsers of cbcl-parser
-- and the other crates are not modelled.
pub mod Prelude
pub mod Sexpr
pub mod Text
pub mod Message
pub mod Kernel
pub mod Envelope
pub mod Protocol
pub mod Verify
pub mod Store
pub mod Bundle
pub mod Hlc
pub mod Policy
pub mod Resources
pub mod Admission
pub mod Certification
pub mod Dialect
pub mod Canonical
pub mod Shape
pub mod Template
pub mod Evaluator
