-- ===== src/Message.antt =====
-- Messages and what is read off them (crates/cbcl-core/src/message.rs).
pub mod Equal
pub mod Print
pub mod Args
pub mod Parse
pub mod Arguments
mod Loop
pub mod Order
mod Causes
mod Read
pub mod Stable
mod Heads
pub mod RoundTrip
mod Tests
use cbcl_rs.Prelude.{List, Option, String, [], none, some, ◌∷◌}
use cbcl_rs.Sexpr.{SExpr}

pub data CausedBy : Type 0 where
  begin : CausedBy
  single : String → CausedBy
  multiple : List String → CausedBy

pub data CorePerformative : Type 0 where
  tell ask reply error ok cancel hello bye : CorePerformative

abbrev pub as_str : CorePerformative → String
as_str tell = "tell"
as_str ask = "ask"
as_str reply = "reply"
as_str error = "error"
as_str ok = "ok"
as_str cancel = "cancel"
as_str hello = "hello"
as_str bye = "bye"

pub data Performative : Type 0 where
  core : CorePerformative → Performative
  custom : String → Performative

abbrev pub name : Performative → String
name (core c) = as_str c
name (custom s) = s

-- A set of recipients is the list of its members in their order.
pub data Recipients : Type 0 where
  one : String → Recipients
  set : List String → Recipients

abbrev pub as_set : Recipients → List String
as_set (one r) = r ∷ []
as_set (set rs) = rs

pub data WrapperType : Type 0 where
  envelope signed with_limits with_roles : WrapperType

-- The fields of `simple`: performative, recipient, content, params, thread, sender, caused_by.
pub data Message : Type 0 where
  simple :
      Performative
      → Option Recipients
      → SExpr
      → List SExpr
      → Option String
      → Option String
      → Option CausedBy
      → Message
  meta : SExpr → Message
  dialect : String → Message → Message
  wrapped : WrapperType → List SExpr → Message → Message

unfoldable pub performative : Message → Option Performative
performative (simple p r c ps t s cb) = some p
performative _ = none

unfoldable pub recipient_set : Message → List String
recipient_set (simple p (some r) c ps t s cb) = as_set r
recipient_set _ = []

unfoldable pub thread : Message → Option String
thread (simple p r c ps t s cb) = t
thread _ = none

unfoldable pub caused_by : Message → Option CausedBy
caused_by (simple p r c ps t s cb) = cb
caused_by _ = none

-- The simple message under the wrappers and the dialect scopes, if there is one.
unfoldable pub innermost_simple : Message → Option Message
innermost_simple (simple p r c ps t s cb) = some (simple p r c ps t s cb)
innermost_simple (wrapped w ps m) = innermost_simple m
innermost_simple (dialect d m) = innermost_simple m
innermost_simple (meta d) = none

unfoldable pub wrapper_type : Message → Option WrapperType
wrapper_type (wrapped w ps m) = some w
wrapper_type _ = none

-- The hashes that a causal reference names.
unfoldable pub refs : Option CausedBy → List String
refs none = []
refs (some begin) = []
refs (some (single h)) = h ∷ []
refs (some (multiple hs)) = hs
