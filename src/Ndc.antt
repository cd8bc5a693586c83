-- ===== src/Ndc.antt =====
-- src/ndc.cxx: the nested diagnostic context of a thread.
--
-- The stack is a list with the innermost context first.
pub mod Messages
use log4cplus.Common.{
  ℕ, ◌+◌, Bool, true, false, Option, none, some, List, [], ◌∷◌, ◌++◌, Text, codes, length, ltb,
  if◌then◌else◌,
}

pub record DiagnosticContext : Type 0 where
  pub message : Text
  pub full_message : Text

-- `init_full_message`
unfoldable pub init_full_message : Text → Option DiagnosticContext → Text
init_full_message message none = message
init_full_message message (some parent) = parent.full_message ++ (codes " " ++ message)

abbrev pub new_context : Text → Option DiagnosticContext → DiagnosticContext
new_context message parent = record {
  message = message;
  full_message = init_full_message message parent;
}

abbrev pub Stack : Type 0
Stack = List DiagnosticContext

abbrev pub clear : Stack → Stack
clear s = []

-- `inherit`: the stack of another thread, copied by `cloneStack`, replaces this one.
abbrev pub inherit : Stack → Stack → Stack
inherit stack s = stack

unfoldable pub get : Stack → Text
get [] = []
get (dc ∷ s) = dc.full_message

abbrev pub get_depth : Stack → ℕ
get_depth s = length s

unfoldable pub pop : Stack → Text × Stack
pop [] = ([], [])
pop (dc ∷ s) = (dc.message, s)

unfoldable pub pop_void : Stack → Stack
pop_void [] = []
pop_void (dc ∷ s) = s

unfoldable pub peek : Stack → Text
peek [] = []
peek (dc ∷ s) = dc.message

-- `push_worker`
unfoldable pub push : Text → Stack → Stack
unfolding init_full_message
push message [] = new_context message none ∷ []
push message (dc ∷ s) = new_context message (some dc) ∷ dc ∷ s

-- The loop of `setMaxDepth`.
unfoldable pub set_max_depth : ℕ → Stack → Stack
set_max_depth max_depth [] = []
set_max_depth max_depth (dc ∷ s) =
    let rest = set_max_depth max_depth s in if ltb max_depth (length (dc ∷ s)) then rest else dc ∷ s
