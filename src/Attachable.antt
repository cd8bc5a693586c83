-- ===== src/Attachable.antt =====
-- src/appenderattachableimpl.cxx: the appenders of a logger.
--
-- An appender is its address; `none` is the null pointer. `name` gives the names of appenders.
pub mod Members
use log4cplus.Common.{
  ℕ, Bool, true, false, Option, none, some, List, [], ◌∷◌, ◌++◌, Text, text_eq, ◌==◌, if◌then◌else◌,
}
use log4cplus.Hierarchy.Children.{mem}

unfoldable pub add_appender : Option ℕ → List ℕ → List ℕ
unfolding mem
add_appender none appender_list = appender_list
add_appender (some a) appender_list =
    if mem a appender_list then appender_list else appender_list ++ a ∷ []

unfoldable pub get_appender : (ℕ → Text) → Text → List ℕ → Option ℕ
unfolding text_eq
get_appender name key [] = none
get_appender name key (a ∷ appender_list) =
    if text_eq (name a) key then some a else get_appender name key appender_list

-- The first occurrence is erased.
unfoldable pub erase_first : ℕ → List ℕ → List ℕ
erase_first a [] = []
erase_first a (b ∷ appender_list) =
    let rest = erase_first a appender_list in if b == a then appender_list else b ∷ rest

unfoldable pub remove_appender : Option ℕ → List ℕ → List ℕ
unfolding erase_first
remove_appender none appender_list = appender_list
remove_appender (some a) appender_list = erase_first a appender_list

unfoldable pub remove_appender_named : (ℕ → Text) → Text → List ℕ → List ℕ
unfolding remove_appender get_appender
remove_appender_named name key appender_list =
    remove_appender (get_appender name key appender_list) appender_list
