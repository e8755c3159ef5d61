-- ===== src/Cli/Arguments/Values/Has.antt =====
-- `has`, for a name of which either form may be left out.
use cpp_tools.Base.{ℕ, Bool, true, List, ◌==◌, ◌&&◌, ◌||◌, not, ◌≡◌, arith}
use cpp_tools.Base.Run.{done}
use cpp_tools.Text.Chars.{Text, text_eq_self}
use cpp_tools.Text.Tokens.{is_empty}
use cpp_tools.Cli.Arguments.{ArgumentName}
use cpp_tools.Cli.Arguments.Values.{
  ValueMap, insert, first_short, first_long, find_short_name, find_long_name, find_name, has_name,
  is_some,
}
use cpp_tools.Cli.Arguments.Values.Map.{first_short-insert, first_long-insert}

abbrev pub holds_short : ℕ → ValueMap → Bool
holds_short c m = not (c == 0) && is_some (first_short c m)

abbrev pub holds_long : Text → ValueMap → Bool
holds_long s m = not (is_empty s) && is_some (first_long s m)

-- The map has a name when an entry has its short name or its long name.
abbrev pub holds : ArgumentName → ValueMap → Bool
holds n m = holds_short n.short_name m || holds_long n.long_name m

abbrev pub is_named : ArgumentName → Bool
is_named n = not (is_empty n.long_name && n.short_name == 0)

-- `has` says of a name whether an entry has its short name, where it has one, or its long name, where it
-- has one.
pub has_name-holds :
    (n : ArgumentName) (m : ValueMap) → is_named n ≡ true → has_name n m ≡ done (holds n m)
unfolding has_name find_name find_short_name find_long_name
has_name-holds n m h = ground arith

-- An inserted name is held, and so is every name that was.
pub holds-insert :
    (n name : ArgumentName) (values : List Text) (m : ValueMap)
    → holds n m ≡ true
    → holds n (insert name values m) ≡ true
holds-insert n name values m h = ground (
  arith,
  first_short-insert n.short_name name values m,
  first_long-insert n.long_name name values m,
)

pub holds-insert_self :
    (name : ArgumentName) (values : List Text) (m : ValueMap)
    → is_named name ≡ true
    → holds name (insert name values m) ≡ true
holds-insert_self name values m h = ground (
  arith,
  text_eq_self name.long_name,
  first_short-insert name.short_name name values m,
  first_long-insert name.long_name name values m,
)
