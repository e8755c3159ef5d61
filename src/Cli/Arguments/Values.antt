-- ===== src/Cli/Arguments/Values.antt =====
-- `basic_argument_value_map`: a `std::map` from names to values, as the list of its entries in order.
pub mod Map
pub mod Has
use Prim.Native.Nat.{compare, Ordering}
use Prim.Native.Nat.Ordering.{lt, eq, gt}
use cpp_tools.Base.{
  ℕ, Bool, true, false, List, [], ◌∷◌, Option, none, some, ◌==◌, ◌&&◌, if◌then◌else◌,
}
use cpp_tools.Base.Run.{Run, done, throws, ◌>>=◌}
use cpp_tools.Text.Chars.{Text, text_eq}
use cpp_tools.Text.Tokens.{is_empty}
use cpp_tools.Cli.Arguments.{ArgumentName, Thrown, null_parameter, no_such_element, name_eq}

abbrev pub Entry : Type 0
Entry = ArgumentName × List Text

abbrev pub ValueMap : Type 0
ValueMap = List Entry

abbrev pub compare_text : Text → Text → Ordering
compare_text [] [] = eq
compare_text [] (y ∷ t) = lt
compare_text (x ∷ s) [] = gt
compare_text (x ∷ s) (y ∷ t) = elim (compare x y) [ lt ↦ lt | gt ↦ gt | eq ↦ compare_text s t ]

-- `operator<=>` of names, which compares the members in order.
abbrev pub compare_name : ArgumentName → ArgumentName → Ordering
compare_name n m = elim (compare_text n.long_name m.long_name) [
  | lt ↦ lt
  | gt ↦ gt
  | eq ↦ compare n.short_name m.short_name
]

-- `std::map::insert_or_assign`
unfoldable pub insert : ArgumentName → List Text → ValueMap → ValueMap
insert name values [] = (name, values) ∷ []
insert name values ((n, v) ∷ m) =
    let rest = insert name values m in
    elim (compare_name name n) [
      | lt ↦ (name, values) ∷ (n, v) ∷ m
      | eq ↦ (n, values) ∷ m
      | gt ↦ (n, v) ∷ rest
    ]

abbrev pub first_short : ℕ → ValueMap → Option Entry
first_short c [] = none
first_short c ((n, v) ∷ m) =
    let rest = first_short c m in if n.short_name == c then some (n, v) else rest

abbrev pub first_long : Text → ValueMap → Option Entry
first_long s [] = none
first_long s ((n, v) ∷ m) =
    let rest = first_long s m in if text_eq n.long_name s then some (n, v) else rest

unfoldable pub find_short_name : ℕ → ValueMap → Run Thrown (Option Entry)
find_short_name c m = if c == 0 then throws null_parameter else done (first_short c m)

unfoldable pub find_long_name : Text → ValueMap → Run Thrown (Option Entry)
find_long_name s m = if is_empty s then throws null_parameter else done (first_long s m)

abbrev pub no_name : ArgumentName
no_name = record { long_name = []; short_name = 0 }

unfoldable pub find_name : ArgumentName → ValueMap → Run Thrown (Option Entry)
unfolding find_short_name find_long_name
find_name n m = if name_eq n no_name then throws null_parameter else do
  it ← if n.short_name == 0 then done none else find_short_name n.short_name m
  elim it [
    | some e ↦ done (some e)
    | none ↦ if is_empty n.long_name then done none else find_long_name n.long_name m
  ]

-- `operator[]`, on what the search has found.
abbrev pub value_of : Option Entry → Run Thrown (List Text)
value_of none = throws no_such_element
value_of (some (n, v)) = done v

unfoldable pub at_short : ℕ → ValueMap → Run Thrown (List Text)
unfolding find_short_name
at_short c m = do it ← find_short_name c m; value_of it

unfoldable pub at_long : Text → ValueMap → Run Thrown (List Text)
unfolding find_long_name
at_long s m = do it ← find_long_name s m; value_of it

unfoldable pub at_name : ArgumentName → ValueMap → Run Thrown (List Text)
unfolding find_name
at_name n m = do it ← find_name n m; value_of it

abbrev pub is_some : Option Entry → Bool
is_some none = false
is_some (some e) = true

unfoldable pub has_short : ℕ → ValueMap → Run Thrown Bool
unfolding find_short_name
has_short c m = do it ← find_short_name c m; done (is_some it)

unfoldable pub has_long : Text → ValueMap → Run Thrown Bool
unfolding find_long_name
has_long s m = do it ← find_long_name s m; done (is_some it)

unfoldable pub has_name : ArgumentName → ValueMap → Run Thrown Bool
unfolding find_name
has_name n m = do it ← find_name n m; done (is_some it)

-- `std::map::erase`, at what the search has found.
abbrev pub erase_key : ArgumentName → ValueMap → ValueMap
erase_key name [] = []
erase_key name ((n, v) ∷ m) =
    let rest = erase_key name m in if name_eq n name then m else (n, v) ∷ rest

abbrev pub erase_found : Option Entry → ValueMap → Run Thrown ValueMap
erase_found none m = throws no_such_element
erase_found (some (n, v)) m = done (erase_key n m)

unfoldable pub erase_short : ℕ → ValueMap → Run Thrown ValueMap
unfolding find_short_name
erase_short c m = do it ← find_short_name c m; erase_found it m

unfoldable pub erase_long : Text → ValueMap → Run Thrown ValueMap
unfolding find_long_name
erase_long s m = do it ← find_long_name s m; erase_found it m
