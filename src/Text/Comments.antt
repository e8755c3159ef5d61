-- ===== src/Text/Comments.antt =====
-- `strip_c_comments`. A position that is `none` is `npos`, and so is a count.
pub mod Scanner
pub mod Places
pub mod Found
pub mod Strip
use cpp_tools.Base.{
  ltb, ℕ, zero, suc, ◌+◌, ◌-◌, ◌≤◌, ◌<◌, true, false, ◌&&◌, List, [], ◌∷◌, ◌++◌, Option, none, some,
  ◌==◌, ◌≡◌, refl, arith, inl, inr, if◌then◌else◌, length, take, drop, get_elem?, length-drop,
  Bool-cases, Option-cases,
}
use cpp_tools.Base.Run.{Run, done, throws, no_fuel, ◌>>=◌}
use cpp_tools.Text.Chars.{Text, lf}
use cpp_tools.Text.Contains.{count}

abbrev pub ahead : Option ℕ → ℕ → Option ℕ
ahead none n = none
ahead (some i) n = some (i + n)

abbrev pub index_of : ℕ → Text → Option ℕ
index_of c [] = none
index_of c (x ∷ s) = let rest = index_of c s in if x == c then some 0 else ahead rest 1

abbrev pub index_of_end : Text → Option ℕ
index_of_end [] = none
index_of_end (x ∷ []) = none
index_of_end (x ∷ y ∷ s) =
    let rest = index_of_end (y ∷ s) in if x == b'*' && y == b'/' then some 0 else ahead rest 1

-- `str.find(c, pos)` and `str.find("*/", pos)`
unfoldable pub find : ℕ → Text → ℕ → Option ℕ
find c s pos = ahead (index_of c (drop pos s)) pos

unfoldable pub find_end : Text → ℕ → Option ℕ
find_end s pos = ahead (index_of_end (drop pos s)) pos

-- What `at` and `erase` throw for a position behind the end of the string.
pub data OutOfRange : Type 0 where
  out_of_range : OutOfRange

abbrev pub at_or_throw {ℓ} : {A : Type ℓ} → Option A → Run OutOfRange A
at_or_throw none = throws out_of_range
at_or_throw (some a) = done a

-- What the byte behind a slash makes of it.
pub data Slash : Type 0 where
  line : Slash
  block : Slash
  other : Slash

abbrev pub slash : ℕ → Slash
slash c = if c == b'/' then line else if c == b'*' then block else other

abbrev pub Range : Type 0
Range = ℕ × Option ℕ

-- What the loop does with a slash at `pos`, and `again` from there on.
abbrev pub behind_slash :
    (Option ℕ → Run OutOfRange (List Range)) → Text → ℕ → Slash → Run OutOfRange (List Range)
behind_slash again s pos other = again (find b'/' s (pos + 1))
behind_slash again s pos line = elim (find lf s (pos + 2)) [
  | none ↦ done ((pos, none) ∷ [])
  | some e ↦ do rest ← again (find b'/' s (e + 1)); done ((pos, some (e - pos)) ∷ rest)
]
behind_slash again s pos block = elim (find_end s (pos + 2)) [
  | none ↦ done ((pos, none) ∷ [])
  | some e ↦ do rest ← again (find b'/' s (e + 3)); done ((pos, some (e - pos + 2)) ∷ rest)
]

-- The loop that finds the comments; `none` ends it.
unfoldable pub comments : ℕ → Text → Option ℕ → Run OutOfRange (List Range)
comments zero s pos = no_fuel
comments (suc k) s none = done []
comments (suc k) s (some pos) = elim (pos + 1 == length s) [
  | true ↦ done []
  | false ↦ do c ← at_or_throw (get_elem? s (pos + 1)); behind_slash (comments k s) s pos (slash c)
]

-- `str.erase(pos, count)`, which takes out what there is of the count.
abbrev pub erase : Text → Range → Run OutOfRange Text
erase s (pos, amount) =
    if ltb (length s) pos
    then throws out_of_range
    else elim amount [ none ↦ done (take pos s) | some n ↦ done (take pos s ++ drop (pos + n) s) ]

-- The last range is erased first.
abbrev pub erase_ranges : Text → List Range → Run OutOfRange Text
erase_ranges s [] = done s
erase_ranges s (r ∷ rs) = do t ← erase_ranges s rs; erase t r

unfoldable pub strip_c_comments : Text → Run OutOfRange Text
unfolding comments find
strip_c_comments s = do ranges ← comments (suc (length s)) s (find b'/' s 0); erase_ranges s ranges
