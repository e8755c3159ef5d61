-- ===== src/Cli/Arguments/Parse/Plain.antt =====
-- Names with their values, written to a command line, are read back without specifications.
use cpp_tools.Base.{
  ℕ, zero, suc, ◌<◌, true, false, List, [], ◌∷◌, ◌++◌, ◌==◌, ◌≡◌, refl, arith, length,
  length-append,
}
use cpp_tools.Base.Run.{done}
use cpp_tools.Text.Chars.{Text, All}
use cpp_tools.Cli.Arguments.{ArgumentName}
use cpp_tools.Cli.Arguments.Values.{ValueMap, insert}
use cpp_tools.Cli.Arguments.Parse.{
  starts_dash, take_values, long_only, short_only, plain_loop, parse_plain,
}

pub data Flag : Type 0 where
  long_flag : Text → Flag
  short_flag : ℕ → Flag

abbrev pub write_flag : Flag → Text
write_flag (long_flag s) = b'-' ∷ b'-' ∷ s
write_flag (short_flag c) = b'-' ∷ c ∷ []

abbrev pub flag_name : Flag → ArgumentName
flag_name (long_flag s) = long_only s
flag_name (short_flag c) = short_only c

-- A short flag is no dash, and no value begins with one.
abbrev pub IsFlag : Flag → Type 0
IsFlag (long_flag s) = Unit
IsFlag (short_flag c) = (c == b'-') ≡ false

abbrev pub IsValue : Text → Type 0
IsValue s = starts_dash s ≡ false

abbrev pub Given : Type 0
Given = Flag × List Text

abbrev pub IsGiven : Given → Type 0
IsGiven (f, values) = IsFlag f × All IsValue values

abbrev pub write_plain : List Given → List Text
write_plain [] = []
write_plain ((f, values) ∷ more) = write_flag f ∷ (values ++ write_plain more)

-- The map with every flag's values, the later ones over the earlier.
abbrev pub fill_plain : List Given → ValueMap → ValueMap
fill_plain [] m = m
fill_plain ((f, values) ∷ more) m = fill_plain more (insert (flag_name f) values m)

-- A command line that is at its end or goes on with a dash.
abbrev Stops : List Text → Type 0
Stops [] = Unit
Stops (a ∷ rest) = starts_dash a ≡ true

take_values-append :
    (values rest : List Text)
    → All IsValue values
    → Stops rest
    → take_values (values ++ rest) ≡ (values, rest)
take_values-append [] [] all stops = refl
take_values-append [] (a ∷ rest) all stops = rw stops
take_values-append (v ∷ values) rest all stops =
    rw (all.0, take_values-append values rest all.1 stops)

write_plain-Stops : (given : List Given) → Stops (write_plain given)
write_plain-Stops [] = tt
write_plain-Stops ((long_flag s, values) ∷ more) = refl
write_plain-Stops ((short_flag c, values) ∷ more) = refl

plain_loop-write :
    (k : ℕ) (given : List Given) (m : ValueMap) (out : Text)
    → All IsGiven given
    → length (write_plain given) < k
    → plain_loop k (write_plain given) m out ≡ done (fill_plain given m, out)
unfolding plain_loop
plain_loop-write zero given m out all enough = absurd (omega arith)
plain_loop-write (suc k) [] m out all enough = refl
plain_loop-write (suc k) ((long_flag s, values) ∷ more) m out all enough =
    let left : length (write_plain more) < k =
      omega (arith, length-append values (write_plain more)) in
    rw (take_values-append values (write_plain more) all.0.1 (write_plain-Stops more))
      (plain_loop-write k more (insert (long_only s) values m) out all.1 left)
plain_loop-write (suc k) ((short_flag c, values) ∷ more) m out all enough =
    let left : length (write_plain more) < k =
      omega (arith, length-append values (write_plain more)) in
    rw
      (
        plain_loop,
        all.0.0,
        take_values-append values (write_plain more) all.0.1 (write_plain-Stops more),
      )
      (plain_loop-write k more (insert (short_only c) values m) out all.1 left)

-- A command line of flags with their values is parsed into the map of those values, the later ones over
-- the earlier, and no warning is written. A short flag is no dash, and no value begins with one.
pub parse_plain-write :
    (program : Text) (given : List Given) (out : Text)
    → All IsGiven given
    → parse_plain (program ∷ write_plain given) out ≡ done (fill_plain given [], out)
unfolding parse_plain
parse_plain-write program given out all =
    plain_loop-write (suc (suc (length (write_plain given)))) given [] out all (omega arith)
