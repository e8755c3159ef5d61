-- ===== src/Cli/Shell/Names.antt =====
-- The names of a shell's commands.
use cpp_tools.Base.{
  true, false, List, [], ◌∷◌, Option, none, some, ◌≡◌, ◌⊎◌, refl, inl, inr, arith, Bool-cases,
  Option-cases, length, ◌≤◌, if◌then◌else◌,
}
use cpp_tools.Base.Run.{Run, done, throws, undefined, no_fuel, eq_of_done}
use mathlib.Core.Path.{subst}
use cpp_tools.Text.Chars.{Text, codes, text_eq, All}
use cpp_tools.Cli.TextMap.{TextMap, find, insert, erase}
use cpp_tools.Cli.TextMap.Laws.{
  Sorted, find-insert, find-erase, insert-cases, insert-Sorted, erase-Sorted,
}
use cpp_tools.Cli.Shell.{
  Command, Shell, Thrown, invalid_value, is_forbidden_command_name, shell, add_command,
  remove_command, set_exit_command, clear_commands,
}

module _ {ℓ} (Context : Type ℓ) where
  -- A call that changes the commands.
  pub data Change : Type ℓ where
    adds : Command Context → Change
    removes : Text → Change
    sets_exit : Option (Command Context) → Change
    clears : Change

module _ {ℓ} {Context : Type ℓ} where
  -- An entry of the map: its key is the command's name, and no keyword.
  abbrev pub IsNamed : Text × Command Context → Type 0
  IsNamed e = (e.1.name ≡ e.0) × (is_forbidden_command_name e.0 ≡ false)

  pub record IsValid (sh : Shell Context) : Type ℓ where
    pub sorted : Sorted sh.commands
    pub named : All IsNamed sh.commands

  All-insert :
      (c : Command Context) (m : TextMap (Command Context))
      → is_forbidden_command_name c.name ≡ false
      → All IsNamed m
      → All IsNamed (insert c.name c m)
  unfolding insert
  All-insert c [] fine named = ((refl, fine), tt)
  All-insert c ((j, w) ∷ m) fine named = elim (insert-cases c.name c j w m) [
    | inl (lower, e) ↦ rw e ((refl, fine), named)
    | inr more ↦ elim more [
      | inl (same, e) ↦ rw e named
      | inr (higher, e) ↦ rw e (named.0, All-insert c m fine named.1)
    ]
  ]

  All-erase :
      (name : Text) (m : TextMap (Command Context)) → All IsNamed m → All IsNamed (erase name m)
  unfolding erase
  All-erase name [] named = tt
  All-erase name (e ∷ m) named = elim (Bool-cases (text_eq e.0 name)) [
    | inl same ↦ rw same named.1
    | inr other ↦ rw other (named.0, All-erase name m named.1)
  ]

  -- The shell with a command more, as a function of the name.
  pub record Added (c : Command Context) (sh sh' : Shell Context) : Type ℓ where
    pub not_keyword : is_forbidden_command_name c.name ≡ false
    pub was_free : find c.name sh.commands ≡ none
    pub names :
        (name : Text)
        → find name sh'.commands ≡ (if text_eq c.name name then some c else find name sh.commands)
    pub same_exit : sh'.exit_command ≡ sh.exit_command

  -- And with one less.
  pub record Removed (name : Text) (c : Command Context) (sh sh' : Shell Context) : Type ℓ where
    pub was_there : find name sh.commands ≡ some c
    pub names :
        (other : Text)
        → find other sh'.commands ≡ (if text_eq name other then none else find other sh.commands)
    pub same_exit : sh'.exit_command ≡ sh.exit_command

  -- `add_command` takes a command whose name is free and no keyword, and throws at any other.
  pub add_command-Added :
      (c : Command Context) (sh : Shell Context)
      → ((sh' : Shell Context) × (add_command c sh ≡ done sh') × Added c sh sh')
        ⊎ ((add_command c sh ≡ throws (invalid_value (codes "command") c.name))
            × ((is_forbidden_command_name c.name ≡ true)
                ⊎ ((c' : Command Context) × (find c.name sh.commands ≡ some c'))))
  unfolding add_command
  add_command-Added c sh = elim (Bool-cases (is_forbidden_command_name c.name)) [
    | inl keyword ↦ inr (rw keyword, inl keyword)
    | inr fine ↦ elim (Option-cases (find c.name sh.commands)) [
      | inr (c', found) ↦ inr (rw (fine, found), inr (c', found))
      | inl free ↦ inl (
        record sh { commands = insert c.name c sh.commands },
        rw (fine, free),
        record {
          not_keyword = fine;
          was_free = free;
          names = λ name. find-insert c.name c sh.commands name free;
          same_exit = refl;
        },
      )
    ]
  ]

  -- `remove_command` gives back the command of that name and leaves the others, and throws where there is
  -- none.
  pub remove_command-Removed :
      (name : Text) (sh : Shell Context)
      → IsValid sh
      → ((c : Command Context) × (sh' : Shell Context) × (remove_command name sh ≡ done (c, sh'))
          × Removed name c sh sh')
        ⊎ ((remove_command name sh ≡ throws (invalid_value (codes "name") name))
            × (find name sh.commands ≡ none))
  unfolding remove_command
  remove_command-Removed name sh valid = elim (Option-cases (find name sh.commands)) [
    | inl free ↦ inr (rw free, free)
    | inr (c, found) ↦ inl (
      c,
      record sh { commands = erase name sh.commands },
      rw found,
      record {
        was_there = found;
        names = λ other. find-erase name sh.commands other valid.sorted;
        same_exit = refl;
      },
    )
  ]

  abbrev pub kept :
      {A : Type ℓ} → Run Thrown A → (A → Shell Context) → Shell Context → Shell Context
  kept (done a) f sh = f a
  kept (throws error) f sh = sh
  kept undefined f sh = sh
  kept no_fuel f sh = sh

  -- The shell behind a call; a call that throws leaves it as it was.
  abbrev pub change : Change Context → Shell Context → Shell Context
  change (adds c) sh = kept (add_command c sh) (λ sh'. sh') sh
  change (removes name) sh = kept (remove_command name sh) (λ r. r.1) sh
  change (sets_exit c) sh = (set_exit_command c sh).1
  change clears sh = clear_commands sh

  abbrev pub changes : List (Change Context) → Shell Context → Shell Context
  changes [] sh = sh
  changes (ch ∷ chs) sh = changes chs (change ch sh)

  change-IsValid : (ch : Change Context) (sh : Shell Context) → IsValid sh → IsValid (change ch sh)
  unfolding add_command remove_command set_exit_command clear_commands
  change-IsValid (adds c) sh valid = elim (Bool-cases (is_forbidden_command_name c.name)) [
    | inl keyword ↦ rw keyword valid
    | inr fine ↦ elim (Option-cases (find c.name sh.commands)) [
      | inr (c', found) ↦ rw (fine, found) valid
      | inl free ↦
          rw (fine, free)
            (record {
              sorted = insert-Sorted c.name c sh.commands valid.sorted;
              named = All-insert c sh.commands fine valid.named;
            })
    ]
  ]
  change-IsValid (removes name) sh valid = elim (Option-cases (find name sh.commands)) [
    | inl free ↦ rw free valid
    | inr (c, found) ↦ rw found (record {
      sorted = erase-Sorted name sh.commands valid.sorted;
      named = All-erase name sh.commands valid.named;
    })
  ]
  change-IsValid (sets_exit c) sh valid = record { sorted = valid.sorted; named = valid.named }
  change-IsValid clears sh valid = record { sorted = tt; named = tt }

  shell-one :
      (cs : List (Command Context)) (exit : Option (Command Context)) (sh : Shell Context)
      → shell cs exit ≡ done sh
      → (length cs ≤ 1) × IsValid sh
  unfolding shell insert erase
  shell-one [] exit sh e =
      (omega arith, subst IsValid (eq_of_done e) (record { sorted = tt; named = tt }))
  shell-one (c ∷ []) exit sh e = elim (Bool-cases (is_forbidden_command_name c.name)) [
    | inl keyword ↦ absurd (ground arith)
    | inr fine ↦ (
      omega arith,
      subst IsValid (eq_of_done (rw fine at e))
          (record { sorted = (tt, tt); named = ((refl, fine), tt) }),
    )
  ]
  shell-one (c ∷ d ∷ cs) exit sh e = elim (Bool-cases (is_forbidden_command_name c.name)) [
    | inl keyword ↦ absurd (ground arith)
    | inr fine ↦ elim (Bool-cases (is_forbidden_command_name d.name)) [
      | inl keyword ↦ absurd (ground arith)
      | inr fine' ↦ absurd (ground arith)
    ]
  ]

  changes-IsValid :
      (chs : List (Change Context)) (sh : Shell Context) → IsValid sh → IsValid (changes chs sh)
  changes-IsValid [] sh valid = valid
  changes-IsValid (ch ∷ chs) sh valid =
      changes-IsValid chs (change ch sh) (change-IsValid ch sh valid)

  -- A constructor that returns was given at most one command: with a second name it searches in a set of
  -- views of strings that are gone, unless it has thrown at a keyword. The shell that it returns, and the
  -- shell behind any calls of `add_command`, `remove_command`, `set_exit_command` and `clear_commands`, has
  -- its commands under their own names, in order and each once, and none under a keyword.
  pub shell-changes-IsValid :
      (cs : List (Command Context)) (exit : Option (Command Context)) (sh : Shell Context)
      (chs : List (Change Context))
      → shell cs exit ≡ done sh
      → (length cs ≤ 1) × IsValid (changes chs sh)
  shell-changes-IsValid cs exit sh chs e =
      let (one, valid) = shell-one cs exit sh e in (one, changes-IsValid chs sh valid)
