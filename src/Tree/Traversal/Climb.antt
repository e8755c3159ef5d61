-- ===== src/Tree/Traversal/Climb.antt =====
-- The climb out of a finished subtree: where it leads, given enough rounds.
use cpp_tools.Base.{ℕ, zero, suc, ◌≤◌, Bool, true, false, Option, none, some, ◌≡◌, arith}
use cpp_tools.Base.Result.{Result, ok}
use cpp_tools.Tree.Store.{Ptr, Node, Heap, load}
use cpp_tools.Tree.Traversal.{climb, beyond}

module _ {ℓ} {T : Type ℓ} (test : Heap T → Ptr → Result Bool) (sibling : Heap T → Ptr → Result Ptr)
    (h : Heap T) where
  -- From `p` the climb leads to `e`, within `d` rounds.
  abbrev pub Exits : ℕ → Ptr → Option Ptr → Type 0
  Exits d p e = (k : ℕ) → d ≤ k → beyond test sibling k h p ≡ ok e

  pub Exits-root : {p : Ptr} (n : Node T) → h p ≡ some n → n.parent ≡ none → Exits 1 p none
  unfolding climb beyond load
  Exits-root n here top zero le = absurd (omega arith)
  Exits-root n here top (suc k) le = rw (here, top, here, top)

  pub Exits-up :
      {p q : Ptr} {d : ℕ} {e : Option Ptr} (n : Node T)
      → h p ≡ some n
      → n.parent ≡ some q
      → test h p ≡ ok true
      → Exits d q e
      → Exits (suc d) p e
  unfolding climb beyond load
  Exits-up n here up more exit zero le = absurd (omega arith)
  Exits-up n here up more exit (suc k) le = rw (here, up, more) (exit k (omega arith))

  pub Exits-stop :
      {p q s : Ptr} (d : ℕ) (n : Node T)
      → h p ≡ some n
      → n.parent ≡ some q
      → test h p ≡ ok false
      → sibling h p ≡ ok s
      → Exits (suc d) p (some s)
  unfolding climb beyond load
  Exits-stop d n here up more next zero le = absurd (omega arith)
  Exits-stop d n here up more next (suc k) le = rw (here, up, more, here, up, next)
