-- ===== src/Tree/Node/Merge/Steps.antt =====
-- `merge_child` as the sequence of its loops.
use cpp_tools.Base.{
  ℕ, ◌+◌, ◌-◌, List, [], ◌∷◌, ◌++◌, Option, some, ◌==◌, ◌≡◌, ◌≢◌, length, take, drop, if◌then◌else◌,
}
use cpp_tools.Base.Result.{ok}
use cpp_tools.Tree.Store.{Ptr, node, Heap, load, write, write_self, write_ne}
use cpp_tools.Tree.Node.{release_children}
use cpp_tools.Tree.Node.Merge.{adopt_in_place, renumber, merge_child}
use cpp_tools.Tree.Node.Merge.Slots.{get_elem?-middle}

module _ {ℓ} {T : Type ℓ} where
  -- The steps of `merge_child`, where both loops return.
  pub merge_child_lem :
      (merge : T → T → T) (h h2 h4 : Heap T) (this n : Ptr) (v w : T) (q : Option Ptr) (i : ℕ)
      (l b r : List Ptr)
      → h this ≡ some (node v q i (l ++ n ∷ r))
      → h n ≡ some (node w (some this) (length l) b)
      → this ≢ n
      → adopt_in_place
          (write h n (some (node w (some this) (length l) [])))
          this
          (length l)
          (length l)
          b
          (l ++ n ∷ r)
        ≡ ok (h2, l ++ (b ++ r))
      → h2 this ≡ some (node v q i (l ++ n ∷ r))
      → let children = l ++ (b ++ r) in
        let start = if length l == 0 then length b else length l in
        let end = if length b == 1 then length l + length b else length children in
        renumber
            (write h2 this (some (node v q i children)))
            (take (end - start) (drop start children))
            start
          ≡ ok h4
        → h4 this ≡ some (node v q i (l ++ (b ++ r)))
        → h4 n ≡ some (node w (some this) (length l) [])
        → merge_child merge h this (length l)
          ≡ ok (write h4 this (some (node (merge v w) q i (l ++ (b ++ r)))))
  unfolding merge_child release_children load
  merge_child_lem merge h h2 h4 this n v w q i l b r at_this at_n differ run2 at_this2 run4 at_this4
        at_n4 =
      rw (
        at_this,
        get_elem?-middle l n r,
        at_n,
        write_ne h n this (some (node w (some this) (length l) [])) differ,
        at_this,
        write_self h n (some (node w (some this) (length l) [])),
        run2,
        at_this2,
        run4,
        at_this4,
        at_n4,
      )
