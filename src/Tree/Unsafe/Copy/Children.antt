-- ===== src/Tree/Unsafe/Copy/Children.antt =====
-- Copying the trees of a forest below a node.
use cpp_tools.Base.{
  ℕ, suc, ◌+◌, ◌≤◌, [], ◌∷◌, ◌++◌, Option, some, ◌≡◌, ◌≢◌, refl, sym, ap, ◌∙◌, arith, length,
  append-nil,
}
use cpp_tools.Base.Result.{Result, ok}
use cpp_tools.Tree.Store.{Ptr, Node, node, Heap, load, write, write_self, write_ne}
use cpp_tools.Tree.Forest.{Forest, nil, tree, roots, times, node_count, Holds}
use cpp_tools.Tree.Node.{make}
use cpp_tools.Tree.Graft.{linked, linked-other, linked-child, linked-parent}
use cpp_tools.Tree.Unsafe.{UnsafeTree}
use cpp_tools.Tree.Unsafe.Model.{count}
use cpp_tools.Tree.Unsafe.Subtree.{for_each}
use cpp_tools.Tree.Unsafe.Copy.{Building, copy_child, copy_children}
use cpp_tools.Tree.Unsafe.Copy.Copied.{copy}

module _ {ℓ} {T : Type ℓ} (fresh : ℕ → Ptr) where
  abbrev pub building : ℕ → Heap T → UnsafeTree → Building T
  building i h t = record { calls = i; heap = h; tree = t }

  -- What a call leaves that copies `g` behind the children of the node `n` at `to`, from the call `i` of
  -- the allocator on.
  pub record Copying (i : ℕ) (h : Heap T) (t : UnsafeTree) (to : Ptr) (n : Node T) (g : Forest T)
      (call : Result (Building T)) : Type ℓ where
    pub heap : Heap T
    pub tree : UnsafeTree
    pub returns : call ≡ ok (building (i + node_count g) heap tree)
    pub held : Holds heap (some to) (length n.children) (copy fresh i g)
    pub parent : heap to ≡ some (record n { children = n.children ++ roots (copy fresh i g) })
    pub frame : (a : Ptr) → a ≢ to → times a (copy fresh i g) ≡ 0 → heap a ≡ h a
    pub owned : (a : Ptr) → count a tree.nodes ≡ count a t.nodes + times a (copy fresh i g)

  -- What has to be so before: the heap holds `g`, and no address that the allocator returns is in use.
  pub record Ready (i : ℕ) (h : Heap T) (to : Ptr) (n : Node T) (q : Option Ptr) (j : ℕ)
      (g : Forest T) : Type ℓ where
    pub source : Holds h q j g
    pub at : h to ≡ some n
    pub outside : times to g ≡ 0
    pub unused : (k : ℕ) → times (fresh k) g ≡ 0
    pub later : (k : ℕ) → i ≤ k → to ≢ fresh k

  pub copy-nil :
      (i : ℕ) (h : Heap T) (t : UnsafeTree) (to : Ptr) (n : Node T)
      → h to ≡ some n
      → Copying i h t to n nil (ok (building i h t))
  copy-nil i h t to n at = record {
    heap = h;
    tree = t;
    returns = ap (λ k. ok (building k h t)) (let e : i ≡ i + 0 = omega arith in e);
    held = tt;
    parent = at ∙ ap (λ cs. some (record n { children = cs })) (sym (append-nil n.children));
    frame = λ a ne out. refl;
    owned = λ a. omega arith;
  }

  -- The children of a child: a node without any is not visited.
  pub below :
      (k i : ℕ) (h : Heap T) (t : UnsafeTree) (p c : Ptr) (v : T) (q : Option Ptr) (j : ℕ)
      (m : Node T) (kids : Forest T)
      → h p ≡ some (node v q j (roots kids))
      → Copying i h t c m kids
          (for_each (copy_child fresh (copy_children fresh k) c) (roots kids) (building i h t))
      → Copying i h t c m kids (elim (roots kids) [
        | [] ↦ ok (building i h t)
        | d ∷ ds ↦ copy_children fresh (suc k) p c (building i h t)
      ])
  unfolding copy_children load
  below k i h t p c v q j m nil at copied = copied
  below k i h t p c v q j m (tree d w more rest) at copied = rw at copied

  module _ (h : Heap T) (to c : Ptr) (n : Node T) (v : T) (at : h to ≡ some n)
      (apart : to ≢ c) where
    -- The heap with the new node, linked below `to`.
    abbrev pub with_child : Heap T
    with_child = linked (write h c (some (make v))) to n c (make v)

    abbrev pub new_node : Node T
    new_node = node v (some to) (length n.children) []

    made_at : write h c (some (make v)) to ≡ some n
    made_at = write_ne h c to (some (make v)) apart ∙ at

    other_way : c ≢ to
    other_way e = apart (sym e)

    pub with_child-new : with_child c ≡ some new_node
    with_child-new =
        linked-child (write h c (some (make v))) to c made_at (write_self h c (some (make v)))
          other_way

    pub with_child-parent : with_child to ≡ some (record n { children = n.children ++ c ∷ [] })
    with_child-parent =
        linked-parent (write h c (some (make v))) to c made_at (write_self h c (some (make v)))
          other_way

    pub with_child-other : (a : Ptr) → a ≢ to → a ≢ c → with_child a ≡ h a
    with_child-other a nt nc =
        linked-other (write h c (some (make v))) to c made_at (write_self h c (some (make v)))
          other_way a nt nc
        ∙ write_ne h c a (some (make v)) nc
