-- ===== src/Tree/Unsafe/Copy/Whole.antt =====
-- `_copy_assign_contents` makes a tree that compares equal to the other one.
use cpp_tools.Base.{
  ℕ, zero, suc, ◌≤◌, ◌<◌, Bool, true, false, [], ◌∷◌, Option, none, some, ◌≡◌, refl, ap, ◌∙◌, arith,
}
use cpp_tools.Base.Result.{ok, fault}
use cpp_tools.Tree.Store.{Ptr, Node, node, Heap, load, write, write_self, write_ne}
use cpp_tools.Tree.Forest.{
  Forest, nil, tree, roots, preorder, postorder, depth, times, node_count, Holds,
}
use cpp_tools.Tree.Node.{make}
use cpp_tools.Tree.Node.Descend.{head_or, last_or, leftmost-postorder, rightmost-preorder}
use cpp_tools.Tree.Graft.Frame.{Holds-frame, ne_of_times}
use cpp_tools.Tree.Unsafe.{UnsafeTree, empty_tree, clear, make_node, release}
use cpp_tools.Tree.Unsafe.Model.{Models, count}
use cpp_tools.Tree.Unsafe.Clear.{release-other, release-owned}
use cpp_tools.Tree.Unsafe.Equality.{trees_equal}
use cpp_tools.Tree.Unsafe.Equality.Whole.{trees_equal-same_forest}
use cpp_tools.Tree.Unsafe.Copy.{copy_children, copy_below, copy_assign_contents}
use cpp_tools.Tree.Unsafe.Copy.Copied.{
  copy, copy-Distinct, depth-copy, same_forest-copy, times-copy_other,
}
use cpp_tools.Tree.Unsafe.Copy.Children.{building, Copying, Ready, below}
use cpp_tools.Tree.Unsafe.Copy.Loop.{owning, copy_children-Copying}

module _ {ℓ} {T : Type ℓ} (fresh : ℕ → Ptr) where
  -- The copy of the children of a root.
  copy_below-Copying :
      (k i : ℕ) (h : Heap T) (t : UnsafeTree) (p c : Ptr) (v : T) (q : Option Ptr) (j : ℕ)
      (m : Node T) (kids : Forest T)
      → h p ≡ some (node v q j (roots kids))
      → ((i j : ℕ) → fresh i ≡ fresh j → i ≡ j)
      → Ready fresh i h c m (some p) 0 kids
      → depth kids ≤ k
      → Copying fresh i h t c m kids
          (copy_below fresh (suc k) p c (roots kids) (building fresh i h t))
  copy_below-Copying k i h t p c v q j m kids at injective ready d = join kids (
      below fresh k i h t p c v q j m kids at
        (copy_children-Copying fresh injective k i h t c m (some p) 0 kids ready d))
    where
      join :
          (kids : Forest T)
          → Copying fresh i h t c m kids (elim (roots kids) [
            | [] ↦ ok (building fresh i h t)
            | d ∷ ds ↦ copy_children fresh (suc k) p c (building fresh i h t)
          ])
          → Copying fresh i h t c m kids
              (copy_below fresh (suc k) p c (roots kids) (building fresh i h t))
      join nil x = x
      join (tree a x b r) y = y

  module _ (injective : (i j : ℕ) → fresh i ≡ fresh j → i ≡ j) (h : Heap T) (t other : UnsafeTree)
      (g : Forest T) (p : Ptr) (v : T) (kids : Forest T) (this : Models h t g)
      (source : Models h other (tree p v kids nil))
      (apart : (a : Ptr) → 0 < times a (tree p v kids nil) → times a g ≡ 0)
      (unused : (i : ℕ) → times (fresh i) (tree p v kids nil) ≡ 0) where
    abbrev f : Forest T
    f = tree p v kids nil

    abbrev cleared : Heap T
    cleared = release h t.nodes

    abbrev with_root : Heap T
    with_root = write cleared (fresh 0) (some (make v))

    kept : (a : Ptr) → 0 < times a f → cleared a ≡ h a
    kept a l = release-other t.nodes h a (this.owned a ∙ apart a l)

    rooted : (a : Ptr) → 0 < times a f → with_root a ≡ h a
    rooted a l =
        write_ne cleared (fresh 0) a (some (make v)) (ne_of_times f l (unused 0)) ∙ kept a l

    unused_below : (i : ℕ) → times (fresh i) kids ≡ 0
    unused_below i = ground (arith, unused i)

    ready : Ready fresh 1 with_root (fresh 0) (make v) (some p) 0 kids
    ready = record {
      source = Holds-frame with_root (some p) 0 kids source.held.1 (λ a l. rooted a (ground arith));
      at = write_self cleared (fresh 0) (some (make v));
      outside = unused_below 0;
      unused = unused_below;
      later = λ k l e. absurd (omega (arith, injective 0 k e));
    }

    module _ (fuel : ℕ) (enough : depth kids ≤ fuel) where
      copying : Copying fresh 1 with_root (owning empty_tree (fresh 0)) (fresh 0) (make v) kids (
          copy_below fresh
            (suc fuel)
            p
            (fresh 0)
            (roots kids)
            (building fresh 1 with_root (owning empty_tree (fresh 0))))
      copying =
          copy_below-Copying fuel 1 with_root (owning empty_tree (fresh 0)) p (fresh 0) v none 0
            (make v) kids (rooted p (ground arith) ∙ source.held.0) injective ready enough

      abbrev copied : Forest T
      copied = copy fresh 0 f

      copied-Holds : Holds copying.heap none 0 copied
      copied-Holds = (copying.parent, copying.held, tt)

      -- What the assignment leaves of this tree.
      abbrev assigned : UnsafeTree
      assigned = record copying.tree {
        root = some (fresh 0);
        leftmost = some (head_or (postorder (copy fresh 1 kids)) (fresh 0));
        rightmost = some (last_or (preorder (copy fresh 1 kids)) (fresh 0));
      }

      assigned-Models : Models copying.heap assigned copied
      assigned-Models = record {
        held = copied-Holds;
        distinct = copy-Distinct fresh injective 0 f;
        owned = λ a. ground (arith, copying.owned a);
        points = (refl, refl, refl);
      }

      source-Models : Models copying.heap other f
      source-Models = record {
        held = Holds-frame copying.heap none 0 f source.held (λ a l.
            copying.frame a (ne_of_times f l (unused 0))
              (times-copy_other fresh a 1 kids (λ j l'. ne_of_times f l (unused j)))
            ∙ rooted a l);
        distinct = source.distinct;
        owned = source.owned;
        points = source.points;
      }

      returns : copy_assign_contents fresh (suc fuel) h t (some p) ≡ ok (copying.heap, assigned)
      unfolding copy_assign_contents load make_node clear
      returns =
          let small : depth (copy fresh 1 kids) < suc fuel =
            omega (arith, depth-copy fresh 1 kids) in
          let at : 0 < times p f = ground arith in
          rw
            (
              kept p at,
              source.held.0,
              rooted p at,
              source.held.0,
              copying.returns,
              leftmost-postorder copying.heap (suc fuel) (fresh 0) v (copy fresh 1 kids) nil
                  copied-Holds small,
              rightmost-preorder copying.heap (suc fuel) (fresh 0) v (copy fresh 1 kids) nil
                  copied-Holds small,
            )
            refl

module _ {ℓ} {T : Type ℓ} (fresh : ℕ → Ptr) (eq : T → T → Bool) where
  -- A copy beside its source: both stand for their forests, and compare equal.
  pub record IsCopy (h : Heap T) (t other : UnsafeTree) (f : Forest T) : Type ℓ where
    pub copied : Models h t (copy fresh 0 f)
    pub source : Models h other f
    pub equal : trees_equal eq h (node_count f) false other t ≡ ok true

  IsCopy-of :
      (h : Heap T) (t other : UnsafeTree) (f : Forest T)
      → ((v : T) → eq v v ≡ true)
      → Models h t (copy fresh 0 f)
      → Models h other f
      → IsCopy h t other f
  IsCopy-of h t other f self copied source = record {
    copied = copied;
    source = source;
    equal =
        trees_equal-same_forest eq h (node_count f) false other t f (copy fresh 0 f) source copied
          (omega arith)
        ∙ ap (λ b. ok b) (same_forest-copy fresh eq self 0 f);
  }

  -- Copy assignment from a tree that stands for a forest leaves a tree that stands for a forest of the same
  -- shape and values, at the addresses that the allocator returns, and the other tree as it was; the two
  -- compare equal. The two trees have no node in common, the allocator returns different addresses, none of
  -- them of the other tree, there are rounds for the depth, and every value compares equal to itself.
  pub copy_assign_contents-IsCopy :
      (h : Heap T) (t other : UnsafeTree) (g f : Forest T) (fuel : ℕ)
      → Models h t g
      → Models h other f
      → ((a : Ptr) → 0 < times a f → times a g ≡ 0)
      → ((i j : ℕ) → fresh i ≡ fresh j → i ≡ j)
      → ((i : ℕ) → times (fresh i) f ≡ 0)
      → depth f ≤ fuel
      → ((v : T) → eq v v ≡ true)
      → (h' : Heap T) × (t' : UnsafeTree) × (copy_assign_contents fresh fuel h t other.root
          ≡ ok (h', t'))
        × IsCopy h' t' other f
  unfolding copy_assign_contents clear
  copy_assign_contents-IsCopy h t other g nil fuel this source apart injective unused enough self =
      (
        release h t.nodes,
        empty_tree,
        rw (source.points.0) refl,
        IsCopy-of (release h t.nodes) empty_tree other nil self
            (record {
              held = tt;
              distinct = λ a. omega arith;
              owned = λ a. refl;
              points = (refl, refl, refl);
            })
            (record {
              held = tt;
              distinct = source.distinct;
              owned = source.owned;
              points = source.points;
            }),
      )
  copy_assign_contents-IsCopy h t other g (tree p v kids (tree a w b r)) fuel this source apart
        injective unused enough self =
      absurd source.points
  copy_assign_contents-IsCopy h t other g (tree p v kids nil) zero this source apart injective
        unused enough self =
      absurd (omega arith)
  copy_assign_contents-IsCopy h t other g (tree p v kids nil) (suc fuel) this source apart injective
        unused enough self =
      let small : depth kids ≤ fuel = omega arith in
      let made = copying fresh injective h t other g p v kids this source apart unused fuel small in
      let t' = assigned fresh injective h t other g p v kids this source apart unused fuel small in
      (
        made.heap,
        t',
        ap (copy_assign_contents fresh (suc fuel) h t) source.points.0
            ∙ returns fresh injective h t other g p v kids this source apart unused fuel small,
        IsCopy-of made.heap t' other (tree p v kids nil) self
            (assigned-Models fresh injective h t other g p v kids this source apart unused fuel
              small)
            (source-Models fresh injective h t other g p v kids this source apart unused fuel
              small),
      )

module _ {ℓ} {T : Type ℓ} (fresh : ℕ → Ptr) where
  -- Assigning a tree with nodes to itself is undefined behaviour: the nodes are destroyed before they are
  -- copied.
  pub copy_assign_contents_self :
      (h : Heap T) (t : UnsafeTree) (p : Ptr) (v : T) (kids : Forest T) (fuel : ℕ)
      → Models h t (tree p v kids nil)
      → copy_assign_contents fresh fuel h t t.root ≡ fault
  unfolding copy_assign_contents clear load
  copy_assign_contents_self h t p v kids fuel m =
      let gone : release h t.nodes p ≡ none =
        release-owned t.nodes h p (let l : 0 < count p t.nodes = ground (arith, m.owned p) in l) in
      rw (m.points.0, gone) refl
