-- ===== src/Tree/Iterator/Forward.antt =====
-- The loops over a tree in memory meet the nodes of the forest that it stands for, in order.
use cpp_tools.Base.{
  ℕ, ◌≤◌, List, [], ◌∷◌, none, some, ◌≡◌, refl, sym, ◌∙◌, arith, length, append-nil,
}
use cpp_tools.Base.Result.{ok}
use cpp_tools.Tree.Store.{Ptr, node, Heap, load}
use cpp_tools.Tree.Forest.{Forest, nil, tree, roots, preorder, postorder, depth, Holds}
use cpp_tools.Tree.Node.{is_rightmost_sibling, right_sibling}
use cpp_tools.Tree.Traversal.{pre_next, post_next, visit}
use cpp_tools.Tree.Traversal.Visits.{start, Visits, Visits-append, visit-Visits}
use cpp_tools.Tree.Traversal.Climb.{Exits-root}
use cpp_tools.Tree.Traversal.Preorder.{preorder-Visits}
use cpp_tools.Tree.Traversal.Postorder.{postorder-Visits, start-append}
use cpp_tools.Tree.Unsafe.{UnsafeTree}
use cpp_tools.Tree.Unsafe.Model.{Models, Points}
use cpp_tools.Tree.Iterator.{Order, pre, post, dfs_next, dfs_begin, traverse}

module _ {ℓ} {T : Type ℓ} where
  -- The nodes of a forest in an order.
  abbrev pub nodes_in : Order → Forest T → List Ptr
  nodes_in pre f = preorder f
  nodes_in post f = postorder f

  pre_root_step :
      (fuel : ℕ) (h : Heap T) (p : Ptr) (v : T) (kids : Forest T)
      → h p ≡ some (node v none 0 (roots kids))
      → pre_next fuel h p ≡ ok (start (preorder kids) none)
  unfolding pre_next load
  pre_root_step fuel h p v nil here = rw here
  pre_root_step fuel h p v (tree c w k r) here = rw here

  root_pre-Visits :
      (fuel : ℕ) (h : Heap T) (p : Ptr) (v : T) (kids : Forest T)
      → Holds h none 0 (tree p v kids nil)
      → depth (tree p v kids nil) ≤ fuel
      → Visits (pre_next fuel h) (preorder (tree p v kids nil)) none
  root_pre-Visits fuel h p v kids held le = rw append-nil (
    pre_root_step fuel h p v kids held.0,
    preorder-Visits h fuel 1 0 none (node v none 0 (roots kids)) [] kids held.1 held.0 refl refl
        (Exits-root is_rightmost_sibling right_sibling h _ held.0 refl) (omega arith),
  )

  post_root_step :
      (fuel : ℕ) (h : Heap T) (p : Ptr) (v : T) (kids : Forest T)
      → h p ≡ some (node v none 0 (roots kids))
      → post_next fuel h p ≡ ok none
  unfolding post_next load
  post_root_step fuel h p v kids here = rw here

  root_post-Visits :
      (fuel : ℕ) (h : Heap T) (p : Ptr) (v : T) (kids : Forest T)
      → Holds h none 0 (tree p v kids nil)
      → depth (tree p v kids nil) ≤ fuel
      → Visits (post_next fuel h) (postorder (tree p v kids nil)) none
  root_post-Visits fuel h p v kids held le =
      Visits-append (post_next fuel h) (postorder kids) (p ∷ []) none
        (postorder-Visits h fuel 0 (node v none 0 (roots kids)) [] kids held.1 held.0 refl refl
          (omega arith))
        (post_root_step fuel h p v kids held.0, tt)

  -- From the root down: the step function of an order goes through the nodes in that order.
  pub root-Visits :
      (o : Order) (fuel : ℕ) (h : Heap T) (p : Ptr) (v : T) (kids : Forest T)
      → Holds h none 0 (tree p v kids nil)
      → depth (tree p v kids nil) ≤ fuel
      → Visits (dfs_next o fuel h) (nodes_in o (tree p v kids nil)) none
  unfolding dfs_next
  root-Visits pre = root_pre-Visits
  root-Visits post = root_post-Visits

  pub dfs_begin-start :
      (o : Order) (t : UnsafeTree) (p : Ptr) (v : T) (kids : Forest T)
      → Points t (tree p v kids nil)
      → dfs_begin o t ≡ start (nodes_in o (tree p v kids nil)) none
  unfolding dfs_begin
  dfs_begin-start pre t p v kids points = points.0
  dfs_begin-start post t p v kids points = points.1 ∙ sym (start-append (postorder kids) [] p none)

  traverse_empty :
      (o : Order) (rounds fuel : ℕ) (h : Heap T) (t : UnsafeTree)
      → Models h t nil
      → traverse o rounds fuel h t ≡ ok (nodes_in o nil)
  unfolding traverse dfs_begin visit
  traverse_empty pre rounds fuel h t m = rw (m.points.0, visit)
  traverse_empty post rounds fuel h t m = rw (m.points.1, visit)

  -- In a tree that stands for a forest, the loop from `begin()` to `end()` meets the nodes in pre-order
  -- or in post-order, each once, with fuel for the depth and rounds for the nodes.
  pub traverse-nodes_in :
      (o : Order) (rounds fuel : ℕ) (h : Heap T) (t : UnsafeTree) (f : Forest T)
      → Models h t f
      → depth f ≤ fuel
      → length (nodes_in o f) ≤ rounds
      → traverse o rounds fuel h t ≡ ok (nodes_in o f)
  unfolding traverse
  traverse-nodes_in o rounds fuel h t nil m le enough = traverse_empty o rounds fuel h t m
  traverse-nodes_in o rounds fuel h t (tree p v kids nil) m le enough =
      rw (dfs_begin-start o t p v kids m.points) (
        visit-Visits (dfs_next o fuel h) rounds (nodes_in o (tree p v kids nil))
          (root-Visits o fuel h p v kids m.held le) (omega arith))
  traverse-nodes_in o rounds fuel h t (tree p v kids (tree q w more rest)) m le enough =
      absurd m.points
