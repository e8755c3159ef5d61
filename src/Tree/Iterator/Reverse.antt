-- ===== src/Tree/Iterator/Reverse.antt =====
-- The loops from `rbegin()` to `rend()` meet the nodes in reverse order.
use mathlib.Core.List.{reverse, reverse_aux}
use cpp_tools.Base.{
  ℕ, zero, suc, ◌+◌, ◌≤◌, false, List, [], ◌∷◌, ◌++◌, Option, none, some, ◌==◌, ◌≡◌, ◌≢◌, refl, ap,
  sym, ◌∙◌, arith, length, append-nil, ==_iff,
}
use cpp_tools.Base.Result.{Result, ok}
use cpp_tools.Tree.Store.{Ptr, node, Heap, load}
use cpp_tools.Tree.Forest.{Forest, nil, tree, roots, preorder, postorder, times, depth, Holds}
use cpp_tools.Tree.Node.{is_leftmost_sibling, left_sibling}
use cpp_tools.Tree.Traversal.{pre_previous, post_previous}
use cpp_tools.Tree.Traversal.Visits.{start, finish, finish-append, VisitsBack, VisitsBack-append}
use cpp_tools.Tree.Traversal.Climb.{Exits-root}
use cpp_tools.Tree.Traversal.PreorderBack.{preorder-VisitsBack, first_child_step, finish-last_or}
use cpp_tools.Tree.Traversal.PostorderBack.{
  postorder-VisitsBack, enter, last?-some, finish-postorder,
}
use cpp_tools.Tree.Unsafe.{UnsafeTree}
use cpp_tools.Tree.Unsafe.Model.{count, Models, Points}
use cpp_tools.Tree.Iterator.{
  Order, pre, post, dfs_previous, dfs_last, dfs_end, decrement, rewind, traverse_back,
}
use cpp_tools.Tree.Iterator.Forward.{nodes_in, dfs_begin-start}

module _ {ℓ} {T : Type ℓ} where
  pre_root_back :
      (fuel : ℕ) (h : Heap T) (p : Ptr) (v : T) (kids : Forest T)
      → h p ≡ some (node v none 0 (roots kids))
      → pre_previous fuel h p ≡ ok none
  unfolding pre_previous load
  pre_root_back fuel h p v kids here = rw here

  post_root_back :
      (fuel : ℕ) (h : Heap T) (p : Ptr) (v : T) (kids : Forest T)
      → h p ≡ some (node v none 0 (roots kids))
      → post_previous fuel h p ≡ ok (finish none (postorder kids))
  unfolding post_previous load
  post_root_back fuel h p v nil here = rw here
  post_root_back fuel h p v (tree c w k r) here =
      let (z, e) = last?-some c (roots r) in
      rw (here, e) (ap ok (sym e ∙ finish-postorder none c w k r))

  pub root-VisitsBack :
      (o : Order) (fuel : ℕ) (h : Heap T) (p : Ptr) (v : T) (kids : Forest T)
      → Holds h none 0 (tree p v kids nil)
      → depth (tree p v kids nil) ≤ fuel
      → VisitsBack (dfs_previous o fuel h) none (nodes_in o (tree p v kids nil))
  unfolding dfs_previous
  root-VisitsBack pre fuel h p v kids held le = rw append-nil (
    pre_root_back fuel h p v kids held.0,
    preorder-VisitsBack h fuel 0 (some p) (node v none 0 (roots kids)) [] kids held.1 held.0 refl
        refl (λ c right sits. first_child_step h fuel sits) (omega arith),
  )
  root-VisitsBack post fuel h p v kids held le =
      VisitsBack-append (post_previous fuel h) none (postorder kids) (p ∷ [])
        (postorder-VisitsBack h fuel 1 0 none (node v none 0 (roots kids)) [] kids held.1 held.0
          refl refl (enter (Exits-root is_leftmost_sibling left_sibling h _ held.0 refl))
          (omega arith))
        (post_root_back fuel h p v kids held.0, tt)

  pub dfs_last-finish :
      (o : Order) (t : UnsafeTree) (p : Ptr) (v : T) (kids : Forest T)
      → Points t (tree p v kids nil)
      → dfs_last o t ≡ finish none (nodes_in o (tree p v kids nil))
  unfolding dfs_last
  dfs_last-finish pre t p v kids points =
      points.2 ∙ sym (rw append-nil (finish-last_or p (preorder kids)))
  dfs_last-finish post t p v kids points =
      points.0 ∙ sym (finish-append none (postorder kids) (p ∷ []))

count-append :
    (p : Ptr) (before after : List Ptr) → count p (before ++ after) ≡ count p after + count p before
count-append p [] after = omega arith
count-append p (q ∷ before) after = ground (arith, count-append p before after)

module _ {ℓ} {T : Type ℓ} where
  pub count-nodes_in : (o : Order) (a : Ptr) (f : Forest T) → count a (nodes_in o f) ≡ times a f
  count-nodes_in pre a nil = refl
  count-nodes_in pre a (tree p v kids rest) = omega (
    arith,
    count-append a (preorder kids) (preorder rest),
    count-nodes_in pre a kids,
    count-nodes_in pre a rest,
  )
  count-nodes_in post a nil = refl
  count-nodes_in post a (tree p v kids rest) = omega (
    arith,
    count-append a (postorder kids) (p ∷ postorder rest),
    count-nodes_in post a kids,
    count-nodes_in post a rest,
  )

-- Each node of a list leads to the next one, and the last one is `b`.
abbrev Back : (Ptr → Result (Option Ptr)) → Ptr → Ptr → List Ptr → Type 0
Back step b x [] = x ≡ b
Back step b x (y ∷ ys) = (step x ≡ ok (some y)) × (x ≢ b) × Back step b y ys

module _ (step : Ptr → Result (Option Ptr)) (b : Ptr) where
  Back-of_VisitsBack :
      (x : Ptr) (acc zs : List Ptr)
      → Back step b x acc
      → VisitsBack step (some x) zs
      → count b zs ≡ 0
      → (y : Ptr) × (ys : List Ptr) × (reverse_aux zs (x ∷ acc) ≡ y ∷ ys)
        × (finish (some x) zs ≡ some y)
        × Back step b y ys
  Back-of_VisitsBack x acc [] back v out = (x, acc, refl, refl, back)
  Back-of_VisitsBack x acc (z ∷ zs) back v out =
      Back-of_VisitsBack z (x ∷ acc) zs (v.0, ground arith, back) v.1 (ground arith)

length-reverse_aux : (xs ys : List Ptr) → length (reverse_aux xs ys) ≡ length xs + length ys
length-reverse_aux [] ys = omega arith
length-reverse_aux (x ∷ xs) ys = omega (arith, length-reverse_aux xs (x ∷ ys))

module _ (step : Option Ptr → Result (Option Ptr)) where
  rewind-Back :
      (k : ℕ) (b x : Ptr) (ys : List Ptr)
      → Back (λ p. step (some p)) b x ys
      → length ys ≤ k
      → rewind k step (some b) (some x) ≡ ok ys
  unfolding rewind
  rewind-Back zero b x [] e le = rw ((==_iff x b).1 e, rewind)
  rewind-Back zero b x (y ∷ ys) back le = absurd (omega arith)
  rewind-Back (suc k) b x [] e le = rw ((==_iff x b).1 e, rewind)
  rewind-Back (suc k) b x (y ∷ ys) back le =
      let apart : (x == b) ≡ false = ground (arith, back.1) in
      rw (apart, rewind, back.0, rewind-Back k b y ys back.2 (omega arith))

  rewind-reverse :
      (rounds : ℕ) (xs : List Ptr)
      → VisitsBack (λ p. step (some p)) none xs
      → ((a : Ptr) → count a xs ≤ 1)
      → step none ≡ ok (finish none xs)
      → length xs ≤ rounds
      → rewind rounds step (start xs none) none ≡ ok (reverse xs)
  unfolding rewind
  rewind-reverse zero [] v d last le = refl
  rewind-reverse (suc k) [] v d last le = refl
  rewind-reverse zero (b ∷ zs) v d last le = absurd (omega arith)
  rewind-reverse (suc k) (b ∷ zs) v d last le =
      let (y, ys, reversed, end, back) =
        Back-of_VisitsBack (λ p. step (some p)) b b [] zs refl v.1 (ground (arith, d b)) in
      let fits : length ys ≤ k =
        omega (arith, length-reverse_aux zs (b ∷ []), ap (λ (l : List Ptr). length l) reversed) in
      rw (last, end, rewind-Back k b y ys back fits) (ap ok (sym reversed))

module _ {ℓ} {T : Type ℓ} where
  -- In a tree with a root, the loop from `rbegin()` to `rend()` meets the nodes of either order in
  -- reverse, with fuel for the depth and rounds for the nodes.
  pub traverse_back-reverse :
      (o : Order) (rounds fuel : ℕ) (h : Heap T) (t : UnsafeTree) (p : Ptr) (v : T)
      (kids : Forest T)
      → Models h t (tree p v kids nil)
      → depth (tree p v kids nil) ≤ fuel
      → length (nodes_in o (tree p v kids nil)) ≤ rounds
      → traverse_back o rounds fuel h t ≡ ok (reverse (nodes_in o (tree p v kids nil)))
  unfolding traverse_back dfs_end decrement
  traverse_back-reverse o rounds fuel h t p v kids m le enough =
      let xs = nodes_in o (tree p v kids nil) in
      rw (dfs_begin-start o t p v kids m.points) (
        rewind-reverse (decrement o fuel h t) rounds xs
          (root-VisitsBack o fuel h p v kids m.held le)
          (λ a. omega (arith, count-nodes_in o a (tree p v kids nil), m.distinct a))
          (ap ok (dfs_last-finish o t p v kids m.points)) enough)
