-- ===== src/Tree/Unsafe/Owned.antt =====
-- The addresses that a tree owns, counted: `size` is the number of its nodes.
use cpp_tools.Base.{
  ◌+◌, ◌-◌, ◌<◌, suc, List, [], ◌∷◌, ◌++◌, ◌==◌, ◌≡◌, refl, sym, ◌∙◌, arith, if◌then◌else◌, length,
  length-append,
}
use cpp_tools.Tree.Store.{Ptr, Heap}
use cpp_tools.Tree.Forest.{Forest, nil, tree, preorder, times, node_count}
use cpp_tools.Tree.Unsafe.{UnsafeTree, size, disown}
use cpp_tools.Tree.Unsafe.Model.{count, Models}

pub count-disown :
    (a b : Ptr) (xs : List Ptr)
    → count b (disown a xs) ≡ (if b == a then count b xs - 1 else count b xs)
count-disown a b [] = ground arith
count-disown a b (x ∷ xs) = ground (arith, count-disown a b xs)

length-disown : (a : Ptr) (xs : List Ptr) → 0 < count a xs → suc (length (disown a xs)) ≡ length xs
length-disown a [] l = absurd (omega arith)
length-disown a (x ∷ xs) l = ground (arith, length-disown a xs)

-- Lists with the same addresses are equally long.
length-count : (xs ys : List Ptr) → ((a : Ptr) → count a xs ≡ count a ys) → length xs ≡ length ys
length-count [] [] same = refl
length-count [] (y ∷ ys) same = absurd (ground (arith, same y))
length-count (x ∷ xs) ys same =
    let there : 0 < count x ys = ground (arith, same x) in
    let shorter : length xs ≡ length (disown x ys) =
      length-count xs (disown x ys) (λ a. ground (arith, same a, count-disown x a ys)) in
    omega (arith, shorter, length-disown x ys there)

count-append :
    (p : Ptr) (front back : List Ptr) → count p (front ++ back) ≡ count p front + count p back
count-append p [] back = omega arith
count-append p (q ∷ front) back = omega (arith, count-append p front back)

module _ {ℓ} {T : Type ℓ} where
  count-preorder : (a : Ptr) (f : Forest T) → count a (preorder f) ≡ times a f
  count-preorder a nil = refl
  count-preorder a (tree p v kids rest) = omega (
    arith,
    count-append a (preorder kids) (preorder rest),
    count-preorder a kids,
    count-preorder a rest,
  )

  length-preorder : (f : Forest T) → length (preorder f) ≡ node_count f
  length-preorder nil = refl
  length-preorder (tree p v kids rest) = omega (
    arith,
    length-append (preorder kids) (preorder rest),
    length-preorder kids,
    length-preorder rest,
  )

  -- The size of a tree that stands for a forest is the number of nodes of the forest.
  pub size-node_count :
      (h : Heap T) (t : UnsafeTree) (f : Forest T) → Models h t f → size t ≡ node_count f
  unfolding size
  size-node_count h t f m =
      length-count t.nodes (preorder f) (λ a. m.owned a ∙ sym (count-preorder a f))
      ∙ length-preorder f
