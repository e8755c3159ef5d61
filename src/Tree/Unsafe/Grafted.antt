-- ===== src/Tree/Unsafe/Grafted.antt =====
-- A tree in memory after a graft at one of its nodes.
use cpp_tools.Base.{
  ℕ, suc, ◌+◌, ◌≤◌, ◌<◌, ◌||◌, List, Option, none, some, ◌==◌, ◌≡◌, ◌≢◌, sym, ap, ◌∙◌, inl, inr,
  arith, Bool-cases, if◌then◌else◌,
}
use cpp_tools.Tree.Store.{Ptr, Node, Heap}
use cpp_tools.Tree.Forest.{Forest, nil, tree, preorder, postorder, times, Distinct, Holds}
use cpp_tools.Tree.Node.Descend.{head_or, last_or}
use cpp_tools.Tree.Graft.{snoc, graft, linked, Holds-graft, times-graft}
use cpp_tools.Tree.Graft.Frame.{ne_of_times}
use cpp_tools.Tree.Graft.Ends.{above, head-tree, last-tree, head-graft, last-graft}
use cpp_tools.Tree.Unsafe.{UnsafeTree, is_at}
use cpp_tools.Tree.Unsafe.Model.{count, Points, Models}

module _ {ℓ} {T : Type ℓ} where
  pub Points-intro :
      (t : UnsafeTree) (r : Ptr) (x : T) (kids : Forest T) (a : Ptr)
      → t.root ≡ some r
      → t.leftmost ≡ some (head_or (postorder (tree r x kids nil)) a)
      → t.rightmost ≡ some (last_or (preorder (tree r x kids nil)) a)
      → Points t (tree r x kids nil)
  Points-intro t r x kids a top first last =
      (top, first ∙ ap some (head-tree r x kids nil a), last ∙ ap some (last-tree r x kids a))

  pub Points-graft :
      (t : UnsafeTree) (w : Ptr) (g : Forest T) (r : Ptr) (x : T) (kids : Forest T) (a : Ptr)
      → t.root ≡ some r
      → t.leftmost ≡ some (head_or (postorder (graft w g (tree r x kids nil))) a)
      → t.rightmost ≡ some (last_or (preorder (graft w g (tree r x kids nil))) a)
      → Points t (graft w g (tree r x kids nil))
  Points-graft t w g r x kids a top first last = elim (Bool-cases (r == w)) [
    | inl e ↦ rw e (Points-intro t r x (snoc kids g) a top (rw e at first) (rw e at last))
    | inr e ↦ rw e (Points-intro t r x (graft w g kids) a top (rw e at first) (rw e at last))
  ]

  module _ (t : UnsafeTree) (w r : Ptr) (x : T) (kids : Forest T) (c : Ptr) where
    -- The tree with the nodes `nodes`, and another forest of root `c` below `w`.
    abbrev pub grafted : Forest T → List Ptr → UnsafeTree
    grafted below nodes =
        let last = last_or (preorder (tree r x kids nil)) r == w || above w (tree r x kids nil) in
        record {
          nodes = nodes;
          root = t.root;
          leftmost = if is_at w t.leftmost then some (head_or (postorder below) c) else t.leftmost;
          rightmost = if last then some (last_or (preorder below) c) else t.rightmost;
        }

    pub Models-grafted :
        (h : Heap T) (y : T) (below : Forest T) (q : Option Ptr) (j : ℕ) (nodes : List Ptr)
        {n m : Node T}
        → h w ≡ some n
        → h c ≡ some m
        → 0 < times w (tree r x kids nil)
        → Holds h none 0 (tree r x kids nil)
        → Points t (tree r x kids nil)
        → Holds h q j (tree c y below nil)
        → ((a : Ptr) → times a (tree r x kids nil) + times a (tree c y below nil) ≤ 1)
        → ((a : Ptr) → count a nodes ≡ times a (tree r x kids nil) + times a (tree c y below nil))
        → Models
            (linked h w n c m)
            (grafted below nodes)
            (graft w (tree c y below nil) (tree r x kids nil))
    Models-grafted h y below q j nodes {n} {m} at_w at_c inside held points held' apart owned =
        let f = tree r x kids nil in
        let g = tree c y below nil in
        let d : Distinct f = λ a. omega (arith, apart a) in
        let once : times w f ≡ 1 = omega (arith, d w) in
        let out : times w g ≡ 0 = omega (arith, apart w) in
        let away : times c f ≡ 0 = ground (arith, apart c) in
        let different : c ≢ w = λ e. ne_of_times f inside away (sym e) in
        record {
          held =
              Holds-graft h w c at_w at_c different none 0 f y below q j held d away held' out
                (ground (arith, apart c));
          distinct = λ a. rw (times-graft a w g f once) (apart a);
          owned = λ a. omega (arith, owned a, times-graft a w g f once);
          points =
              Points-graft (grafted below nodes) w g r x kids (suc w) points.0
                (rw
                  (
                    head-graft w c y below f (suc w) d (omega arith),
                    points.1,
                    head-tree r x kids nil (suc w),
                  )
                  (ground arith))
                (rw
                  (
                    last-graft w c y below f (suc w) d (omega arith),
                    points.2 ∙ ap some (sym (last-tree r x kids r)),
                    last-tree r x kids (suc w),
                  )
                  (ground arith));
        }
