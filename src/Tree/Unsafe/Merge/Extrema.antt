-- ===== src/Tree/Unsafe/Merge/Extrema.antt =====
-- The leftmost and the rightmost node when a node is merged with its parent, and the depth.
use cpp_tools.Base.{
  ◌<◌, max, ◌++◌, some, ◌==◌, ◌≡◌, ◌⊎◌, refl, sym, ap, ◌∙◌, inl, inr, arith, Bool-cases, ==_iff,
}
use cpp_tools.Base.Result.{Result, ok}
use cpp_tools.Tree.Store.{Ptr}
use cpp_tools.Tree.Forest.{Forest, nil, tree, preorder, postorder, depth, times}
use cpp_tools.Tree.Graft.{snoc}
use cpp_tools.Tree.Graft.Ends.{head-tree, preorder-snoc}
use cpp_tools.Tree.Node.Descend.{head_or, last_or, last_or-append}
use cpp_tools.Tree.Unsafe.Merge.{merged_extremum}
use cpp_tools.Tree.Unsafe.Merge.Ends.{Follows}

module _ {ℓ} {T : Type ℓ} where
  pub depth-snoc-max : (f g : Forest T) → depth (snoc f g) ≡ max (depth f) (depth g)
  depth-snoc-max nil g = omega arith
  depth-snoc-max (tree p v kids rest) g = omega (arith, depth-snoc-max rest g)

  module _ (p n : Ptr) (w : T) where
    -- Without the child, the first leaf below its parent is the same, or the child was that leaf.
    pub first_leaf :
        (left below right : Forest T)
        → (head_or (postorder (snoc left (tree n w below right))) p ≡ n)
          ⊎ (head_or (postorder (snoc left (snoc below right))) p
              ≡ head_or (postorder (snoc left (tree n w below right))) p)
    first_leaf nil nil right = inl refl
    first_leaf nil (tree c z k r) right = inr (
        head-tree c z k (snoc r right) p
        ∙ sym (head-tree n w (tree c z k r) right p ∙ head-tree c z k r n))
    first_leaf (tree c z k r) below right = inr (
        head-tree c z k (snoc r (snoc below right)) p
        ∙ sym (head-tree c z k (snoc r (tree n w below right)) p))

    pub last_leaf :
        (left below right : Forest T)
        → (last_or (preorder (snoc left (tree n w below right))) p ≡ n)
          ⊎ (last_or (preorder (snoc left (snoc below right))) p
              ≡ last_or (preorder (snoc left (tree n w below right))) p)
    last_leaf left below right =
        let a = last_or (preorder left) p in
        rw
          (
            preorder-snoc left (tree n w below right),
            preorder-snoc left (snoc below right),
            preorder-snoc below right,
            last_or-append (preorder left) (preorder (tree n w below right)) p,
            last_or-append (preorder left) (preorder below ++ preorder right) p,
            last_or-append (preorder below) (preorder right) a,
            last_or-append (preorder below) (preorder right) n,
          )
          (last_of below right a)
      where
        last_of :
            (below right : Forest T) (a : Ptr)
            → (last_or (preorder right) (last_or (preorder below) n) ≡ n)
              ⊎ (last_or (preorder right) (last_or (preorder below) a)
                  ≡ last_or (preorder right) (last_or (preorder below) n))
        last_of nil nil a = inl refl
        last_of (tree c z k r) nil a = inr refl
        last_of below (tree c z k r) a = inr refl

    pub extremum_lem :
        (part : Forest T) {before after own renewed : Ptr} (descent : Result Ptr)
        → 0 < times n part
        → Follows before after own renewed part
        → (own ≡ n) ⊎ (renewed ≡ own)
        → descent ≡ ok renewed
        → merged_extremum n (some before) descent ≡ ok (some after)
    extremum_lem part {before} {after} {own} {renewed} descent l follows leaf found =
        elim (Bool-cases (n == before)) [
          | inl hit ↦ elim follows [
            | inl (_, e) ↦ rw (hit, found, e)
            | inr (_, z) ↦ absurd (omega (arith, ap (λ c. times c part) ((==_iff n before).0 hit)))
          ]
          | inr miss ↦ elim follows [
            | inl (e, e') ↦ elim leaf [
              | inl at_n ↦ absurd (ground arith)
              | inr same ↦ rw miss (ap (λ c. ok (some c)) (e ∙ sym same ∙ sym e'))
            ]
            | inr (e, _) ↦ rw (miss, e)
          ]
        ]
