-- ===== src/Tree/Unsafe/Merge/Ends.antt =====
-- The first leaf and the end of the branch of last children of a forest with a renewed node.
use cpp_tools.Base.{◌<◌, ◌==◌, ◌≡◌, ◌⊎◌, refl, sym, ◌∙◌, inl, inr, arith, Bool-cases}
use mathlib.Core.Path.{subst}
use native.Mathlib.Decide.{dec_lt}
use cpp_tools.Tree.Store.{Ptr}
use cpp_tools.Tree.Forest.{Forest, nil, tree, preorder, postorder, times, Distinct}
use cpp_tools.Tree.Node.Descend.{head_or, last_or, last_or-append}
use cpp_tools.Tree.Graft.Ends.{head-tree, last-tree, last-trees, times-head, times-last}
use cpp_tools.Tree.Unsafe.Subtree.Prune.{branch}
use cpp_tools.Tree.Unsafe.Merge.Renew.{renew, renew-none, branch-below, branch-beside, times-branch}

-- An end of a forest, before and after: that of the renewed node, or none of its subtree's.
abbrev pub Follows {ℓ} : {T : Type ℓ} → Ptr → Ptr → Ptr → Ptr → Forest T → Type 0
Follows before after own renewed part =
    (before ≡ own) × (after ≡ renewed) ⊎ (after ≡ before) × (times before part ≡ 0)

module _ {ℓ} {T : Type ℓ} (p : Ptr) (y : T) (kids' : Forest T) (v : T) (kids : Forest T) where
  pub head-renew :
      (f : Forest T) (a : Ptr)
      → Distinct f
      → 0 < times p f
      → branch p f ≡ tree p v kids nil
      → Follows
          (head_or (postorder f) a)
          (head_or (postorder (renew p y kids' f)) a)
          (head_or (postorder kids) p)
          (head_or (postorder kids') p)
          (branch p f)
  head-renew nil a d l e = absurd (omega arith)
  head-renew (tree w x below rest) a d l e = elim (Bool-cases (w == p)) [
    | inl hit ↦
        let same : tree w x below nil ≡ tree p v kids nil = rw hit at e in
        let wp : w ≡ p = cc in
        let bk : below ≡ kids = cc in
        rw (hit, head-tree w x below rest a, head-tree w y kids' rest a, bk, wp) (inl (refl, refl))
    | inr miss ↦ elim (dec_lt 0 (times p below)) [
      | yes under ↦
          let z : times p rest ≡ 0 = ground (arith, d p) in
          let b = branch-below p w x below rest miss z in
          rw
            (
              b,
              miss,
              head-tree w x below rest a,
              head-tree w x (renew p y kids' below) (renew p y kids' rest) a,
            )
            (head-renew below w (λ c. ground (arith, d c)) under (sym b ∙ e))
      | no out ↦
          let z : times p below ≡ 0 = omega arith in
          let b = branch-beside p w x below rest miss z in
          rw
            (
              b,
              miss,
              head-tree w x below rest a,
              head-tree w x (renew p y kids' below) (renew p y kids' rest) a,
              renew-none p y kids' below z,
            )
            (inr (
              refl,
              omega (
                arith,
                times-branch (head_or (postorder below) w) p rest,
                times-head w x below nil,
                d (head_or (postorder below) w),
              ),
            ))
    ]
  ]

  pub last-renew :
      (f : Forest T) (a : Ptr)
      → Distinct f
      → 0 < times p f
      → branch p f ≡ tree p v kids nil
      → Follows
          (last_or (preorder f) a)
          (last_or (preorder (renew p y kids' f)) a)
          (last_or (preorder kids) p)
          (last_or (preorder kids') p)
          (branch p f)
  last-renew nil a d l e = absurd (omega arith)
  last-renew (tree w x below nil) a d l e = elim (Bool-cases (w == p)) [
    | inl hit ↦
        let same : tree w x below nil ≡ tree p v kids nil = rw hit at e in
        let wp : w ≡ p = cc in
        let bk : below ≡ kids = cc in
        rw (hit, last-tree w x below a, last-tree w y kids' a, bk, wp) (inl (refl, refl))
    | inr miss ↦
        let b = branch-below p w x below nil miss refl in
        rw (b, miss, last-tree w x below a, last-tree w x (renew p y kids' below) a)
          (last-renew below w (λ c. ground (arith, d c)) (ground arith) (sym b ∙ e))
  ]
  last-renew (tree w x below (tree c z k r)) a d l e =
      let rest = tree c z k r in
      let f = tree w x below rest in
      let end = last_or (preorder rest) w in
      let end_is : last_or (preorder f) a ≡ end = last-trees w x below c z k r a w in
      let gone : times end (branch p f) ≡ 0 → times (last_or (preorder f) a) (branch p f) ≡ 0 =
        λ t. subst (λ b. times b (branch p f) ≡ 0) (sym end_is) t in
      elim (Bool-cases (w == p)) [
        | inl hit ↦
            let here : branch p f ≡ tree w x below nil = rw hit in
            inr (
              rw hit (last-trees w y kids' c z k r a w ∙ sym end_is),
              gone (rw here (ground (arith, d end, times-last rest w tt))),
            )
        | inr miss ↦ elim (dec_lt 0 (times p below)) [
          | yes under ↦
              let none : times p rest ≡ 0 = ground (arith, d p) in
              let b = branch-below p w x below rest miss none in
              inr (
                rw (miss, renew-none p y kids' rest none)
                    (last-trees w x (renew p y kids' below) c z k r a w ∙ sym end_is),
                gone (rw b (ground (arith, d end, times-last rest w tt, times-branch end p below))),
              )
          | no out ↦
              let none : times p below ≡ 0 = omega arith in
              let b = branch-beside p w x below rest miss none in
              rw
                (
                  b,
                  miss,
                  renew-none p y kids' below none,
                  last_or-append (preorder below) (preorder rest) w,
                  last_or-append (preorder below) (preorder (renew p y kids' rest)) w,
                )
                (last-renew (tree c z k r) (last_or (preorder below) w) (λ t. ground (arith, d t))
                  (ground arith) (sym b ∙ e))
        ]
      ]
