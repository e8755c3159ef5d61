-- ===== src/Tree/Graft/Ends.antt =====
-- The first leaf and the end of the branch of last children, before and after a graft.
use cpp_tools.Base.{
  ◌<◌, Bool, true, false, ◌||◌, ◌∷◌, ◌++◌, ◌==◌, ◌≡◌, ◌≢◌, refl, sym, ap, ◌∙◌, inl, inr, arith,
  Bool-cases, if◌then◌else◌, append_assoc, append-nil, ==_iff,
}
use mathlib.Core.Path.{subst}
use cpp_tools.Tree.Store.{Ptr}
use cpp_tools.Tree.Forest.{Forest, nil, tree, preorder, postorder, times, Distinct}
use cpp_tools.Tree.Node.Descend.{head_or, last_or, head_or-append, last_or-append}
use cpp_tools.Tree.Graft.Frame.{ne_of_times}
use cpp_tools.Tree.Graft.{snoc, graft}

module _ {ℓ} {T : Type ℓ} where
  -- `w` has descendants, and leads by last children to the end of the branch of the last root.
  abbrev pub above : Ptr → Forest T → Bool
  above w nil = false
  above w (tree p v nil nil) = false
  above w (tree p v (tree c x k r) nil) = p == w || above w (tree c x k r)
  above w (tree p v kids (tree c x k r)) = above w (tree c x k r)

  pub head-tree :
      (p : Ptr) (v : T) (kids rest : Forest T) (a : Ptr)
      → head_or (postorder (tree p v kids rest)) a ≡ head_or (postorder kids) p
  head-tree p v kids rest a = head_or-append (postorder kids) (p ∷ postorder rest) a

  pub last-tree :
      (p : Ptr) (v : T) (kids : Forest T) (a : Ptr)
      → last_or (preorder (tree p v kids nil)) a ≡ last_or (preorder kids) p
  last-tree p v kids a = rw append-nil

  pub last-trees :
      (p : Ptr) (v : T) (kids : Forest T) (c : Ptr) (x : T) (k r : Forest T) (a b : Ptr)
      → last_or (preorder (tree p v kids (tree c x k r))) a ≡ last_or (preorder (tree c x k r)) b
  last-trees p v kids c x k r a b = last_or-append (preorder kids) (preorder (tree c x k r)) p

  abbrev pub IsTree : Forest T → Type 0
  IsTree nil = ⊥
  IsTree (tree p v kids rest) = Unit

  times-kids :
      (a p : Ptr) (v : T) (kids rest : Forest T)
      → 0 < times a kids
      → 0 < times a (tree p v kids rest)
  times-kids a p v kids rest l = ground arith

  times-rest :
      (a p : Ptr) (v : T) (kids rest : Forest T)
      → 0 < times a rest
      → 0 < times a (tree p v kids rest)
  times-rest a p v kids rest l = ground arith

  pub times-head :
      (p : Ptr) (v : T) (kids rest : Forest T)
      → 0 < times (head_or (postorder kids) p) (tree p v kids rest)
  times-head p v nil rest = ground arith
  times-head p v (tree c x k r) rest =
      times-kids _ p v (tree c x k r) rest
        (subst (λ z. 0 < times z (tree c x k r)) (sym (head-tree c x k r p)) (times-head c x k r))

  pub times-last : (f : Forest T) (a : Ptr) → IsTree f → 0 < times (last_or (preorder f) a) f
  times-last nil a is = absurd is
  times-last (tree p v nil nil) a is = ground arith
  times-last (tree p v (tree c x k r) nil) a is = times-kids _ p v (tree c x k r) nil (
      subst (λ z. 0 < times z (tree c x k r)) (sym (last-tree p v (tree c x k r) a))
        (times-last (tree c x k r) p tt))
  times-last (tree p v kids (tree c x k r)) a is = times-rest _ p v kids (tree c x k r) (
      subst (λ z. 0 < times z (tree c x k r)) (sym (last-trees p v kids c x k r a p))
        (times-last (tree c x k r) p tt))

  pub times-above : (w : Ptr) (f : Forest T) → above w f ≡ true → 0 < times w f
  times-above w nil h = cc
  times-above w (tree p v nil nil) h = cc
  times-above w (tree p v (tree c x k r) nil) h = ground (arith, times-above w (tree c x k r))
  times-above w (tree p v kids (tree c x k r)) h = ground (arith, times-above w (tree c x k r))

  pub postorder-snoc : (f g : Forest T) → postorder (snoc f g) ≡ postorder f ++ postorder g
  postorder-snoc nil g = refl
  postorder-snoc (tree p v kids rest) g =
      rw (postorder-snoc rest g)
        (sym (append_assoc (postorder kids) (p ∷ postorder rest) (postorder g)))

  pub preorder-snoc : (f g : Forest T) → preorder (snoc f g) ≡ preorder f ++ preorder g
  preorder-snoc nil g = refl
  preorder-snoc (tree p v kids rest) g =
      rw (preorder-snoc rest g)
        (ap (λ l. p ∷ l) (sym (append_assoc (preorder kids) (preorder rest) (preorder g))))

  module _ (w c : Ptr) (y : T) (below : Forest T) where
    g : Forest T
    g = tree c y below nil

    first_of_snoc :
        (p : Ptr) (kids : Forest T)
        → times w kids ≡ 0
        → p ≡ w
        → head_or (postorder (snoc kids g)) p ≡ (
            if head_or (postorder kids) p == w
            then head_or (postorder below) c
            else head_or (postorder kids) p)
    unfolding g
    first_of_snoc p nil out e = rw (head-tree c y below nil p) (ground arith)
    first_of_snoc p (tree b x k r) out e =
        let other = ne_of_times (tree b x k r) (times-head b x k r) out in
        rw
          (
            postorder-snoc (tree b x k r) g,
            head_or-append (postorder (tree b x k r)) (postorder g) p,
            head-tree b x k r p,
            head-tree b x k r (head_or (postorder g) p),
          )
          (ground arith)

    -- The first leaf is that of the grafted tree where it was `w`, and the old one elsewhere.
    pub head-graft :
        (f : Forest T) (a : Ptr)
        → Distinct f
        → a ≢ w
        → head_or (postorder (graft w (tree c y below nil) f)) a ≡ (
            if head_or (postorder f) a == w
            then head_or (postorder below) c
            else head_or (postorder f) a)
    unfolding g
    head-graft nil a d ne = ground arith
    head-graft (tree p x kids rest) a d ne = elim (Bool-cases (p == w)) [
      | inl hit ↦
          let e : p ≡ w = (==_iff p w).0 hit in
          rw (hit, head-tree p x (snoc kids g) rest a, head-tree p x kids rest a)
            (first_of_snoc p kids (ground (arith, d w)) e)
      | inr miss ↦
          rw (miss, head-tree p x (graft w g kids) (graft w g rest) a, head-tree p x kids rest a)
            (head-graft kids p (λ b. ground (arith, d b)) (ground arith))
    ]

    on_branch :
        (p : Ptr) (x : T) (kids : Forest T)
        → p ≡ w
        → (last_or (preorder kids) p == w || above w (tree p x kids nil)) ≡ true
    on_branch p x nil e = ground arith
    on_branch p x (tree b z k r) e = ground arith

    last_of_snoc :
        (p : Ptr) (x : T) (kids : Forest T) (a : Ptr)
        → p ≡ w
        → last_or (preorder (tree p x (snoc kids g) nil)) a ≡ (
            if last_or (preorder (tree p x kids nil)) a == w || above w (tree p x kids nil)
            then last_or (preorder below) c
            else last_or (preorder (tree p x kids nil)) a)
    unfolding g
    last_of_snoc p x kids a e = rw (
      last-tree p x (snoc kids g) a,
      preorder-snoc kids g,
      last_or-append (preorder kids) (preorder g) p,
      last-tree c y below (last_or (preorder kids) p),
      last-tree p x kids a,
      on_branch p x kids e,
    )

    last-graft_default :
        (b : Ptr) (x : T) (k r : Forest T) (a a' : Ptr)
        → last_or (preorder (graft w g (tree b x k r))) a
          ≡ last_or (preorder (graft w g (tree b x k r))) a'
    last-graft_default b x k r a a' = elim (Bool-cases (b == w)) [ inl e ↦ rw e | inr e ↦ rw e ]

    -- The end of the branch of last children is that of the grafted tree where `w` was on the
    -- branch, and the old one elsewhere.
    pub last-graft :
        (f : Forest T) (a : Ptr)
        → Distinct f
        → a ≢ w
        → last_or (preorder (graft w (tree c y below nil) f)) a ≡ (
            if last_or (preorder f) a == w || above w f
            then last_or (preorder below) c
            else last_or (preorder f) a)
    unfolding g
    last-graft nil a d ne = ground arith
    last-graft (tree p x nil nil) a d ne = elim (Bool-cases (p == w)) [
      | inl hit ↦ rw hit (last_of_snoc p x nil a ((==_iff p w).0 hit) ∙ rw hit)
      | inr miss ↦ rw miss
    ]
    last-graft (tree p x (tree b z k r) nil) a d ne = elim (Bool-cases (p == w)) [
      | inl hit ↦ rw hit (last_of_snoc p x (tree b z k r) a ((==_iff p w).0 hit) ∙ rw hit)
      | inr miss ↦
          rw (miss, last-tree p x (graft w g (tree b z k r)) a, last-tree p x (tree b z k r) a)
            (last-graft (tree b z k r) p (λ t. ground (arith, d t)) (ground arith))
    ]
    last-graft (tree p x kids (tree b z k r)) a d ne = elim (Bool-cases (p == w)) [
      | inl hit ↦
          let out : times w (tree b z k r) ≡ 0 = ground (arith, d w) in
          let other = ne_of_times (tree b z k r) (times-last (tree b z k r) p tt) out in
          rw (hit, last-trees p x (snoc kids g) b z k r a p, last-trees p x kids b z k r a p)
            (ground (arith, other, times-above w (tree b z k r)))
      | inr miss ↦
          rw (miss, last-trees p x kids b z k r a p)
            (last_or-append (preorder (graft w g kids)) (preorder (graft w g (tree b z k r))) p
              ∙ last-graft_default b z k r (last_or (preorder (graft w g kids)) p) p
              ∙ last-graft (tree b z k r) p (λ t. ground (arith, d t)) (ground arith))
    ]
