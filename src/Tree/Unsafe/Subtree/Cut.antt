-- ===== src/Tree/Unsafe/Subtree/Cut.antt =====
-- A node among its siblings: what `remove_child` looks up, and what its loop leaves.
use cpp_tools.Base.{
  ℕ, suc, ◌+◌, ◌≤◌, ◌<◌, Option, some, ◌==◌, ◌≡◌, refl, ap, ◌∙◌, inl, inr, arith, Bool-cases,
  get_elem?, drop, ==_iff,
}
use cpp_tools.Base.Result.{ok}
use cpp_tools.Tree.Store.{Ptr, Heap}
use cpp_tools.Tree.Forest.{Forest, nil, tree, roots, times, Distinct, Holds}
use cpp_tools.Tree.Node.{erase_at, shift_left}
use cpp_tools.Tree.Graft.Frame.{Holds-frame}
use cpp_tools.Tree.Unsafe.Model.{count}
use cpp_tools.Tree.Unsafe.Subtree.Prune.{
  prune, branch, times-prune, prune-none, branch-none, count-roots, shift_left-Holds,
}

module _ {ℓ} {T : Type ℓ} where
  -- A node among the roots of a forest that stands under `q` from the index `i` on.
  pub record Cut (h : Heap T) (q : Option Ptr) (i : ℕ) (p : Ptr) (f : Forest T) : Type ℓ where
    pub place : ℕ
    pub right : Forest T
    pub value : T
    pub below : Forest T
    pub whole : branch p f ≡ tree p value below nil
    pub branch_held : Holds h q (i + place) (tree p value below nil)
    pub here : get_elem? (roots f) place ≡ some p
    pub erased : erase_at (roots f) place ≡ roots (prune p f)
    pub behind : drop place (erase_at (roots f) place) ≡ roots right
    pub apart : (a : Ptr) → count a (roots right) ≤ times a (prune p f)
    pub heap : Heap T
    pub shifted : shift_left h (roots right) ≡ ok heap
    pub held : Holds heap q i (prune p f)
    pub same : (a : Ptr) → count a (roots right) ≡ 0 → heap a ≡ h a

  pub roots-Cut :
      (h : Heap T) (q : Option Ptr) (i : ℕ) (p : Ptr) (f : Forest T)
      → Holds h q i f
      → Distinct f
      → 0 < count p (roots f)
      → Cut h q i p f
  roots-Cut h q i p nil s d l = absurd (omega arith)
  roots-Cut h q i p (tree w x kids rest) s d l = elim (Bool-cases (w == p)) [
    | inl e ↦
        let wp : w ≡ p = (==_iff w p).0 e in
        let (h', e', held', same') = shift_left-Holds h q i rest s.2 (λ a. ground (arith, d a)) in
        let start : i + 0 ≡ i = omega arith in
        record {
          place = 0;
          right = rest;
          value = x;
          below = kids;
          whole = rw (e, wp);
          branch_held = rw (start, ← wp) (s.0, s.1, tt);
          here = ap some wp;
          erased = rw e;
          behind = refl;
          apart = λ a. rw e (count-roots a rest);
          heap = h';
          shifted = e';
          held = rw e held';
          same = same';
        }
    | inr e ↦
        let c = roots-Cut h q (suc i) p rest s.2 (λ a. ground (arith, d a)) (ground arith) in
        let outside : times p kids ≡ 0 = ground (arith, d p, count-roots p rest) in
        let next : i + suc c.place ≡ suc i + c.place = omega arith in
        let left = λ (a : Ptr) (l : 0 < times a (tree w x kids nil)).
          c.same a (ground (arith, c.apart a, times-prune a p rest, d a)) in
        record {
          place = suc c.place;
          right = c.right;
          value = c.value;
          below = c.below;
          whole = rw (e, branch-none p kids outside) c.whole;
          branch_held = rw next c.branch_held;
          here = c.here;
          erased = rw (e, c.erased);
          behind = c.behind;
          apart = λ a. rw e (ground (arith, c.apart a));
          heap = c.heap;
          shifted = c.shifted;
          held =
              rw (e, prune-none p kids outside)
                (
                  left w (ground arith) ∙ s.0,
                  Holds-frame c.heap (some w) 0 kids s.1 (λ a l. left a (ground arith)),
                  c.held,
                );
          same = c.same;
        }
  ]
