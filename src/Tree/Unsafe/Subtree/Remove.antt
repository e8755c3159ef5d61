-- ===== src/Tree/Unsafe/Subtree/Remove.antt =====
-- `remove_child` at the parent of a node takes its tree out of the forest.
use cpp_tools.Base.{ℕ, suc, ◌+◌, ◌<◌, false, Option, some, ◌==◌, ◌≡◌, sym, ap, ◌∙◌, arith, drop}
use cpp_tools.Base.Result.{ok}
use native.Mathlib.Decide.{dec_lt}
use cpp_tools.Tree.Store.{Ptr, node, Heap, load, write, write_self, write_ne}
use cpp_tools.Tree.Forest.{Forest, nil, tree, roots, times, Distinct, Holds}
use cpp_tools.Tree.Node.{remove_child}
use cpp_tools.Tree.Graft.Frame.{Holds-frame, ne_of_times}
use cpp_tools.Tree.Unsafe.Model.{count}
use cpp_tools.Tree.Unsafe.Subtree.Prune.{
  prune, branch, times-prune, prune-none, branch-none, count-roots, roots-prune,
}
use cpp_tools.Tree.Unsafe.Subtree.Cut.{Cut, roots-Cut}
use cpp_tools.Tree.Unsafe.Subtree.Up.{IsUp, parent-IsUp, below-IsUp, beside-IsUp}
use cpp_tools.Tree.Unsafe.Subtree.Near.{
  FirstNear, LastNear, first_here, first_below, first_beside, last_here, last_below, last_beside,
}

module _ {ℓ} {T : Type ℓ} where
  -- What there is to know of taking the tree at `p` out of a forest.
  pub record Removed (h : Heap T) (q : Option Ptr) (i : ℕ) (p : Ptr) (f : Forest T) : Type ℓ where
    pub parent : Ptr
    pub index : ℕ
    pub value : T
    pub below : Forest T
    pub whole : branch p f ≡ tree p value below nil
    pub branch_held : Holds h (some parent) index (tree p value below nil)
    pub heap : Heap T
    pub removed : remove_child h parent index ≡ ok (p, heap)
    pub held : Holds heap q i (prune p f)
    pub frame : (a : Ptr) → times a (prune p f) ≡ 0 → heap a ≡ h a
    pub kept : 0 < times parent (prune p f)
    pub first_near : FirstNear p parent f
    pub last_near : LastNear p parent f
    pub up : IsUp p parent f

  -- At the parent itself.
  child-Removed :
      (h : Heap T) (q : Option Ptr) (i : ℕ) (p w : Ptr) (x : T) (kids rest : Forest T)
      → Holds h q i (tree w x kids rest)
      → Distinct (tree w x kids rest)
      → 0 < count p (roots kids)
      → Cut (write h w (some (node x q i (roots (prune p kids))))) (some w) 0 p kids
      → Removed h q i p (tree w x kids rest)
  unfolding remove_child load
  child-Removed h q i p w x kids rest s d l c =
      let e : (w == p) ≡ false = ground (arith, d p, count-roots p kids) in
      let out : times p rest ≡ 0 = ground (arith, d p, count-roots p kids) in
      let alone : times w kids ≡ 0 = ground (arith, d w) in
      let n = some (node x q i (roots (prune p kids))) in
      let h1 = write h w n in
      let unwritten =
        λ (a : Ptr) (t : 0 < times a kids). write_ne h w a n (ne_of_times kids t alone) in
      let not_right =
        λ (a : Ptr) (z : times a (prune p kids) ≡ 0). c.same a (omega (arith, c.apart a, z)) in
      let behind : drop c.place (roots (prune p kids)) ≡ roots c.right =
        ap (drop c.place) (sym c.erased) ∙ c.behind in
      let start : 0 + c.place ≡ c.place = omega arith in
      let in_branch = λ (a : Ptr) (t : 0 < times a (tree p c.value c.below nil)).
        sym (unwritten a (omega (arith, times-prune a p kids, ap (λ k. times a k) c.whole, t))) in
      record {
        parent = w;
        index = c.place;
        value = c.value;
        below = c.below;
        whole = rw (e, branch-none p rest out, c.whole);
        branch_held =
            Holds-frame h (some w) c.place (tree p c.value c.below nil) (rw start at c.branch_held)
              in_branch;
        heap = c.heap;
        removed = rw (s.0, c.here, c.erased, behind, c.shifted);
        held =
            rw (e, prune-none p rest out)
              (
                not_right w (omega (arith, times-prune w p kids, alone)) ∙ write_self h w n,
                c.held,
                Holds-frame c.heap q (suc i) rest s.2 (λ a t.
                    not_right a (ground (arith, d a, times-prune a p kids))
                    ∙ write_ne h w a n (ne_of_times rest t (ground (arith, d w)))),
              );
        frame = λ a z. not_right a (ground arith) ∙ write_ne h w a n (ground arith);
        kept = rw e (ground arith);
        first_near = first_here p w x kids rest d e;
        last_near = last_here p w x kids rest d e out;
        up = parent-IsUp p w x kids rest d e out;
      }

  pub branch-Removed :
      (h : Heap T) (q : Option Ptr) (i : ℕ) (p : Ptr) (f : Forest T)
      → Holds h q i f
      → Distinct f
      → 0 < times p f
      → count p (roots f) ≡ 0
      → Removed h q i p f
  branch-Removed h q i p nil s d l z = absurd (omega arith)
  branch-Removed h q i p (tree w x kids rest) s d l z =
      let e : (w == p) ≡ false = ground arith in
      elim (dec_lt 0 (count p (roots kids))) [
        | yes direct ↦
            let n = some (node x q i (roots (prune p kids))) in
            let alone : times w kids ≡ 0 = ground (arith, d w) in
            child-Removed h q i p w x kids rest s d direct (
              roots-Cut (write h w n) (some w) 0 p kids
                (Holds-frame (write h w n) (some w) 0 kids s.1
                  (λ a t. write_ne h w a n (ne_of_times kids t alone)))
                (λ a. ground (arith, d a)) direct)
        | no indirect ↦ elim (dec_lt 0 (times p kids)) [
          | yes deep ↦
              let r =
                branch-Removed h (some w) 0 p kids s.1 (λ a. ground (arith, d a)) deep
                  (omega arith) in
              let out : times p rest ≡ 0 = ground (arith, d p) in
              record {
                parent = r.parent;
                index = r.index;
                value = r.value;
                below = r.below;
                whole = rw (e, branch-none p rest out, r.whole);
                branch_held = r.branch_held;
                heap = r.heap;
                removed = r.removed;
                held =
                    rw (e, prune-none p rest out)
                      (
                        rw (roots-prune p kids (omega arith))
                            (r.frame w (ground (arith, d w, times-prune w p kids)) ∙ s.0),
                        r.held,
                        Holds-frame r.heap q (suc i) rest s.2
                            (λ a l. r.frame a (ground (arith, d a, times-prune a p kids))),
                      );
                frame = λ a z. r.frame a (ground arith);
                kept = rw e (ground (arith, r.kept));
                first_near =
                    first_below p w x kids rest d e r.parent out
                      (ground (arith, r.kept, d w, times-prune w p kids)) r.first_near;
                last_near =
                    last_below p w x kids rest r.parent d e out
                      (ground (arith, r.kept, d w, times-prune w p kids)) r.last_near;
                up =
                    below-IsUp p w x kids rest d e r.parent out
                      (ground (arith, r.kept, d r.parent, times-prune r.parent p kids)) r.up;
              }
          | no aside ↦
              let r =
                branch-Removed h q (suc i) p rest s.2 (λ a. ground (arith, d a)) (ground arith)
                  (omega arith) in
              let out : times p kids ≡ 0 = omega arith in
              record {
                parent = r.parent;
                index = r.index;
                value = r.value;
                below = r.below;
                whole = rw (e, branch-none p kids out) r.whole;
                branch_held = r.branch_held;
                heap = r.heap;
                removed = r.removed;
                held =
                    rw (e, prune-none p kids out)
                      (
                        r.frame w (ground (arith, d w, times-prune w p rest)) ∙ s.0,
                        Holds-frame r.heap (some w) 0 kids s.1
                            (λ a l. r.frame a (ground (arith, d a, times-prune a p rest))),
                        r.held,
                      );
                frame = λ a z. r.frame a (ground arith);
                kept = rw e (ground (arith, r.kept));
                first_near = first_beside p w x kids rest d e r.parent out;
                last_near =
                    last_beside p w x kids rest r.parent d e out (omega arith)
                      (ground (arith, r.kept, d w, times-prune w p rest)) r.last_near;
                up =
                    beside-IsUp p w x kids rest d e r.parent out
                      (ground (arith, r.kept, d r.parent, times-prune r.parent p rest))
                      (ground (arith, r.kept, d w, times-prune w p rest)) r.up;
              }
        ]
      ]
