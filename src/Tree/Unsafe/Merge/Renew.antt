-- ===== src/Tree/Unsafe/Merge/Renew.antt =====
-- A forest in which one node has a new value and other children.
use cpp_tools.Base.{
  ℕ, suc, ◌+◌, ◌≤◌, ◌<◌, Option, some, ◌==◌, ◌≡◌, refl, ◌∙◌, inl, inr, arith, Bool-cases, false,
  if◌then◌else◌, ==_iff,
}
use native.Mathlib.Decide.{dec_lt}
use cpp_tools.Tree.Store.{Ptr, Heap}
use cpp_tools.Tree.Forest.{Forest, nil, tree, roots, times, Distinct, Holds}
use cpp_tools.Tree.Graft.Compose.{snoc-nil}
use cpp_tools.Tree.Graft.Frame.{Holds-frame}
use cpp_tools.Tree.Unsafe.Subtree.Prune.{branch, branch-none, times-prune}

module _ {ℓ} {T : Type ℓ} where
  abbrev pub renew : Ptr → T → Forest T → Forest T → Forest T
  renew p v kids nil = nil
  renew p v kids (tree w x below rest) =
      if w == p then tree w v kids rest else tree w x (renew p v kids below) (renew p v kids rest)

  pub renew-none : (p : Ptr) (v : T) (kids f : Forest T) → times p f ≡ 0 → renew p v kids f ≡ f
  renew-none p v kids nil z = refl
  renew-none p v kids (tree w x below rest) z =
      let other : (w == p) ≡ false = ground arith in
      rw (other, renew-none p v kids below (omega arith), renew-none p v kids rest (omega arith))

  pub roots-renew : (p : Ptr) (v : T) (kids f : Forest T) → roots (renew p v kids f) ≡ roots f
  roots-renew p v kids nil = refl
  roots-renew p v kids (tree w x below rest) = elim (Bool-cases (w == p)) [
    | inl e ↦ rw e
    | inr e ↦ rw (e, roots-renew p v kids rest)
  ]

  -- Where the branch of a node is found.
  pub branch-below :
      (p w : Ptr) (x : T) (below rest : Forest T)
      → (w == p) ≡ false
      → times p rest ≡ 0
      → branch p (tree w x below rest) ≡ branch p below
  branch-below p w x below rest other z =
      rw (other, branch-none p rest z, snoc-nil (branch p below))

  pub branch-beside :
      (p w : Ptr) (x : T) (below rest : Forest T)
      → (w == p) ≡ false
      → times p below ≡ 0
      → branch p (tree w x below rest) ≡ branch p rest
  branch-beside p w x below rest other z = rw (other, branch-none p below z)

  pub times-branch : (a p : Ptr) (f : Forest T) → times a (branch p f) ≤ times a f
  times-branch a p f = omega (arith, times-prune a p f)

  pub times-renew :
      (a p : Ptr) (v : T) (kids f : Forest T)
      → times p f ≡ 1
      → times a (renew p v kids f) + times a (branch p f) ≡ times a f + times a (tree p v kids nil)
  times-renew a p v kids nil z = absurd (omega arith)
  times-renew a p v kids (tree w x below rest) one = elim (Bool-cases (w == p)) [
    | inl e ↦ rw e (ground arith)
    | inr e ↦ elim (dec_lt 0 (times p below)) [
      | yes l ↦
          let z : times p rest ≡ 0 = ground arith in
          let b = branch-below p w x below rest e z in
          rw (b, e, renew-none p v kids rest z)
            (omega (arith, times-renew a p v kids below (ground arith)))
      | no out ↦
          let z : times p below ≡ 0 = omega arith in
          rw (branch-beside p w x below rest e z, e, renew-none p v kids below z)
            (omega (arith, times-renew a p v kids rest (ground arith)))
    ]
  ]

  -- Where a node of a forest stands, and what the heap needs for the forest with a renewed node.
  pub record Found (h : Heap T) (q : Option Ptr) (i : ℕ) (p : Ptr) (f : Forest T) : Type ℓ where
    pub above : Option Ptr
    pub place : ℕ
    pub here : Holds h above place (branch p f)
    pub renewed :
        (h' : Heap T) (v : T) (kids : Forest T)
        → Holds h' above place (tree p v kids nil)
        → ((a : Ptr) → times a (branch p f) ≡ 0 → h' a ≡ h a)
        → Holds h' q i (renew p v kids f)

  pub find_node :
      (h : Heap T) (q : Option Ptr) (i : ℕ) (p : Ptr) (f : Forest T)
      → Holds h q i f
      → Distinct f
      → 0 < times p f
      → Found h q i p f
  find_node h q i p nil s d l = absurd (omega arith)
  find_node h q i p (tree w x below rest) s d l = elim (Bool-cases (w == p)) [
    | inl e ↦ record {
      above = q;
      place = i;
      here = rw e (s.0, s.1, tt);
      renewed = λ h' v kids held same. rw e (
        rw (let wp : w ≡ p = (==_iff w p).0 e in wp) held.0,
        rw (let wp : w ≡ p = (==_iff w p).0 e in wp) held.1,
        Holds-frame h' q (suc i) rest s.2 (λ a m. same a (rw e (ground (arith, d a)))),
      );
    }
    | inr e ↦ elim (dec_lt 0 (times p below)) [
      | yes under ↦
          let z : times p rest ≡ 0 = ground (arith, d p) in
          let c = find_node h (some w) 0 p below s.1 (λ a. ground (arith, d a)) under in
          let b = branch-below p w x below rest e z in
          record {
            above = c.above;
            place = c.place;
            here = rw b c.here;
            renewed = λ h' v kids held same.
                let same' = λ (a : Ptr) (m : times a (branch p below) ≡ 0). same a (rw b m) in
                rw (e, renew-none p v kids rest z, roots-renew p v kids below)
                  (
                    same' w (ground (arith, times-branch w p below, d w)) ∙ s.0,
                    c.renewed h' v kids held same',
                    Holds-frame h' q (suc i) rest s.2
                        (λ a m. same' a (ground (arith, times-branch a p below, d a))),
                  );
          }
      | no out ↦
          let z : times p below ≡ 0 = omega arith in
          let c = find_node h q (suc i) p rest s.2 (λ a. ground (arith, d a)) (ground arith) in
          let b = branch-beside p w x below rest e z in
          record {
            above = c.above;
            place = c.place;
            here = rw b c.here;
            renewed = λ h' v kids held same.
                let same' = λ (a : Ptr) (m : times a (branch p rest) ≡ 0). same a (rw b m) in
                rw (e, renew-none p v kids below z)
                  (
                    same' w (ground (arith, times-branch w p rest, d w)) ∙ s.0,
                    Holds-frame h' (some w) 0 below s.1
                        (λ a m. same' a (ground (arith, times-branch a p rest, d a))),
                    c.renewed h' v kids held same',
                  );
          }
    ]
  ]
