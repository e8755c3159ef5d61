-- ===== src/Tree/Graft/Frame.antt =====
-- A heap holds a forest whatever it has at other addresses.
use cpp_tools.Base.{
  ◌==◌, inl, inr, Bool-cases, ==_iff, suc, some, ap, ◌≢◌, ℕ, ◌<◌, Option, ◌≡◌, ◌∙◌, arith,
}
use cpp_tools.Tree.Store.{Ptr, Heap, Node, node}
use native.Mathlib.Decide.{dec_lt}
use cpp_tools.Tree.Forest.{Forest, nil, tree, roots, times, Holds}

module _ {ℓ} {T : Type ℓ} where
  pub Holds-frame :
      {h : Heap T} (g : Heap T) (q : Option Ptr) (i : ℕ) (f : Forest T)
      → Holds h q i f
      → ((a : Ptr) → 0 < times a f → g a ≡ h a)
      → Holds g q i f
  Holds-frame g q i nil s same = tt
  Holds-frame g q i (tree p v kids rest) s same = (
    same p (ground arith) ∙ s.0,
    Holds-frame g (some p) 0 kids s.1 (λ a l. same a (ground arith)),
    Holds-frame g q (suc i) rest s.2 (λ a l. same a (ground arith)),
  )

  pub ne_of_times : {a b : Ptr} (f : Forest T) → 0 < times a f → times b f ≡ 0 → a ≢ b
  ne_of_times f l z e = absurd (omega (arith, ap (λ x. times x f) e))

  pub node_of :
      (h : Heap T) (q : Option Ptr) (i : ℕ) (a : Ptr) (f : Forest T)
      → Holds h q i f
      → 0 < times a f
      → (n : Node T) × (h a ≡ some n)
  node_of h q i a nil s l = absurd (omega arith)
  node_of h q i a (tree p v kids rest) s l = elim (Bool-cases (a == p)) [
    | inl e ↦ (node v q i (roots kids), ap h ((==_iff a p).0 e) ∙ s.0)
    | inr e ↦ elim (dec_lt 0 (times a kids)) [
      | yes below ↦ node_of h (some p) 0 a kids s.1 below
      | no other ↦ node_of h q (suc i) a rest s.2 (ground arith)
    ]
  ]
