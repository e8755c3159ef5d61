-- ===== src/Tree/Unsafe/Initializer/Fill.antt =====
-- An initializer makes the tree that it describes.
use cpp_tools.Base.{ℕ, suc, ◌+◌, ◌≤◌, ◌<◌, true, none, some, ◌==◌, ◌≡◌, ◌≢◌, refl, ap, ◌∙◌, arith}
use mathlib.Core.Path.{subst}
use cpp_tools.Base.Result.{Result, ok}
use cpp_tools.Tree.Store.{Ptr, Heap}
use cpp_tools.Tree.Forest.{Forest, nil, tree, times, depth}
use cpp_tools.Tree.Graft.{graft, times-graft}
use cpp_tools.Tree.Graft.Compose.{graft-nil, graft_twice, graft_below, depth-graft}
use cpp_tools.Tree.Unsafe.{UnsafeTree, empty_tree}
use cpp_tools.Tree.Unsafe.Model.{Models}
use cpp_tools.Tree.Unsafe.Place.{emplace_node-Models}
use cpp_tools.Tree.Unsafe.Copy.{Building}
use cpp_tools.Tree.Unsafe.Initializer.{
  Initializers, no_more, initializer, fill_from_init, from_initializer,
}

-- The allocator returns different addresses.
other_call :
    (fresh : ℕ → Ptr)
    → ((i j : ℕ) → fresh i ≡ fresh j → i ≡ j)
    → (k i : ℕ) → k ≢ i
    → fresh k ≢ fresh i
other_call fresh injective k i ne e = ne (injective k i e)

module _ {ℓ} {T : Type ℓ} where
  abbrev pub value_count : Initializers T → ℕ
  value_count no_more = 0
  value_count (initializer v children others) = suc (value_count children + value_count others)

module _ {ℓ} {T : Type ℓ} (fresh : ℕ → Ptr) where
  -- The forest that initializers describe, from the call `i` of the allocator on.
  abbrev pub described : ℕ → Initializers T → Forest T
  described i no_more = nil
  described i (initializer v children others) =
      tree (fresh i) v (described (suc i) children)
        (described (suc i + value_count children) others)

  depth-described : (i : ℕ) (x : Initializers T) → depth (described i x) ≤ value_count x
  depth-described i no_more = omega arith
  depth-described i (initializer v children others) = omega (
    arith,
    depth-described (suc i) children,
    depth-described (suc i + value_count children) others,
  )

  times-described_other :
      (a : Ptr) (i : ℕ) (x : Initializers T)
      → ((k : ℕ) → i ≤ k → a ≢ fresh k)
      → times a (described i x) ≡ 0
  times-described_other a i no_more other = refl
  times-described_other a i (initializer v children others) other = ground (
    arith,
    other i (omega arith),
    times-described_other a (suc i) children (λ k l. other k (omega arith)),
    times-described_other a (suc i + value_count children) others (λ k l. other k (omega arith)),
  )

  module _ (injective : (i j : ℕ) → fresh i ≡ fresh j → i ≡ j) (fuel : ℕ) where
    -- What a call leaves that puts `g` below the node `d` of `f`.
    pub record Filled (calls : ℕ) (d : Ptr) (g f : Forest T) (call : Result (Building T))
        : Type ℓ where
      pub heap : Heap T
      pub tree' : UnsafeTree
      pub returns : call ≡ ok (record { calls = calls; heap = heap; tree = tree' })
      pub models : Models heap tree' (graft d g f)

    -- No address that the allocator returns from now on is in the forest.
    abbrev Unused : ℕ → Forest T → Type 0
    Unused i f = (k : ℕ) → i ≤ k → times (fresh k) f ≡ 0

    -- A later address is not in the forest that initializers describe.
    Unused-described :
        (i m : ℕ) (x : Initializers T) → i + value_count x ≤ m → Unused m (described i x)
    Unused-described i m no_more l k l' = refl
    Unused-described i m (initializer v children others) l k l' = ground (
      arith,
      other_call fresh injective k i (omega arith),
      Unused-described (suc i) m children (omega arith) k l',
      Unused-described (suc i + value_count children) m others (omega arith) k l',
    )

    Unused-graft :
        (i m : ℕ) (d : Ptr) (v : T) (g f : Forest T)
        → Unused i f
        → suc i ≤ m
        → times d f ≡ 1
        → ((k : ℕ) → m ≤ k → times (fresh k) g ≡ 0)
        → Unused m (graft d (tree (fresh i) v g nil) f)
    Unused-graft i m d v g f unused l once later k l' = ground (
      arith,
      other_call fresh injective k i (omega arith),
      times-graft (fresh k) d (tree (fresh i) v g nil) f once,
      unused k (omega arith),
      later k l',
    )

    fill_from_init-Filled :
        (d : Ptr) (x : Initializers T) (i : ℕ) (h : Heap T) (t : UnsafeTree) (f : Forest T)
        → Models h t f
        → times d f ≡ 1
        → Unused i f
        → depth f + value_count x < fuel
        → Filled
            (i + value_count x)
            d
            (described i x)
            f
            (fill_from_init fresh fuel d x (record { calls = i; heap = h; tree = t }))
    unfolding fill_from_init
    fill_from_init-Filled d no_more i h t f m once unused enough = record {
      heap = h;
      tree' = t;
      returns =
          ap (λ k. ok (record { calls = k; heap = h; tree = t }))
            (let e : i ≡ i + 0 = omega arith in e);
      models = rw (graft-nil d f) m;
    }
    fill_from_init-Filled d (initializer v children others) i h t f m once unused enough =
        let c : Ptr = fresh i in
        let below : Forest T = described (suc i) children in
        let (h', t', emplaced, placed) =
          emplace_node-Models fuel (some d) c v f m (omega arith) (unused i (omega arith))
            (omega arith) in
        let leaf : Forest T = tree c v nil nil in
        let deeper = depth-graft d leaf f in
        let first =
          fill_from_init-Filled c children (suc i) h' t' (graft d leaf f) placed
            (ground (arith, times-graft c d leaf f once, unused i))
            (Unused-graft i (suc i) d v nil f unused (omega arith) once (λ k l. refl))
            (omega (arith, deeper)) in
        let grown : Models first.heap first.tree' (graft d (tree c v below nil) f) =
          rw (← graft_below d c v below f (unused i (omega arith))) first.models in
        let branch : Forest T = tree c v below nil in
        let next : ℕ = suc i + value_count children in
        let foreign : (k : ℕ) → i ≤ k → d ≢ fresh k =
          λ k l e. absurd (omega (arith, unused k l, ap (λ a. times a f) e, once)) in
        let out : times d below ≡ 0 =
          times-described_other d (suc i) children (λ k l. foreign k (omega arith)) in
        let last =
          fill_from_init-Filled d others next first.heap first.tree' (graft d branch f) grown
            (ground (arith, times-graft d d branch f once, out, foreign i))
            (Unused-graft i next d v below f unused (omega arith) once
              (Unused-described (suc i) next children (omega arith)))
            (omega (arith, depth-graft d branch f, depth-described (suc i) children)) in
        record {
          heap = last.heap;
          tree' = last.tree';
          returns =
              rw (emplaced, first.returns) last.returns
              ∙ ap (λ k. ok (record { calls = k; heap = last.heap; tree = last.tree' }))
                  (let e : next + value_count others
                        ≡ i + suc (value_count children + value_count others) =
                      omega arith in
                    e);
          models =
              subst (Models last.heap last.tree') (graft_twice d branch (described next others) f)
                last.models;
        }

    -- The constructor from an initializer, on addresses that the allocator returns once each, and with
    -- rounds for its values, returns a tree that stands for the forest that the initializer describes: its
    -- value at the root, and the trees of its children below, in order.
    pub from_initializer-Models :
        (h : Heap T) (value : T) (children : Initializers T)
        → suc (value_count children) < fuel
        → (h' : Heap T) × (t : UnsafeTree) × (from_initializer fresh fuel h value children
            ≡ ok (record { calls = suc (value_count children); heap = h'; tree = t }))
          × Models h' t (tree (fresh 0) value (described 1 children) nil)
    unfolding from_initializer
    from_initializer-Models h value children enough =
        let root : Ptr = fresh 0 in
        let empty : Models h empty_tree nil = record {
          held = tt;
          distinct = λ a. omega arith;
          owned = λ a. refl;
          points = (refl, refl, refl);
        } in
        let (h', t, emplaced, placed) =
          emplace_node-Models fuel none root value nil empty tt refl (omega arith) in
        let filled =
          fill_from_init-Filled root children 1 h' t (tree root value nil nil) placed (ground arith)
            (λ k l. ground (arith, other_call fresh injective k 0 (omega arith))) (omega arith) in
        let hit : (root == root) ≡ true = ground arith in
        (
          filled.heap,
          filled.tree',
          rw emplaced filled.returns
              ∙ ap (λ k. ok (record { calls = k; heap = filled.heap; tree = filled.tree' }))
                  (let e : 1 + value_count children ≡ suc (value_count children) = omega arith in
                    e),
          rw hit at filled.models,
        )
