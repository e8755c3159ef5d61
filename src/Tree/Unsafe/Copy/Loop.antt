-- ===== src/Tree/Unsafe/Copy/Loop.antt =====
-- The recursion of `_copy_children_recursive` copies a whole forest.
use cpp_tools.Base.{
  ℕ, zero, suc, ◌+◌, ◌≤◌, List, [], ◌∷◌, ◌++◌, Option, some, ◌≡◌, ◌≢◌, refl, sym, ap, ◌∙◌, arith,
  length, length-append, append_assoc,
}
use mathlib.Core.Path.{subst}
use cpp_tools.Base.Result.{Result, ok, ◌>>=◌}
use cpp_tools.Tree.Store.{Ptr, Node, node, Heap, load, write, write_self, write_ne}
use cpp_tools.Tree.Forest.{Forest, nil, tree, roots, depth, times, node_count, Holds}
use cpp_tools.Tree.Node.{make}
use cpp_tools.Tree.Graft.{insert_child-linked}
use cpp_tools.Tree.Graft.Frame.{Holds-frame, ne_of_times}
use cpp_tools.Tree.Unsafe.{UnsafeTree, make_node}
use cpp_tools.Tree.Unsafe.Subtree.{for_each}
use cpp_tools.Tree.Unsafe.Copy.{Building, copy_child, copy_children}
use cpp_tools.Tree.Unsafe.Copy.Copied.{copy, times-copy_other, times-copy_earlier, times-copy_apart}
use cpp_tools.Tree.Unsafe.Copy.Children.{
  building, Copying, Ready, copy-nil, below, with_child, new_node, with_child-new,
  with_child-parent, with_child-other,
}

abbrev pub owning : UnsafeTree → Ptr → UnsafeTree
owning t c = record t { nodes = c ∷ t.nodes }

module _ {ℓ} {T : Type ℓ} (fresh : ℕ → Ptr) where
  copy_child_lem :
      (again : Ptr → Ptr → Building T → Result (Building T)) (i : ℕ) (h : Heap T) (t : UnsafeTree)
      (to p : Ptr) (n : Node T) (v : T) (q : Option Ptr) (j : ℕ) (cs : List Ptr)
      → h p ≡ some (node v q j cs)
      → (at : h to ≡ some n) → (apart : to ≢ fresh i) → p ≢ to
      → p ≢ fresh i
      → copy_child fresh again to p (building fresh i h t) ≡ elim cs [
        | [] ↦ ok (
            building fresh
              (suc i)
              (with_child fresh h to (fresh i) n v at apart)
              (owning t (fresh i)))
        | d ∷ ds ↦ again p (fresh i) (
            building fresh
              (suc i)
              (with_child fresh h to (fresh i) n v at apart)
              (owning t (fresh i)))
      ]
  unfolding copy_child make_node load
  copy_child_lem again i h t to p n v q j cs source at apart np nc =
      let h' = write h (fresh i) (some (make v)) in
      rw
        (
          source,
          insert_child-linked h' to (fresh i) (write_ne h (fresh i) to (some (make v)) apart ∙ at)
              (write_self h (fresh i) (some (make v))) (λ e. apart (sym e)),
          with_child-other fresh h to (fresh i) n v at apart p np nc,
          source,
        )
        refl

  module _ (injective : (i j : ℕ) → fresh i ≡ fresh j → i ≡ j) (i : ℕ) (h : Heap T) (to p : Ptr)
      (n : Node T) (q : Option Ptr) (j : ℕ) (v : T) (kids rest : Forest T)
      (ready : Ready fresh i h to n q j (tree p v kids rest)) where
    abbrev c : Ptr
    c = fresh i

    apart : to ≢ c
    apart = ready.later i (omega arith)

    abbrev h' : Heap T
    h' = with_child fresh h to c n v ready.at apart

    -- Before the children of the child.
    ready_below :
        Ready fresh (suc i) h' c (new_node fresh h to c n v ready.at apart) (some p) 0 kids
    ready_below =
        let unused =
          λ (k : ℕ). (let z : times (fresh k) kids ≡ 0 = ground (arith, ready.unused k) in z) in
        let out : times to kids ≡ 0 = ground (arith, ready.outside) in
        record {
          source = Holds-frame h' (some p) 0 kids ready.source.1 (λ a l.
              with_child-other fresh h to c n v ready.at apart a (ne_of_times kids l out)
                (ne_of_times kids l (unused i)));
          at = with_child-new fresh h to c n v ready.at apart;
          outside = unused i;
          unused = unused;
          later = λ k l e. absurd (omega (arith, injective i k e));
        }

    module _ (t : UnsafeTree) {call : Result (Building T)}
        (first : Copying fresh
          (suc i)
          h'
          (owning t c)
          c
          (new_node fresh h to c n v ready.at apart)
          kids
          call) where
      abbrev k : ℕ
      k = suc i + node_count kids

      abbrev parent' : Node T
      parent' = record n { children = n.children ++ c ∷ [] }

      -- `to` is not in a copy.
      out_of_copy : (g : Forest T) (m : ℕ) → i ≤ m → times to (copy fresh m g) ≡ 0
      out_of_copy g m l = times-copy_other fresh to m g (λ j l'. ready.later j (omega arith))

      -- Before the trees behind the child.
      ready_behind : Ready fresh k first.heap to parent' q (suc j) rest
      ready_behind =
          let unused =
            λ (k : ℕ). (let z : times (fresh k) rest ≡ 0 = ground (arith, ready.unused k) in z) in
          let out : times to rest ≡ 0 = ground (arith, ready.outside) in
          record {
            source = Holds-frame first.heap q (suc j) rest ready.source.2 (λ a l.
                first.frame a (ne_of_times rest l (unused i))
                  (times-copy_other fresh a (suc i) kids (λ j l'. ne_of_times rest l (unused j)))
                ∙ with_child-other fresh h to c n v ready.at apart a (ne_of_times rest l out)
                    (ne_of_times rest l (unused i)));
            at =
                first.frame to apart (out_of_copy kids (suc i) (omega arith))
                ∙ with_child-parent fresh h to c n v ready.at apart;
            outside = out;
            unused = unused;
            later = λ k l. ready.later k (omega arith);
          }

      -- The child, its copy below it, and the trees behind it.
      whole :
          {behind : Result (Building T)}
          → Copying fresh k first.heap first.tree to parent' rest behind
          → Copying fresh i h t to n (tree p v kids rest) behind
      whole last = record {
        heap = last.heap;
        tree = last.tree;
        returns =
            last.returns
            ∙ ap (λ m. ok (building fresh m last.heap last.tree))
                (let e : k + node_count rest ≡ i + suc (node_count kids + node_count rest) =
                    omega arith in
                  e);
        held = (
          last.frame c (λ e. apart (sym e))
                (times-copy_earlier fresh injective i k rest (omega arith))
              ∙ first.parent,
          Holds-frame last.heap (some c) 0 (copy fresh (suc i) kids) first.held (λ a l.
              last.frame a
                (ne_of_times (copy fresh (suc i) kids) l (out_of_copy kids (suc i) (omega arith)))
                (times-copy_apart fresh injective a (suc i) k kids rest (omega arith) l)),
          subst (λ m. Holds last.heap (some to) m (copy fresh k rest))
              (let e : length (n.children ++ c ∷ []) ≡ suc (length n.children) =
                  omega (arith, length-append n.children (c ∷ [])) in
                e)
              last.held,
        );
        parent =
            last.parent
            ∙ ap (λ cs. some (record n { children = cs }))
                (append_assoc n.children (c ∷ []) (roots (copy fresh k rest)));
        frame = λ a ne out.
            last.frame a ne (ground (arith, out))
            ∙ first.frame a (ground (arith, out)) (ground (arith, out))
            ∙ with_child-other fresh h to c n v ready.at apart a ne (ground (arith, out));
        owned = λ a. ground (arith, last.owned a, first.owned a);
      }

  -- The loop over the children of a node copies the trees below it.
  pub copy_children-Copying :
      ((i j : ℕ) → fresh i ≡ fresh j → i ≡ j)
      → (k i : ℕ) (h : Heap T) (t : UnsafeTree) (to : Ptr) (n : Node T) (q : Option Ptr) (j : ℕ)
        (g : Forest T)
      → Ready fresh i h to n q j g
      → depth g ≤ k
      → Copying fresh i h t to n g
          (for_each (copy_child fresh (copy_children fresh k) to) (roots g) (building fresh i h t))
  copy_children-Copying injective k i h t to n q j nil ready d = copy-nil fresh i h t to n ready.at
  copy_children-Copying injective zero i h t to n q j (tree p v kids rest) ready d =
      absurd (omega arith)
  copy_children-Copying injective (suc k) i h t to n q j (tree p v kids rest) ready d =
      let c : Ptr = fresh i in
      let step : Ptr → Building T → Result (Building T) =
        copy_child fresh (copy_children fresh (suc k)) to in
      let away = apart injective i h to p n q j v kids rest ready in
      let h' = with_child fresh h to c n v ready.at away in
      let np : p ≢ to = λ e. absurd (ground (arith, ready.outside, e)) in
      let nc : p ≢ c = λ e. absurd (ground (arith, ready.unused i, e)) in
      let at_p = with_child-other fresh h to c n v ready.at away p np nc ∙ ready.source.0 in
      let first =
        below fresh k (suc i) h' (owning t c) p c v q j (new_node fresh h to c n v ready.at away)
          kids at_p
          (copy_children-Copying injective k (suc i) h' (owning t c) c
            (new_node fresh h to c n v ready.at away) (some p) 0 kids
            (ready_below injective i h to p n q j v kids rest ready) (omega arith)) in
      let last =
        copy_children-Copying injective (suc k) (suc i + node_count kids) first.heap first.tree to
          (record n { children = n.children ++ c ∷ [] }) q (suc j) rest
          (ready_behind injective i h to p n q j v kids rest ready t first) (omega arith) in
      let made =
        copy_child_lem (copy_children fresh (suc k)) i h t to p n v q j (roots kids) ready.source.0
          ready.at away np nc
        ∙ first.returns in
      subst (Copying fresh i h t to n (tree p v kids rest))
        (ap (λ r. r >>= λ s. for_each step (roots rest) s) (sym made))
        (whole injective i h to p n q j v kids rest ready t first last)
