-- ===== src/Tree/Unsafe/Clear.antt =====
-- `clear` destroys the nodes of a tree, and no other.
use cpp_tools.Base.{◌<◌, List, [], ◌∷◌, none, ◌==◌, ◌≡◌, refl, arith, inl, inr, Bool-cases}
use cpp_tools.Tree.Store.{Ptr, Heap, write}
use cpp_tools.Tree.Forest.{Forest, nil, times}
use cpp_tools.Tree.Unsafe.{UnsafeTree, release, clear}
use cpp_tools.Tree.Unsafe.Model.{Models, count}

module _ {ℓ} {T : Type ℓ} where
  pub release-other : (ps : List Ptr) (h : Heap T) (a : Ptr) → count a ps ≡ 0 → release h ps a ≡ h a
  unfolding release write
  release-other [] h a out = refl
  release-other (p ∷ ps) h a out = ground (arith, release-other ps (write h p none) a)

  release-gone : (ps : List Ptr) (h : Heap T) (a : Ptr) → h a ≡ none → release h ps a ≡ none
  unfolding release write
  release-gone [] h a gone = gone
  release-gone (p ∷ ps) h a gone = release-gone ps (write h p none) a (ground arith)

  pub release-owned :
      (ps : List Ptr) (h : Heap T) (a : Ptr) → 0 < count a ps → release h ps a ≡ none
  unfolding release write
  release-owned [] h a owned = absurd (omega arith)
  release-owned (p ∷ ps) h a owned = elim (Bool-cases (a == p)) [
    | inl hit ↦ release-gone ps (write h p none) a (ground arith)
    | inr miss ↦ release-owned ps (write h p none) a (ground arith)
  ]

  -- On a tree that stands for a forest, `clear` leaves a tree that stands for the empty forest, no node
  -- at the addresses of the old one, and every other address as it was.
  pub clear-Models :
      {h : Heap T} {t : UnsafeTree} (f : Forest T) (a b : Ptr)
      → Models h t f
      → 0 < times a f
      → times b f ≡ 0
      → Models (clear h t).0 (clear h t).1 nil × ((clear h t).0 a ≡ none) × ((clear h t).0 b ≡ h b)
  unfolding clear
  clear-Models {h = h} {t = t} f a b m inside outside = (
    record {
      held = tt;
      distinct = λ c. omega arith;
      owned = λ c. refl;
      points = (refl, refl, refl);
    },
    release-owned t.nodes h a (omega (arith, m.owned a)),
    release-other t.nodes h b (omega (arith, m.owned b)),
  )
