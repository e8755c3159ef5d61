-- ===== src/Tree/Traversal/Visits.antt =====
-- A step function that goes through a list of nodes, in order and in reverse, and the loop over it.
use cpp_tools.Base.{
  ℕ, zero, suc, ◌<◌, List, [], ◌∷◌, ◌++◌, Option, none, some, ◌≡◌, refl, arith, length,
}
use cpp_tools.Base.Result.{Result, ok}
use cpp_tools.Tree.Store.{Ptr}
use cpp_tools.Tree.Traversal.{visit}

-- The first node, or what comes behind the list.
abbrev pub start : List Ptr → Option Ptr → Option Ptr
start [] e = e
start (x ∷ xs) e = some x

-- Each node leads to the one behind it, and the last one to `e`.
abbrev pub Visits : (Ptr → Result (Option Ptr)) → List Ptr → Option Ptr → Type 0
Visits step [] e = Unit
Visits step (x ∷ xs) e = (step x ≡ ok (start xs e)) × Visits step xs e

-- Each node leads to the one before it, and the first one to `b`.
abbrev pub VisitsBack : (Ptr → Result (Option Ptr)) → Option Ptr → List Ptr → Type 0
VisitsBack step b [] = Unit
VisitsBack step b (x ∷ xs) = (step x ≡ ok b) × VisitsBack step (some x) xs

-- The last node, or what comes before the list.
abbrev pub finish : Option Ptr → List Ptr → Option Ptr
finish b [] = b
finish b (x ∷ xs) = finish (some x) xs

pub finish-append :
    (b : Option Ptr) (xs ys : List Ptr) → finish b (xs ++ ys) ≡ finish (finish b xs) ys
finish-append b [] ys = refl
finish-append b (x ∷ xs) ys = finish-append (some x) xs ys

module _ (step : Ptr → Result (Option Ptr)) where
  pub Visits-append :
      (xs ys : List Ptr) (e : Option Ptr)
      → Visits step xs (start ys e)
      → Visits step ys e
      → Visits step (xs ++ ys) e
  Visits-append [] ys e a b = b
  Visits-append (x ∷ []) ys e a b = (a.0, b)
  Visits-append (x ∷ y ∷ xs) ys e a b = (a.0, Visits-append (y ∷ xs) ys e a.1 b)

  pub VisitsBack-append :
      (b : Option Ptr) (xs ys : List Ptr)
      → VisitsBack step b xs
      → VisitsBack step (finish b xs) ys
      → VisitsBack step b (xs ++ ys)
  VisitsBack-append b [] ys p q = q
  VisitsBack-append b (x ∷ xs) ys p q = (p.0, VisitsBack-append (some x) xs ys p.1 q)

  -- The loop returns the whole list, when it has a round for each node.
  pub visit-Visits :
      (k : ℕ) (xs : List Ptr)
      → Visits step xs none
      → length xs < suc k
      → visit k step (start xs none) ≡ ok xs
  unfolding visit
  visit-Visits k [] v fuel = refl
  visit-Visits zero (x ∷ xs) v fuel = absurd (omega arith)
  visit-Visits (suc k) (x ∷ xs) v fuel = rw (v.0, visit-Visits k xs v.1 (omega arith))
