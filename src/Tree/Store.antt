-- ===== src/Tree/Store.antt =====
-- The data of node.hpp: a node, and the addresses that hold nodes.
use cpp_tools.Base.{ℕ, List, Option, ◌==◌, if◌then◌else◌, ◌≡◌, ◌≢◌, arith}
use cpp_tools.Base.Result.{Result, of_option}

abbrev pub Ptr : Type 0
Ptr = ℕ

-- `parent` is `none` where the source has a null pointer.
pub record Node {ℓ} (T : Type ℓ) : Type ℓ where
  pub value : T
  pub parent : Option Ptr
  pub sibling_index : ℕ
  pub children : List Ptr

module _ {ℓ} {T : Type ℓ} where
  abbrev pub node : T → Option Ptr → ℕ → List Ptr → Node T
  node v q i cs = record { value = v; parent = q; sibling_index = i; children = cs }

-- The addresses that hold a node, with the node.
abbrev pub Heap {ℓ} : Type ℓ → Type ℓ
Heap T = Ptr → Option (Node T)

module _ {ℓ} {T : Type ℓ} where
  unfoldable pub write : Heap T → Ptr → Option (Node T) → Heap T
  write h p c a = if a == p then c else h a

  -- `*p`
  unfoldable pub load : Heap T → Ptr → Result (Node T)
  load h p = of_option (h p)

  pub write_self : (h : Heap T) (p : Ptr) (c : Option (Node T)) → write h p c p ≡ c
  unfolding write
  write_self h p c = ground arith

  pub write_ne : (h : Heap T) (p a : Ptr) (c : Option (Node T)) → a ≢ p → write h p c a ≡ h a
  unfolding write
  write_ne h p a c ne = ground arith
