-- ===== src/Tree/Unsafe/Copy/Copied.antt =====
-- The forest that a copy of nodes makes: the same shape and values, at the addresses that the allocator
-- returns.
use cpp_tools.Base.{
  ℕ, suc, ◌+◌, ◌≤◌, ◌<◌, true, Bool, ◌==◌, ◌≡◌, ◌≢◌, refl, inl, inr, arith, Bool-cases, ==_iff,
}
use native.Mathlib.Decide.{dec_lt}
use cpp_tools.Tree.Store.{Ptr}
use cpp_tools.Tree.Forest.{Forest, nil, tree, times, Distinct, depth, node_count}
use cpp_tools.Tree.Unsafe.Equality.Walk.{same_forest}

module _ {ℓ} {T : Type ℓ} (fresh : ℕ → Ptr) where
  -- The copy of a forest, from the call `i` of the allocator on.
  abbrev pub copy : ℕ → Forest T → Forest T
  copy i nil = nil
  copy i (tree p v kids rest) =
      tree (fresh i) v (copy (suc i) kids) (copy (suc i + node_count kids) rest)

  pub node_count-copy : (i : ℕ) (f : Forest T) → node_count (copy i f) ≡ node_count f
  node_count-copy i nil = refl
  node_count-copy i (tree p v kids rest) =
      omega (arith, node_count-copy (suc i) kids, node_count-copy (suc i + node_count kids) rest)

  pub depth-copy : (i : ℕ) (f : Forest T) → depth (copy i f) ≡ depth f
  depth-copy i nil = refl
  depth-copy i (tree p v kids rest) =
      omega (arith, depth-copy (suc i) kids, depth-copy (suc i + node_count kids) rest)

  -- Where every value compares equal to itself, a copy is the same forest.
  pub same_forest-copy :
      (eq : T → T → Bool)
      → ((v : T) → eq v v ≡ true)
      → (i : ℕ) (f : Forest T) → same_forest eq f (copy i f) ≡ true
  same_forest-copy eq self i nil = refl
  same_forest-copy eq self i (tree p v kids rest) = rw (
    self v,
    same_forest-copy eq self (suc i) kids,
    same_forest-copy eq self (suc i + node_count kids) rest,
  )

  pub times-copy_other :
      (a : Ptr) (i : ℕ) (f : Forest T) → ((j : ℕ) → i ≤ j → a ≢ fresh j) → times a (copy i f) ≡ 0
  times-copy_other a i nil other = refl
  times-copy_other a i (tree p v kids rest) other =
      let apart = other i (omega arith) in
      ground (
        arith,
        apart,
        times-copy_other a (suc i) kids (λ j l. other j (omega arith)),
        times-copy_other a (suc i + node_count kids) rest (λ j l. other j (omega arith)),
      )

  -- The call at which an address of the copy was returned.
  call_of :
      (a : Ptr) (i : ℕ) (f : Forest T)
      → 0 < times a (copy i f)
      → (j : ℕ) × (i ≤ j) × (j < i + node_count f) × (a ≡ fresh j)
  call_of a i nil l = absurd (omega arith)
  call_of a i (tree p v kids rest) l = elim (Bool-cases (a == fresh i)) [
    | inl hit ↦ (i, omega arith, omega arith, (==_iff a (fresh i)).0 hit)
    | inr miss ↦ elim (dec_lt 0 (times a (copy (suc i) kids))) [
      | yes below ↦
          let (j, low, high, e) = call_of a (suc i) kids below in (j, omega arith, omega arith, e)
      | no not_below ↦
          let (j, low, high, e) = call_of a (suc i + node_count kids) rest (ground arith) in
          (j, omega arith, omega arith, e)
    ]
  ]

  module _ (injective : (i j : ℕ) → fresh i ≡ fresh j → i ≡ j) where
    -- An earlier address is not in the copy.
    pub times-copy_earlier : (j i : ℕ) (f : Forest T) → j < i → times (fresh j) (copy i f) ≡ 0
    times-copy_earlier j i f l =
        times-copy_other (fresh j) i f (λ k h e. absurd (omega (arith, injective j k e)))

    pub times-copy_apart :
        (a : Ptr) (i k : ℕ) (f g : Forest T)
        → i + node_count f ≤ k
        → 0 < times a (copy i f)
        → times a (copy k g) ≡ 0
    times-copy_apart a i k f g l there =
        let (j, low, high, e) = call_of a i f there in rw e (times-copy_earlier j k g (omega arith))

    pub copy-Distinct : (i : ℕ) (f : Forest T) → Distinct (copy i f)
    copy-Distinct i nil a = omega arith
    copy-Distinct i (tree p v kids rest) a =
        let k = suc i + node_count kids in
        elim (Bool-cases (a == fresh i)) [
          | inl hit ↦
              let e : a ≡ fresh i = (==_iff a (fresh i)).0 hit in
              let below : times a (copy (suc i) kids) ≡ 0 =
                rw e (times-copy_earlier i (suc i) kids (omega arith)) in
              let beside : times a (copy k rest) ≡ 0 =
                rw e (times-copy_earlier i k rest (omega arith)) in
              ground (arith, below, beside)
          | inr miss ↦ elim (dec_lt 0 (times a (copy (suc i) kids))) [
            | yes there ↦
                let beside = times-copy_apart a (suc i) k kids rest (omega arith) there in
                ground (arith, beside, copy-Distinct (suc i) kids a)
            | no not_there ↦ ground (arith, copy-Distinct k rest a)
          ]
        ]
