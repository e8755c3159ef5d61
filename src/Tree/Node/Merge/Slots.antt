-- ===== src/Tree/Node/Merge/Slots.antt =====
-- The vector of children while `merge_child` replaces one of them by others.
use cpp_tools.Base.{
  take-append, ℕ, zero, suc, ◌+◌, ◌-◌, ◌&&◌, true, false, List, [], ◌∷◌, ◌++◌, Option, some, ◌≡◌,
  refl, sym, ap, ◌∙◌, arith, ltb, length, length-append, length-take, get_elem?, set, take, drop,
  map, append-nil, append_assoc, length-map,
}
use cpp_tools.Base.Result.{ok}
use cpp_tools.Tree.Store.{Ptr}
use cpp_tools.Tree.Node.{erase_at}
use cpp_tools.Tree.Node.Merge.{Slots, resize, overwrite, make_room, pointers}

module _ {ℓ} {A : Type ℓ} where
  pub erase_at-middle :
      (left : List A) (x : A) (right : List A)
      → erase_at (left ++ x ∷ right) (length left) ≡ left ++ right
  erase_at-middle [] x right = refl
  erase_at-middle (y ∷ left) x right = ap (λ l. y ∷ l) (erase_at-middle left x right)

  pub get_elem?-middle :
      (left : List A) (x : A) (right : List A)
      → get_elem? (left ++ x ∷ right) (length left) ≡ some x
  get_elem?-middle [] x right = refl
  get_elem?-middle (y ∷ left) x right = get_elem?-middle left x right

  pub set-middle :
      (left : List A) (x y : A) (right : List A)
      → set (left ++ x ∷ right) (length left) y ≡ left ++ y ∷ right
  set-middle [] x y right = refl
  set-middle (z ∷ left) x y right = ap (λ l. z ∷ l) (set-middle left x y right)

  pub take_all : (xs : List A) → take (length xs) xs ≡ xs
  take_all [] = refl
  take_all (x ∷ xs) = ap (λ l. x ∷ l) (take_all xs)

  pub map-append {κ} :
      {B : Type κ} (f : A → B) (xs ys : List A) → map f (xs ++ ys) ≡ map f xs ++ map f ys
  map-append f [] ys = refl
  map-append f (x ∷ xs) ys = ap (λ l. f x ∷ l) (map-append f xs ys)

  take_over :
      (left right : List A) (k : ℕ) → take (length left + k) (left ++ right) ≡ left ++ take k right
  take_over [] right k = let e : 0 + k ≡ k = omega arith in rw e
  take_over (x ∷ left) right k =
      let e : suc (length left) + k ≡ suc (length left + k) = omega arith in
      rw e (ap (λ l. x ∷ l) (take_over left right k))

resize_more : (xs : Slots) (k : ℕ) → resize xs (length xs + k) ≡ xs ++ resize [] k
resize_more [] k = let e : 0 + k ≡ k = omega arith in rw e
resize_more (x ∷ xs) k =
    let e : suc (length xs) + k ≡ suc (length xs + k) = omega arith in
    rw e (ap (λ l. x ∷ l) (resize_more xs k))

length-resize : (k : ℕ) → length (resize [] k) ≡ k
length-resize zero = refl
length-resize (suc k) = ap suc (length-resize k)

overwrite_end :
    (xs : Slots) (k : ℕ) (ys : Slots)
    → length xs ≡ k + length ys
    → overwrite xs k ys ≡ take k xs ++ ys
overwrite_end [] zero [] e = refl
overwrite_end [] zero (y ∷ ys) e = absurd (omega arith)
overwrite_end [] (suc k) ys e = absurd (omega arith)
overwrite_end (x ∷ xs) zero [] e = absurd (omega arith)
overwrite_end (x ∷ xs) zero (y ∷ ys) e = ap (λ l. y ∷ l) (overwrite_end xs zero ys (omega arith))
overwrite_end (x ∷ xs) (suc k) ys e = ap (λ l. x ∷ l) (overwrite_end xs k ys (omega arith))

pub pointers-some : (ps : List Ptr) → pointers (map some ps) ≡ ok ps
unfolding pointers
pointers-some [] = refl
pointers-some (p ∷ ps) = rw (pointers-some ps)

-- The siblings stand around as many slots as there are new children.
pub record Room (slots left right : Slots) (adopted : ℕ) : Type 0 where
  pub between : Slots
  pub enough : length between ≡ adopted
  pub around : slots ≡ left ++ (between ++ right)

drop_behind {ℓ} :
    {A : Type ℓ} (left : List A) (x : A) (right : List A)
    → drop (suc (length left)) (left ++ x ∷ right) ≡ right
drop_behind [] x right = refl
drop_behind (y ∷ left) x right = drop_behind left x right

make_room_lem :
    (left : Slots) (x : Option Ptr) (right : Slots) (more : ℕ)
    → let slots = left ++ x ∷ (right ++ resize [] more) in
      (ltb 0 (length right) && ltb 1 (suc more)) ≡ true
      → make_room slots (length left) (length right) (suc more)
        ≡ left ++ (take (suc more) (x ∷ (right ++ resize [] more)) ++ right)
unfolding make_room
make_room_lem left x right more wide =
    let back = right ++ resize [] more in
    let slots = left ++ x ∷ back in
    let whole : length slots ≡ length left + suc more + length right = omega (
      arith,
      length-append left (x ∷ back),
      length-append right (resize [] more),
      length-resize more,
    ) in
    let start : length slots - length right ≡ length left + suc more = omega (arith, whole) in
    rw (wide, start, drop_behind left x back, take-append right (resize [] more))
      (overwrite_end slots (length left + suc more) right whole
        ∙ ap (λ l. l ++ right) (take_over left (x ∷ back) (suc more))
        ∙ append_assoc left (take (suc more) (x ∷ back)) right)

pub make_room-Room :
    (left : Slots) (x : Option Ptr) (right : Slots) (more : ℕ)
    → Room
        (make_room (left ++ x ∷ (right ++ resize [] more)) (length left) (length right) (suc more))
        left
        right
        (suc more)
unfolding make_room
make_room-Room left x [] more = record {
  between = x ∷ resize [] more;
  enough = ap suc (length-resize more);
  around = ap (λ l. left ++ x ∷ l) (sym (append-nil (resize [] more)));
}
make_room-Room left x (y ∷ right) zero =
    let narrow : (ltb 0 (suc (length right)) && false) ≡ false = ground arith in
    record {
      between = x ∷ [];
      enough = refl;
      around = rw narrow (ap (λ l. left ++ x ∷ y ∷ l) (append-nil right));
    }
make_room-Room left x (y ∷ right) (suc more) =
    let back = y ∷ right ++ resize [] (suc more) in
    record {
      between = take (suc (suc more)) (x ∷ back);
      enough = omega (
        arith,
        length-take (suc more) back,
        length-append (y ∷ right) (resize [] (suc more)),
        length-resize (suc more),
      );
      around = make_room_lem left x (y ∷ right) (suc more) (ground arith);
    }

-- The vector that `resize` leaves, in the form of the lemmas above.
pub resize-middle :
    (left : List Ptr) (p : Ptr) (right : List Ptr) (more : ℕ)
    → resize (map some (left ++ p ∷ right)) (length (left ++ p ∷ right) + more)
      ≡ map some left ++ some p ∷ (map some right ++ resize [] more)
resize-middle left p right more =
    let l = left ++ p ∷ right in
    rw (← length-map l (λ (a : Ptr). some a)) (
      resize_more (map some l) more
      ∙ ap (λ k. k ++ resize [] more) (map-append some left (p ∷ right))
      ∙ append_assoc (map some left) (some p ∷ map some right) (resize [] more))
