-- ===== src/Text/Comments/Places.antt =====
-- `find`, `at` and `erase` in a string that is cut at the position.
use cpp_tools.Base.{
  ℕ, zero, suc, ◌+◌, ◌<◌, false, [], ◌∷◌, ◌++◌, none, some, ◌≡◌, refl, sym, ap, ◌∙◌, arith, length,
  take, drop, get_elem?, take-append, drop-append, length-append, append_assoc, ltb,
}
use cpp_tools.Base.Run.{done}
use cpp_tools.Text.Chars.{Text}
use cpp_tools.Text.Comments.{index_of, index_of_end, ahead, find, find_end, erase}

-- The functions of a position, in a string that is cut there.
pub find_at :
    (c : ℕ) (s front w : Text) (n : ℕ)
    → s ≡ front ++ w
    → n ≡ length front
    → find c s n ≡ ahead (index_of c w) n
unfolding find
find_at c s front w n e place = rw (e, place, drop-append front w)

pub find_end_at :
    (s front w : Text) (n : ℕ)
    → s ≡ front ++ w
    → n ≡ length front
    → find_end s n ≡ ahead (index_of_end w) n
unfolding find_end
find_end_at s front w n e place = rw (e, place, drop-append front w)

pub byte_at :
    (s front w : Text) (x : ℕ) (n : ℕ)
    → s ≡ front ++ x ∷ w
    → n ≡ length front
    → get_elem? s n ≡ some x
byte_at s [] w x n e place = rw (e, place)
byte_at s (y ∷ front) w x n e place = rw (e, place) (byte_at (front ++ x ∷ w) front w x _ refl refl)

pub erase_rest :
    (s front w : Text) (n : ℕ) → s ≡ front ++ w → n ≡ length front → erase s (n, none) ≡ done front
erase_rest s front w n e place =
    let inside : ltb (length s) n ≡ false = ground (arith, ap length e, length-append front w) in
    rw inside (rw (e, place, take-append front w))

pub erase_middle :
    (s front mid w : Text) (n m : ℕ)
    → s ≡ front ++ (mid ++ w)
    → n ≡ length front
    → m ≡ length mid
    → erase s (n, some m) ≡ done (front ++ w)
erase_middle s front mid w n m e place size =
    let inside : ltb (length s) n ≡ false =
      ground (arith, ap length e, length-append front (mid ++ w)) in
    let behind : n + m ≡ length (front ++ mid) = omega (arith, length-append front mid) in
    let regrouped : s ≡ (front ++ mid) ++ w = e ∙ sym (append_assoc front mid w) in
    let kept : take n s ≡ front = rw (e, place) (take-append front (mid ++ w)) in
    let left : drop (n + m) s ≡ w = rw (regrouped, behind) (drop-append (front ++ mid) w) in
    rw (inside, kept, left)

drop_past : (xs : Text) (n : ℕ) → length xs < n → drop n xs ≡ []
drop_past [] zero l = refl
drop_past [] (suc n) l = refl
drop_past (x ∷ xs) zero l = absurd (omega arith)
drop_past (x ∷ xs) (suc n) l = drop_past xs n (omega arith)

pub find_past : (c : ℕ) (s : Text) (n : ℕ) → length s < n → find c s n ≡ none
unfolding find
find_past c s n l = rw (drop_past s n l)
