-- ===== src/Bus/Rects.antt =====
-- The rectangles of the bus: `valid_bus_rect`, the moves, and the counted arrays that hold both.
use fluxcap.Prelude.{
  ℕ, zero, suc, ◌+◌, ◌-◌, ◌≤◌, ◌≡◌, ◌≢◌, ◌↔◌, refl, ap, Bool, true, false, not, ◌&&◌, ◌||◌, ◌==◌,
  ltb, leb, List, [], ◌∷◌, ◌++◌, length, take, replicate, length-append, length-take,
  length-replicate, and-left, and-right, if◌then◌else◌, All, arith,
}
use fluxcap.Prelude.Int.{pos_part, neg_part}
use fluxcap.Geometry.Rect.{WgcRect, WgcMoveRect}
use fluxcap.Geometry.Move.{is_negative}

-- The sums are taken in 64 bits, so they do not wrap.
unfoldable pub valid_bus_rect : WgcRect → ℕ → ℕ → Bool
valid_bus_rect rect bus_width bus_height =
    if is_negative rect.x || is_negative rect.y || rect.width == 0 || rect.height == 0
    then false
    else leb (pos_part rect.x + rect.width) bus_width
      && leb (pos_part rect.y + rect.height) bus_height

-- A move that the loop over the moves lets pass.
unfoldable pub valid_bus_move : WgcMoveRect → ℕ → ℕ → Bool
unfolding valid_bus_rect
valid_bus_move move bus_width bus_height =
    if is_negative move.source_x
      || is_negative move.source_y
      || not (valid_bus_rect move.destination bus_width bus_height)
    then false
    else not (
        ltb bus_width (pos_part move.source_x + move.destination.width)
        || ltb bus_height (pos_part move.source_y + move.destination.height))

-- The loops over the first `count` entries of an array.
unfoldable pub all_valid {ℓ} : {A : Type ℓ} → (A → Bool) → ℕ → List A → Bool
all_valid valid zero xs = true
-- Not reached: the arrays are longer than any count that is accepted.
all_valid valid (suc count) [] = true
all_valid valid (suc count) (x ∷ xs) = valid x && all_valid valid count xs

-- `std::copy_n` onto an array of `size` fresh entries.
unfoldable pub copy_counted {ℓ} : {A : Type ℓ} → ℕ → ℕ → A → List A → List A
copy_counted size count fresh xs = take count xs ++ replicate (size - count) fresh

-- The rectangle has an area and lies in the frame.
abbrev pub InFrame : WgcRect → ℕ → ℕ → Type 0
InFrame rect bus_width bus_height =
    (neg_part rect.x ≡ 0)
    × (neg_part rect.y ≡ 0)
    × (rect.width ≢ 0)
    × (rect.height ≢ 0)
    × (pos_part rect.x + rect.width ≤ bus_width)
    × (pos_part rect.y + rect.height ≤ bus_height)

-- So do the source and the destination of the move.
abbrev pub MoveInFrame : WgcMoveRect → ℕ → ℕ → Type 0
MoveInFrame move bus_width bus_height =
    InFrame move.destination bus_width bus_height
    × InFrame
        (record {
          x = move.source_x;
          y = move.source_y;
          width = move.destination.width;
          height = move.destination.height;
        })
        bus_width bus_height

pub valid_bus_rect-InFrame :
    (rect : WgcRect) (bus_width bus_height : ℕ)
    → (valid_bus_rect rect bus_width bus_height ≡ true) ↔ InFrame rect bus_width bus_height
unfolding valid_bus_rect
valid_bus_rect-InFrame rect w h = ground arith

pub valid_bus_move-MoveInFrame :
    (move : WgcMoveRect) (bus_width bus_height : ℕ)
    → (valid_bus_move move bus_width bus_height ≡ true) ↔ MoveInFrame move bus_width bus_height
unfolding valid_bus_move
valid_bus_move-MoveInFrame move w h = ground (arith, valid_bus_rect-InFrame move.destination w h)

module _ {ℓ} {A : Type ℓ} where
  take-append : (n : ℕ) (xs ys : List A) → n ≤ length xs → take n (take n xs ++ ys) ≡ take n xs
  take-append zero xs ys h = refl
  take-append (suc n) [] ys h = absurd (omega arith)
  take-append (suc n) (x ∷ xs) ys h = ap (λ r. x ∷ r) (take-append n xs ys (omega arith))

  pub take-copy_counted :
      (size n : ℕ) (fresh : A) (xs : List A)
      → n ≤ length xs
      → take n (copy_counted size n fresh xs) ≡ take n xs
  unfolding copy_counted
  take-copy_counted size n fresh xs h = take-append n xs (replicate (size - n) fresh) h

  -- What has been copied is copied as it is.
  pub copy_counted-twice :
      (size n : ℕ) (fresh : A) (xs : List A)
      → n ≤ length xs
      → copy_counted size n fresh (copy_counted size n fresh xs) ≡ copy_counted size n fresh xs
  unfolding copy_counted
  copy_counted-twice size n fresh xs h =
      ap (λ r. r ++ replicate (size - n) fresh) (take-copy_counted size n fresh xs h)

  pub length-copy_counted :
      (size n : ℕ) (fresh : A) (xs : List A)
      → n ≤ length xs
      → n ≤ size
      → length (copy_counted size n fresh xs) ≡ size
  unfolding copy_counted
  length-copy_counted size n fresh xs h k = omega (
    arith,
    length-append (take n xs) (replicate (size - n) fresh),
    length-take n xs h,
    length-replicate (size - n) fresh,
  )

  pub all_valid-take :
      (valid : A → Bool) (n : ℕ) (xs : List A)
      → all_valid valid n (take n xs) ≡ all_valid valid n xs
  unfolding all_valid
  all_valid-take valid zero xs = refl
  all_valid-take valid (suc n) [] = refl
  all_valid-take valid (suc n) (x ∷ xs) = ap (λ r. valid x && r) (all_valid-take valid n xs)

  pub all_valid-All {κ} :
      (P : A → Type κ) (valid : A → Bool)
      → ((x : A) → (valid x ≡ true) ↔ P x)
      → (n : ℕ) (xs : List A) → (all_valid valid n xs ≡ true) ↔ All P (take n xs)
  unfolding all_valid
  all_valid-All P valid iff zero xs = (λ _. tt, λ _. refl)
  all_valid-All P valid iff (suc n) [] = (λ _. tt, λ _. refl)
  all_valid-All P valid iff (suc n) (x ∷ xs) =
      let (to, from) = all_valid-All P valid iff n xs in
      (
        λ h. ((iff x).0 (and-left (valid x) _ h), to (and-right (valid x) _ h)),
        λ (p, ps). rw ((iff x).1 p) (from ps),
      )
