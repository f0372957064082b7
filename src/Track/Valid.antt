-- ===== src/Track/Valid.antt =====
-- The invariant of the position filter: the running totals are the sums of the buffers.
use spi_nnaker.Prelude.{
  ℕ, ◌*◌, ◌<◌, ◌≡◌, refl, sym, ◌∙◌, Bool-cases, inl, inr, List, [], ◌∷◌, arith, All, length,
  length-set, All-set,
}
use spi_nnaker.Prelude.Int.{ℤ, pos, negsuc, ◌+ℤ◌, ◌≤ℤ◌, +ℤ_parts, shr_ℤ, sum_ℤ, sum_ℤ-set}
use spi_nnaker.Platform.{Platform}
use spi_nnaker.Track.{Tracker, start, store, accepts, compute_pos, compute_pos_at}

-- A camera coordinate has 7 bits.
abbrev pub IsCoordinate : ℤ → Type 0
IsCoordinate v = (pos 0 ≤ℤ v) × (v ≤ℤ pos 127)

pub record IsValid (t : Tracker) : Type 0 where
  pub length_x : length t.x_buffer ≡ 16
  pub length_y : length t.y_buffer ≡ 16
  pub samples_x : All IsCoordinate t.x_buffer
  pub samples_y : All IsCoordinate t.y_buffer
  pub index_in : t.curr_index < 16
  pub total_x : t.total_sum_x ≡ sum_ℤ t.x_buffer
  pub total_y : t.total_sum_y ≡ sum_ℤ t.y_buffer
  pub mean_x : t.x_pos ≡ shr_ℤ t.total_sum_x 4
  pub mean_y : t.y_pos ≡ shr_ℤ t.total_sum_y 4

sum_ℤ_bounds :
    (xs : List ℤ) → All IsCoordinate xs → (pos 0 ≤ℤ sum_ℤ xs) × (sum_ℤ xs ≤ℤ pos (127 * length xs))
sum_ℤ_bounds [] h = omega arith
sum_ℤ_bounds (x ∷ xs) h = omega (arith, +ℤ_parts, sum_ℤ_bounds xs h.1)

sum_bounds :
    {total : ℤ} (xs : List ℤ)
    → All IsCoordinate xs
    → length xs ≡ 16
    → total ≡ sum_ℤ xs
    → (pos 0 ≤ℤ total) × (total ≤ℤ pos 2032)
sum_bounds xs h n e = rw e (omega (arith, sum_ℤ_bounds xs h))

mean-IsCoordinate : (t : ℤ) → pos 0 ≤ℤ t → t ≤ℤ pos 2032 → IsCoordinate (shr_ℤ t 4)
mean-IsCoordinate (pos n) lo hi = omega arith
mean-IsCoordinate (negsuc n) lo hi = absurd (omega arith)

pub store-IsValid :
    {t : Tracker} (x y : ℤ) → IsCoordinate x → IsCoordinate y → IsValid t → IsValid (store x y t)
unfolding store
store-IsValid {t} x y hx hy v = record {
  length_x = length-set t.x_buffer t.curr_index x ∙ v.length_x;
  length_y = length-set t.y_buffer t.curr_index y ∙ v.length_y;
  samples_x = All-set IsCoordinate t.x_buffer t.curr_index x v.samples_x hx;
  samples_y = All-set IsCoordinate t.y_buffer t.curr_index y v.samples_y hy;
  index_in = omega arith;
  total_x = rw v.total_x (sym (sum_ℤ-set t.x_buffer t.curr_index x (omega arith)));
  total_y = rw v.total_y (sym (sum_ℤ-set t.y_buffer t.curr_index y (omega arith)));
  mean_x = refl;
  mean_y = refl;
}

-- The filter starts valid.
pub start-IsValid : IsValid start
unfolding ◌+ℤ◌
start-IsValid = record {
  length_x = refl;
  length_y = refl;
  samples_x = omega arith;
  samples_y = omega arith;
  index_in = omega arith;
  total_x = refl;
  total_y = refl;
  mean_x = refl;
  mean_y = refl;
}

-- Every sample of the camera, taken or refused, keeps the invariant.
pub compute_pos-IsValid :
    (P : Platform) {t : Tracker} (x y : ℤ)
    → IsCoordinate x
    → IsCoordinate y
    → IsValid t
    → IsValid (compute_pos P x y t)
unfolding compute_pos
compute_pos-IsValid P {t} x y hx hy v = elim (Bool-cases (accepts P x y t)) [
  | inl taken ↦ rw taken (store-IsValid x y hx hy v)
  | inr refused ↦ rw refused v
]

pub compute_pos_at-IsValid :
    (P : Platform) {t : Tracker} (x y : ℤ) (time : ℕ) (old_time : ℤ)
    → IsCoordinate x
    → IsCoordinate y
    → IsValid t
    → IsValid (compute_pos_at P x y time (t, old_time)).0
unfolding compute_pos_at
compute_pos_at-IsValid P {t} x y time old_time hx hy v = elim (Bool-cases (accepts P x y t)) [
  | inl taken ↦ rw taken (store-IsValid x y hx hy v)
  | inr refused ↦ rw refused v
]

-- In a valid state the totals are below 2048, and the position that the filter reports is a coordinate.
pub IsValid-bounds :
    {t : Tracker}
    → IsValid t
    → IsCoordinate t.x_pos
      × IsCoordinate t.y_pos
      × (t.total_sum_x ≤ℤ pos 2032)
      × (t.total_sum_y ≤ℤ pos 2032)
IsValid-bounds {t} v =
    let x = sum_bounds t.x_buffer v.samples_x v.length_x v.total_x in
    let y = sum_bounds t.y_buffer v.samples_y v.length_y v.total_y in
    (
      rw v.mean_x (mean-IsCoordinate t.total_sum_x x.0 x.1),
      rw v.mean_y (mean-IsCoordinate t.total_sum_y y.0 y.1),
      x.1,
      y.1,
    )
