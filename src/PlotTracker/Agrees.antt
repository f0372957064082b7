-- ===== src/PlotTracker/Agrees.antt =====
-- The unsigned filter beside the one of the controllers.
use spi_nnaker.Prelude.{
  ℕ, zero, suc, ◌+◌, ◌%◌, ◌^◌, ◌≤◌, ◌≡◌, refl, ap, sym, List, [], ◌∷◌, map, arith, subst, All,
  All-get_or, Bool, get_or, set,
}
use spi_nnaker.Prelude.Int.{ℤ, pos, negsuc, ◌+ℤ◌, ◌-ℤ◌, ◌≤ℤ◌, shr_ℤ}
use spi_nnaker.Track.{Tracker, store}
use spi_nnaker.Track.Valid.{IsValid, IsCoordinate, IsValid-bounds, store-IsValid}
use spi_nnaker.PlotTracker.{Plot, exchange, compute_pos}

-- What the unsigned filter holds, as the state of the controllers' filter.
abbrev pub as_tracker : Bool → Plot → Tracker
as_tracker pos_computed p = record {
  x_buffer = map pos p.x_buffer;
  y_buffer = map pos p.y_buffer;
  total_sum_x = pos p.total_sum_x;
  total_sum_y = pos p.total_sum_y;
  curr_index = p.curr_index;
  x_pos = pos p.x_pos;
  y_pos = pos p.y_pos;
  pos_computed = pos_computed;
}

set-map : (xs : List ℕ) (i v : ℕ) → set (map pos xs) i (pos v) ≡ map pos (set xs i v)
set-map [] i v = refl
set-map (x ∷ xs) zero v = refl
set-map (x ∷ xs) (suc i) v = ap (λ ys. pos x ∷ ys) (set-map xs i v)

get_or-map : (xs : List ℕ) (i : ℕ) → get_or (map pos xs) i (pos 0) ≡ pos (get_or xs i 0)
get_or-map [] i = refl
get_or-map (x ∷ xs) zero = refl
get_or-map (x ∷ xs) (suc i) = get_or-map xs i

-- The unsigned sum wraps nowhere when the signed one stays in the range of 16 coordinates.
exchange-total :
    (total old new : ℕ)
    → old ≤ 127
    → new ≤ 127
    → total ≤ 2032
    → pos 0 ≤ℤ pos total -ℤ pos old +ℤ pos new
    → pos total -ℤ pos old +ℤ pos new ≡ pos (exchange total old new)
unfolding ◌+ℤ◌ ◌-ℤ◌
exchange-total total old new ho hn ht h = ground arith

not_negative : (v : ℤ) → IsCoordinate (shr_ℤ v 4) → pos 0 ≤ℤ v
not_negative (pos n) h = omega arith
not_negative (negsuc n) h = absurd (omega arith)

-- One axis of a sample.
total_agrees :
    (xs : List ℕ) (i total v : ℕ)
    → All IsCoordinate (map pos xs)
    → total ≤ 2032
    → v ≤ 127
    → IsCoordinate (shr_ℤ (pos total -ℤ get_or (map pos xs) i (pos 0) +ℤ pos v) 4)
    → pos total -ℤ get_or (map pos xs) i (pos 0) +ℤ pos v ≡ pos (exchange total (get_or xs i 0) v)
total_agrees xs i total v h ht hv hc =
    let old = All-get_or IsCoordinate (map pos xs) i (pos 0) h (omega arith) in
    rw (get_or-map xs i) (
      exchange-total total (get_or xs i 0) v (omega (arith, rw (get_or-map xs i) at old)) hv ht
        (not_negative (pos total -ℤ pos (get_or xs i 0) +ℤ pos v) (rw (get_or-map xs i) at hc)))

-- One sample.
pub store-as_tracker :
    (computed : Bool) (p : Plot) (x y : ℕ)
    → x ≤ 127
    → y ≤ 127
    → IsValid (as_tracker computed p)
    → let t = store (pos x) (pos y) (as_tracker computed p) in
      t ≡ as_tracker t.pos_computed (compute_pos x y p)
unfolding compute_pos store
store-as_tracker computed p x y hx hy v =
    let after = IsValid-bounds (store-IsValid (pos x) (pos y) (omega arith) (omega arith) v) in
    let (_, _, in_x, in_y) = IsValid-bounds v in
    let total_x =
      total_agrees p.x_buffer p.curr_index p.total_sum_x x v.samples_x (omega arith) hx after.0 in
    let total_y =
      total_agrees p.y_buffer p.curr_index p.total_sum_y y v.samples_y (omega arith) hy after.1 in
    let next : (p.curr_index + 1) % 2 ^ 32 % 16 ≡ (p.curr_index + 1) % 16 =
      omega (arith, v.index_in) in
    rw
      (set-map p.x_buffer p.curr_index x, set-map p.y_buffer p.curr_index y, total_x, total_y, next)
      refl

abbrev pub store_all : List (ℕ × ℕ) → Tracker → Tracker
store_all [] t = t
store_all ((x, y) ∷ samples) t = store_all samples (store (pos x) (pos y) t)

abbrev pub compute_pos_all : List (ℕ × ℕ) → Plot → Plot
compute_pos_all [] p = p
compute_pos_all ((x, y) ∷ samples) p = compute_pos_all samples (compute_pos x y p)

abbrev pub IsSample : ℕ × ℕ → Type 0
IsSample (x, y) = (x ≤ 127) × (y ≤ 127)

-- On the coordinates of a camera, one after the other, the unsigned filter computes the same buffers,
-- totals, index and positions as the filter of the controllers, which works on integers, does when it
-- accepts every sample.
pub store_all-as_tracker :
    (samples : List (ℕ × ℕ)) (computed : Bool) (p : Plot)
    → All IsSample samples
    → IsValid (as_tracker computed p)
    → let t = store_all samples (as_tracker computed p) in
      t ≡ as_tracker t.pos_computed (compute_pos_all samples p)
store_all-as_tracker [] computed p h v = refl
store_all-as_tracker ((x, y) ∷ samples) computed p ((hx, hy), h) v =
    let step = store-as_tracker computed p x y hx hy v in
    let valid = store-IsValid (pos x) (pos y) (omega arith) (omega arith) v in
    let same =
      store_all-as_tracker samples (store (pos x) (pos y) (as_tracker computed p)).pos_computed
        (compute_pos x y p) h (subst IsValid step valid) in
    subst
      (λ s.
        store_all samples s
        ≡ as_tracker (store_all samples s).pos_computed
            (compute_pos_all samples (compute_pos x y p)))
      (sym step) same
