-- ===== src/MeanField/Network.antt =====
-- The invariant of a core of runMFM.c.
use native.Mathlib.Nat.{mul-le-mul}
use spi_nnaker.Prelude.{
  ℕ, suc, ◌+◌, ◌*◌, ◌/◌, ◌^◌, ◌≤◌, ◌<◌, ◌≡◌, ◌&&◌, Bool, List, [], ◌∷◌, arith, if◌then◌else◌, ltb,
  ◌==◌, All, length, All-set, All-get_or, get_or, set, bit_and, bit_and_mask, bit_and_high,
  if-keeps,
}
use spi_nnaker.Prelude.Loop.{for_each, for_each-keeps}
use spi_nnaker.Prelude.Int.{
  ℤ, pos, negsuc, ◌+ℤ◌, ◌-ℤ◌, ◌*ℤ◌, ◌≤ℤ◌, ltb_ℤ, shr_ℤ, +ℤ_parts, -ℤ_parts,
}
use spi_nnaker.MeanField.{
  MeanField, is_near, m, fixed, summ, drive, push_old, see, send_mc_packet_rates, relax, if_fct,
}
use spi_nnaker.MeanField.Range.{IsRate, if_fct-IsRate, relax-rises, relax-falls}

-- Between 0 and `k`.
abbrev pub IsBelow : ℕ → ℤ → Type 0
IsBelow k v = (pos 0 ≤ℤ v) × (v ≤ℤ pos k)

abbrev pub IsByte : ℕ → Type 0
IsByte v = v < 256

pub record IsValid (s : MeanField) : Type 0 where
  pub rate : IsRate s.f
  pub rates : All IsRate s.f_pre
  pub length_rates : length s.f_pre ≡ m
  pub couplings : All (IsBelow 300) s.j
  pub length_couplings : length s.j ≡ m
  pub input : IsBelow 1_059_328 s.i_ext
  pub x_in : IsByte s.x
  pub y_in : IsByte s.y
  pub x_old_in : All IsByte s.x_old
  pub y_old_in : All IsByte s.y_old

term_bound : (j rate : ℤ) → IsBelow 300 j → IsRate rate → IsBelow 30_000 (shr_ℤ (j *ℤ rate) 8)
unfolding ◌*ℤ◌
term_bound (pos a) (pos b) hj hr =
    let ha : a ≤ 300 = omega arith in
    let hb : b ≤ 25600 = omega arith in
    let p : a * b ≤ 300 * 25600 = mul-le-mul ha hb in ground arith
term_bound (pos a) (negsuc b) hj hr = absurd (omega arith)
term_bound (negsuc a) rate hj hr = absurd (omega arith)

pub summ-IsBelow :
    (js rates : List ℤ) (acc : ℤ) (k : ℕ)
    → IsBelow k acc
    → All (IsBelow 300) js
    → All IsRate rates
    → IsBelow (k + 30_000 * length js) (summ acc js rates)
unfolding summ
summ-IsBelow [] rates acc k h hj hr = omega arith
summ-IsBelow (j ∷ js) [] acc k h hj hr = omega arith
summ-IsBelow (j ∷ js) (rate ∷ rates) acc k h hj hr =
    let t = shr_ℤ (j *ℤ rate) 8 in
    let b = term_bound j rate hj.0 hr.0 in
    omega (
      arith,
      summ-IsBelow js rates (acc +ℤ t) (k + 30_000) (omega (arith, +ℤ_parts acc t)) hj.1 hr.1,
    )

relax-IsRate : (f target : ℤ) → IsRate f → IsRate target → IsRate (relax f target)
relax-IsRate f target hf ht = ground (arith, relax-rises f target, relax-falls f target)

-- A tick keeps the invariant.
pub send_mc_packet_rates-IsValid : {s : MeanField} → IsValid s → IsValid (send_mc_packet_rates s).0
unfolding send_mc_packet_rates
send_mc_packet_rates-IsValid {s} v = record {
  rate =
      let input = summ (pos 0) s.j s.f_pre +ℤ s.i_ext in
      relax-IsRate s.f (if_fct input) v.rate (if_fct-IsRate input);
  rates = v.rates;
  length_rates = v.length_rates;
  couplings = v.couplings;
  length_couplings = v.length_couplings;
  input = v.input;
  x_in = v.x_in;
  y_in = v.y_in;
  x_old_in = v.x_old_in;
  y_old_in = v.y_old_in;
}

-- One addition of a speed.
bump :
    (k g : ℕ) (t : Bool) (i v : ℤ)
    → g ≤ 4
    → v ≤ℤ pos 255
    → IsBelow k i
    → IsBelow (k + 261_120) (if ltb_ℤ (pos 0) v && t then i +ℤ v *ℤ pos g *ℤ pos 256 else i)
unfolding ◌*ℤ◌ ◌+ℤ◌
bump k g t i (pos n) hg hv hi =
    let h : n ≤ 255 = omega arith in let p : n * g ≤ 255 * 4 = mul-le-mul h hg in ground arith
bump k g t i (negsuc n) hg hv hi = ground arith

bump_back :
    (k g : ℕ) (t : Bool) (i v : ℤ)
    → g ≤ 4
    → negsuc 254 ≤ℤ v
    → IsBelow k i
    → IsBelow
        (k + 261_120)
        (if ltb_ℤ v (pos 0) && t then i +ℤ (pos 0 -ℤ v) *ℤ pos g *ℤ pos 256 else i)
unfolding ◌*ℤ◌ ◌+ℤ◌ ◌-ℤ◌
bump_back k g t i (negsuc n) hg hv hi =
    let h : suc n ≤ 255 = omega arith in
    let p : suc n * g ≤ 255 * 4 = mul-le-mul h hg in ground arith
bump_back k g t i (pos n) hg hv hi = ground arith

drive-IsBelow :
    (core strength g x y : ℕ) (v_x v_y : ℤ)
    → strength ≤ 58
    → g ≤ 4
    → (negsuc 254 ≤ℤ v_x) × (v_x ≤ℤ pos 255)
    → (negsuc 254 ≤ℤ v_y) × (v_y ≤ℤ pos 255)
    → IsBelow 1_059_328 (drive core (fixed strength) (pos g) x y v_x v_y)
unfolding drive
drive-IsBelow core strength g x y v_x v_y hs hg (lx, ux) (ly, uy) =
    let s : IsBelow 14_848 (fixed strength) = omega arith in
    let i0 : IsBelow 14_848 (fixed 50) = omega arith in
    let i1 = if-keeps (IsBelow 14_848) (ltb x 64 && core == 1) _ _ s i0 in
    let i2 = if-keeps (IsBelow 14_848) (ltb 64 x && core == 3) _ _ s i1 in
    let i3 = if-keeps (IsBelow 14_848) (ltb y 64 && core == 2) _ _ s i2 in
    let i4 = if-keeps (IsBelow 14_848) (ltb 64 y && core == 4) _ _ s i3 in
    let i5 = bump_back 14_848 g (core == 5) _ v_x hg lx i4 in
    let i6 = bump 275_968 g (core == 7) _ v_x hg ux i5 in
    let i7 = bump_back 537_088 g (core == 6) _ v_y hg ly i6 in
    bump 798_208 g (core == 8) _ v_y hg uy i7

push_old-IsByte :
    (old : List ℕ) (now : ℕ) → All IsByte old → IsByte now → All IsByte (push_old old now)
unfolding push_old
push_old-IsByte old now h hn =
    let moved =
      for_each-keeps (All IsByte)
        (λ i xs k.
          All-set IsByte xs i (get_or xs (i + 1) 0) k
            (All-get_or IsByte xs (i + 1) 0 k (omega arith)))
        19 0 old h in
    All-set IsByte (for_each 19 0 (λ i xs. set xs i (get_or xs (i + 1) 0)) old) 19 now moved hn

speed_bounds :
    (a b : ℕ) → IsByte a → IsByte b → (negsuc 254 ≤ℤ pos a -ℤ pos b) × (pos a -ℤ pos b ≤ℤ pos 255)
speed_bounds a b ha hb = omega (arith, -ℤ_parts (pos a) (pos b))

high-IsByte : (key : ℕ) → IsByte (bit_and key 0xff00 / 2 ^ 8)
high-IsByte key = omega (arith, bit_and_high 8 key 255, bit_and_mask 8 (key / 2 ^ 8))

low-IsByte : (key : ℕ) → IsByte (bit_and key 0xff)
low-IsByte key = omega (arith, bit_and_mask 8 key)

pub see-IsValid : (key : ℕ) {s : MeanField} → IsValid s → IsValid (see key s)
unfolding see
see-IsValid key {s} v =
    let x = bit_and key 0xff00 / 2 ^ 8 in
    let y = bit_and key 0xff in
    let xs = push_old-IsByte s.x_old s.x v.x_old_in v.x_in in
    let ys = push_old-IsByte s.y_old s.y v.y_old_in v.y_in in
    let x0 = get_or (push_old s.x_old s.x) 0 0 in
    let y0 = get_or (push_old s.y_old s.y) 0 0 in
    let bx =
      speed_bounds x x0 (high-IsByte key)
        (All-get_or IsByte (push_old s.x_old s.x) 0 0 xs (omega arith)) in
    let by =
      speed_bounds y y0 (low-IsByte key)
        (All-get_or IsByte (push_old s.y_old s.y) 0 0 ys (omega arith)) in
    record {
      rate = v.rate;
      rates = v.rates;
      length_rates = v.length_rates;
      couplings = v.couplings;
      length_couplings = v.length_couplings;
      input =
          if-keeps (IsBelow 1_059_328) (is_near x y) _ _
            (drive-IsBelow s.core_id 54 0 x y (pos x -ℤ pos x0) (pos y -ℤ pos y0) (omega arith)
              (omega arith) bx by)
            (drive-IsBelow s.core_id 58 4 x y (pos x -ℤ pos x0) (pos y -ℤ pos y0) (omega arith)
              (omega arith) bx by);
      x_in = high-IsByte key;
      y_in = low-IsByte key;
      x_old_in = xs;
      y_old_in = ys;
    }
