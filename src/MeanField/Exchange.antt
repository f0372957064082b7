-- ===== src/MeanField/Exchange.antt =====
-- What the cores of runMFM.c send one another, and the numbers in between.
use spi_nnaker.Prelude.{
  ℕ, ◌+◌, ◌-◌, ◌*◌, ◌%◌, ◌^◌, ◌≤◌, ◌≡◌, refl, inl, inr, Bool-cases, some, [], ◌∷◌, arith, ◌==◌,
  All-get_or, All-set, length-set, ◌∙◌, set,
}
use spi_nnaker.Prelude.Int.{ℤ, pos, negsuc, ◌+ℤ◌, ◌-ℤ◌, ◌*ℤ◌, ◌≤ℤ◌, shr_ℤ, to_uint, +ℤ_parts}
use spi_nnaker.Device.{send_mc}
use spi_nnaker.MeanField.{
  MeanField, fixed, to_long, rate_of, summ, if_fct, process_mc_packet, send_mc_packet_rates,
  send_mc_packet_angles,
}
use spi_nnaker.MeanField.Range.{IsRate, if_fct-IsRate}
use spi_nnaker.MeanField.Network.{IsValid, IsBelow, summ-IsBelow, send_mc_packet_rates-IsValid}

-- A rate comes back from a payload.
to_long-to_uint : (v : ℤ) → IsRate v → to_long (to_uint v) ≡ v
to_long-to_uint (pos n) h = ground arith
to_long-to_uint (negsuc n) h = absurd (omega arith)

pub to_long-IsRate : (payload : ℕ) → payload ≤ 25_600 → IsRate (to_long payload)
to_long-IsRate payload h = ground arith

pub keep-IsValid :
    (at : ℕ) (v : ℤ) {s : MeanField}
    → IsRate v
    → IsValid s
    → IsValid (record s { f_pre = set s.f_pre at v })
keep-IsValid at v {s} h w = record {
  rate = w.rate;
  rates = All-set IsRate s.f_pre at v w.rates h;
  length_rates = length-set s.f_pre at v ∙ w.length_rates;
  couplings = w.couplings;
  length_couplings = w.length_couplings;
  input = w.input;
  x_in = w.x_in;
  y_in = w.y_in;
  x_old_in = w.x_old_in;
  y_old_in = w.y_old_in;
}

-- Tick and delivery: a core's new rate stands at its place in every core that its packet reaches.
pub process-send_rates :
    {s : MeanField} (r : MeanField)
    → IsValid s
    → 1 ≤ s.core_id
    → s.core_id ≤ 15
    → let (s', sent) = send_mc_packet_rates s in
      (sent ≡ send_mc s.core_id (to_uint s'.f) ∷ [])
      × (process_mc_packet s.core_id (to_uint s'.f) r
          ≡ some (record r { f_pre = set r.f_pre (s.core_id - 1) s'.f }))
unfolding send_mc_packet_rates process_mc_packet
process-send_rates {s} r v lo hi =
    let f = (send_mc_packet_rates s).0.f in
    let e = to_long-to_uint f (send_mc_packet_rates-IsValid v).rate in (refl, ground (arith, e))

product_bounds :
    (a b : ℤ)
    → IsRate a
    → IsRate b
    → (negsuc 262_143_999 ≤ℤ (a -ℤ b) *ℤ fixed 40) × ((a -ℤ b) *ℤ fixed 40 ≤ℤ pos 262_144_000)
unfolding ◌-ℤ◌ ◌*ℤ◌
product_bounds a b ha hb = ground arith

-- The sums and the product of a tick.
rates_in_range :
    {s : MeanField}
    → IsValid s
    → let input = summ (pos 0) s.j s.f_pre +ℤ s.i_ext in
      let product = (if_fct input -ℤ s.f) *ℤ fixed 40 in
      IsBelow 450_000 (summ (pos 0) s.j s.f_pre)
      × IsBelow 1_509_328 input
      × (negsuc 262_143_999 ≤ℤ product)
      × (product ≤ℤ pos 262_144_000)
rates_in_range {s} v =
    let total = summ (pos 0) s.j s.f_pre in
    let b = summ-IsBelow s.j s.f_pre (pos 0) 0 (omega arith) v.couplings v.rates in
    let n = v.length_couplings in
    let i = v.input in
    let p =
      product_bounds (if_fct (total +ℤ s.i_ext)) s.f (if_fct-IsRate (total +ℤ s.i_ext)) v.rate in
    (omega arith, omega (arith, +ℤ_parts total s.i_ext), p.0, p.1)

angle_bounds :
    (a b : ℤ) (k : ℕ)
    → IsRate a
    → IsRate b
    → k ≤ 11
    → let v = shr_ℤ ((a -ℤ b +ℤ fixed k) *ℤ pos 8) 8 in
      (pos (8 * k) ≤ℤ v +ℤ pos 800) × (v ≤ℤ pos (8 * k + 800))
unfolding ◌-ℤ◌ ◌*ℤ◌ ◌+ℤ◌
angle_bounds a b k ha hb hk = ground arith

-- The two angles.
angles_in_range :
    {s : MeanField}
    → IsValid s
    → let s' = (send_mc_packet_angles s).0 in
      (pos 88 ≤ℤ s'.theta +ℤ pos 800)
      × (s'.theta ≤ℤ pos 888)
      × (pos 24 ≤ℤ s'.phi +ℤ pos 800)
      × (s'.phi ≤ℤ pos 824)
unfolding send_mc_packet_angles
angles_in_range {s} v =
    let rate = λ (i : ℕ). All-get_or IsRate s.f_pre i (pos 0) v.rates (omega arith) in
    let t = angle_bounds (rate_of s 10) (rate_of s 8) 11 (rate 10) (rate 8) (omega arith) in
    let p = angle_bounds (rate_of s 9) (rate_of s 11) 3 (rate 9) (rate 11) (omega arith) in
    elim (Bool-cases ((s.count + 1) % 2 ^ 32 == 30_000)) [
      | inl e ↦ rw e (omega (arith, +ℤ_parts (pos 0) (pos 800), +ℤ_parts (pos 300) (pos 800)))
      | inr e ↦ rw e (t.0, t.1, p.0, p.1)
    ]

-- In a valid state the sums and the product of a tick of the rates fit a `long` of 32 bits, and after a
-- tick of the angles the two angles lie within 800 of 88 and of 24, or are 0 and 300.
pub numbers_in_range :
    {s : MeanField}
    → IsValid s
    → let input = summ (pos 0) s.j s.f_pre +ℤ s.i_ext in
      let product = (if_fct input -ℤ s.f) *ℤ fixed 40 in
      let s' = (send_mc_packet_angles s).0 in
      (IsBelow 450_000 (summ (pos 0) s.j s.f_pre)
        × IsBelow 1_509_328 input
        × (negsuc 262_143_999 ≤ℤ product)
        × (product ≤ℤ pos 262_144_000))
      × ((pos 88 ≤ℤ s'.theta +ℤ pos 800)
          × (s'.theta ≤ℤ pos 888)
          × (pos 24 ≤ℤ s'.phi +ℤ pos 800)
          × (s'.phi ≤ℤ pos 824))
numbers_in_range v = (rates_in_range v, angles_in_range v)
