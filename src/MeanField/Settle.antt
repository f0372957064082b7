-- ===== src/MeanField/Settle.antt =====
-- Where a population's rate goes while no packet comes.
use spi_nnaker.Prelude.{ℕ, zero, suc, ◌+◌, ◌*◌, ◌/◌, ◌≤◌, ◌≡◌, refl, ◌⊎◌, inl, inr, arith}
use spi_nnaker.Prelude.Int.{
  ℤ, pos, negsuc, ◌+ℤ◌, ◌-ℤ◌, ◌*ℤ◌, ◌≤ℤ◌, ≤ℤ_total, shr_ℤ, +ℤ_parts, -ℤ_parts,
}
use spi_nnaker.MeanField.{MeanField, fixed, summ, if_fct, relax, send_mc_packet_rates}
use spi_nnaker.MeanField.Range.{IsRate, if_fct-IsRate}
use spi_nnaker.MeanField.Network.{IsValid}

-- What a rate relaxes towards.
abbrev pub target : MeanField → ℤ
target s = if_fct (summ (pos 0) s.j s.f_pre +ℤ s.i_ext)

-- `k` ticks.
abbrev pub after_ticks : ℕ → MeanField → MeanField
after_ticks zero s = s
after_ticks (suc k) s = after_ticks k (send_mc_packet_rates s).0

relaxed : ℕ → ℤ → ℤ → ℤ
relaxed zero f goal = f
relaxed (suc k) f goal = relaxed k (relax f goal) goal

after_ticks-relaxed : (k : ℕ) (s : MeanField) → (after_ticks k s).f ≡ relaxed k s.f (target s)
unfolding send_mc_packet_rates relaxed
after_ticks-relaxed zero s = refl
after_ticks-relaxed (suc k) s = after_ticks-relaxed k (send_mc_packet_rates s).0

-- What is left of a distance after `k` ticks, from below and from above.
abbrev left_below : ℕ → ℕ → ℕ
left_below zero b = b
left_below (suc k) b = left_below k ((27 * b + 31) / 32)

abbrev left_above : ℕ → ℕ → ℕ
left_above zero b = b
left_above (suc k) b = left_above k (27 * b / 32)

-- `f` is at most `b` below `goal`, or above it.
IsBelowBy : ℕ → ℤ → ℤ → Type 0
IsBelowBy b goal f = (f ≤ℤ goal) × (goal ≤ℤ f +ℤ pos b)

IsAboveBy : ℕ → ℤ → ℤ → Type 0
IsAboveBy b goal f = (goal ≤ℤ f) × (f ≤ℤ goal +ℤ pos b)

-- The change of a rate whose target is `d` away.
change : ℤ → ℤ
change d = shr_ℤ (shr_ℤ (d *ℤ fixed 40) 8) 8

change_below :
    (d : ℤ) (b : ℕ)
    → pos 0 ≤ℤ d
    → d ≤ℤ pos b
    → (change d ≤ℤ d) × (d ≤ℤ change d +ℤ pos ((27 * b + 31) / 32))
unfolding change ◌*ℤ◌ ◌+ℤ◌
change_below (pos n) b lo hi = ground arith
change_below (negsuc n) b lo hi = absurd (omega arith)

change_above :
    (d : ℤ) (b : ℕ)
    → d ≤ℤ pos 0
    → pos 0 ≤ℤ d +ℤ pos b
    → (d ≤ℤ change d) × (change d ≤ℤ d +ℤ pos (27 * b / 32))
unfolding change ◌*ℤ◌ ◌+ℤ◌
change_above (pos n) b lo hi = ground arith
change_above (negsuc n) b lo hi = ground arith

relax_below :
    (b : ℕ) (goal f : ℤ) → IsBelowBy b goal f → IsBelowBy ((27 * b + 31) / 32) goal (relax f goal)
unfolding IsBelowBy relax change
relax_below b goal f (lo, hi) =
    let d = goal -ℤ f in
    let e = -ℤ_parts goal f in
    let c = change_below d b (omega arith) (omega (arith, +ℤ_parts f (pos b))) in
    omega (
      arith,
      c,
      e,
      +ℤ_parts f (change d),
      +ℤ_parts (change d) (pos ((27 * b + 31) / 32)),
      +ℤ_parts (relax f goal) (pos ((27 * b + 31) / 32)),
    )

relax_above :
    (b : ℕ) (goal f : ℤ) → IsAboveBy b goal f → IsAboveBy (27 * b / 32) goal (relax f goal)
unfolding IsAboveBy relax change
relax_above b goal f (lo, hi) =
    let d = goal -ℤ f in
    let e = -ℤ_parts goal f in
    let c =
      change_above d b (omega arith) (omega (arith, +ℤ_parts goal (pos b), +ℤ_parts d (pos b))) in
    omega (
      arith,
      c,
      e,
      +ℤ_parts f (change d),
      +ℤ_parts d (pos (27 * b / 32)),
      +ℤ_parts goal (pos (27 * b / 32)),
    )

relaxed_below :
    (k b : ℕ) (goal f : ℤ) → IsBelowBy b goal f → IsBelowBy (left_below k b) goal (relaxed k f goal)
unfolding relaxed
relaxed_below zero b goal f h = h
relaxed_below (suc k) b goal f h =
    relaxed_below k ((27 * b + 31) / 32) goal (relax f goal) (relax_below b goal f h)

relaxed_above :
    (k b : ℕ) (goal f : ℤ) → IsAboveBy b goal f → IsAboveBy (left_above k b) goal (relaxed k f goal)
unfolding relaxed
relaxed_above zero b goal f h = h
relaxed_above (suc k) b goal f h =
    relaxed_above k (27 * b / 32) goal (relax f goal) (relax_above b goal f h)

left_below_mono : (k : ℕ) {a b : ℕ} → a ≤ b → left_below k a ≤ left_below k b
left_below_mono zero h = h
left_below_mono (suc k) h = left_below_mono k (omega arith)

left_above_mono : (k : ℕ) {a b : ℕ} → a ≤ b → left_above k a ≤ left_above k b
left_above_mono zero h = h
left_above_mono (suc k) h = left_above_mono k (omega arith)

last_below : left_below 52 21600 ≡ 6
last_below = refl

last_above : left_above 52 21600 ≡ 0
last_above = refl

at_or_after : (n : ℕ) → 53 ≤ suc n → (n ≡ 52) ⊎ (53 ≤ n)
at_or_after n h = omega arith

-- Rates are at most 25600 parts apart; 53 ticks leave six parts of that from below, none from above.
few_left : (n : ℕ) → 53 ≤ n → (left_below n 25600 ≤ 6) × (left_above n 25600 ≤ 0)
few_left zero h = absurd (omega arith)
few_left (suc n) h = elim (at_or_after n h) [
  | inl e ↦ rw (e, last_below, last_above) (omega arith, omega arith)
  | inr l ↦
      let (b, a) = few_left n l in
      let later_b : left_below n 21600 ≤ left_below n 25600 = left_below_mono n (omega arith) in
      let later_a : left_above n 21600 ≤ left_above n 25600 = left_above_mono n (omega arith) in
      (omega arith, omega arith)
]

settled :
    (n : ℕ) (goal f : ℤ)
    → 53 ≤ n
    → IsRate goal
    → IsRate f
    → (relaxed n f goal ≤ℤ goal) × (goal ≤ℤ relaxed n f goal +ℤ pos 6)
unfolding IsBelowBy IsAboveBy
settled n goal f hn hg hf =
    let f' = relaxed n f goal in
    let (few, none_left) = few_left n hn in
    elim (≤ℤ_total f goal) [
      | inl lo ↦
          let start : IsBelowBy 25600 goal f = (lo, omega (arith, +ℤ_parts f (pos 25600))) in
          let r = relaxed_below n 25600 goal f start in
          (
            r.0,
            omega (arith, r.1, few, +ℤ_parts f' (pos 6), +ℤ_parts f' (pos (left_below n 25600))),
          )
      | inr hi ↦
          let start : IsAboveBy 25600 goal f = (hi, omega (arith, +ℤ_parts goal (pos 25600))) in
          let r = relaxed_above n 25600 goal f start in
          (
            omega (arith, r.1, none_left, +ℤ_parts goal (pos (left_above n 25600))),
            omega (arith, r.0, +ℤ_parts f' (pos 6)),
          )
    ]

-- While no packet changes what a core in a valid state is driven with, its rate is at most the
-- activation of its input, and at most 6 of the 256 parts of a unit below it, after any 53 or more
-- ticks of the timer.
pub rate_settles :
    (n : ℕ) {s : MeanField}
    → 53 ≤ n
    → IsValid s
    → ((after_ticks n s).f ≤ℤ target s) × (target s ≤ℤ (after_ticks n s).f +ℤ pos 6)
rate_settles n {s} hn v =
    rw (after_ticks-relaxed n s)
      (settled n (target s) s.f hn (if_fct-IsRate (summ (pos 0) s.j s.f_pre +ℤ s.i_ext)) v.rate)
