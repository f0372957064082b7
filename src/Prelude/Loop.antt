-- ===== src/Prelude/Loop.antt =====
-- `for (i = lo; i < hi; i++)`, on the rounds left, and loops whose round `i` works on slot `i` alone.
use native.Mathlib.Decide.{dec_lt}
use spi_nnaker.Prelude.{ℕ, zero, suc, ◌+◌, ◌≤◌, ◌<◌, ◌≡◌, refl, ◌≢◌, ◌∙◌, ap₂, arith}

unfoldable pub for_each {ℓ} : {S : Type ℓ} → ℕ → ℕ → (ℕ → S → S) → S → S
for_each zero i body s = s
for_each (suc left) i body s = for_each left (suc i) body (body i s)

-- What every round keeps, the loop keeps.
pub for_each-keeps {ℓ κ} :
    {S : Type ℓ} {body : ℕ → S → S} (Keep : S → Type κ)
    → ((i : ℕ) (s : S) → Keep s → Keep (body i s))
    → (left i : ℕ) (s : S) → Keep s
    → Keep (for_each left i body s)
unfolding for_each
for_each-keeps Keep round zero i s h = h
for_each-keeps {body} Keep round (suc left) i s h =
    for_each-keeps Keep round left (suc i) (body i s) (round i s h)

-- `slot j` is what round `j` works on and `common` what every round reads; `Fits` is what keeps the
-- writes inside their arrays.
pub record IsSlotwise {ℓ κ μ ν} {S : Type ℓ} {X : Type κ} {Y : Type μ} (Fits : S → Type ν)
    (slot : ℕ → S → X) (common : S → Y) (step : Y → X → X) (size : ℕ) (body : ℕ → S → S)
    : Type (ℓ ⊔ κ ⊔ μ ⊔ ν) where
  pub fits : (i : ℕ) (s : S) → Fits s → Fits (body i s)
  pub at_slot : (i : ℕ) (s : S) → i < size → Fits s → slot i (body i s) ≡ step (common s) (slot i s)
  pub elsewhere : (i j : ℕ) (s : S) → i ≢ j → slot j (body i s) ≡ slot j s
  pub same_common : (i : ℕ) (s : S) → common (body i s) ≡ common s

module _ {ℓ κ μ ν} {S : Type ℓ} {X : Type κ} {Y : Type μ} {Fits : S → Type ν} {slot : ℕ → S → X}
    {common : S → Y} {step : Y → X → X} {size : ℕ} {body : ℕ → S → S}
    (w : IsSlotwise Fits slot common step size body) where
  pub for_each-fits : (left i : ℕ) (s : S) → Fits s → Fits (for_each left i body s)
  unfolding for_each
  for_each-fits zero i s h = h
  for_each-fits (suc left) i s h = for_each-fits left (suc i) (body i s) (w.fits i s h)

  pub for_each-common : (left i : ℕ) (s : S) → common (for_each left i body s) ≡ common s
  unfolding for_each
  for_each-common zero i s = refl
  for_each-common (suc left) i s = for_each-common left (suc i) (body i s) ∙ w.same_common i s

  -- Rounds from `i` on leave the slots before `i` alone.
  pub for_each-before : (left i j : ℕ) (s : S) → j < i → slot j (for_each left i body s) ≡ slot j s
  unfolding for_each
  for_each-before zero i j s h = refl
  for_each-before (suc left) i j s h =
      for_each-before left (suc i) j (body i s) (omega arith) ∙ w.elsewhere i j s (omega arith)

  -- A loop over all slots steps each of them once, with the common part as it was at the start.
  pub for_each-slot :
      (left i j : ℕ) (s : S)
      → i + left ≤ size
      → Fits s
      → i ≤ j
      → j < i + left
      → slot j (for_each left i body s) ≡ step (common s) (slot j s)
  unfolding for_each
  for_each-slot zero i j s h f lo hi = absurd (omega arith)
  for_each-slot (suc left) i j s h f lo hi = elim (dec_lt i j) [
    | yes later ↦
        for_each-slot left (suc i) j (body i s) (omega arith) (w.fits i s f) (omega arith)
          (omega arith)
        ∙ ap₂ step (w.same_common i s) (w.elsewhere i j s (omega arith))
    | no here ↦
        let e : i ≡ j = omega arith in
        for_each-before left (suc i) j (body i s) (omega arith)
        ∙ rw (← e) (w.at_slot i s (omega arith) f)
  ]
