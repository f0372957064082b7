-- ===== src/Track/Warmup.antt =====
-- The warm-up of the filter: how many samples it has taken, and its flag `pos_computed`.
use native.Mathlib.Numerals.{unary_clauses}
use spi_nnaker.Prelude.{
  ℕ, suc, ◌+◌, ◌%◌, ◌≡◌, refl, subst, Bool-cases, inl, inr, List, [], ◌∷◌, arith, length, leb,
}
use spi_nnaker.Prelude.Int.{ℤ}
use spi_nnaker.Platform.{Platform}
use spi_nnaker.Track.{Tracker, start, store, accepts, compute_pos}
use spi_nnaker.Track.Mean.{Sample, run, taken, compute_pos_taken, compute_pos_refused}

-- The filter after `count` samples taken.
abbrev HasTaken : ℕ → Tracker → Type 0
HasTaken count t = (t.pos_computed ≡ leb 16 count) × (t.curr_index ≡ count % 16)

store-HasTaken :
    (count : ℕ) (x y : ℤ) (t : Tracker) → HasTaken count t → HasTaken (count + 1) (store x y t)
unfolding store
store-HasTaken count x y t h = ground (arith, h)

module _ (P : Platform) where
  run-HasTaken :
      (samples : List Sample) (count : ℕ) (t : Tracker)
      → HasTaken count t
      → HasTaken (count + length (taken P samples t)) (run P samples t)
  run-HasTaken [] count t h = simp unary_clauses h
  run-HasTaken (s ∷ samples) count t h =
      let t' = compute_pos P s.x s.y t in
      let used = length (taken P samples t') in
      elim (Bool-cases (accepts P s.x s.y t)) [
        | inl pass ↦
            let h' : HasTaken (count + 1) t' =
              rw (compute_pos_taken P s.x s.y t pass) (store-HasTaken count s.x s.y t h) in
            let counts : count + 1 + used ≡ count + suc used = omega arith in
            rw pass (
              subst (λ k. HasTaken k (run P samples t')) counts
                (run-HasTaken samples (count + 1) t' h'))
        | inr fail ↦
            let h' : HasTaken count t' = rw (compute_pos_refused P s.x s.y t fail) h in
            rw fail (run-HasTaken samples count t' h')
      ]

  -- `pos_computed` says whether 16 samples have been taken since the start.
  pub pos_computed-run :
      (samples : List Sample)
      → (run P samples start).pos_computed ≡ leb 16 (length (taken P samples start))
  pos_computed-run samples =
      let used = length (taken P samples start) in
      let counts : 0 + used ≡ used = omega arith in
      subst (λ k. (run P samples start).pos_computed ≡ leb 16 k) counts
        (run-HasTaken samples 0 start (refl, refl)).0
