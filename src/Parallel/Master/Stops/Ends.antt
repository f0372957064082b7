-- ===== src/Parallel/Master/Stops/Ends.antt =====
-- How many callbacks a list of effects ends.
use spi_nnaker.Prelude.{ℕ, suc, ◌+◌, ◌≡◌, List, [], ◌∷◌, ◌++◌, arith}
use spi_nnaker.Device.{Effect}

-- How often the effects end a callback.
abbrev pub ends : List Effect → ℕ
ends [] = 0
ends (Effect.callback_off e ∷ es) = suc (ends es)
ends (_ ∷ es) = ends es

pub ends-append : (es es' : List Effect) → ends (es ++ es') ≡ ends es + ends es'
ends-append [] es' = omega arith
ends-append (Effect.callback_off e ∷ es) es' = omega (arith, ends-append es es')
ends-append (Effect.send_mc a b ∷ es) es' = ends-append es es'
ends-append (Effect.set_mc_entry a b c d ∷ es) es' = ends-append es es'
ends-append (Effect.set_timer_tick a ∷ es) es' = ends-append es es'
ends-append (Effect.delay a ∷ es) es' = ends-append es es'
ends-append (Effect.callback_on a b c ∷ es) es' = ends-append es es'
ends-append (Effect.print a ∷ es) es' = ends-append es es'
ends-append (Effect.start_simulation ∷ es) es' = ends-append es es'
