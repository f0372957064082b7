-- ===== src/MeanField/Cluster/Round.antt =====
-- A round of the cores of runMFM.c: every population ticks, and its packet reaches a core, at least once
-- and in any order.
use mathlib.Core.List.{Memᴰ}
use mathlib.Core.Option.{bind}
use spi_nnaker.Prelude.{
  ℕ, suc, ◌-◌, ◌≤◌, ◌<◌, ◌≡◌, refl, sym, ap, ◌∙◌, Option, some, List, [], ◌∷◌, ◌++◌, map, All,
  arith, length, length-set, length-map, get_or, set, get_or-set_self, get_or-set_ne, get_or_ext,
  numbers_from, length-numbers_from, get_or-map-numbers_from, Bool-cases, inl, inr, ◌==◌, ==_iff,
}
use spi_nnaker.Prelude.Int.{ℤ, pos}
use spi_nnaker.Device.{Effect, send_mc}
use spi_nnaker.MeanField.{MeanField, m, send_mc_packet_rates, process_mc_packet}
use spi_nnaker.MeanField.Exchange.{process-send_rates}
use spi_nnaker.MeanField.Cluster.Running.{IsCore}

-- A core on the packets that reach it.
abbrev pub receive : List Effect → MeanField → Option MeanField
receive [] s = some s
receive (send_mc key payload ∷ rest) s = bind (process_mc_packet key payload s) (receive rest)
receive (_ ∷ rest) s = receive rest s

from_1 : (order : List ℕ) → All (λ i. (1 ≤ i) × (i ≤ m)) order → All (λ i. 1 ≤ i) order
from_1 [] h = tt
from_1 (i ∷ order) (range, h) = (range.0, from_1 order h)

module _ (cores : ℕ → MeanField) where
  -- The rate of a population after its tick.
  abbrev pub next_rate : ℕ → ℤ
  next_rate i = (send_mc_packet_rates (cores i)).0.f

  -- What populations send, in the order of a list.
  abbrev pub sent_by : List ℕ → List Effect
  sent_by [] = []
  sent_by (i ∷ order) = (send_mc_packet_rates (cores i)).1 ++ sent_by order

  abbrev written : List ℕ → List ℤ → List ℤ
  written [] rates = rates
  written (i ∷ order) rates = written order (set rates (i - 1) (next_rate i))

  length-written : (order : List ℕ) (rates : List ℤ) → length (written order rates) ≡ length rates
  length-written [] rates = refl
  length-written (i ∷ order) rates =
      length-written order (set rates (i - 1) (next_rate i))
      ∙ length-set rates (i - 1) (next_rate i)

  own_place :
      (i j : ℕ) (rates : List ℤ)
      → i ≡ suc j
      → j < length rates
      → get_or (set rates (i - 1) (next_rate i)) j (pos 0) ≡ next_rate (suc j)
  own_place i j rates own h =
      let at : i - 1 ≡ j = omega arith in
      rw at (get_or-set_self rates j (next_rate i) (pos 0) h) ∙ ap next_rate own

  -- A rate that stands at its place stays there.
  written_again :
      (order : List ℕ) (rates : List ℤ) (j : ℕ)
      → All (λ i. 1 ≤ i) order
      → j < length rates
      → get_or rates j (pos 0) ≡ next_rate (suc j)
      → get_or (written order rates) j (pos 0) ≡ next_rate (suc j)
  written_again [] rates j lo h e = e
  written_again (i ∷ order) rates j lo h e =
      let rates' = set rates (i - 1) (next_rate i) in
      let n = length-set rates (i - 1) (next_rate i) in
      let kept : get_or rates' j (pos 0) ≡ next_rate (suc j) = elim (Bool-cases (i - 1 == j)) [
        | inl here ↦
            let at : i - 1 ≡ j = (==_iff (i - 1) j).0 here in
            own_place i j rates (omega (arith, at, lo.0)) h
        | inr other ↦
            get_or-set_ne rates (next_rate i) (pos 0) (λ at. ground (arith, at, other)) ∙ e
      ] in
      written_again order rates' j lo.1 (omega (arith, n)) kept

  -- The rate of a population that has sent stands at its place.
  get_or-written :
      (order : List ℕ) (rates : List ℤ) (j : ℕ)
      → All (λ i. 1 ≤ i) order
      → j < length rates
      → Memᴰ (suc j) order
      → get_or (written order rates) j (pos 0) ≡ next_rate (suc j)
  get_or-written [] rates j lo h w = elim w [ ]
  get_or-written (i ∷ order) rates j lo h (Memᴰ.head e) =
      let rates' = set rates (i - 1) (next_rate i) in
      let n = length-set rates (i - 1) (next_rate i) in
      written_again order rates' j lo.1 (omega (arith, n)) (own_place i j rates (sym e) h)
  get_or-written (i ∷ order) rates j lo h (Memᴰ.tail w) =
      let n = length-set rates (i - 1) (next_rate i) in
      get_or-written order (set rates (i - 1) (next_rate i)) j lo.1 (omega (arith, n)) w

  -- Every packet is taken.
  receive-sent_by :
      (order : List ℕ) (r : MeanField)
      → ((i : ℕ) → 1 ≤ i → i ≤ m → IsCore i (cores i))
      → All (λ i. (1 ≤ i) × (i ≤ m)) order
      → receive (sent_by order) r ≡ some (record r { f_pre = written order r.f_pre })
  unfolding bind send_mc_packet_rates
  receive-sent_by [] r core h = refl
  receive-sent_by (i ∷ order) r core ((lo, hi), h) =
      let (valid, number) = core i lo hi in
      let (_, kept) = process-send_rates r valid (rw number lo) (rw number hi) in
      rw (kept, number)
        (receive-sent_by order (record r { f_pre = set r.f_pre (i - 1) (next_rate i) }) core h)

  -- When every population from 1 to 15 has ticked and its packet reaches a core at least once, in any
  -- order, no packet makes the core write outside its arrays, and it then holds the new rates of all
  -- populations, each at its place, and is otherwise as it was.
  pub rates_exchanged :
      (order : List ℕ) (r : MeanField)
      → ((i : ℕ) → 1 ≤ i → i ≤ m → IsCore i (cores i))
      → All (λ i. (1 ≤ i) × (i ≤ m)) order
      → ((i : ℕ) → 1 ≤ i → i ≤ m → Memᴰ i order)
      → length r.f_pre ≡ m
      → receive (sent_by order) r ≡ some (record r { f_pre = map next_rate (numbers_from 1 m) })
  rates_exchanged order r core range every n =
      let rates = map next_rate (numbers_from 1 m) in
      let n1 = length-written order r.f_pre in
      let n2 = length-map (numbers_from 1 m) next_rate in
      let n3 = length-numbers_from 1 m in
      let same : written order r.f_pre ≡ rates =
        get_or_ext (written order r.f_pre) rates (pos 0) (omega (arith, n1, n2, n3)) (λ j lt.
          get_or-written order r.f_pre j (from_1 order range) (omega (arith, n1))
            (every (suc j) (omega arith) (omega (arith, n1)))
          ∙ sym (
              get_or-map-numbers_from next_rate 1 m j (pos 0) (omega (arith, n1))
              ∙ ap next_rate (omega arith))) in
      receive-sent_by order r core range ∙ ap (λ l. some (record r { f_pre = l })) same
