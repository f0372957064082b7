-- ===== src/MeanField/Cluster/Net/Tick.antt =====
-- One round of the network.
use mathlib.Core.List.{Memᴰ}
use mathlib.Core.Option.{some-injective}
use spi_nnaker.Prelude.{
  length, ℕ, zero, suc, ◌-◌, ◌+◌, ◌≤◌, ◌≡◌, refl, sym, ap, ap₂, subst, ◌∙◌, some, List, ◌∷◌, map,
  All, arith, length-map, get_or, numbers_from, length-numbers_from, get_or-map-numbers_from,
}
use spi_nnaker.Prelude.Int.{pos}
use spi_nnaker.MeanField.{MeanField, m, send_mc_packet_rates}
use spi_nnaker.MeanField.Network.{IsValid, send_mc_packet_rates-IsValid}
use spi_nnaker.MeanField.Range.{IsRate}
use spi_nnaker.MeanField.Cluster.Round.{receive, sent_by, next_rate, rates_exchanged}
use spi_nnaker.MeanField.Cluster.Net.{ticked, Net, next_own, next_net, IsPart, IsMotor, IsNet}

ticked-rate : (net : Net) (i : ℕ) {s : MeanField} → IsPart net i s → (ticked s).f ≡ next_own net i
unfolding send_mc_packet_rates
ticked-rate net i p = rw (p.rate, p.rates, p.weights, p.input) refl

own_rate :
    (net : Net) (i : ℕ) → 1 ≤ i → i ≤ m → next_own net i ≡ get_or (next_net net).own (i - 1) (pos 0)
own_rate net i lo hi =
    let at : 1 + (i - 1) ≡ i = omega arith in
    sym (
      get_or-map-numbers_from (next_own net) 1 m (i - 1) (pos 0) (omega arith)
      ∙ ap (next_own net) at)

module _ (net : Net) (cores : ℕ → MeanField) (is_net : IsNet net cores) where
  -- What every core hears of in the next round.
  heard_rates :
      (a n : ℕ)
      → 1 ≤ a
      → a + n ≤ suc m
      → map (next_rate cores) (numbers_from a n) ≡ map (next_own net) (numbers_from a n)
  heard_rates a zero lo hi = refl
  heard_rates a (suc n) lo hi =
      ap₂ ◌∷◌ (ticked-rate net a (is_net.parts a lo (omega arith)))
        (heard_rates (suc a) n (omega arith) (omega arith))

  all_rates :
      (a n : ℕ) → 1 ≤ a → a + n ≤ suc m → All IsRate (map (next_rate cores) (numbers_from a n))
  all_rates a zero lo hi = tt
  all_rates a (suc n) lo hi = (
    (send_mc_packet_rates-IsValid (is_net.parts a lo (omega arith)).core.0).rate,
    all_rates (suc a) n (omega arith) (omega arith),
  )

  heard-IsValid :
      {s : MeanField}
      → IsValid s
      → IsValid (record s { f_pre = map (next_rate cores) (numbers_from 1 m) })
  heard-IsValid v = record {
    rate = v.rate;
    rates = all_rates 1 m (omega arith) (omega arith);
    length_rates = length-map (numbers_from 1 m) (next_rate cores) ∙ length-numbers_from 1 m;
    couplings = v.couplings;
    length_couplings = v.length_couplings;
    input = v.input;
    x_in = v.x_in;
    y_in = v.y_in;
    x_old_in = v.x_old_in;
    y_old_in = v.y_old_in;
  }

  -- A core after its tick and the packets of the round.
  pub updated : ℕ → MeanField
  updated i = record (ticked (cores i)) { f_pre = map (next_rate cores) (numbers_from 1 m) }

  updated-IsPart : (i : ℕ) → 1 ≤ i → i ≤ m → IsPart (next_net net) i (updated i)
  unfolding updated send_mc_packet_rates
  updated-IsPart i lo hi =
      let p = is_net.parts i lo hi in
      record {
        core = (heard-IsValid (send_mc_packet_rates-IsValid p.core.0), p.core.1);
        rate = ticked-rate net i p ∙ own_rate net i lo hi;
        rates = heard_rates 1 m (omega arith) (omega arith);
        weights = p.weights;
        input = p.input;
        x_before = p.x_before;
        y_before = p.y_before;
        x_now = p.x_now;
        y_now = p.y_now;
      }

  pub receive-updated :
      (i : ℕ) (order : List ℕ)
      → 1 ≤ i
      → i ≤ m
      → All (λ j. (1 ≤ j) × (j ≤ m)) order
      → ((j : ℕ) → 1 ≤ j → j ≤ m → Memᴰ j order)
      → receive (sent_by cores order) (ticked (cores i)) ≡ some (updated i)
  unfolding updated
  receive-updated i order lo hi range every =
      let v = send_mc_packet_rates-IsValid (is_net.parts i lo hi).core.0 in
      rates_exchanged cores order (ticked (cores i)) (λ j l h. (is_net.parts j l h).core) range
        every v.length_rates

  -- The motor core on the packets of the round.
  pub receive-motor :
      (order : List ℕ)
      → All (λ j. (1 ≤ j) × (j ≤ m)) order
      → ((j : ℕ) → 1 ≤ j → j ≤ m → Memᴰ j order)
      → receive (sent_by cores order) (cores (m + 1))
        ≡ some (record (cores (m + 1)) { f_pre = map (next_rate cores) (numbers_from 1 m) })
  receive-motor order range every =
      let one = is_net.parts 1 (omega arith) (omega arith) in
      let n : length net.heard ≡ m = rw one.rates at one.core.0.length_rates in
      rates_exchanged cores order (cores (m + 1)) (λ j l h. (is_net.parts j l h).core) range every
        (rw is_net.motor.0 n)

  -- A round.
  module _ (next : ℕ → MeanField) (orders : ℕ → List ℕ)
      (range : (i : ℕ) → All (λ j. (1 ≤ j) × (j ≤ m)) (orders i))
      (every : (i j : ℕ) → 1 ≤ j → j ≤ m → Memᴰ j (orders i)) where
    pub one_round :
        ((i : ℕ)
          → 1 ≤ i
          → i ≤ m
          → receive (sent_by cores (orders i)) (ticked (cores i)) ≡ some (next i))
        → receive (sent_by cores (orders (m + 1))) (cores (m + 1)) ≡ some (next (m + 1))
        → IsNet (next_net net) next
    one_round e e' = record {
      parts = λ i lo hi.
          subst (IsPart (next_net net) i)
            (some-injective _ _
              (sym (receive-updated i (orders i) lo hi (range i) (every i)) ∙ e i lo hi))
            (updated-IsPart i lo hi);
      motor =
          subst (IsMotor (next_net net))
            (some-injective _ _
              (sym (receive-motor (orders (m + 1)) (range (m + 1)) (every (m + 1))) ∙ e'))
            (heard_rates 1 m (omega arith) (omega arith), is_net.motor.1);
    }
