-- ===== src/MeanField/Cluster/Net/Events.antt =====
-- The network on a position of the ball and on a tick of the motor core.
use mathlib.Core.Option.{some-injective}
use spi_nnaker.Prelude.{
  ◌%◌, ◌^◌, ◌==◌, Bool-cases, inl, inr, lt→ltb, ℕ, ◌+◌, ◌≤◌, ◌<◌, ◌≡◌, refl, sym, ap, ap₂, subst,
  ◌∙◌, some, arith,
}
use spi_nnaker.MeanField.{send_mc_packet_angles, see, process_mc_packet, push_old, MeanField, m}
use spi_nnaker.MeanField.Network.{see-IsValid}
use spi_nnaker.MeanField.Cluster.Net.{
  Net, looking_net, aiming_net, next_count, command, IsPart, IsMotor, IsNet,
}

-- The packets of the camera.
seen-IsPart :
    (key : ℕ) (net : Net) (i : ℕ) {s : MeanField}
    → IsPart net i s
    → IsPart (looking_net key net) i (see key s)
unfolding see
seen-IsPart key net i {s} p = record {
  core = (see-IsValid key p.core.0, p.core.1);
  rate = p.rate;
  rates = p.rates;
  weights = p.weights;
  input = rw (p.core.1, p.x_before, p.y_before, p.x_now, p.y_now) refl;
  x_before = ap₂ push_old p.x_before p.x_now;
  y_before = ap₂ push_old p.y_before p.y_now;
  x_now = refl;
  y_now = refl;
}

pub process-see :
    (key : ℕ) (s : MeanField) → m + 1 < key → process_mc_packet key 0 s ≡ some (see key s)
unfolding process_mc_packet
process-see key s h = rw (lt→ltb (m + 1) key h) refl

-- The motor core sees the ball as the others do, and keeps what it has heard.
seen-IsMotor :
    (key : ℕ) (net : Net) (s : MeanField)
    → IsMotor net s
    → IsMotor (looking_net key net) (see key s)
unfolding see
seen-IsMotor key net s h = h

pub seen-IsNet :
    (key : ℕ) (net : Net) {cores next : ℕ → MeanField}
    → m + 1 < key
    → IsNet net cores
    → ((i : ℕ) → 1 ≤ i → i ≤ m + 1 → process_mc_packet key 0 (cores i) ≡ some (next i))
    → IsNet (looking_net key net) next
seen-IsNet key net {cores} high h e =
    let same = λ (i : ℕ) (lo : 1 ≤ i) (hi : i ≤ m + 1).
      some-injective _ _ (sym (process-see key (cores i) high) ∙ e i lo hi) in
    record {
      parts = λ i lo hi.
          subst (IsPart (looking_net key net) i) (same i lo (omega arith))
            (seen-IsPart key net i (h.parts i lo hi));
      motor =
          subst (IsMotor (looking_net key net)) (same (m + 1) (omega arith) (omega arith))
            (seen-IsMotor key net (cores (m + 1)) h.motor);
    }

-- A tick of the motor core.
pub angles_lem :
    (s : MeanField)
    → let (s', sent) = send_mc_packet_angles s in
      (sent ≡ command s.f_pre s.count) × (s'.f_pre ≡ s.f_pre) × (s'.count ≡ next_count s.count)
unfolding send_mc_packet_angles
angles_lem s = elim (Bool-cases ((s.count + 1) % 2 ^ 32 == 30_000)) [
  | inl resting ↦ rw resting (refl, refl, refl)
  | inr going ↦ rw going (refl, refl, refl)
]

angles-IsMotor :
    (net : Net) (s : MeanField)
    → IsMotor net s
    → IsMotor (aiming_net net) (send_mc_packet_angles s).0
angles-IsMotor net s (heard, counted) =
    let (_, same, more) = angles_lem s in (same ∙ heard, more ∙ ap next_count counted)

pub aimed-IsNet :
    (net : Net) {cores next : ℕ → MeanField}
    → IsNet net cores
    → ((i : ℕ) → 1 ≤ i → i ≤ m → next i ≡ cores i)
    → next (m + 1) ≡ (send_mc_packet_angles (cores (m + 1))).0
    → IsNet (aiming_net net) next
aimed-IsNet net {cores} {next} h same e = record {
  parts = λ i lo hi.
      let p = h.parts i lo hi in
      subst (IsPart (aiming_net net) i) (sym (same i lo hi)) (record {
        core = p.core;
        rate = p.rate;
        rates = p.rates;
        weights = p.weights;
        input = p.input;
        x_before = p.x_before;
        y_before = p.y_before;
        x_now = p.x_now;
        y_now = p.y_now;
      });
  motor = subst (IsMotor (aiming_net net)) (sym e) (angles-IsMotor net (cores (m + 1)) h.motor);
}
