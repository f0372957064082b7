-- ===== src/MeanField/Cluster/Running.antt =====
-- What holds in every state that the cores can reach.
use mathlib.Core.List.{Memᴰ}
use spi_nnaker.Prelude.{
  ℕ, ◌+◌, ◌^◌, ◌≤◌, ◌<◌, ◌≡◌, ◌≢◌, refl, ◌⊎◌, inl, inr, Bool-cases, some, none, List, if-keeps, ◌%◌,
  ◌==◌, ==_iff, All, All-append, All-Memᴰ, arith, lt→ltb, set, ◌-◌,
}
use spi_nnaker.Prelude.Int.{ℤ, pos, negsuc, to_uint}
use spi_nnaker.Device.{Effect, send_mc}
use spi_nnaker.MeanField.{
  MeanField, m, motor_cmd_key, see, to_long, send_mc_packet_rates, send_mc_packet_angles,
  process_mc_packet,
}
use spi_nnaker.MeanField.Main.{c_main}
use spi_nnaker.MeanField.Range.{IsRate}
use spi_nnaker.MeanField.Network.{IsValid, send_mc_packet_rates-IsValid, see-IsValid}
use spi_nnaker.MeanField.Exchange.{keep-IsValid, to_long-IsRate}
use spi_nnaker.MeanField.Start.{c_main-IsValid}
use spi_nnaker.MeanField.Cluster.{Cluster, replace, booted, Step, Reach, boot, next}

-- A key that every core takes, with a rate of at most 100 where it names a core.
abbrev pub IsSound : ℕ → ℕ → Type 0
IsSound key payload = (16 < key) ⊎ ((1 ≤ key) × (key ≤ 15) × (payload ≤ 25_600))

abbrev pub IsSoundEffect : Effect → Type 0
IsSoundEffect (Effect.send_mc key payload) = IsSound key payload
IsSoundEffect _ = Unit

-- A valid core keeps its number.
abbrev pub IsCore : ℕ → MeanField → Type 0
IsCore i s = IsValid s × (s.core_id ≡ i)

pub record IsRunning (c : Cluster) : Type 0 where
  pub cores : (i : ℕ) → IsCore i (c.cores i)
  pub sound : All IsSoundEffect c.sent

aimed-IsValid :
    (theta phi : ℤ) (count : ℕ) {s : MeanField}
    → IsValid s
    → IsValid (record s { theta = theta; phi = phi; count = count })
aimed-IsValid theta phi count v = record {
  rate = v.rate;
  rates = v.rates;
  length_rates = v.length_rates;
  couplings = v.couplings;
  length_couplings = v.length_couplings;
  input = v.input;
  x_in = v.x_in;
  y_in = v.y_in;
  x_old_in = v.x_old_in;
  y_old_in = v.y_old_in;
}

angles-IsCore : (i : ℕ) {s : MeanField} → IsCore i s → IsCore i (send_mc_packet_angles s).0
unfolding send_mc_packet_angles
angles-IsCore i {s} (v, e) =
    if-keeps (λ (r : MeanField × List Effect). IsCore i r.0) ((s.count + 1) % 2 ^ 32 == 30_000) _ _
      (aimed-IsValid (pos 0) (pos 300) 0 v, e) (aimed-IsValid _ _ ((s.count + 1) % 2 ^ 32) v, e)

angles-IsSoundEffect : (s : MeanField) → All IsSoundEffect (send_mc_packet_angles s).1
unfolding send_mc_packet_angles
angles-IsSoundEffect s =
    let motors : 16 < motor_cmd_key = omega arith in
    if-keeps (λ (r : MeanField × List Effect). All IsSoundEffect r.1)
      ((s.count + 1) % 2 ^ 32 == 30_000) _ _ (inl motors, (tt, (inl motors, tt))) (inl motors, tt)

rates-IsCore : (i : ℕ) {s : MeanField} → IsCore i s → IsCore i (send_mc_packet_rates s).0
unfolding send_mc_packet_rates
rates-IsCore i (v, e) = (send_mc_packet_rates-IsValid v, e)

to_uint-rate : (v : ℤ) → IsRate v → to_uint v ≤ 25_600
to_uint-rate (pos n) h = omega arith
to_uint-rate (negsuc n) h = absurd (omega arith)

rates-IsSoundEffect :
    (i : ℕ) {s : MeanField}
    → 1 ≤ i
    → i ≤ 15
    → IsCore i s
    → All IsSoundEffect (send_mc_packet_rates s).1
unfolding send_mc_packet_rates
rates-IsSoundEffect i {s} lo hi (v, e) =
    let small = to_uint-rate _ (send_mc_packet_rates-IsValid v).rate in
    (rw e (inr (lo, hi, small)), tt)

-- A sound packet.
deliver :
    (i key payload : ℕ) {s : MeanField}
    → IsSound key payload
    → IsCore i s
    → (s' : MeanField) × (process_mc_packet key payload s ≡ some s') × IsCore i s'
unfolding process_mc_packet
deliver i key payload {s} (inl above) (v, e) =
    (see key s, rw (lt→ltb 16 key above) refl, (see-IsValid key v, e))
deliver i key payload {s} (inr (lo, hi, small)) (v, e) = (
  record s { f_pre = set s.f_pre (key - 1) (to_long payload) },
  ground arith,
  (keep-IsValid (key - 1) (to_long payload) (to_long-IsRate payload small) v, e),
)

booted-IsRunning : (chip : ℕ) → IsRunning (booted chip)
unfolding c_main
booted-IsRunning chip = record {
  cores = λ i. (
    c_main-IsValid chip i,
    if-keeps (λ (s : MeanField). s.core_id ≡ i) (i == m + 1) _ _ refl refl,
  );
  sound = tt;
}

replaced-IsCore :
    (c : Cluster) (i : ℕ) (s : MeanField)
    → IsRunning c
    → IsCore i s
    → (j : ℕ) → IsCore j (replace c.cores i s j)
replaced-IsCore c i s r core j = elim (Bool-cases (i == j)) [
  | inl e ↦ rw e (rw ((==_iff i j).0 e) at core)
  | inr e ↦ rw e (r.cores j)
]

-- The core that a delivery leaves.
delivered :
    (c : Cluster) (i key payload : ℕ) {s : MeanField}
    → IsRunning c
    → IsSound key payload
    → process_mc_packet key payload (c.cores i) ≡ some s
    → IsRunning (record c { cores = replace c.cores i s })
delivered c i key payload {s} r sound e =
    let (s', e', core) = deliver i key payload sound (r.cores i) in
    let same : s' ≡ s = ground (arith, e, e') in
    record { cores = replaced-IsCore c i s r (rw same at core); sound = r.sound }

Step-IsRunning : {c c' : Cluster} → Step c c' → IsRunning c → IsRunning c'
Step-IsRunning {c} (Step.rates i lo hi) r = record {
  cores = replaced-IsCore c i _ r (rates-IsCore i (r.cores i));
  sound = All-append IsSoundEffect _ c.sent (rates-IsSoundEffect i lo hi (r.cores i)) r.sound;
}
Step-IsRunning {c} Step.angles r = record {
  cores = replaced-IsCore c 16 _ r (angles-IsCore 16 (r.cores 16));
  sound = All-append IsSoundEffect _ c.sent (angles-IsSoundEffect (c.cores 16)) r.sound;
}
Step-IsRunning {c} (Step.camera i event small e) r =
    delivered c i (0x0200_0000 + event) 0 r (inl (omega arith)) e
Step-IsRunning {c} (Step.packet i key payload packet e) r =
    delivered c i key payload r (All-Memᴰ IsSoundEffect r.sound packet) e

-- Whatever the order in which the timers tick and the packets arrive, repeat or get lost: every core
-- stays valid, with rates between 0 and 100, and every packet on its way names a core from 1 to 15 with a rate of at most 100, or has a key above 16.
pub Reach-IsRunning : (chip : ℕ) {c : Cluster} → Reach chip c → IsRunning c
Reach-IsRunning chip boot = booted-IsRunning chip
Reach-IsRunning chip (next r step) = Step-IsRunning step (Reach-IsRunning chip r)

-- No packet that was sent can make any core write outside its arrays, in any state that the cores of a
-- chip can reach.
pub process-ne-none :
    (chip i key payload : ℕ) {c : Cluster}
    → Reach chip c
    → Memᴰ (send_mc key payload) c.sent
    → process_mc_packet key payload (c.cores i) ≢ none
process-ne-none chip i key payload {c} r packet =
    let run = Reach-IsRunning chip r in
    let (s, e, _) = deliver i key payload (All-Memᴰ IsSoundEffect run.sound packet) (run.cores i) in
    λ fault. ground (arith, e, fault)
