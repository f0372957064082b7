-- ===== src/Parallel/Node.antt =====
-- A node of the parallel version: `rec_err` and `send_upd` of parallel/network.c and `eventNode` of
-- parallel/BallController.c.
pub mod Once
use spi_nnaker.Prelude.{
  ℕ, ◌+◌, ◌-◌, ◌*◌, ◌/◌, ◌%◌, ◌^◌, bit_and, Bool, not, ◌&&◌, List, [], ◌∷◌, if◌then◌else◌, ◌==◌,
}
use spi_nnaker.Prelude.Int.{ℤ, pos, to_uint}
use spi_nnaker.Platform.{Platform}
use spi_nnaker.Network
use spi_nnaker.Device.{Effect, send_mc}
use spi_nnaker.Parallel.Globals.{Globals}
use spi_nnaker.Parallel.Messages.{UpdateFields, unpack_error, pack_update, is_error}
use spi_nnaker.Parallel.Motion
use spi_nnaker.Parallel.Population

-- `(uint)CORE_NB(chipY, chipX, coreID)`, in `unsigned int`.
unfoldable pub core_nb : ℕ → ℕ → ℕ → ℕ
core_nb chip_y chip_x core_id =
    (32 * chip_y + 16 * chip_x + (core_id + 2 ^ 32 - 1) % 2 ^ 32) % 2 ^ 32

-- The index that a core sends its update under.
unfoldable pub node_index : ℕ → ℕ → ℕ
unfolding core_nb
node_index chip_id core_id = core_nb (chip_id / 256) (bit_and chip_id 0xff) core_id

-- The globals of parallel/BallController.c that a node uses.
pub record Node (N : Type 0) : Type 0 where
  pub network : Globals N
  pub node_counter : ℕ
  pub sim_count : ℕ

module _ (P : Platform) where
  open P use {Num, ◌⊗◌, ◌⊘◌, neg, single, less, decimal, of_int, to_int}

  infixl 70 ◌⊗◌ ◌⊘◌
  -- `v < 0.0`
  unfoldable pub is_negative : Num → Bool
  is_negative v = less v (decimal 0 0)

  -- `(int)(-v*scale)` or `(int)(v*scale)`, by the sign of `v`
  unfoldable pub scaled : Num → Num → ℤ
  unfolding is_negative
  scaled v scale = to_int ((if is_negative v then neg v else v) ⊗ scale)

  -- A received value: the field as a `float`, its sign, and the division by the scale.
  unfoldable pub received : Bool → ℕ → Num → Num
  received negative field scale =
      let v = single (of_int (pos field)) in single ((if negative then neg v else v) ⊘ scale)

  unfoldable pub rec_err : ℕ → ℕ → ℕ → Globals Num → Globals Num
  unfolding received
  rec_err key payload sim_time g =
      let e = unpack_error (record { key = key; payload = payload }) in
      record g {
        ball = Motion.normalize_ball_params P (pos e.x_pos) (pos e.y_pos) sim_time g.ball;
        critic = record (g.critic) {
          error_x = received e.negative_x e.size_x (decimal 10000 0);
          error_y = received e.negative_y e.size_y (decimal 10000 0);
        };
      }

  -- The fields of the update that `send_upd` sends.
  unfoldable pub update_fields : Globals Num → UpdateFields
  unfolding scaled node_index
  update_fields g =
      let p = g.population in
      let v_x = Network.clamp P (single (p.w_v_x ⊗ p.f_x)) in
      let v_y = Network.clamp P (single (p.w_v_y ⊗ p.f_y)) in
      let theta = Network.clamp P (single (p.w_a_theta ⊗ p.f_x)) in
      let psi = Network.clamp P (single (p.w_a_psi ⊗ p.f_y)) in
      record {
        index = node_index g.chip_id g.core_id;
        negative_v_x = is_negative v_x;
        negative_v_y = is_negative v_y;
        negative_theta = is_negative theta;
        negative_psi = is_negative psi;
        size_v_x = to_uint (scaled v_x (decimal 1000 0));
        size_v_y = to_uint (scaled v_y (decimal 1000 0));
        size_theta = to_uint (scaled theta (decimal 10000 0));
        size_psi = to_uint (scaled psi (decimal 10000 0));
      }

  unfoldable pub send_upd : Globals Num → List Effect
  unfolding update_fields
  send_upd g = let p = pack_update (update_fields g) in send_mc p.key p.payload ∷ []

  -- What a node does with an error that it has not seen.
  unfoldable pub learn : ℕ → ℕ → Node Num → Node Num × List Effect
  unfolding rec_err send_upd
  learn key payload s =
      let count = s.sim_count + 1 in
      let g = rec_err key payload count s.network in
      let g' = Population.update_v P (Population.update_a P (Population.mfm P g)) in
      (
        record { network = g'; node_counter = bit_and (key / 2 ^ 20) 0xff; sim_count = count },
        send_upd g',
      )

  unfoldable pub event_node : ℕ → ℕ → Node Num → Node Num × List Effect
  unfolding learn
  event_node key payload s =
      if is_error key && not (bit_and (key / 2 ^ 20) 0xff == s.node_counter)
      then learn key payload s
      else (s, [])
