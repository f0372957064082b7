-- ===== src/Parallel/Master/Stream.antt =====
-- What the master sends, tick after tick, and what a node reads from it.
use spi_nnaker.Prelude.{ℕ, ◌+◌, ◌%◌, ◌^◌, ◌≤◌, ◌<◌, ◌≡◌, refl, ap, List, [], ◌∷◌, ◌++◌, map, arith}
use spi_nnaker.Prelude.Int.{ℤ, pos, negsuc, ◌≤ℤ◌, to_uint}
use spi_nnaker.Platform.{Platform, IsWithin, Laws}
use spi_nnaker.Calc.{f_abs}
use spi_nnaker.Calc.Bounds.{f_abs-IsWithin}
use spi_nnaker.Parallel.Motion
use spi_nnaker.Network.{Critic}
use spi_nnaker.Device.{Effect, send_mc}
use spi_nnaker.Parallel.Globals.{Globals}
use spi_nnaker.Parallel.Messages.{Packet, ErrorFields, pack_error, unpack_error}
use spi_nnaker.Parallel.Messages.Errors.{Fits, unpack_error-pack_error}
use spi_nnaker.Parallel.Messages.Kinds.{is_error-pack_error}
use spi_nnaker.Parallel.Node.{Node, is_negative, scaled, received, rec_err}
use spi_nnaker.Parallel.Node.Once.{
  AreFresh, Delivery, packets_of, count_of, deliver_all, learn_all, deliver_all-eq-learn_all,
}
use spi_nnaker.Parallel.Master.{error_fields, send_err}

to_uint-le : (z : ℤ) (m : ℕ) → m < 2 ^ 24 → pos 0 ≤ℤ z → z ≤ℤ pos m → to_uint z ≤ m
to_uint-le (pos n) m small lo hi = omega arith
to_uint-le (negsuc n) m small lo hi = absurd (omega arith)

module _ (P : Platform) (laws : Laws P) where
  open P use {Num, neg, decimal}

  -- The size of a value between -1 and 1 is at most its scale.
  pub scaled-le :
      (v : Num) (m : ℕ)
      → m < 2 ^ 24
      → IsWithin P (neg (decimal 1 0)) (decimal 1 0) v
      → to_uint (scaled P v (decimal m 0)) ≤ m
  unfolding scaled is_negative f_abs
  scaled-le v m small w =
      let (lo, hi) = laws.to_int_scaled (f_abs P v) m small (f_abs-IsWithin P laws v w) in
      to_uint-le _ m small lo hi

  -- The two errors lie between -1 and 1, as `updateError` leaves them.
  abbrev pub ErrorsFit : Critic Num → Type 0
  ErrorsFit c =
      IsWithin P (neg (decimal 1 0)) (decimal 1 0) c.error_x
      × IsWithin P (neg (decimal 1 0)) (decimal 1 0) c.error_y

  pub error_fields-Fits :
      (x y : ℕ) (g : Globals Num)
      → x < 256
      → y < 256
      → ErrorsFit g.critic
      → Fits (error_fields P x y g)
  unfolding error_fields
  error_fields-Fits x y g hx hy (ex, ey) = record {
    x_fits = hx;
    y_fits = hy;
    size_x_fits = omega (arith, scaled-le g.critic.error_x 10_000 (omega arith) ex);
    size_y_fits = omega (arith, scaled-le g.critic.error_y 10_000 (omega arith) ey);
    count_fits = omega arith;
  }

  abbrev heard : ℕ → Globals Num → ErrorFields → Globals Num
  heard sim_time h e = record h {
    ball = Motion.normalize_ball_params P (pos e.x_pos) (pos e.y_pos) sim_time h.ball;
    critic = record (h.critic) {
      error_x = received P e.negative_x e.size_x (decimal 10000 0);
      error_y = received P e.negative_y e.size_y (decimal 10000 0);
    };
  }

  -- What a node makes of the master's message: the ball at the master's position, and the errors with
  -- their signs, in steps of 1 / 10000.
  pub rec_err-send_err :
      (x y sim_time : ℕ) (g h : Globals Num)
      → x < 256
      → y < 256
      → ErrorsFit g.critic
      → let p = pack_error (error_fields P x y g) in
        ((send_err P x y g).1 ≡ send_mc p.key p.payload ∷ [])
        × (rec_err P p.key p.payload sim_time h ≡ record h {
          ball = Motion.normalize_ball_params P (pos x) (pos y) sim_time h.ball;
          critic = record (h.critic) {
            error_x =
                received P
                  (is_negative P g.critic.error_x)
                  (to_uint (scaled P g.critic.error_x (decimal 10000 0)))
                  (decimal 10000 0);
            error_y =
                received P
                  (is_negative P g.critic.error_y)
                  (to_uint (scaled P g.critic.error_y (decimal 10000 0)))
                  (decimal 10000 0);
          };
        })
  unfolding rec_err send_err error_fields
  rec_err-send_err x y sim_time g h hx hy e =
      (refl, ap (heard sim_time h) (unpack_error-pack_error (error_fields-Fits x y g hx hy e)))

  -- One tick of the master: the position and the critic at the time of `send_err`.
  abbrev pub Tick : Type 0
  Tick = record { x : ℕ; y : ℕ; critic : Critic Num }

  abbrev pub TicksFit : List Tick → Type 0
  TicksFit [] = Unit
  TicksFit (t ∷ ticks) = (t.x < 256) × (t.y < 256) × ErrorsFit t.critic × TicksFit ticks

  abbrev pub at_tick : Tick → Globals Num → Globals Num
  at_tick t g = record g { critic = t.critic }

  -- What `send_err` sends over the ticks.
  abbrev pub sends : List Tick → Globals Num → List Effect
  sends [] g = []
  sends (t ∷ ticks) g = let (g', sent) = send_err P t.x t.y (at_tick t g) in sent ++ sends ticks g'

  abbrev pub stream : List Tick → Globals Num → List Packet
  stream [] g = []
  stream (t ∷ ticks) g =
      pack_error (error_fields P t.x t.y (at_tick t g))
      ∷ stream ticks (send_err P t.x t.y (at_tick t g)).0

  -- The stream is what is sent.
  sends-eq-stream :
      (ticks : List Tick) (g : Globals Num)
      → sends ticks g ≡ map (λ p. send_mc p.key p.payload) (stream ticks g)
  unfolding send_err
  sends-eq-stream [] g = refl
  sends-eq-stream (t ∷ ticks) g =
      let p = pack_error (error_fields P t.x t.y (at_tick t g)) in
      ap (λ r. send_mc p.key p.payload ∷ r)
        (sends-eq-stream ticks (send_err P t.x t.y (at_tick t g)).0)

  stream-AreFresh :
      (ticks : List Tick) (g : Globals Num)
      → TicksFit ticks
      → g.counter < 50
      → AreFresh g.counter (stream ticks g)
  unfolding send_err error_fields pack_error unpack_error
  stream-AreFresh [] g fit h = tt
  stream-AreFresh (t ∷ ticks) g (hx, hy, e, fit) h =
      let g1 = at_tick t g in
      let f = error_fields-Fits t.x t.y g1 hx hy e in
      let c : count_of (pack_error (error_fields P t.x t.y g1)) ≡ (g.counter + 1) % 50 =
        ap (λ r. r.count) (unpack_error-pack_error f) in
      (
        is_error-pack_error f,
        omega (arith, c),
        rw c (
            stream-AreFresh ticks (record g1 { counter = (g.counter + 1) % 50 }) fit (omega arith)),
      )

  -- From equal counts on, a node that receives the master's errors in order, each at least once and any
  -- number of times, ends as if it had received each of them exactly once.
  pub stream_once :
      (ticks : List Tick) (g : Globals Num) (s : Node Num) (deliveries : List Delivery)
      → TicksFit ticks
      → g.counter < 50
      → s.node_counter ≡ g.counter
      → packets_of deliveries ≡ stream ticks g
      → (sends ticks g ≡ map (λ p. send_mc p.key p.payload) (packets_of deliveries))
        × (deliver_all P deliveries s ≡ learn_all P (packets_of deliveries) s)
  stream_once ticks g s deliveries fit h start same = (
    rw same (sends-eq-stream ticks g),
    deliver_all-eq-learn_all P deliveries s (rw (start, same) (stream-AreFresh ticks g fit h)),
  )
