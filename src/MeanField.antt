-- ===== src/MeanField.antt =====
-- doc/spiNNaker/runMFM.c: a controller of 16 cores, each with one mean-field population in fixed-point
-- numbers with 8 binary places. A `long` of 32 bits is an integer; MeanField/Exchange is about the
-- range of the sums and products.
pub mod Main
pub mod Range
pub mod Network
pub mod Exchange
pub mod Settle
pub mod Cluster
pub mod Start
use spi_nnaker.Prelude.{
  ℕ, ◌+◌, ◌-◌, ◌*◌, ◌/◌, ◌%◌, ◌^◌, bit_and, bit_or, Bool, ◌&&◌, Option, none, some, List, [], ◌∷◌,
  if◌then◌else◌, ◌==◌, ltb, leb, get_or, set,
}
use spi_nnaker.Prelude.Loop.{for_each}
use spi_nnaker.Prelude.Int.{ℤ, pos, negsuc, ◌+ℤ◌, ◌-ℤ◌, ◌*ℤ◌, ltb_ℤ, shr_ℤ, to_uint}
use spi_nnaker.Device.{Effect, send_mc, ◌<<<◌}

-- `M`
abbrev pub m : ℕ
m = 15

-- `n << LOG_P1`
abbrev pub fixed : ℕ → ℤ
fixed n = pos (n * 2 ^ 8)

-- `MOTOR_CMD_KEY`
abbrev pub motor_cmd_key : ℕ
motor_cmd_key = 2 ^ 31

-- The globals. `x_array` is `x`, and `x` and `y` are `x_` and `y_`; `u`, `x_array`, `use_array`, `tr` and
-- `tf` are written by `c_main` alone.
pub record MeanField : Type 0 where
  pub core_map : List ℕ
  pub core_id : ℕ
  pub chip_id : ℕ
  pub theta : ℤ
  pub phi : ℤ
  pub x_old : List ℕ
  pub y_old : List ℕ
  pub x : ℕ
  pub y : ℕ
  pub count : ℕ
  pub f : ℤ
  pub i_ext : ℤ
  pub j : List ℤ
  pub f_pre : List ℤ
  pub u : List ℤ
  pub x_array : List ℤ
  pub use_array : List ℤ
  pub tr : List ℤ
  pub tf : List ℤ

-- `MAKE_PAYLOAD(X, Y)`
unfoldable pub make_payload : ℤ → ℤ → ℕ
make_payload x y = bit_or (to_uint x <<< 16) (to_uint y % 2 ^ 16)

abbrev pub rate_of : MeanField → ℕ → ℤ
rate_of s i = get_or s.f_pre i (pos 0)

unfoldable pub send_mc_packet_angles : MeanField → MeanField × List Effect
unfolding make_payload
send_mc_packet_angles s =
    let theta = shr_ℤ ((rate_of s 10 -ℤ rate_of s 8 +ℤ fixed 11) *ℤ pos 8) 8 in
    let phi = shr_ℤ ((rate_of s 9 -ℤ rate_of s 11 +ℤ fixed 3) *ℤ pos 8) 8 in
    let count = (s.count + 1) % 2 ^ 32 in
    if count == 30_000
    then (
      record s { theta = pos 0; phi = pos 300; count = 0 },
      send_mc motor_cmd_key (make_payload (pos 0) (pos 300))
          ∷ Effect.delay 4_000_000
          ∷ send_mc motor_cmd_key (make_payload (pos 0) (pos 300))
          ∷ [],
    )
    else (
      record s { theta = theta; phi = phi; count = count },
      send_mc motor_cmd_key (make_payload theta phi) ∷ [],
    )

-- `IFfct`
unfoldable pub if_fct : ℤ → ℤ
if_fct input =
    let thr1 = fixed 50 in
    let output = if ltb_ℤ input thr1 then pos 0 else shr_ℤ ((input -ℤ thr1) *ℤ pos 400) 8 in
    if ltb_ℤ (fixed 100) output then fixed 100 else output

-- The loop over `J` and `Fpre`.
unfoldable pub summ : ℤ → List ℤ → List ℤ → ℤ
summ acc [] rates = acc
summ acc (j ∷ js) [] = acc
summ acc (j ∷ js) (rate ∷ rates) = summ (acc +ℤ shr_ℤ (j *ℤ rate) 8) js rates

-- The next value of `F`, relaxed towards `target`.
unfoldable pub relax : ℤ → ℤ → ℤ
relax f target = let v_decay = fixed 40 in f +ℤ shr_ℤ (shr_ℤ ((target -ℤ f) *ℤ v_decay) 8) 8

unfoldable pub send_mc_packet_rates : MeanField → MeanField × List Effect
unfolding summ relax if_fct
send_mc_packet_rates s =
    let f = relax s.f (if_fct (summ (pos 0) s.j s.f_pre +ℤ s.i_ext)) in
    (record s { f = f }, send_mc s.core_id (to_uint f) ∷ [])

-- The loop that moves the old positions down, and the write of the newest behind it.
unfoldable pub push_old : List ℕ → ℕ → List ℕ
unfolding for_each
push_old old now = set (for_each 19 0 (λ i xs. set xs i (get_or xs (i + 1) 0)) old) 19 now

-- The tests on `coreID`: what a core is driven with at a position and a speed. The two branches of the
-- source differ in the strength and in the gain.
unfoldable pub drive : ℕ → ℤ → ℤ → ℕ → ℕ → ℤ → ℤ → ℤ
drive core strength gain x y v_x v_y =
    let i0 = fixed 50 in
    let i1 = if ltb x 64 && core == 1 then strength else i0 in
    let i2 = if ltb 64 x && core == 3 then strength else i1 in
    let i3 = if ltb y 64 && core == 2 then strength else i2 in
    let i4 = if ltb 64 y && core == 4 then strength else i3 in
    let i5 =
      if ltb_ℤ v_x (pos 0) && core == 5 then i4 +ℤ (pos 0 -ℤ v_x) *ℤ gain *ℤ pos 256 else i4 in
    let i6 = if ltb_ℤ (pos 0) v_x && core == 7 then i5 +ℤ v_x *ℤ gain *ℤ pos 256 else i5 in
    let i7 =
      if ltb_ℤ v_y (pos 0) && core == 6 then i6 +ℤ (pos 0 -ℤ v_y) *ℤ gain *ℤ pos 256 else i6 in
    if ltb_ℤ (pos 0) v_y && core == 8 then i7 +ℤ v_y *ℤ gain *ℤ pos 256 else i7

-- `payload` as a `long`
abbrev pub to_long : ℕ → ℤ
to_long payload = if ltb payload (2 ^ 31) then pos payload else negsuc (2 ^ 32 - 1 - payload)

-- The distance of the ball from (60, 64), squared, against 390.
unfoldable pub is_near : ℕ → ℕ → Bool
is_near x y =
    let dx = pos x -ℤ pos 60 in let dy = pos y -ℤ pos 64 in ltb_ℤ (dx *ℤ dx +ℤ dy *ℤ dy) (pos 390)

-- A position of the ball.
unfoldable pub see : ℕ → MeanField → MeanField
unfolding push_old drive is_near
see key s =
    let x_old = push_old s.x_old s.x in
    let y_old = push_old s.y_old s.y in
    let x = bit_and key 0xff00 / 2 ^ 8 in
    let y = bit_and key 0xff in
    let v_x = pos x -ℤ pos (get_or x_old 0 0) in
    let v_y = pos y -ℤ pos (get_or y_old 0 0) in
    record s {
      x_old = x_old;
      y_old = y_old;
      x = x;
      y = y;
      i_ext =
          if is_near x y
          then drive s.core_id (fixed 54) (pos 0) x y v_x v_y
          else drive s.core_id (fixed 58) (pos 4) x y v_x v_y;
    }

-- Key 0 makes C write before the array: `none`.
unfoldable pub process_mc_packet : ℕ → ℕ → MeanField → Option MeanField
unfolding see
process_mc_packet key payload s =
    if ltb (m + 1) key
    then some (see key s)
    else if leb key m
    then (if key == 0
        then none
        else some (record s { f_pre = set s.f_pre (key - 1) (to_long payload) }))
    else some s
