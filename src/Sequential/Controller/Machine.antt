-- ===== src/Sequential/Controller/Machine.antt =====
-- The sequential controller from tick to tick: when it saves, when it stops, and what it sends.
use spi_nnaker.Prelude.{
  ℕ, ◌%◌, ◌≡◌, refl, ◌∙◌, ◌⊎◌, true, false, ◌||◌, List, [], ◌∷◌, ◌++◌, ◌==◌, arith,
}
use spi_nnaker.Platform.{Platform}
use spi_nnaker.Device.{Effect, Event}
use spi_nnaker.Sequential.Globals.{unbalanced, balanced, saved}
use spi_nnaker.Sequential.Init
use spi_nnaker.Sequential.Learning
use spi_nnaker.Sequential.Controller.{
  Controller, is_balanced, control, finish, update, camera_event, save_step,
}

-- A call of one of the two callbacks: a timer event with its time, or a camera event with its time and key.
pub data Call : Type 0 where
  tick : ℕ → Call
  camera : ℕ → ℕ → Call

module _ (P : Platform) where
  open P use {Num, same, neg, decimal}

  -- The callbacks in the order in which they are called.
  abbrev pub after : List Call → Controller Num → Controller Num
  after [] c = c
  after (tick t ∷ calls) c = after calls (update P t c).0
  after (camera t key ∷ calls) c = after calls (camera_event P t key c)

  pub update-saved :
      (t : ℕ) (c : Controller Num)
      → c.state ≡ saved
      → ((update P t c).0.state ≡ saved) × ((update P t c).0.network ≡ c.network)
  unfolding update finish
  update-saved t c h = ground arith

  pub camera_event-network :
      (t key : ℕ) (c : Controller Num)
      → ((camera_event P t key c).state ≡ c.state) × ((camera_event P t key c).network ≡ c.network)
  unfolding camera_event
  camera_event-network t key c = ground arith

  -- Once the weights are saved, no sequence of timer and camera events changes the network any more.
  pub after-saved :
      (calls : List Call) (c : Controller Num)
      → c.state ≡ saved
      → ((after calls c).state ≡ saved) × ((after calls c).network ≡ c.network)
  after-saved [] c h = (h, refl)
  after-saved (tick t ∷ calls) c h =
      let (s, n) = update-saved t c h in
      let (s', n') = after-saved calls (update P t c).0 s in (s', n' ∙ n)
  after-saved (camera t key ∷ calls) c h =
      let (s, n) = camera_event-network t key c in
      let (s', n') = after-saved calls (camera_event P t key c) (s ∙ h) in (s', n' ∙ n)

  control-state :
      (t : ℕ) (c : Controller Num)
      → ((control P t c).0.state ≡ unbalanced) ⊎ ((control P t c).0.state ≡ balanced)
  unfolding control Learning.move
  control-state t c = ground arith

  -- A tick leaves an unbalanced controller unbalanced or saved, never balanced: it becomes
  -- saved exactly when `move` finds the ball balanced or the time is a multiple of 5000, and then prints
  -- the weights and ends the ticks after the motor command; otherwise only the command is sent.
  pub update_cases :
      (t : ℕ) (c : Controller Num)
      → c.state ≡ unbalanced
      → let m = control P t c in
        let stop = is_balanced m.0.state || t % save_step == 0 in
        ((stop ≡ true)
          × ((update P t c).0.state ≡ saved)
          × ((update P t c).1
              ≡ m.1 ++ (Init.save P m.0.network ++ (Effect.callback_off Event.timer_tick ∷ []))))
        ⊎ ((stop ≡ false) × ((update P t c).0.state ≡ unbalanced) × ((update P t c).1 ≡ m.1 ++ []))
  unfolding update finish
  update_cases t c h = ground (arith, control-state t c)
