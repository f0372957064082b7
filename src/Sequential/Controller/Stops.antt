-- ===== src/Sequential/Controller/Stops.antt =====
-- How long the sequential controller runs: the ticks of the timer in their order, with camera events
-- between them.
use spi_nnaker.Prelude.{
  ℕ, suc, ◌+◌, ◌*◌, ◌≤◌, ◌<◌, ◌≡◌, ◌∙◌, refl, sym, ◌≢◌, ◌⊎◌, inl, inr, ◌/◌, List, [], ◌∷◌, ◌++◌,
  arith,
}
use mathlib.Core.List.{Memᴰ}
use mathlib.Core.List.Memᴰ.{append_left, append_right, head}
use spi_nnaker.Platform.{Platform}
use spi_nnaker.Device.{Effect, Event}
use spi_nnaker.Sequential.Globals.{unbalanced, saved}
use spi_nnaker.Sequential.Init
use spi_nnaker.Sequential.Controller.{Controller, control, update, camera_event, finish, save_step}
use spi_nnaker.Sequential.Controller.Machine.{
  Call, tick, camera, after, after-saved, update_cases, camera_event-network,
}

-- The timer ticks at `t`, then at `t + 1` and so on.
abbrev pub TicksFrom : ℕ → List Call → Type 0
TicksFrom t [] = Unit
TicksFrom t (tick u ∷ calls) = (u ≡ t) × TicksFrom (suc t) calls
TicksFrom t (camera u key ∷ calls) = TicksFrom t calls

abbrev pub ticks : List Call → ℕ
ticks [] = 0
ticks (tick t ∷ calls) = suc (ticks calls)
ticks (camera t key ∷ calls) = ticks calls

same_or_later : (a b : ℕ) → a ≤ b → (a ≡ b) ⊎ (suc a ≤ b)
same_or_later a b h = omega arith

apart : unbalanced ≢ saved
apart e = ground arith

module _ (P : Platform) where
  open P use {Num}

  update-multiple :
      (t k : ℕ) (c : Controller Num) → t ≡ k * save_step → (update P t c).0.state ≡ saved
  unfolding update finish
  update-multiple t k c h = ground (arith)

  -- What the calls send and print, in its order.
  abbrev pub effects : List Call → Controller Num → List Effect
  effects [] c = []
  effects (tick t ∷ calls) c = (update P t c).1 ++ effects calls (update P t c).0
  effects (camera t key ∷ calls) c = effects calls (camera_event P t key c)

  abbrev Stopped : List Call → Controller Num → Type 0
  Stopped calls c =
      ((after P calls c).state ≡ saved)
      × Memᴰ (Effect.callback_off Event.timer_tick) (effects calls c)

  stops_by :
      (calls : List Call) (t k : ℕ) (c : Controller Num)
      → c.state ≡ unbalanced
      → TicksFrom t calls
      → t ≤ k * save_step
      → k * save_step < t + ticks calls
      → Stopped calls c
  stops_by [] t k c s h lo hi = absurd (omega arith)
  stops_by (tick u ∷ calls) t k c s h lo hi =
      let m = control P u c in
      elim (update_cases P u c s) [
        | inl (_, now, sent) ↦ (
          (after-saved P calls (update P u c).0 now).0,
          rw sent (
              append_left (effects calls (update P u c).0)
                (append_right m.1 (append_right (Init.save P m.0.network) (head refl)))),
        )
        | inr (_, still, _) ↦ elim (same_or_later t (k * save_step) lo) [
          | inl e ↦ absurd (apart (sym still ∙ update-multiple u k c (h.0 ∙ e)))
          | inr l ↦
              let (s', sent) =
                stops_by calls (suc t) k (update P u c).0 still h.1 l (omega arith) in
              (s', append_right (update P u c).1 sent)
        ]
      ]
  stops_by (camera u key ∷ calls) t k c s h lo hi =
      stops_by calls t k (camera_event P u key c) ((camera_event-network P u key c).0 ∙ s) h lo hi

  -- Whatever the camera reports between the ticks, 5000 or more ticks in a row bring an unbalanced controller
  -- to the saved state, in which it has ended the ticks of the timer.
  pub controller_stops :
      (calls : List Call) (t : ℕ) (c : Controller Num)
      → c.state ≡ unbalanced
      → TicksFrom t calls
      → save_step ≤ ticks calls
      → ((after P calls c).state ≡ saved)
        × Memᴰ (Effect.callback_off Event.timer_tick) (effects calls c)
  controller_stops calls t c s h n =
      stops_by calls t ((t + 4999) / save_step) c s h (omega arith) (omega arith)
