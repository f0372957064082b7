-- ===== src/Parallel/Board/Rounds/Interleave.antt =====
-- The master between two ticks ends in one state, however the packets and the camera's events are merged.
use mathlib.Core.Option.{some-injective}
use spi_nnaker.Prelude.{
  ◌^◌, ◌<◌, ◌≡◌, refl, sym, ap, ◌∙◌, not, ◌&&◌, some, List, [], ◌∷◌, map, All, ◌==◌, Bool-cases,
  inl, inr,
}
use spi_nnaker.Platform.{Platform, Laws}
use spi_nnaker.Device.{Effect, send_mc}
use spi_nnaker.Sequential.Controller.{event_polarity}
use spi_nnaker.Parallel.Messages.Kinds.{camera_apart}
use spi_nnaker.Parallel.Master.{Master, event_master}
use spi_nnaker.Parallel.Board.Round.{answer, informed, stored}
use spi_nnaker.Parallel.Board.Gather.{Answer, IsReady, inform_all}
use spi_nnaker.Parallel.Board.Rounds.{Camera, Between, looked, look_all}

-- The camera's events have keys of 16 bits.
abbrev pub AreCameraKeys : List Camera → Type 0
AreCameraKeys = All (λ (c : Camera). c.key < 2 ^ 16)

module _ (P : Platform) where
  open P use {Num}

  -- The packet of an answer.
  abbrev pub sent_by : Answer Num → Effect
  sent_by a = send_mc (answer P a.1).key (answer P a.1).payload

  -- `eventMaster` on an event of the camera.
  event_master-looked :
      (c : Camera) (m : Master Num)
      → c.key < 2 ^ 16
      → event_master P c.time c.key 0 m ≡ some (looked P c m)
  unfolding event_master
  event_master-looked c m small =
      let other = (camera_apart c.key small).1 in
      elim (Bool-cases (event_polarity c.key == 1 && not (c.time == 0))) [
        | inl seen ↦ rw (other, seen) refl
        | inr skipped ↦ rw (other, skipped) refl
      ]

  inform_all-looked :
      (answers : List (Answer Num)) (c : Camera) (m : Master Num)
      → inform_all P answers (looked P c m) ≡ looked P c (inform_all P answers m)
  inform_all-looked [] c m = refl
  inform_all-looked (a ∷ answers) c m = inform_all-looked answers c (informed P a.1 m)

  module _ (laws : Laws P) where
    -- Every merge ends where the packets are taken in order, and the events after them.
    pub Between-eq :
        {cameras : List Camera} {sent : List Effect} {m m' : Master Num}
        → Between P cameras sent m m'
        → (answers : List (Answer Num)) → map sent_by answers ≡ sent
        → All (IsReady P laws) answers
        → AreCameraKeys cameras
        → m' ≡ look_all P cameras (inform_all P answers m)
    Between-eq Between.quiet [] e ready small = refl
    Between-eq Between.quiet (a ∷ answers) e ready small = cc
    Between-eq {m = m} (Between.camera c {cameras} e' more) answers e ready (s, small) =
        let same = some-injective _ _ (sym e' ∙ event_master-looked c m s) in
        Between-eq more answers e ready small
        ∙ ap (λ r. look_all P cameras (inform_all P answers r)) same
        ∙ ap (look_all P cameras) (inform_all-looked answers c m)
    Between-eq (Between.reply t key payload e' more) [] e ready small = cc
    Between-eq {m = m} (Between.reply t key payload {cameras} e' more) (a ∷ answers) e (r, ready)
          small =
        let kept = stored P laws t a.1 m r.0 r.2 in
        let k : (answer P a.1).key ≡ key = cc in
        let l : (answer P a.1).payload ≡ payload = cc in
        let kept' : event_master P t key payload m ≡ some (informed P a.1 m) = rw (k, l) at kept in
        let same = some-injective _ _ (sym e' ∙ kept') in
        Between-eq more answers (cc) ready small
        ∙ ap (λ q. look_all P cameras (inform_all P answers q)) same

    -- The merge in that order exists.
    pub Between-look_all :
        (answers : List (Answer Num)) (cameras : List Camera) (m : Master Num)
        → All (IsReady P laws) answers
        → AreCameraKeys cameras
        → Between P cameras (map sent_by answers) m (look_all P cameras (inform_all P answers m))
    Between-look_all [] [] m ready small = Between.quiet
    Between-look_all [] (c ∷ cameras) m ready (s, small) =
        Between.camera c (event_master-looked c m s)
          (Between-look_all [] cameras (looked P c m) ready small)
    Between-look_all ((t, n) ∷ answers) cameras m (r, ready) small =
        Between.reply t (answer P n).key (answer P n).payload (stored P laws t n m r.0 r.2)
          (Between-look_all answers cameras (informed P n m) ready small)
