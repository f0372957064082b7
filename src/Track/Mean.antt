-- ===== src/Track/Mean.antt =====
-- The specification of the moving average, by the samples taken.
use mathlib.Core.List.{reverse, reverse-cons, append_assoc}
use spi_nnaker.Prelude.{
  ℕ, ◌<◌, ◌≡◌, sym, subst, true, false, length, ap, ◌∙◌, inl, inr, Bool-cases, List, [], ◌∷◌, ◌++◌,
  map, arith, if◌then◌else◌, take, drop, replicate, take-append-drop,
}
use spi_nnaker.Prelude.Int.{ℤ, pos, shr_ℤ, sum_ℤ, sum_ℤ-append, sum_ℤ-reverse}
use spi_nnaker.Platform.{Platform}
use spi_nnaker.Track.{Tracker, start, store, accepts, compute_pos}
use spi_nnaker.Track.Valid.{IsValid, IsCoordinate, compute_pos-IsValid, start-IsValid}
use spi_nnaker.Track.Window.{window, window-store, length-window, take-all, take-append-take}

-- A camera sample, x and y.
abbrev pub Sample : Type 0
Sample = record { x : ℤ; y : ℤ }

abbrev pub xs_of : List Sample → List ℤ
xs_of = map (λ s. s.x)

abbrev pub ys_of : List Sample → List ℤ
ys_of = map (λ s. s.y)

abbrev pub AreCoordinates : List Sample → Type 0
AreCoordinates [] = Unit
AreCoordinates (s ∷ samples) = IsCoordinate s.x × IsCoordinate s.y × AreCoordinates samples

sum_ℤ-window : (xs : List ℤ) (i : ℕ) → sum_ℤ (window xs i) ≡ sum_ℤ xs
sum_ℤ-window xs i =
    sum_ℤ-append (reverse (take i xs)) (reverse (drop i xs))
    ∙ rw (sum_ℤ-reverse (take i xs), sum_ℤ-reverse (drop i xs))
        (sym (sum_ℤ-append (take i xs) (drop i xs)) ∙ ap sum_ℤ (take-append-drop i xs))

-- The samples in force: newest first, 16 of them, zeros standing for those not taken yet.
abbrev pub last_taken : List ℤ → List ℤ
last_taken taken = take 16 (reverse taken ++ replicate 16 (pos 0))

push_newest :
    (taken w : List ℤ) (x : ℤ)
    → take 16 (reverse taken ++ take 16 (x ∷ w)) ≡ take 16 (reverse (x ∷ taken) ++ w)
push_newest taken w x =
    take-append-take 16 16 (reverse taken) (x ∷ w) (omega arith)
    ∙ ap (take 16)
        (sym (ap (λ r. r ++ w) (reverse-cons x taken) ∙ append_assoc (reverse taken) (x ∷ []) w))

store-window_x :
    {t : Tracker} (x y : ℤ)
    → IsValid t
    → window (store x y t).x_buffer (store x y t).curr_index
      ≡ take 16 (x ∷ window t.x_buffer t.curr_index)
unfolding store
store-window_x {t} x y v = window-store t.x_buffer t.curr_index x v.length_x v.index_in

store-window_y :
    {t : Tracker} (x y : ℤ)
    → IsValid t
    → window (store x y t).y_buffer (store x y t).curr_index
      ≡ take 16 (y ∷ window t.y_buffer t.curr_index)
unfolding store
store-window_y {t} x y v = window-store t.y_buffer t.curr_index y v.length_y v.index_in

take-window : (xs : List ℤ) (i : ℕ) → length xs ≡ 16 → i < 16 → take 16 (window xs i) ≡ window xs i
take-window xs i n h =
    subst (λ k. take k (window xs i) ≡ window xs i) (length-window xs i (omega arith) ∙ n)
      (take-all (window xs i))

module _ (P : Platform) (x y : ℤ) (t : Tracker) where
  pub compute_pos_taken : accepts P x y t ≡ true → compute_pos P x y t ≡ store x y t
  unfolding compute_pos
  compute_pos_taken h = rw h

  pub compute_pos_refused : accepts P x y t ≡ false → compute_pos P x y t ≡ t
  unfolding compute_pos
  compute_pos_refused h = rw h

taken-window :
    (P : Platform) {t : Tracker} (x y : ℤ)
    → IsValid t
    → accepts P x y t ≡ true
    → let t' = compute_pos P x y t in
      (window t'.x_buffer t'.curr_index ≡ take 16 (x ∷ window t.x_buffer t.curr_index))
      × (window t'.y_buffer t'.curr_index ≡ take 16 (y ∷ window t.y_buffer t.curr_index))
taken-window P {t} x y v pass =
    rw (compute_pos_taken P x y t pass) (store-window_x x y v, store-window_y x y v)

module _ (P : Platform) where
  -- The camera's samples one after the other, oldest first.
  abbrev pub run : List Sample → Tracker → Tracker
  run [] t = t
  run (s ∷ samples) t = run samples (compute_pos P s.x s.y t)

  -- Those among them that pass the test.
  abbrev pub taken : List Sample → Tracker → List Sample
  taken [] t = []
  taken (s ∷ samples) t =
      let rest = taken samples (compute_pos P s.x s.y t) in
      if accepts P s.x s.y t then s ∷ rest else rest

  pub run-IsValid :
      (samples : List Sample) {t : Tracker}
      → AreCoordinates samples
      → IsValid t
      → IsValid (run samples t)
  run-IsValid [] h v = v
  run-IsValid (s ∷ samples) h v = run-IsValid samples h.2 (compute_pos-IsValid P s.x s.y h.0 h.1 v)

  -- The rings after a run, from any valid state.
  run-window :
      (samples : List Sample) {t : Tracker}
      → AreCoordinates samples
      → IsValid t
      → (window (run samples t).x_buffer (run samples t).curr_index
          ≡ take 16 (reverse (xs_of (taken samples t)) ++ window t.x_buffer t.curr_index))
        × (window (run samples t).y_buffer (run samples t).curr_index
            ≡ take 16 (reverse (ys_of (taken samples t)) ++ window t.y_buffer t.curr_index))
  run-window [] {t} h v = (
    sym (take-window t.x_buffer t.curr_index v.length_x v.index_in),
    sym (take-window t.y_buffer t.curr_index v.length_y v.index_in),
  )
  run-window (s ∷ samples) {t} h v =
      let v' = compute_pos-IsValid P s.x s.y h.0 h.1 v in
      let (ihx, ihy) = run-window samples h.2 v' in
      let X = xs_of (taken samples (compute_pos P s.x s.y t)) in
      let Y = ys_of (taken samples (compute_pos P s.x s.y t)) in
      elim (Bool-cases (accepts P s.x s.y t)) [
        | inl pass ↦
            let (wx, wy) = taken-window P s.x s.y v pass in
            rw pass (
              ihx
                  ∙ ap (λ w. take 16 (reverse X ++ w)) wx
                  ∙ push_newest X (window t.x_buffer t.curr_index) s.x,
              ihy
                  ∙ ap (λ w. take 16 (reverse Y ++ w)) wy
                  ∙ push_newest Y (window t.y_buffer t.curr_index) s.y,
            )
        | inr fail ↦
            let e = compute_pos_refused P s.x s.y t fail in
            rw fail (
              ihx ∙ ap (λ (k : Tracker). take 16 (reverse X ++ window k.x_buffer k.curr_index)) e,
              ihy ∙ ap (λ (k : Tracker). take 16 (reverse Y ++ window k.y_buffer k.curr_index)) e,
            )
      ]

  -- From the start of the program, whatever the camera sends: the reported position is the sum of
  -- the last 16 samples that passed the test, zeros counted for those that are missing, shifted right
  -- by 4.
  pub run-mean :
      (samples : List Sample)
      → AreCoordinates samples
      → let t = run samples start in
        let used = taken samples start in
        (t.x_pos ≡ shr_ℤ (sum_ℤ (last_taken (xs_of used))) 4)
        × (t.y_pos ≡ shr_ℤ (sum_ℤ (last_taken (ys_of used))) 4)
  run-mean samples h =
      let v = run-IsValid samples h start-IsValid in
      let (wx, wy) = run-window samples h start-IsValid in
      (
        v.mean_x ∙ ap (λ k. shr_ℤ k 4) (v.total_x ∙ sym (sum_ℤ-window _ _) ∙ ap sum_ℤ wx),
        v.mean_y ∙ ap (λ k. shr_ℤ k 4) (v.total_y ∙ sym (sum_ℤ-window _ _) ∙ ap sum_ℤ wy),
      )
