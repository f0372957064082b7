-- ===== src/Track/Window.antt =====
-- What the ring buffers hold: the last 16 samples taken, newest first.
use mathlib.Core.List.{reverse, reverse_aux, reverse-append, reverse-cons, append_assoc, append-nil}
use spi_nnaker.Prelude.{
  ℕ, zero, suc, ◌+◌, ◌%◌, ◌≤◌, ◌<◌, ◌≡◌, refl, sym, ap, subst, ◌∙◌, inl, inr, Bool-cases, ltb, List,
  [], ◌∷◌, ◌++◌, arith, length, get_or, set, take, drop, length-append, length-take, length-drop,
  length-set,
}

-- The samples of a ring whose next write is at `i`, newest first.
abbrev pub window {ℓ} : {A : Type ℓ} → List A → ℕ → List A
window xs i = reverse (take i xs) ++ reverse (drop i xs)

module _ {ℓ} {A : Type ℓ} where
  take-set :
      (xs : List A) (i : ℕ) (v : A)
      → i < length xs
      → take (suc i) (set xs i v) ≡ take i xs ++ (v ∷ [])
  take-set [] i v h = absurd (omega arith)
  take-set (x ∷ xs) zero v h = refl
  take-set (x ∷ xs) (suc i) v h = ap (λ r. x ∷ r) (take-set xs i v (omega arith))

  drop-set : (xs : List A) (i : ℕ) (v : A) → drop (suc i) (set xs i v) ≡ drop (suc i) xs
  drop-set [] i v = refl
  drop-set (x ∷ xs) zero v = refl
  drop-set (x ∷ xs) (suc i) v = drop-set xs i v

  drop-cons :
      (xs : List A) (i : ℕ) (d : A) → i < length xs → drop i xs ≡ get_or xs i d ∷ drop (suc i) xs
  drop-cons [] i d h = absurd (omega arith)
  drop-cons (x ∷ xs) zero d h = refl
  drop-cons (x ∷ xs) (suc i) d h = drop-cons xs i d (omega arith)

  take-append_left : (xs ys : List A) → take (length xs) (xs ++ ys) ≡ xs
  take-append_left [] ys = refl
  take-append_left (x ∷ xs) ys = ap (λ r. x ∷ r) (take-append_left xs ys)

  length-reverse_aux : (xs ys : List A) → length (reverse_aux xs ys) ≡ length xs + length ys
  length-reverse_aux [] ys = omega arith
  length-reverse_aux (x ∷ xs) ys = omega (arith, length-reverse_aux xs (x ∷ ys))

  length-reverse : (xs : List A) → length (reverse xs) ≡ length xs
  length-reverse xs = omega (arith, length-reverse_aux xs [])

  take-take : (n m : ℕ) (xs : List A) → n ≤ m → take n (take m xs) ≡ take n xs
  take-take zero m xs h = refl
  take-take (suc n) zero xs h = absurd (omega arith)
  take-take (suc n) (suc m) [] h = refl
  take-take (suc n) (suc m) (x ∷ xs) h = ap (λ r. x ∷ r) (take-take n m xs (omega arith))

  -- Before the ring goes round, a write drops the oldest sample and adds the newest.
  window-set :
      (xs : List A) (i : ℕ) (v d : A)
      → i < length xs
      → window (set xs i v) (suc i) ++ (get_or xs i d ∷ []) ≡ v ∷ window xs i
  window-set xs i v d h =
      rw (take-set xs i v h, drop-set xs i v, drop-cons xs i d h, reverse-append, append_assoc)
        (ap (λ r. v ∷ (reverse (take i xs) ++ r))
          (sym (reverse-cons (get_or xs i d) (drop (suc i) xs))))

  pub take-all : (xs : List A) → take (length xs) xs ≡ xs
  take-all [] = refl
  take-all (x ∷ xs) = ap (λ r. x ∷ r) (take-all xs)

  drop-all : (xs : List A) → drop (length xs) xs ≡ []
  drop-all [] = refl
  drop-all (x ∷ xs) = drop-all xs

  -- At the end of the array the next write is at its start.
  window-wrap : (xs : List A) → window xs (length xs) ≡ window xs 0
  window-wrap xs = rw (take-all xs, drop-all xs, append-nil)

  pub length-window : (xs : List A) (i : ℕ) → i ≤ length xs → length (window xs i) ≡ length xs
  length-window xs i h = ground (
    arith,
    length-append (reverse (take i xs)) (reverse (drop i xs)),
    length-reverse (take i xs),
    length-reverse (drop i xs),
    length-take i xs,
    length-drop i xs,
  )

  window-next :
      (xs : List A) (i : ℕ) (v : A)
      → length xs ≡ 16
      → i < 16
      → window (set xs i v) ((i + 1) % 16) ≡ window (set xs i v) (suc i)
  window-next xs i v n h = elim (Bool-cases (ltb i 15)) [
    | inl inside ↦ ap (window (set xs i v)) {y = suc i} (ground arith)
    | inr last ↦
        let i15 : i ≡ 15 = ground arith in
        rw i15 (
          sym (
            subst (λ k. window (set xs 15 v) k ≡ window (set xs 15 v) 0) (length-set xs 15 v ∙ n)
              (window-wrap (set xs 15 v))))
  ]

  -- A write moves the window on by one sample.
  pub window-store :
      (xs : List A) (i : ℕ) (v : A)
      → length xs ≡ 16
      → i < 16
      → window (set xs i v) ((i + 1) % 16) ≡ take 16 (v ∷ window xs i)
  window-store xs i v n h =
      let old = get_or xs i v in
      let w = window (set xs i v) (suc i) in
      let size : length w ≡ 16 =
        length-window (set xs i v) (suc i) (omega (arith, length-set xs i v))
        ∙ length-set xs i v
        ∙ n in
      window-next xs i v n h
      ∙ sym (subst (λ k. take k (w ++ (old ∷ [])) ≡ w) size (take-append_left w (old ∷ [])))
      ∙ ap (take 16) (window-set xs i v v (omega arith))

  -- A sample older than the last `n` is lost whatever comes after it.
  pub take-append-take :
      (n m : ℕ) (xs ys : List A) → n ≤ m → take n (xs ++ take m ys) ≡ take n (xs ++ ys)
  take-append-take n m [] ys h = take-take n m ys h
  take-append-take zero m (x ∷ xs) ys h = refl
  take-append-take (suc n) m (x ∷ xs) ys h =
      ap (λ r. x ∷ r) (take-append-take n m xs ys (omega arith))
