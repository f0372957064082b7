-- ===== src/Parallel/Board/Gather.antt =====
-- The answers of many nodes: what the master holds when the updates of any of the cores have arrived,
-- in whatever order.
pub mod Slots
use mathlib.Core.Bool.{true≢false}
use mathlib.Core.HLevel.{¬_prop}
use mathlib.Core.Option.{bind}
use mathlib.Core.List.{Mem, mem-cons_of_mem, Memᴰ, Permᴰ, Pairwise}
use mathlib.Core.List.Perm
use spi_nnaker.Prelude.{
  ℕ, if◌then◌else◌, ◌==◌, ==_iff, Bool-cases, inl, inr, ◌<◌, ◌≡◌, refl, sym, ap, ap₂, subst, ◌∙◌,
  ◌≢◌, Option, some, List, [], ◌∷◌, All,
}
use spi_nnaker.Platform.{Platform, Laws}
use spi_nnaker.Parallel.Globals.{n_mfm}
use spi_nnaker.Parallel.Node.{Node}
use spi_nnaker.Parallel.Master.{Master, event_master}
use spi_nnaker.Parallel.Master.Fault.{ProductsAreNumbers}
use spi_nnaker.Parallel.Board.Round.{answer, informed, stored}
use Slots.{
  IsOnBoard, AreApart, index, apart_index, HasRoom, slot, told, slot-informed_self,
  slot-informed_ne, informed-HasRoom, informed_comm,
}

-- A node that has answered, and the time at which its update arrives.
abbrev pub Answer : Type 0 → Type 0
Answer N = ℕ × Node N

-- The answers come from different cores.
abbrev pub AnswersAreApart : {N : Type 0} → Answer N → Answer N → Type 0
AnswersAreApart a b = AreApart a.1 b.1

module _ (P : Platform) where
  open P use {Num}

  -- The updates of the nodes reach `eventMaster` one after the other, each at a time of its own.
  abbrev pub deliver : List (Answer Num) → Master Num → Option (Master Num)
  deliver [] m = some m
  deliver ((t, s) ∷ rest) m =
      bind (event_master P t (answer P s).key (answer P s).payload m) (deliver rest)

  abbrev pub inform_all : List (Answer Num) → Master Num → Master Num
  inform_all [] m = m
  inform_all ((t, s) ∷ rest) m = inform_all rest (informed P s m)

  -- What the index `j` of the arrays is to hold: the values of the answer with that index, or the old ones.
  abbrev pub expected : List (Answer Num) → ℕ → Master Num → Num × Num × Num
  expected [] j m = slot P j m
  expected ((t, s) ∷ rest) j m = if index s == j then told P s else expected rest j m

module _ (P : Platform) (laws : Laws P) where
  open P use {Num}

  -- The node runs on the board, has a place in the master's arrays, and sends numbers.
  abbrev pub IsReady : Answer Num → Type 0
  IsReady (t, s) = ProductsAreNumbers P laws s.network × IsOnBoard s × (index s < n_mfm)

  pub deliver-inform_all :
      (answers : List (Answer Num)) (m : Master Num)
      → All IsReady answers
      → deliver P answers m ≡ some (inform_all P answers m)
  unfolding bind
  deliver-inform_all [] m h = refl
  deliver-inform_all ((t, s) ∷ rest) m (ready, h) =
      rw (stored P laws t s m ready.0 ready.2) (deliver-inform_all rest (informed P s m) h)

  -- The expected values of an index that no answer has.
  expected_absent :
      (answers : List (Answer Num)) (j : ℕ) (m : Master Num)
      → All (λ (a : Answer Num). index a.1 ≢ j) answers
      → expected P answers j m ≡ slot P j m
  expected_absent [] j m h = refl
  expected_absent ((t, s) ∷ rest) j m (ne, h) = elim (Bool-cases (index s == j)) [
    | inl same_index ↦ absurd (ne ((==_iff (index s) j).0 same_index))
    | inr other ↦ rw other (expected_absent rest j m h)
  ]

  expected-informed :
      (answers : List (Answer Num)) (s : Node Num) (j : ℕ) (m : Master Num)
      → index s ≢ j
      → expected P answers j (informed P s m) ≡ expected P answers j m
  expected-informed [] s j m ne = slot-informed_ne P s m j ne
  expected-informed ((t, s') ∷ rest) s j m ne = elim (Bool-cases (index s' == j)) [
    | inl here ↦ rw here refl
    | inr other ↦ rw other (expected-informed rest s j m ne)
  ]

  all_other :
      (s : Node Num) (rest : List (Answer Num))
      → IsOnBoard s
      → All IsReady rest
      → ((a : Answer Num) → Mem a rest → AreApart s a.1)
      → All (λ (a : Answer Num). index a.1 ≢ index s) rest
  all_other s [] on h apart = tt
  all_other s (a ∷ rest) on (ready, h) apart = (
    λ e. apart_index s a.1 on ready.1 (apart a ∣ Memᴰ.head refl ∣₁) (sym e),
    all_other s rest on h (λ b w. apart b (mem-cons_of_mem a w)),
  )

  -- Every index holds what is expected.
  slot-inform_all :
      (answers : List (Answer Num)) (m : Master Num)
      → All IsReady answers
      → Pairwise AnswersAreApart answers
      → HasRoom m
      → (j : ℕ) → slot P j (inform_all P answers m) ≡ expected P answers j m
  slot-inform_all [] m h apart room j = refl
  slot-inform_all ((t, s) ∷ rest) m (ready, h) (Pairwise.cons apart more) room j =
      slot-inform_all rest (informed P s m) h more (informed-HasRoom P s m room) j
      ∙ elim (Bool-cases (index s == j)) [
        | inl here ↦
            let e = (==_iff (index s) j).0 here in
            let others = all_other s rest ready.1 h apart in
            rw (here, ← e)
              (expected_absent rest (index s) (informed P s m) others
                ∙ slot-informed_self P s m ready.2 room)
        | inr other ↦ rw other (
            expected-informed rest s j m (λ e. true≢false (sym ((==_iff (index s) j).1 e) ∙ other)))
      ]

  pub All-perm :
      {answers others : List (Answer Num)}
      → Permᴰ answers others
      → All IsReady answers
      → All IsReady others
  All-perm Permᴰ.nil h = h
  All-perm (Permᴰ.cons e p) (h, more) = (subst IsReady e h, All-perm p more)
  All-perm (Permᴰ.swap e e') (h, (h', more)) = (subst IsReady e' h', (subst IsReady e h, more))
  All-perm (Permᴰ.trans p q) h = All-perm q (All-perm p h)

  apart_perm :
      {answers others : List (Answer Num)}
      → Permᴰ answers others
      → Pairwise AnswersAreApart answers
      → Pairwise AnswersAreApart others
  apart_perm p h =
      Perm.pairwise {R = AnswersAreApart} (λ a b. ¬_prop) (λ a b ne (x, y). ne (sym x, sym y))
        ∣ p ∣₁ h

  pub inform_all-perm :
      {answers others : List (Answer Num)}
      → Permᴰ answers others
      → All IsReady answers
      → Pairwise AnswersAreApart answers
      → (m : Master Num) → inform_all P answers m ≡ inform_all P others m
  inform_all-perm Permᴰ.nil h apart m = refl
  inform_all-perm (Permᴰ.cons {a} {b} {l₂ = others} e p) (h, more) (Pairwise.cons _ apart) m =
      inform_all-perm p more apart (informed P a.1 m)
      ∙ ap (λ (c : Answer Num). inform_all P others (informed P c.1 m)) e
  inform_all-perm (Permᴰ.swap {a} {b} {a'} {b'} {l} e e') (h, (h', more)) (Pairwise.cons apart _)
        m =
      let ne = apart_index a.1 b.1 h.1 h'.1 (apart b ∣ Memᴰ.head refl ∣₁) in
      ap (inform_all P l) (informed_comm P a.1 b.1 m ne)
      ∙ ap₂ (λ (c d : Answer Num). inform_all P l (informed P d.1 (informed P c.1 m))) e' e
  inform_all-perm (Permᴰ.trans p q) h apart m =
      inform_all-perm p h apart m ∙ inform_all-perm q (All-perm p h) (apart_perm p apart) m

  -- When the updates of any nodes arrive at the master, from different cores of the board that have a
  -- place in its arrays and send numbers, no write misses the arrays; afterwards every place holds the
  -- values of the update whose node has that index, or what it held before if there is none.
  pub deliver-slots :
      (answers : List (Answer Num)) (m : Master Num)
      → All IsReady answers
      → Pairwise AnswersAreApart answers
      → HasRoom m
      → (m' : Master Num) × (deliver P answers m ≡ some m')
        × ((j : ℕ) → slot P j m' ≡ expected P answers j m)
  deliver-slots answers m h apart room = (
    inform_all P answers m,
    deliver-inform_all answers m h,
    slot-inform_all answers m h apart room,
  )

  -- The order in which those updates arrive does not matter: the master ends in the same state.
  pub deliver-perm :
      {answers others : List (Answer Num)} (m : Master Num)
      → Permᴰ answers others
      → All IsReady answers
      → Pairwise AnswersAreApart answers
      → deliver P answers m ≡ deliver P others m
  deliver-perm {answers} {others} m p h apart =
      deliver-inform_all answers m h
      ∙ ap some (inform_all-perm p h apart m)
      ∙ sym (deliver-inform_all others m (All-perm p h))
