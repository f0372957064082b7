-- ===== src/Parallel/Node/Once.antt =====
-- Errors that reach a node several times.
use mathlib.Core.List.{append-nil}
use spi_nnaker.Prelude.{
  ℕ, zero, suc, ◌/◌, ◌^◌, ◌≡◌, refl, ◌≢◌, bit_and, true, List, [], ◌∷◌, ◌++◌, map, arith,
}
use spi_nnaker.Platform.{Platform}
use spi_nnaker.Device.{Effect}
use spi_nnaker.Parallel.Messages.{Packet, is_error}
use spi_nnaker.Parallel.Node.{Node, learn, event_node}

-- The count that a packet carries.
abbrev pub count_of : Packet → ℕ
count_of p = bit_and (p.key / 2 ^ 20) 0xff

-- Errors whose counts each differ from the one before, the first from `c`.
abbrev pub AreFresh : ℕ → List Packet → Type 0
AreFresh c [] = Unit
AreFresh c (p ∷ packets) =
    (is_error p.key ≡ true) × (count_of p ≢ c) × AreFresh (count_of p) packets

-- A packet and how many more times it arrives.
abbrev pub Delivery : Type 0
Delivery = record { packet : Packet; again : ℕ }

abbrev pub packets_of : List Delivery → List Packet
packets_of = map (λ d. d.packet)

module _ (P : Platform) where
  open P use {Num}

  abbrev pub deliver : ℕ → Packet → Node Num → Node Num × List Effect
  deliver zero p s = event_node P p.key p.payload s
  deliver (suc n) p s =
      let (s1, sent1) = event_node P p.key p.payload s in
      let (s2, sent2) = deliver n p s1 in (s2, sent1 ++ sent2)

  abbrev pub deliver_all : List Delivery → Node Num → Node Num × List Effect
  deliver_all [] s = (s, [])
  deliver_all (d ∷ deliveries) s =
      let (s1, sent1) = deliver d.again d.packet s in
      let (s2, sent2) = deliver_all deliveries s1 in (s2, sent1 ++ sent2)

  -- The specification: each packet is acted on once.
  abbrev pub learn_all : List Packet → Node Num → Node Num × List Effect
  learn_all [] s = (s, [])
  learn_all (p ∷ packets) s =
      let (s1, sent1) = learn P p.key p.payload s in
      let (s2, sent2) = learn_all packets s1 in (s2, sent1 ++ sent2)

  pub accepted :
      (p : Packet) (s : Node Num)
      → is_error p.key ≡ true
      → count_of p ≢ s.node_counter
      → event_node P p.key p.payload s ≡ learn P p.key p.payload s
  unfolding event_node
  accepted p s kind fresh = ground arith

  ignored :
      (p : Packet) (s : Node Num)
      → s.node_counter ≡ count_of p
      → event_node P p.key p.payload s ≡ (s, [])
  unfolding event_node
  ignored p s old = ground arith

  remembered : (p : Packet) (s : Node Num) → (learn P p.key p.payload s).0.node_counter ≡ count_of p
  unfolding learn
  remembered p s = refl

  all_ignored :
      (n : ℕ) (p : Packet) (s : Node Num) → s.node_counter ≡ count_of p → deliver n p s ≡ (s, [])
  all_ignored zero p s old = ignored p s old
  all_ignored (suc n) p s old = rw (ignored p s old) (all_ignored n p s old)

  deliver-eq-learn :
      (n : ℕ) (p : Packet) (s : Node Num)
      → is_error p.key ≡ true
      → count_of p ≢ s.node_counter
      → deliver n p s ≡ learn P p.key p.payload s
  deliver-eq-learn zero p s kind fresh = accepted p s kind fresh
  deliver-eq-learn (suc n) p s kind fresh =
      rw (accepted p s kind fresh)
        (rw (all_ignored n p (learn P p.key p.payload s).0 (remembered p s), append-nil) refl)

  -- Errors with fresh counts, each of them repeated any number of times, leave the node as if each had
  -- come once, and make it send each update once.
  pub deliver_all-eq-learn_all :
      (deliveries : List Delivery) (s : Node Num)
      → AreFresh s.node_counter (packets_of deliveries)
      → deliver_all deliveries s ≡ learn_all (packets_of deliveries) s
  deliver_all-eq-learn_all [] s fresh = refl
  deliver_all-eq-learn_all (d ∷ deliveries) s (kind, new, rest) =
      rw (deliver-eq-learn d.again d.packet s kind new) (
        rw
          (deliver_all-eq-learn_all deliveries (learn P d.packet.key d.packet.payload s).0
            (rw (remembered d.packet s) rest))
          refl)
