-- ===== src/Sequential/Math.antt =====
-- sequential/spin1_math.c, one assignment after the other. The local `vector2d r` of a function is not
-- initialised: it is the parameter `r`, whatever the stack held.
use spi_nnaker.Prelude.{if◌then◌else◌}
use spi_nnaker.Prelude.Int.{ℤ, ◌+ℤ◌, ◌*ℤ◌}
use spi_nnaker.Platform.{Platform}
use spi_nnaker.Calc.{Vector2d}

module _ (P : Platform) where
  open P use {Num, ◌⊕◌, ◌⊖◌, ◌⊗◌, ◌⊘◌, neg, single, less, same, decimal, of_int, sqrt}

  infixl 65 ◌⊕◌ ◌⊖◌
  infixl 70 ◌⊗◌ ◌⊘◌
  unfoldable pub min : Num → Num → Num
  min v1 v2 = if less v2 v1 then v2 else v1

  unfoldable pub max : Num → Num → Num
  max v1 v2 = if less v2 v1 then v1 else v2

  unfoldable pub range : Num → Num → Num → Num
  range value lower upper =
      if less upper value then upper else if less value lower then lower else value

  unfoldable pub f_abs : Num → Num
  f_abs value = if less value (decimal 0 0) then neg value else value

  -- `r.x = r.y = 0.0` writes `r.y` first.
  unfoldable pub empty_vector : Vector2d Num → Vector2d Num
  empty_vector r = let r1 : Vector2d Num = record r { y = decimal 0 0 } in record r1 { x = r1.y }

  unfoldable pub vector : Vector2d Num → Num → Num → Vector2d Num
  vector r x y = let r1 : Vector2d Num = record r { x = x } in record r1 { y = y }

  unfoldable pub norm : ℤ → ℤ → Num
  norm x y = single (sqrt (of_int (x *ℤ x +ℤ y *ℤ y)))

  unfoldable pub v_norm : Vector2d Num → Num
  v_norm v = single (sqrt (single (single (v.x ⊗ v.x) ⊕ single (v.y ⊗ v.y))))

  unfoldable pub v_add : Vector2d Num → Vector2d Num → Vector2d Num → Vector2d Num
  v_add r v1 v2 =
      let r1 : Vector2d Num = record r { x = single (v1.x ⊕ v2.x) } in
      record r1 { y = single (v1.y ⊕ v2.y) }

  unfoldable pub v_sub : Vector2d Num → Vector2d Num → Vector2d Num → Vector2d Num
  v_sub r v1 v2 =
      let r1 : Vector2d Num = record r { x = single (v1.x ⊖ v2.x) } in
      record r1 { y = single (v1.y ⊖ v2.y) }

  unfoldable pub v_mul : Vector2d Num → Num → Vector2d Num → Vector2d Num
  v_mul r coef v1 =
      let r1 : Vector2d Num = record r { x = single (coef ⊗ v1.x) } in
      record r1 { y = single (coef ⊗ v1.y) }

  unfoldable pub dot : Vector2d Num → Vector2d Num → Num
  dot v1 v2 = single (single (v1.x ⊗ v2.x) ⊕ single (v1.y ⊗ v2.y))

  -- One of the two calls of `v_mul` runs, and `r` is its local variable.
  unfoldable pub normalize : Vector2d Num → Vector2d Num → Vector2d Num
  unfolding v_norm v_mul
  normalize r v =
      let norm = v_norm v in
      let zeroed = v_mul r (decimal 0 0) v in
      if same norm (decimal 0 0) then zeroed else v_mul r (single (decimal 1 0 ⊘ norm)) v

  unfoldable pub perp : Vector2d Num → Vector2d Num → Vector2d Num
  unfolding vector
  perp r v = vector r (neg v.y) v.x

  unfoldable pub project : Vector2d Num → Vector2d Num → Vector2d Num → Vector2d Num → Vector2d Num
  unfolding dot v_norm v_mul normalize
  project r r' a b = let coef = single (dot a b ⊘ v_norm b) in v_mul r coef (normalize r' b)
