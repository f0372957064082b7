-- ===== src/Calc.antt =====
-- spin1_math.c, which the sequential and the parallel version share.
pub mod Bounds
use spi_nnaker.Prelude.{if◌then◌else◌}
use spi_nnaker.Prelude.Int.{ℤ, ◌+ℤ◌, ◌*ℤ◌}
use spi_nnaker.Platform.{Platform}

-- `struct vector2d`
pub record Vector2d (N : Type 0) : Type 0 where
  pub x : N
  pub y : N

unfoldable pub vector : {N : Type 0} → N → N → Vector2d N
vector x y = record { x = x; y = y }

module _ (P : Platform) where
  open P use {Num, ◌⊕◌, ◌⊖◌, ◌⊗◌, ◌⊘◌, neg, single, less, same, decimal, of_int, sqrt}

  infixl 65 ◌⊕◌ ◌⊖◌
  infixl 70 ◌⊗◌ ◌⊘◌
  unfoldable pub min : Num → Num → Num
  min v1 v2 = if less v2 v1 then v2 else v1

  unfoldable pub max : Num → Num → Num
  max v1 v2 = if less v2 v1 then v1 else v2

  unfoldable pub range : Num → Num → Num → Num
  range value lower upper =
      if less upper value then upper else if less value lower then lower else value

  unfoldable pub f_abs : Num → Num
  f_abs value = if less value (decimal 0 0) then neg value else value

  unfoldable pub empty_vector : Vector2d Num
  empty_vector = record { x = decimal 0 0; y = decimal 0 0 }

  -- `sqrt(x*x + y*y)` of two `int`s
  unfoldable pub norm : ℤ → ℤ → Num
  norm x y = single (sqrt (of_int (x *ℤ x +ℤ y *ℤ y)))

  unfoldable pub v_norm : Vector2d Num → Num
  v_norm v = single (sqrt (single (single (v.x ⊗ v.x) ⊕ single (v.y ⊗ v.y))))

  unfoldable pub v_add : Vector2d Num → Vector2d Num → Vector2d Num
  v_add v1 v2 = record { x = single (v1.x ⊕ v2.x); y = single (v1.y ⊕ v2.y) }

  unfoldable pub v_sub : Vector2d Num → Vector2d Num → Vector2d Num
  v_sub v1 v2 = record { x = single (v1.x ⊖ v2.x); y = single (v1.y ⊖ v2.y) }

  unfoldable pub v_mul : Num → Vector2d Num → Vector2d Num
  v_mul coef v1 = record { x = single (coef ⊗ v1.x); y = single (coef ⊗ v1.y) }

  unfoldable pub dot : Vector2d Num → Vector2d Num → Num
  dot v1 v2 = single (single (v1.x ⊗ v2.x) ⊕ single (v1.y ⊗ v2.y))

  -- `1.0/norm` is a `double`, rounded when it is passed as a `float`.
  unfoldable pub normalize : Vector2d Num → Vector2d Num
  unfolding v_norm v_mul
  normalize v =
      let norm = v_norm v in
      if same norm (decimal 0 0)
      then v_mul (decimal 0 0) v
      else v_mul (single (decimal 1 0 ⊘ norm)) v

  unfoldable pub perp : Vector2d Num → Vector2d Num
  perp v = vector (neg v.y) v.x

  unfoldable pub project : Vector2d Num → Vector2d Num → Vector2d Num
  project a b = let coef = single (dot a b ⊘ v_norm b) in v_mul coef (normalize b)
