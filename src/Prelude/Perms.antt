-- ===== src/Prelude/Perms.antt =====
-- Orderings of a list of images.
use mathlib.Core.Path.{◌≡◌, refl}
use mathlib.Core.List.{List, [], ◌∷◌, map, Permᴰ}

module _ {ℓ κ} {A : Type ℓ} {B : Type κ} (f : A → B) where
  -- An ordering of the images is made of an ordering of the elements.
  pub perm-map :
      {ys zs : List B}
      → Permᴰ ys zs
      → (xs : List A) → map f xs ≡ ys
      → (xs' : List A) × Permᴰ xs xs' × (map f xs' ≡ zs)
  perm-map Permᴰ.nil [] e = ([], Permᴰ.nil, refl)
  perm-map Permᴰ.nil (x ∷ xs) e = cc
  perm-map (Permᴰ.cons e' p) [] e = cc
  perm-map (Permᴰ.cons e' p) (x ∷ xs) e =
      let (xs', q, same) = perm-map p xs (cc) in (x ∷ xs', Permᴰ.cons refl q, cc)
  perm-map (Permᴰ.swap e' e'') [] e = cc
  perm-map (Permᴰ.swap e' e'') (x ∷ []) e = cc
  perm-map (Permᴰ.swap e' e'') (x ∷ y ∷ xs) e = (y ∷ x ∷ xs, Permᴰ.swap refl refl, cc)
  perm-map (Permᴰ.trans p q) xs e =
      let (xs', p', same) = perm-map p xs e in
      let (xs'', q', same') = perm-map q xs' same in (xs'', Permᴰ.trans p' q', same')
