-- ===== src/Prelude/Relate.antt =====
-- Two lists related entry by entry.
use mathlib.Core.List.{List, [], ◌∷◌, map}
use mathlib.Core.Path.{◌≡◌, refl, ap₂}
use durable_queue.Prelude.Lists.{All}

abbrev pub Each {ℓ} : {A : Type ℓ} → (A → A → Type 0) → List A → List A → Type 0
Each R [] [] = Unit
Each R (x ∷ xs) (y ∷ ys) = R x y × Each R xs ys
Each R [] (y ∷ ys) = ⊥
Each R (x ∷ xs) [] = ⊥

module _ {ℓ} {A : Type ℓ} (R : A → A → Type 0) where
  pub Each-refl : ((x : A) → R x x) → (xs : List A) → Each R xs xs
  Each-refl r [] = tt
  Each-refl r (x ∷ xs) = (r x, Each-refl r xs)

  -- What the relation carries over, every entry carries over.
  pub All-Each {κ} :
      (P : A → Type κ)
      → ((x y : A) → R x y → P x → P y)
      → (xs ys : List A) → Each R xs ys
      → All P xs
      → All P ys
  All-Each P f [] [] e h = tt
  All-Each P f (x ∷ xs) (y ∷ ys) e h = (f x y e.0 h.0, All-Each P f xs ys e.1 h.1)
  All-Each P f [] (y ∷ ys) e h = absurd e
  All-Each P f (x ∷ xs) [] e h = absurd e

  pub map-Each {κ} :
      {B : Type κ} (g : A → B)
      → ((x y : A) → R x y → g y ≡ g x)
      → (xs ys : List A) → Each R xs ys
      → map g ys ≡ map g xs
  map-Each g f [] [] e = refl
  map-Each g f (x ∷ xs) (y ∷ ys) e = ap₂ ◌∷◌ (f x y e.0) (map-Each g f xs ys e.1)
  map-Each g f [] (y ∷ ys) e = absurd e
  map-Each g f (x ∷ xs) [] e = absurd e

  pub Each-trans :
      ((x y z : A) → R x y → R y z → R x z)
      → (xs ys zs : List A) → Each R xs ys
      → Each R ys zs
      → Each R xs zs
  Each-trans t [] [] [] h k = tt
  Each-trans t (x ∷ xs) (y ∷ ys) (z ∷ zs) h k = (t x y z h.0 k.0, Each-trans t xs ys zs h.1 k.1)
  Each-trans t [] (y ∷ ys) zs h k = absurd h
  Each-trans t (x ∷ xs) [] zs h k = absurd h
  Each-trans t [] [] (z ∷ zs) h k = absurd k
  Each-trans t (x ∷ xs) (y ∷ ys) [] h k = absurd k
