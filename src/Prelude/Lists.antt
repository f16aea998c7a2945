-- ===== src/Prelude/Lists.antt =====
-- Lists measured by native numbers, predicates by recursion, and membership with its place.
use Prim.Native.Nat.{ℕ, zero, suc, ◌+◌, ◌≤◌}
use mathlib.Core.Path.{◌≡◌, refl, sym, ap, subst}
use mathlib.Core.List.{List, [], ◌∷◌, ◌++◌, map, Memᴰ}
use native.Mathlib.Omega.{arith}

module _ {ℓ} {A : Type ℓ} where
  abbrev pub length : List A → ℕ
  length [] = 0
  length (x ∷ xs) = suc (length xs)

  pub length-append : (xs ys : List A) → length (xs ++ ys) ≡ length xs + length ys
  length-append [] ys = omega arith
  length-append (x ∷ xs) ys = omega (arith, length-append xs ys)

  abbrev pub take : ℕ → List A → List A
  take zero xs = []
  take (suc n) [] = []
  take (suc n) (x ∷ xs) = x ∷ take n xs

  pub length-take-le : (n : ℕ) (xs : List A) → length (take n xs) ≤ n
  length-take-le zero xs = omega arith
  length-take-le (suc n) [] = omega arith
  length-take-le (suc n) (x ∷ xs) = omega (arith, length-take-le n xs)

module _ {ℓ κ} {A : Type ℓ} where
  abbrev pub All : (A → Type κ) → List A → Type κ
  All P [] = Unit
  All P (x ∷ xs) = P x × All P xs

  pub All-append : (P : A → Type κ) (xs ys : List A) → All P xs → All P ys → All P (xs ++ ys)
  All-append P [] ys h k = k
  All-append P (x ∷ xs) ys (p, h) k = (p, All-append P xs ys h k)

  pub All-of_forall : (P : A → Type κ) → ((a : A) → P a) → (xs : List A) → All P xs
  All-of_forall P f [] = tt
  All-of_forall P f (x ∷ xs) = (f x, All-of_forall P f xs)

module _ {ℓ κ} {A : Type ℓ} (P : A → Type κ) where
  pub All-Mem : (xs : List A) → All P xs → (a : A) → Memᴰ a xs → P a
  All-Mem (x ∷ xs) h a (Memᴰ.head e) = subst P (sym e) h.0
  All-Mem (x ∷ xs) h a (Memᴰ.tail m) = All-Mem xs h.1 a m
  All-Mem [] h a m = elim m [ ]

  pub All-of_Mem : (xs : List A) → ((a : A) → Memᴰ a xs → P a) → All P xs
  All-of_Mem [] f = tt
  All-of_Mem (x ∷ xs) f = (f x (Memᴰ.head refl), All-of_Mem xs (λ a m. f a (Memᴰ.tail m)))

module _ {ℓ κ} {A : Type ℓ} {B : Type κ} where
  pub length-map : (xs : List A) (f : A → B) → length (map f xs) ≡ length xs
  length-map [] f = refl
  length-map (x ∷ xs) f = ap suc (length-map xs f)
