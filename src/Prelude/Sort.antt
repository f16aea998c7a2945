-- ===== src/Prelude/Sort.antt =====
-- Python's `sorted` and `list.sort` as a stable insertion sort by a Boolean order.
use mathlib.Core.Path.{◌≡◌, refl, sym, ap, ◌∙◌}
use mathlib.Core.Logic.{◌⊎◌, inl, inr}
use mathlib.Core.Bool.{Bool, true, false}
use mathlib.Core.List.Permᴰ
use mathlib.Core.List.{List, [], ◌∷◌, Memᴰ, Permᴰ}
use tacacs_web.Prelude.Tests.{if◌then◌else◌, Bool-cases}
use tacacs_web.Prelude.Filter.{filter}

module _ {ℓ} {A : Type ℓ} where
  -- A permutation keeps the members, with their places.
  pub Mem-perm : {xs ys : List A} (a : A) → Permᴰ xs ys → Memᴰ a xs → Memᴰ a ys
  Mem-perm a Permᴰ.nil m = m
  Mem-perm a (Permᴰ.cons e p) (Memᴰ.head q) = Memᴰ.head (q ∙ e)
  Mem-perm a (Permᴰ.cons e p) (Memᴰ.tail m) = Memᴰ.tail (Mem-perm a p m)
  Mem-perm a (Permᴰ.swap e f) (Memᴰ.head q) = Memᴰ.tail (Memᴰ.head (q ∙ e))
  Mem-perm a (Permᴰ.swap e f) (Memᴰ.tail (Memᴰ.head q)) = Memᴰ.head (q ∙ f)
  Mem-perm a (Permᴰ.swap e f) (Memᴰ.tail (Memᴰ.tail m)) = Memᴰ.tail (Memᴰ.tail m)
  Mem-perm a (Permᴰ.trans p q) m = Mem-perm a q (Mem-perm a p m)

module _ {ℓ} {A : Type ℓ} (p : A → Bool) where
  filter-perm_swap : (x y : A) (xs : List A) → Permᴰ (filter p (x ∷ y ∷ xs)) (filter p (y ∷ x ∷ xs))
  unfolding filter
  filter-perm_swap x y xs = elim (Bool-cases (p x)) [
    | inl h ↦ elim (Bool-cases (p y)) [
      | inl k ↦ rw (h, k) (Permᴰ.swap refl refl)
      | inr k ↦ rw (h, k) (Permᴰ.refl (x ∷ filter p xs))
    ]
    | inr h ↦ rw h (Permᴰ.refl (filter p (y ∷ xs)))
  ]

  pub filter-perm : {xs ys : List A} → Permᴰ xs ys → Permᴰ (filter p xs) (filter p ys)
  unfolding filter
  filter-perm Permᴰ.nil = Permᴰ.nil
  filter-perm (Permᴰ.trans h k) = Permᴰ.trans (filter-perm h) (filter-perm k)
  filter-perm (Permᴰ.cons {a = x} e h) = elim (Bool-cases (p x)) [
    | inl k ↦ rw (k, sym (ap p e) ∙ k) (Permᴰ.cons e (filter-perm h))
    | inr k ↦ rw (k, sym (ap p e) ∙ k) (filter-perm h)
  ]
  filter-perm (Permᴰ.swap {a = x} {b = y} {l = xs} e f) = rw (← e, ← f) (filter-perm_swap x y xs)

module _ {ℓ} {A : Type ℓ} (le : A → A → Bool) where
  unfoldable pub insert_by : A → List A → List A
  insert_by x [] = x ∷ []
  insert_by x (y ∷ ys) = let rest = insert_by x ys in if le x y then x ∷ y ∷ ys else y ∷ rest

  unfoldable pub sort_by : List A → List A
  unfolding insert_by
  sort_by [] = []
  sort_by (x ∷ xs) = insert_by x (sort_by xs)

  -- Each element is in order with all that follow it.
  abbrev pub IsSortedBy : List A → Type ℓ
  IsSortedBy [] = Unit
  IsSortedBy (x ∷ xs) = ((a : A) → Memᴰ a xs → le x a ≡ true) × IsSortedBy xs

  insert_by-perm : (x : A) (xs : List A) → Permᴰ (insert_by x xs) (x ∷ xs)
  unfolding insert_by
  insert_by-perm x [] = Permᴰ.refl (x ∷ [])
  insert_by-perm x (y ∷ ys) = elim (Bool-cases (le x y)) [
    | inl h ↦ rw h (Permᴰ.refl (x ∷ y ∷ ys))
    | inr h ↦ rw h (Permᴰ.trans (Permᴰ.cons refl (insert_by-perm x ys)) (Permᴰ.swap refl refl))
  ]

  pub sort_by-perm : (xs : List A) → Permᴰ (sort_by xs) xs
  unfolding sort_by
  sort_by-perm [] = Permᴰ.nil
  sort_by-perm (x ∷ xs) =
      Permᴰ.trans (insert_by-perm x (sort_by xs)) (Permᴰ.cons refl (sort_by-perm xs))

  module _ (total : (a b : A) → (le a b ≡ true) ⊎ (le b a ≡ true))
      (trans : (a b c : A) → le a b ≡ true → le b c ≡ true → le a c ≡ true) where
    insert_by-IsSortedBy : (x : A) (xs : List A) → IsSortedBy xs → IsSortedBy (insert_by x xs)
    unfolding insert_by
    insert_by-IsSortedBy x [] s = ((λ a m. elim m [ ]), tt)
    insert_by-IsSortedBy x (y ∷ ys) s = elim (Bool-cases (le x y)) [
      | inl h ↦ rw h ((λ a m. below a m h), s)
      | inr h ↦
          rw h
            ((λ a m. above a (Mem-perm a (insert_by-perm x ys) m) h), insert_by-IsSortedBy x ys s.1)
    ]
      where
        below : (a : A) → Memᴰ a (y ∷ ys) → le x y ≡ true → le x a ≡ true
        below a (Memᴰ.head e) h = ap (le x) e ∙ h
        below a (Memᴰ.tail m) h = trans x y a h (s.0 a m)

        flip : le x y ≡ false → (le x y ≡ true) ⊎ (le y x ≡ true) → le y x ≡ true
        flip h (inl e) = absurd (cc (h, e))
        flip h (inr e) = e

        above : (a : A) → Memᴰ a (x ∷ ys) → le x y ≡ false → le y a ≡ true
        above a (Memᴰ.head e) h = ap (le y) e ∙ flip h (total x y)
        above a (Memᴰ.tail m) h = s.0 a m

    pub sort_by-IsSortedBy : (xs : List A) → IsSortedBy (sort_by xs)
    unfolding sort_by
    sort_by-IsSortedBy [] = tt
    sort_by-IsSortedBy (x ∷ xs) = insert_by-IsSortedBy x (sort_by xs) (sort_by-IsSortedBy xs)
