-- ===== src/Prelude/Filter.antt =====
-- Selection from a list by a Boolean test, as a `WHERE` clause or a comprehension makes it.
use mathlib.Core.Path.{◌≡◌, refl, sym, ap, ◌∙◌}
use mathlib.Core.Logic.{inl, inr}
use mathlib.Core.Bool.{Bool, true, false, ◌||◌}
use mathlib.Core.Option.{Option, none, some}
use mathlib.Core.List.Memᴰ
use mathlib.Core.List.{List, [], ◌∷◌, ◌++◌, Memᴰ}
use native.Mathlib.Omega.{arith}
use tacacs_web.Prelude.Tests.{if◌then◌else◌, Bool-cases}

module _ {ℓ} {A : Type ℓ} where
  unfoldable pub filter : (A → Bool) → List A → List A
  filter p [] = []
  filter p (x ∷ xs) = let rest = filter p xs in if p x then x ∷ rest else rest

  unfoldable pub any : (A → Bool) → List A → Bool
  any p [] = false
  any p (x ∷ xs) = p x || any p xs

  -- The first element that passes.
  unfoldable pub find? : (A → Bool) → List A → Option A
  find? p [] = none
  find? p (x ∷ xs) = let rest = find? p xs in if p x then some x else rest

  pub Mem-filter :
      (p : A → Bool) (a : A) (xs : List A) → Memᴰ a (filter p xs) → Memᴰ a xs × (p a ≡ true)
  unfolding filter
  Mem-filter p a [] m = elim m [ ]
  Mem-filter p a (x ∷ xs) m = elim (Bool-cases (p x)) [
    | inl h ↦ elim (Memᴰ.cases_cons (rw h at m)) [
      | inl e ↦ (Memᴰ.head e, ap p e ∙ h)
      | inr t ↦ let ih = Mem-filter p a xs t in (Memᴰ.tail ih.0, ih.1)
    ]
    | inr h ↦ let ih = Mem-filter p a xs (rw h at m) in (Memᴰ.tail ih.0, ih.1)
  ]

  pub filter-Mem :
      (p : A → Bool) (a : A) (xs : List A) → Memᴰ a xs → p a ≡ true → Memᴰ a (filter p xs)
  unfolding filter
  filter-Mem p a [] m h = elim m [ ]
  filter-Mem p a (x ∷ xs) (Memᴰ.head e) h = rw (ap p (sym e) ∙ h) (Memᴰ.head e)
  filter-Mem p a (x ∷ xs) (Memᴰ.tail m) h = elim (Bool-cases (p x)) [
    | inl hx ↦ rw hx (Memᴰ.tail (filter-Mem p a xs m h))
    | inr hx ↦ rw hx (filter-Mem p a xs m h)
  ]

  pub filter-eq-nil :
      (p : A → Bool) (xs : List A) → filter p xs ≡ [] → (a : A) → Memᴰ a xs → p a ≡ false
  unfolding filter
  filter-eq-nil p [] e a m = elim m [ ]
  filter-eq-nil p (x ∷ xs) e a (Memᴰ.head q) = ap p q ∙ ground arith
  filter-eq-nil p (x ∷ xs) e a (Memᴰ.tail m) = filter-eq-nil p xs (ground arith) a m

  pub filter-append :
      (p : A → Bool) (xs ys : List A) → filter p (xs ++ ys) ≡ filter p xs ++ filter p ys
  unfolding filter
  filter-append p [] ys = refl
  filter-append p (x ∷ xs) ys = elim (Bool-cases (p x)) [
    | inl h ↦ rw h (ap (λ t. x ∷ t) (filter-append p xs ys))
    | inr h ↦ rw h (filter-append p xs ys)
  ]

  pub find?-eq-some :
      (p : A → Bool) (a : A) (xs : List A) → find? p xs ≡ some a → Memᴰ a xs × (p a ≡ true)
  unfolding find?
  find?-eq-some p a [] h = cc
  find?-eq-some p a (x ∷ xs) h = elim (Bool-cases (p x)) [
    | inl hx ↦ let e : x ≡ a = ground arith in (Memᴰ.head (sym e), ap p (sym e) ∙ hx)
    | inr hx ↦ let ih = find?-eq-some p a xs (ground arith) in (Memᴰ.tail ih.0, ih.1)
  ]

  pub find?-eq-none :
      (p : A → Bool) (xs : List A) → find? p xs ≡ none → (a : A) → Memᴰ a xs → p a ≡ false
  unfolding find?
  find?-eq-none p [] h a m = elim m [ ]
  find?-eq-none p (x ∷ xs) h a (Memᴰ.head q) = ap p q ∙ ground arith
  find?-eq-none p (x ∷ xs) h a (Memᴰ.tail m) = find?-eq-none p xs (ground arith) a m

  pub any-eq-true :
      (p : A → Bool) (xs : List A) → any p xs ≡ true → (a : A) × Memᴰ a xs × (p a ≡ true)
  unfolding any
  any-eq-true p [] h = cc
  any-eq-true p (x ∷ xs) h = elim (Bool-cases (p x)) [
    | inl hx ↦ (x, Memᴰ.head refl, hx)
    | inr hx ↦ let (a, m, q) = any-eq-true p xs (ground arith) in (a, Memᴰ.tail m, q)
  ]

  pub any-Mem : (p : A → Bool) (a : A) (xs : List A) → Memᴰ a xs → p a ≡ true → any p xs ≡ true
  unfolding any
  any-Mem p a [] m h = elim m [ ]
  any-Mem p a (x ∷ xs) (Memᴰ.head e) h = rw (ap p (sym e) ∙ h)
  any-Mem p a (x ∷ xs) (Memᴰ.tail m) h = ground (arith, any-Mem p a xs m h)
