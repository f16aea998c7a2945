-- ===== src/Api/Tables.antt =====
-- The table operations of the management routes: a table is a list of rows with an id.
use mathlib.Core.List.Memᴰ
use tacacs_web.Prelude.{
  ℕ, ◌+◌, ◌<◌, ◌≡◌, ◌≢◌, refl, sym, ap, ◌∙◌, subst, ◌⊎◌, inl, inr, Bool, true, false, not, ◌&&◌,
  Option, none, some, List, [], ◌∷◌, ◌++◌, map, Memᴰ, ◌==◌, ==_iff, any, any-Mem, filter,
  Mem-filter, filter-Mem, find?, find?-eq-some, arith, Bool-cases, is_some, if◌then◌else◌,
}

pub not-eq-true : (b : Bool) → not b ≡ true → b ≡ false
not-eq-true b h = ground arith

module _ {ℓ} {A : Type ℓ} (id : A → ℕ) where
  -- `session.get(Table, n)`
  unfoldable pub get_row : ℕ → List A → Option A
  unfolding find?
  get_row n rows = find? (λ a. id a == n) rows

  unfoldable pub put_row : A → List A → List A
  put_row new rows = map (λ a. if id a == id new then new else a) rows

  unfoldable pub delete_row : ℕ → List A → List A
  unfolding filter
  delete_row n rows = filter (λ a. not (id a == n)) rows

  -- A unique column of another row has the value of the new row's.
  unfoldable pub clashes_with : (A → A → Bool) → A → List A → Bool
  unfolding any
  clashes_with same new rows = any (λ a. not (id a == id new) && same a new) rows

  -- The row of this id is there.
  abbrev pub HasRow : ℕ → List A → Type ℓ
  HasRow n rows = (a : A) × Memᴰ a rows × (id a ≡ n)

  pub get_row-eq-some :
      (n : ℕ) (rows : List A) (a : A) → get_row n rows ≡ some a → Memᴰ a rows × (id a ≡ n)
  unfolding get_row
  get_row-eq-some n rows a h = let (m, e) = find?-eq-some _ a rows h in (m, (==_iff (id a) n).0 e)

  pub is_some-get_row : (n : ℕ) (rows : List A) → is_some (get_row n rows) ≡ true → HasRow n rows
  is_some-get_row n rows h = found (get_row n rows) refl h
    where
      found : (o : Option A) → get_row n rows ≡ o → is_some o ≡ true → HasRow n rows
      found none e k = absurd (cc k)
      found (some a) e k = let (m, q) = get_row-eq-some n rows a e in (a, m, q)

  pub Mem-put_row :
      (new a : A) (rows : List A)
      → Memᴰ a (put_row new rows)
      → (a ≡ new) ⊎ (Memᴰ a rows × (id a ≢ id new))
  unfolding put_row
  Mem-put_row new a rows m =
      let (x, mx, e) = Memᴰ.of_map (λ b. if id b == id new then new else b) rows m in
      replaced x mx e (Bool-cases (id x == id new))
    where
      replaced :
          (x : A)
          → Memᴰ x rows
          → (if id x == id new then new else x) ≡ a
          → ((id x == id new) ≡ true) ⊎ ((id x == id new) ≡ false)
          → (a ≡ new) ⊎ (Memᴰ a rows × (id a ≢ id new))
      replaced x mx e (inl h) = inl (sym (rw h at e))
      replaced x mx e (inr h) =
          let q = rw h at e in
          inr (
            subst (λ v. Memᴰ v rows) q mx,
            λ k. absurd (cc ((==_iff (id x) (id new)).1 (ap id q ∙ k), h)),
          )

  put_row-Mem :
      (new a : A) (rows : List A) → Memᴰ a rows → id a ≢ id new → Memᴰ a (put_row new rows)
  unfolding put_row
  put_row-Mem new a (x ∷ rows) (Memᴰ.head e) h = elim (Bool-cases (id x == id new)) [
    | inl k ↦ absurd (h (ap id e ∙ (==_iff (id x) (id new)).0 k))
    | inr k ↦ rw k (Memᴰ.head e)
  ]
  put_row-Mem new a (x ∷ rows) (Memᴰ.tail m) h = Memᴰ.tail (put_row-Mem new a rows m h)
  put_row-Mem new a [] m h = elim m [ ]

  put_row-Mem_new :
      (new old : A) (rows : List A) → Memᴰ old rows → id old ≡ id new → Memᴰ new (put_row new rows)
  unfolding put_row
  put_row-Mem_new new old (x ∷ rows) (Memᴰ.head e) h =
      rw ((==_iff (id x) (id new)).1 (sym (ap id e) ∙ h)) (Memᴰ.head refl)
  put_row-Mem_new new old (x ∷ rows) (Memᴰ.tail m) h = Memᴰ.tail (put_row-Mem_new new old rows m h)
  put_row-Mem_new new old [] m h = elim m [ ]

  -- A replaced row leaves the ids as they are.
  pub HasRow-put_row :
      (new : A) (rows : List A) (n : ℕ) → HasRow n rows → HasRow n (put_row new rows)
  HasRow-put_row new rows n (a, m, e) = elim (Bool-cases (id a == id new)) [
    | inl k ↦
        let q = (==_iff (id a) (id new)).0 k in (new, put_row-Mem_new new a rows m q, sym q ∙ e)
    | inr k ↦ (a, put_row-Mem new a rows m (λ q. absurd (cc ((==_iff (id a) (id new)).1 q, k))), e)
  ]

  pub HasRow-append : (rows more : List A) (n : ℕ) → HasRow n rows → HasRow n (rows ++ more)
  HasRow-append rows more n (a, m, e) = (a, Memᴰ.append_left more m, e)

  pub Mem-delete_row :
      (n : ℕ) (a : A) (rows : List A) → Memᴰ a (delete_row n rows) → Memᴰ a rows × (id a ≢ n)
  unfolding delete_row
  Mem-delete_row n a rows m =
      let (k, e) = Mem-filter _ a rows m in (k, λ q. absurd (cc ((==_iff (id a) n).1 q, e)))

  pub HasRow-delete_row :
      (n k : ℕ) (rows : List A) → HasRow k rows → k ≢ n → HasRow k (delete_row n rows)
  unfolding delete_row
  HasRow-delete_row n k rows (a, m, e) h =
      (a, filter-Mem _ a rows m (ap not (other (id a == n) refl)), e)
    where
      other : (b : Bool) → (id a == n) ≡ b → (id a == n) ≡ false
      other true q = absurd (h (sym e ∙ (==_iff (id a) n).0 q))
      other false q = q

  pub clashes_with-eq-false :
      (same : A → A → Bool) (new : A) (rows : List A)
      → clashes_with same new rows ≡ false
      → (a : A) → Memᴰ a rows
      → id a ≢ id new
      → same a new ≡ true
      → ⊥
  unfolding clashes_with
  clashes_with-eq-false same new rows h a m ne s = absurd (
      cc (
        any-Mem (λ b. not (id b == id new) && same b new) a rows m (both (id a == id new) refl),
        h,
      ))
    where
      both : (b : Bool) → (id a == id new) ≡ b → (not b && same a new) ≡ true
      both true q = absurd (ne ((==_iff (id a) (id new)).0 q))
      both false q = s

module _ {ℓ κ} {A : Type ℓ} (id : A → ℕ) (R : A → A → Type κ) where
  -- Rows that agree in a unique column are one row.
  abbrev pub Unique : List A → Type (ℓ ⊔ κ)
  Unique rows = (a b : A) → Memᴰ a rows → Memᴰ b rows → R a b → a ≡ b

  pub Unique-append :
      (rows : List A) (new : A)
      → ((a b : A) → R a b → R b a)
      → ((a : A) → Memᴰ a rows → R a new → ⊥)
      → Unique rows
      → Unique (rows ++ new ∷ [])
  Unique-append rows new flip free u a b ma mb r =
      split (Memᴰ.append_cases rows ma) (Memᴰ.append_cases rows mb)
    where
      split : Memᴰ a rows ⊎ Memᴰ a (new ∷ []) → Memᴰ b rows ⊎ Memᴰ b (new ∷ []) → a ≡ b
      split (inl x) (inl y) = u a b x y r
      split (inl x) (inr y) = absurd (free a x (subst (λ c. R a c) (Memᴰ.eq_of_singleton y) r))
      split (inr x) (inl y) =
          absurd (free b y (subst (λ c. R b c) (Memᴰ.eq_of_singleton x) (flip a b r)))
      split (inr x) (inr y) = Memᴰ.eq_of_singleton x ∙ sym (Memᴰ.eq_of_singleton y)

  pub Unique-put_row :
      (rows : List A) (new : A)
      → ((a b : A) → R a b → R b a)
      → ((a : A) → Memᴰ a rows → id a ≢ id new → R a new → ⊥)
      → Unique rows
      → Unique (put_row id new rows)
  Unique-put_row rows new flip free u a b ma mb r =
      split (Mem-put_row id new a rows ma) (Mem-put_row id new b rows mb)
    where
      split :
          (a ≡ new) ⊎ (Memᴰ a rows × (id a ≢ id new))
          → (b ≡ new) ⊎ (Memᴰ b rows × (id b ≢ id new))
          → a ≡ b
      split (inl x) (inl y) = x ∙ sym y
      split (inl x) (inr (y, n)) = absurd (free b y n (subst (λ c. R b c) x (flip a b r)))
      split (inr (x, n)) (inl y) = absurd (free a x n (subst (λ c. R a c) y r))
      split (inr (x, n)) (inr (y, k)) = u a b x y r

  pub Unique-delete_row : (n : ℕ) (rows : List A) → Unique rows → Unique (delete_row id n rows)
  Unique-delete_row n rows u a b ma mb r =
      u a b (Mem-delete_row id n a rows ma).0 (Mem-delete_row id n b rows mb).0 r

module _ {ℓ} {A : Type ℓ} (id : A → ℕ) where
  -- The ids are below the next one.
  abbrev pub Fresh : List A → ℕ → Type ℓ
  Fresh rows next = (a : A) → Memᴰ a rows → id a < next

  pub Fresh-append :
      (rows : List A) (new : A) (next : ℕ)
      → id new ≡ next
      → Fresh rows next
      → Fresh (rows ++ new ∷ []) (next + 1)
  Fresh-append rows new next e fresh a m = split (Memᴰ.append_cases rows m)
    where
      split : Memᴰ a rows ⊎ Memᴰ a (new ∷ []) → id a < next + 1
      split (inl x) = let lt = fresh a x in omega (arith, lt)
      split (inr x) = let q = ap id (Memᴰ.eq_of_singleton x) in omega (arith, q, e)

  pub Fresh-put_row :
      (rows : List A) (new : A) (next : ℕ)
      → id new < next
      → Fresh rows next
      → Fresh (put_row id new rows) next
  Fresh-put_row rows new next lt fresh a m = split (Mem-put_row id new a rows m)
    where
      split : (a ≡ new) ⊎ (Memᴰ a rows × (id a ≢ id new)) → id a < next
      split (inl q) = let e = ap id q in omega (arith, e, lt)
      split (inr (x, n)) = fresh a x

  pub Fresh-delete_row :
      (n : ℕ) (rows : List A) (next : ℕ) → Fresh rows next → Fresh (delete_row id n rows) next
  Fresh-delete_row n rows next fresh a m = fresh a (Mem-delete_row id n a rows m).0

  -- A new row has another id than the others.
  pub Fresh-ne :
      (rows : List A) (new : A) (next : ℕ)
      → id new ≡ next
      → Fresh rows next
      → (a : A) → Memᴰ a rows
      → id a ≢ id new
  Fresh-ne rows new next e fresh a m q = let lt = fresh a m in absurd (omega (arith, lt, q, e))

  module _ {κ} (P : A → Type κ) where
    pub Mem-append_new :
        (rows : List A) (new : A)
        → ((a : A) → Memᴰ a rows → P a)
        → P new
        → (a : A) → Memᴰ a (rows ++ new ∷ [])
        → P a
    Mem-append_new rows new all p a m = split (Memᴰ.append_cases rows m)
      where
        split : Memᴰ a rows ⊎ Memᴰ a (new ∷ []) → P a
        split (inl x) = all a x
        split (inr x) = subst P (sym (Memᴰ.eq_of_singleton x)) p

    pub Mem-put_row_new :
        (rows : List A) (new : A)
        → ((a : A) → Memᴰ a rows → P a)
        → P new
        → (a : A) → Memᴰ a (put_row id new rows)
        → P a
    Mem-put_row_new rows new all p a m = split (Mem-put_row id new a rows m)
      where
        split : (a ≡ new) ⊎ (Memᴰ a rows × (id a ≢ id new)) → P a
        split (inl q) = subst P (sym q) p
        split (inr (x, n)) = all a x
