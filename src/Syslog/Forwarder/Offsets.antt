-- ===== src/Syslog/Forwarder/Offsets.antt =====
-- No row is skipped: what the offsets pass was sent.
use mathlib.Core.List.Permᴰ
use tacacs_web.Prelude.{
  ℕ, zero, suc, ◌≤◌, ◌<◌, ◌≡◌, refl, ap, ◌∙◌, ◌⊎◌, Bool, true, some, List, [], ◌∷◌, Memᴰ, leb, ltb,
  filter, filter-Mem, Mem-filter, Mem-perm, sort_by, sort_by-perm, sort_by-IsSortedBy, IsSortedBy,
  take, arith,
}
use tacacs_web.Syslog.Forwarder.{batch_size, rows_after, last_id}

module _ {ℓ} {A : Type ℓ} (id : A → ℕ) where
  abbrev pub Distinct : List A → Type ℓ
  Distinct rows = (a b : A) → Memᴰ a rows → Memᴰ b rows → id a ≡ id b → a ≡ b

  abbrev by_id : A → A → Bool
  by_id a b = leb (id a) (id b)

  some_inj : {a b : ℕ} → some a ≡ some b → a ≡ b
  some_inj h = cc h

  Mem-take :
      (n : ℕ) (rows : List A) (m : ℕ) (a : A)
      → IsSortedBy by_id rows
      → Distinct rows
      → last_id id (take n rows) ≡ some m
      → Memᴰ a rows
      → id a ≤ m
      → Memᴰ a (take n rows)
  unfolding last_id
  Mem-take zero rows m a s d e i le = absurd (cc e)
  Mem-take (suc n) [] m a s d e i le = elim i [ ]
  Mem-take (suc n) (x ∷ rows) m a s d e (Memᴰ.head q) le = Memᴰ.head q
  Mem-take (suc n) (x ∷ rows) m a s d e (Memᴰ.tail i) le =
      split (take n rows) refl e
        (λ g. Mem-take n rows m a s.1 (λ b c mb mc. d b c (Memᴰ.tail mb) (Memᴰ.tail mc)) g i le)
    where
      split :
          (l : List A)
          → take n rows ≡ l
          → last_id id (x ∷ l) ≡ some m
          → (last_id id (take n rows) ≡ some m → Memᴰ a (take n rows))
          → Memᴰ a (x ∷ take n rows)
      split [] f g again =
          let top = s.0 a i in
          let same = some_inj g in
          Memᴰ.head (d a x (Memᴰ.tail i) (Memᴰ.head refl) (ground (arith, top, same, le)))
      split (y ∷ l) f g again = Memᴰ.tail (again (ap (last_id id) f ∙ g))

  -- A batch has every row behind the old offset up to the new one, the id of its last row: moving the
  -- offset skips no row. The rows have distinct ids.
  pub Mem-rows_after :
      (last m : ℕ) (rows : List A) (a : A)
      → Distinct rows
      → last_id id (rows_after id last rows) ≡ some m
      → Memᴰ a rows
      → last < id a
      → id a ≤ m
      → Memᴰ a (rows_after id last rows)
  unfolding rows_after
  Mem-rows_after last m rows a d e i lt le =
      Mem-take batch_size sorted m a
        (sort_by-IsSortedBy by_id (λ b c. total (id b) (id c)) (λ b c f. trans (id b) (id c) (id f))
          selected)
        (λ b c mb mc. d b c (old b mb) (old c mc)) e
        (Mem-perm a (Permᴰ.symm (sort_by-perm by_id selected))
          (filter-Mem _ a rows i (ground arith)))
        le
    where
      selected : List A
      selected = filter (λ b. ltb last (id b)) rows

      sorted : List A
      sorted = sort_by by_id selected

      old : (b : A) → Memᴰ b sorted → Memᴰ b rows
      old b mb = (Mem-filter _ b rows (Mem-perm b (sort_by-perm by_id selected) mb)).0

      total : (b c : ℕ) → (leb b c ≡ true) ⊎ (leb c b ≡ true)
      total b c = ground arith

      trans : (b c f : ℕ) → leb b c ≡ true → leb c f ≡ true → leb b f ≡ true
      trans b c f h k = ground arith
