-- ===== src/Syslog/Forwarder/Progress.antt =====
-- A batch of pending rows is not empty, and its last id is behind the offset.
use mathlib.Core.List.Memᴰ
use mathlib.Core.List.Permᴰ
use tacacs_web.Prelude.{
  ℕ, zero, suc, ◌<◌, ◌≡◌, refl, none, some, List, [], ◌∷◌, Memᴰ, ltb, leb, filter, filter-Mem,
  Mem-filter, Mem-perm, sort_by, sort_by-perm, take, arith,
}
use tacacs_web.Syslog.Forwarder.{batch_size, rows_after, last_id}

module _ {ℓ} {A : Type ℓ} (id : A → ℕ) where
  last_id-Mem :
      (rows : List A) (m : ℕ) → last_id id rows ≡ some m → (a : A) × Memᴰ a rows × (id a ≡ m)
  unfolding last_id
  last_id-Mem [] m h = absurd (cc h)
  last_id-Mem (a ∷ []) m h = (a, Memᴰ.head refl, cc h)
  last_id-Mem (a ∷ b ∷ rows) m h = let (c, n, e) = last_id-Mem (b ∷ rows) m h in (c, Memᴰ.tail n, e)

  pub last_id-none : (rows : List A) → last_id id rows ≡ none → rows ≡ []
  unfolding last_id
  last_id-none [] h = refl
  last_id-none (a ∷ []) h = absurd (cc h)
  last_id-none (a ∷ b ∷ rows) h = absurd (cc (last_id-none (b ∷ rows) h))

  take-Mem : (n : ℕ) (rows : List A) (a : A) → Memᴰ a (take n rows) → Memᴰ a rows
  take-Mem zero rows a m = absurd (Memᴰ.not-nil m)
  take-Mem (suc n) [] a m = absurd (Memᴰ.not-nil m)
  take-Mem (suc n) (x ∷ rows) a (Memᴰ.head e) = Memᴰ.head e
  take-Mem (suc n) (x ∷ rows) a (Memᴰ.tail m) = Memᴰ.tail (take-Mem n rows a m)

  pub rows_after-lt :
      (last m : ℕ) (rows : List A) → last_id id (rows_after id last rows) ≡ some m → last < m
  unfolding rows_after
  rows_after-lt last m rows h =
      let (a, n, e) = last_id-Mem _ m h in
      let (_, lt) =
        Mem-filter (λ b. ltb last (id b)) a rows
          (Mem-perm a (sort_by-perm _ _) (take-Mem batch_size _ a n)) in
      ground (arith, lt, e)

  pub rows_after-pending :
      (last : ℕ) (rows : List A) (a : A)
      → Memᴰ a rows
      → last < id a
      → rows_after id last rows ≡ []
      → ⊥
  unfolding rows_after
  rows_after-pending last rows a m lt h =
      let n =
        Mem-perm a
          (Permᴰ.symm
            (sort_by-perm (λ b c. leb (id b) (id c)) (filter (λ b. ltb last (id b)) rows)))
          (filter-Mem (λ b. ltb last (id b)) a rows m (ground arith)) in
      first (sort_by (λ b c. leb (id b) (id c)) (filter (λ b. ltb last (id b)) rows)) n h
    where
      first : (l : List A) → Memᴰ a l → take batch_size l ≡ [] → ⊥
      first [] n h = Memᴰ.not-nil n
      first (x ∷ l) n h = absurd (cc h)
