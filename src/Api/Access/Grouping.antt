-- ===== src/Api/Access/Grouping.antt =====
-- What the dictionary `by_dg` holds: for each device group of a candidate, the candidates on it in
-- their order.
use mathlib.Core.List.Memᴰ
use tacacs_web.Prelude.{
  ℕ, ◌≡◌, ◌≢◌, refl, sym, ap, ◌∙◌, subst, ◌⊎◌, inl, inr, Bool, true, false, List, [], ◌∷◌, ◌++◌,
  append_assoc, append-nil, Memᴰ, ◌==◌, ==_iff, ==_refl, filter, filter-append, Mem-filter,
  if◌then◌else◌,
}
use tacacs_web.Models.{Authorization}
use tacacs_web.Api.Access.{Groups, setdefault_append, group_on}

-- The candidates on one group.
abbrev pub on_group : ℕ → List Authorization → List Authorization
on_group dg auths = filter (λ (a : Authorization). a.device_group_id == dg) auths

-- No entry has the key.
abbrev Apart : ℕ → Groups → Type 0
Apart dg by_dg = (xs : List Authorization) → Memᴰ (dg, xs) by_dg → ⊥

abbrev Distinct : Groups → Type 0
Distinct [] = Unit
Distinct ((dg, xs) ∷ by_dg) = Apart dg by_dg × Distinct by_dg

-- Every entry has the candidates of its key among those seen.
abbrev Holds : List Authorization → Groups → Type 0
Holds seen by_dg = (dg : ℕ) (xs : List Authorization) → Memᴰ (dg, xs) by_dg → xs ≡ on_group dg seen

abbrev Covers : List Authorization → Groups → Type 0
Covers seen by_dg =
    (a : Authorization)
    → Memᴰ a seen
    → (xs : List Authorization) × Memᴰ (a.device_group_id, xs) by_dg

filter-one :
    (p : Authorization → Bool) (a : Authorization) (b : Bool)
    → p a ≡ b
    → filter p (a ∷ []) ≡ (if b then a ∷ [] else [])
unfolding filter
filter-one p a b h = rw h refl

on_group-other :
    (dg : ℕ) (a : Authorization) (seen : List Authorization)
    → dg ≢ a.device_group_id
    → on_group dg (seen ++ a ∷ []) ≡ on_group dg seen
on_group-other dg a seen ne =
    filter-append _ seen (a ∷ [])
    ∙ ap (λ t. on_group dg seen ++ t) (filter-one _ a false (other (a.device_group_id == dg) refl))
    ∙ append-nil (on_group dg seen)
  where
    other : (b : Bool) → (a.device_group_id == dg) ≡ b → (a.device_group_id == dg) ≡ false
    other true e = absurd (ne (sym ((==_iff a.device_group_id dg).0 e)))
    other false e = e

on_group-same :
    (a : Authorization) (seen : List Authorization)
    → on_group a.device_group_id (seen ++ a ∷ []) ≡ on_group a.device_group_id seen ++ a ∷ []
on_group-same a seen =
    filter-append _ seen (a ∷ [])
    ∙ ap (λ t. on_group a.device_group_id seen ++ t)
        (filter-one _ a true (==_refl a.device_group_id))

on_group-absent :
    (dg : ℕ) (seen : List Authorization)
    → ((a : Authorization) → Memᴰ a seen → a.device_group_id ≢ dg)
    → on_group dg seen ≡ []
on_group-absent dg seen h = none (on_group dg seen) refl
  where
    none : (l : List Authorization) → on_group dg seen ≡ l → on_group dg seen ≡ []
    none [] e = e
    none (a ∷ l) e =
        let (m, q) = Mem-filter _ a seen (subst (λ t. Memᴰ a t) (sym e) (Memᴰ.head refl)) in
        absurd (h a m ((==_iff a.device_group_id dg).0 q))

module _ (a : Authorization) where
  -- An entry after the turn for `a`: another one of before, or the one that took `a`.
  abbrev Taken : ℕ → List Authorization → Groups → Type 0
  Taken dg xs by_dg =
      ((dg ≢ a.device_group_id) × Memᴰ (dg, xs) by_dg)
      ⊎ ((dg ≡ a.device_group_id)
          × (((ys : List Authorization) × Memᴰ (a.device_group_id, ys) by_dg × (xs ≡ ys ++ a ∷ []))
              ⊎ (Apart a.device_group_id by_dg × (xs ≡ a ∷ []))))

  setdefault-Taken :
      (dg : ℕ) (xs : List Authorization) (by_dg : Groups)
      → Distinct by_dg
      → Memᴰ (dg, xs) (setdefault_append a by_dg)
      → Taken dg xs by_dg
  unfolding setdefault_append
  setdefault-Taken dg xs [] d m =
      let e = Memᴰ.eq_of_singleton m in
      inr (ap (λ p. p.0) e, inr (λ ys n. Memᴰ.not-nil n, ap (λ p. p.1) e))
  setdefault-Taken dg xs ((k, ys) ∷ by_dg) (apart, d) m =
      split (k == a.device_group_id) refl m (setdefault-Taken dg xs by_dg d)
    where
      later : Taken dg xs by_dg → k ≢ a.device_group_id → Taken dg xs ((k, ys) ∷ by_dg)
      later (inl (ne, n)) u = inl (ne, Memᴰ.tail n)
      later (inr (e, inl (zs, n, q))) u = inr (e, inl (zs, Memᴰ.tail n, q))
      later (inr (e, inr (f, q))) u = inr (e, inr (away, q))
        where
          away : Apart a.device_group_id ((k, ys) ∷ by_dg)
          away zs (Memᴰ.head h) = u (sym (ap (λ p. p.0) h))
          away zs (Memᴰ.tail n) = f zs n

      split :
          (b : Bool)
          → (k == a.device_group_id) ≡ b
          → Memᴰ
              (dg, xs)
              (if b then (k, ys ++ a ∷ []) ∷ by_dg else (k, ys) ∷ setdefault_append a by_dg)
          → (Memᴰ (dg, xs) (setdefault_append a by_dg) → Taken dg xs by_dg)
          → Taken dg xs ((k, ys) ∷ by_dg)
      split true e (Memᴰ.head h) ih =
          let q = (==_iff k a.device_group_id).0 e in
          inr
            (ap (λ p. p.0) h ∙ q, inl (ys, Memᴰ.head (ap (λ n. (n, ys)) (sym q)), ap (λ p. p.1) h))
      split true e (Memᴰ.tail n) ih =
          let q = (==_iff k a.device_group_id).0 e in
          inl (λ u. apart xs (subst (λ j. Memᴰ (j, xs) by_dg) (u ∙ sym q) n), Memᴰ.tail n)
      split false e (Memᴰ.head h) ih = inl (
        λ u. absurd (cc ((==_iff k a.device_group_id).1 (sym (ap (λ p. p.0) h) ∙ u), e)),
        Memᴰ.head h,
      )
      split false e (Memᴰ.tail n) ih =
          later (ih n) (λ u. absurd (cc ((==_iff k a.device_group_id).1 u, e)))

  setdefault-Apart :
      (k : ℕ) (by_dg : Groups)
      → Distinct by_dg
      → Apart k by_dg
      → k ≢ a.device_group_id
      → Apart k (setdefault_append a by_dg)
  setdefault-Apart k by_dg d apart ne xs m = elim (setdefault-Taken k xs by_dg d m) [
    | inl t ↦ apart xs t.1
    | inr t ↦ ne t.0
  ]

  setdefault-Distinct : (by_dg : Groups) → Distinct by_dg → Distinct (setdefault_append a by_dg)
  unfolding setdefault_append
  setdefault-Distinct [] d = (λ xs m. Memᴰ.not-nil m, tt)
  setdefault-Distinct ((k, ys) ∷ by_dg) (apart, d) =
      split (k == a.device_group_id) refl (setdefault-Distinct by_dg d)
        (setdefault-Apart k by_dg d apart)
    where
      split :
          (b : Bool)
          → (k == a.device_group_id) ≡ b
          → Distinct (setdefault_append a by_dg)
          → (k ≢ a.device_group_id → Apart k (setdefault_append a by_dg))
          → Distinct (if b then (k, ys ++ a ∷ []) ∷ by_dg else (k, ys) ∷ setdefault_append a by_dg)
      split true e ih f = (apart, d)
      split false e ih f = (f (λ u. absurd (cc ((==_iff k a.device_group_id).1 u, e))), ih)

  abbrev Key : ℕ → Groups → Type 0
  Key dg by_dg = (xs : List Authorization) × Memᴰ (dg, xs) by_dg

  setdefault-Key :
      (dg : ℕ) (by_dg : Groups)
      → (dg ≡ a.device_group_id) ⊎ Key dg by_dg
      → Key dg (setdefault_append a by_dg)
  unfolding setdefault_append
  setdefault-Key dg [] (inl e) = (a ∷ [], Memᴰ.head (ap (λ k. (k, a ∷ [])) e))
  setdefault-Key dg [] (inr (xs, m)) = absurd (Memᴰ.not-nil m)
  setdefault-Key dg ((k, ys) ∷ by_dg) h =
      split (k == a.device_group_id) refl h (setdefault-Key dg by_dg)
    where
      split :
          (b : Bool)
          → (k == a.device_group_id) ≡ b
          → (dg ≡ a.device_group_id) ⊎ Key dg ((k, ys) ∷ by_dg)
          → ((dg ≡ a.device_group_id) ⊎ Key dg by_dg → Key dg (setdefault_append a by_dg))
          → Key dg (if b then (k, ys ++ a ∷ []) ∷ by_dg else (k, ys) ∷ setdefault_append a by_dg)
      split true e (inl q) ih = (
        ys ++ a ∷ [],
        Memᴰ.head (ap (λ n. (n, ys ++ a ∷ [])) (q ∙ sym ((==_iff k a.device_group_id).0 e))),
      )
      split true e (inr (xs, Memᴰ.head q)) ih =
          (ys ++ a ∷ [], Memᴰ.head (ap (λ n. (n, ys ++ a ∷ [])) (ap (λ p. p.0) q)))
      split true e (inr (xs, Memᴰ.tail m)) ih = (xs, Memᴰ.tail m)
      split false e (inl q) ih = let (zs, m) = ih (inl q) in (zs, Memᴰ.tail m)
      split false e (inr (xs, Memᴰ.head q)) ih = (xs, Memᴰ.head q)
      split false e (inr (xs, Memᴰ.tail m)) ih = let (zs, n) = ih (inr (xs, m)) in (zs, Memᴰ.tail n)

-- What the loop keeps true of the candidates seen.
pub record Grouped (seen : List Authorization) (by_dg : Groups) : Type 0 where
  pub distinct : Distinct by_dg
  pub holds : Holds seen by_dg
  pub covers : Covers seen by_dg

setdefault-Grouped :
    (a : Authorization) (seen : List Authorization) (by_dg : Groups)
    → Grouped seen by_dg
    → Grouped (seen ++ a ∷ []) (setdefault_append a by_dg)
setdefault-Grouped a seen by_dg g = record {
  distinct = setdefault-Distinct a by_dg g.distinct;
  holds = λ dg xs m. entry dg xs (setdefault-Taken a dg xs by_dg g.distinct m);
  covers = λ b m. covered b (Memᴰ.append_cases seen m);
}
  where
    entry :
        (dg : ℕ) (xs : List Authorization) → Taken a dg xs by_dg → xs ≡ on_group dg (seen ++ a ∷ [])
    entry dg xs (inl (ne, m)) = g.holds dg xs m ∙ sym (on_group-other dg a seen ne)
    entry dg xs (inr (e, inl (ys, m, q))) =
        q
        ∙ ap (λ l. l ++ a ∷ []) (g.holds a.device_group_id ys m)
        ∙ sym (on_group-same a seen)
        ∙ ap (λ k. on_group k (seen ++ a ∷ [])) (sym e)
    entry dg xs (inr (e, inr (apart, q))) =
        q
        ∙ ap (λ l. l ++ a ∷ []) (sym (on_group-absent a.device_group_id seen absent))
        ∙ sym (on_group-same a seen)
        ∙ ap (λ k. on_group k (seen ++ a ∷ [])) (sym e)
      where
        absent : (b : Authorization) → Memᴰ b seen → b.device_group_id ≢ a.device_group_id
        absent b m u = let (ys, n) = g.covers b m in apart ys (subst (λ k. Memᴰ (k, ys) by_dg) u n)

    covered :
        (b : Authorization)
        → Memᴰ b seen ⊎ Memᴰ b (a ∷ [])
        → Key a b.device_group_id (setdefault_append a by_dg)
    covered b (inl m) = setdefault-Key a b.device_group_id by_dg (inr (g.covers b m))
    covered b (inr m) =
        setdefault-Key a b.device_group_id by_dg
          (inl (ap (λ (c : Authorization). c.device_group_id) (Memᴰ.eq_of_singleton m)))

group_on-Grouped :
    (auths seen : List Authorization) (by_dg : Groups)
    → Grouped seen by_dg
    → Grouped (seen ++ auths) (group_on by_dg auths)
unfolding group_on
group_on-Grouped [] seen by_dg g = subst (λ l. Grouped l by_dg) (sym (append-nil seen)) g
group_on-Grouped (a ∷ auths) seen by_dg g =
    subst (λ l. Grouped l (group_on (setdefault_append a by_dg) auths))
      (append_assoc seen (a ∷ []) auths)
      (group_on-Grouped auths (seen ++ a ∷ []) (setdefault_append a by_dg)
        (setdefault-Grouped a seen by_dg g))

-- The entries of the dictionary are the non-empty groups of the candidates.
pub by_dg-Grouped : (auths : List Authorization) → Grouped auths (group_on [] auths)
by_dg-Grouped auths = group_on-Grouped auths [] [] (record {
  distinct = tt;
  holds = λ dg xs m. absurd (Memᴰ.not-nil m);
  covers = λ a m. absurd (Memᴰ.not-nil m);
})
