-- ===== src/Api/Access/Enforced.antt =====
-- What the views show of a user is what the policy enforces.
use mathlib.Core.List.Memᴰ
use mathlib.Core.List.Permᴰ
use tacacs_web.Prelude.{
  ℕ, ◌≡◌, refl, sym, ap, ◌∙◌, subst, ◌↔◌, Bool, Option, none, some, List, [], ◌∷◌, ◌++◌, Memᴰ,
  Mem-perm, ◌==◌, ==_iff, find?, find?-eq-some, sort_by, sort_by-perm,
}
use tacacs_web.Models.{User, Authorization}
use tacacs_web.Result.{ok, ok_inj}
use tacacs_web.Db.{Db}
use tacacs_web.Authz.Policy.{EffectiveAuthorization, evaluate_for_user}
use tacacs_web.Mavis.Rpc.{groups_of}
use tacacs_web.Api.Access.{
  EffectivePermissionRead, effective_read, candidates_of, Groups, group_on, reads_of, permissions,
  by_group, permissions_of, list_effective_permissions,
}
use tacacs_web.Api.Access.Grouping.{by_dg-Grouped}
use tacacs_web.Api.Access.Outcomes.{outcome_on, outcome-eq, winner-Mem}

module _ {ℓ} {R : Type ℓ} (read : ℕ → Authorization → List Authorization → R) (db : Db)
    (user : User) where
  abbrev outcome : ℕ → List Authorization → EffectiveAuthorization
  outcome dg xs = evaluate_for_user user (groups_of db user) dg xs

  -- A row comes from an entry of the dictionary.
  abbrev FromEntry : R → Groups → Type ℓ
  FromEntry e by_dg =
      (dg : ℕ) × (xs : List Authorization) × (w : Authorization) × Memᴰ (dg, xs) by_dg
      × ((outcome dg xs).winning ≡ some w)
      × (e ≡ read dg w (outcome dg xs).overridden)

  permissions-FromEntry :
      (e : R) (by_dg : Groups) → Memᴰ e (permissions read db user by_dg) → FromEntry e by_dg
  unfolding permissions reads_of
  permissions-FromEntry e [] m = absurd (Memᴰ.not-nil m)
  permissions-FromEntry e ((dg, xs) ∷ by_dg) m =
      split (outcome dg xs).winning refl m (permissions-FromEntry e by_dg)
    where
      later : FromEntry e by_dg → FromEntry e ((dg, xs) ∷ by_dg)
      later (k, ys, w, n, h, q) = (k, ys, w, Memᴰ.tail n, h, q)

      split :
          (o : Option Authorization)
          → (outcome dg xs).winning ≡ o
          → Memᴰ e (reads_of read dg o (outcome dg xs).overridden ++ permissions read db user by_dg)
          → (Memᴰ e (permissions read db user by_dg) → FromEntry e by_dg)
          → FromEntry e ((dg, xs) ∷ by_dg)
      split none q n ih = later (ih n)
      split (some w) q (Memᴰ.head h) ih = (dg, xs, w, Memᴰ.head refl, q, h)
      split (some w) q (Memᴰ.tail n) ih = later (ih n)

  permissions-head :
      (dg : ℕ) (xs : List Authorization) (w : Authorization) (by_dg : Groups)
      → (outcome dg xs).winning ≡ some w
      → Memᴰ (read dg w (outcome dg xs).overridden) (permissions read db user ((dg, xs) ∷ by_dg))
  unfolding permissions reads_of
  permissions-head dg xs w by_dg h = rw h (Memᴰ.head refl)

  FromEntry-permissions :
      (e : R) (by_dg : Groups) → FromEntry e by_dg → Memᴰ e (permissions read db user by_dg)
  unfolding permissions
  FromEntry-permissions e [] (dg, xs, w, m, h, q) = absurd (Memᴰ.not-nil m)
  FromEntry-permissions e ((k, ys) ∷ by_dg) (dg, xs, w, Memᴰ.head i, h, q) =
      subst (λ p. Memᴰ e (permissions read db user (p ∷ by_dg))) i
        (subst (λ r. Memᴰ r (permissions read db user ((dg, xs) ∷ by_dg))) (sym q)
          (permissions-head dg xs w by_dg h))
  FromEntry-permissions e ((k, ys) ∷ by_dg) (dg, xs, w, Memᴰ.tail m, h, q) =
      Memᴰ.append_right _ (FromEntry-permissions e by_dg (dg, xs, w, m, h, q))

  -- The row is that of the outcome that the policy has for the user on a device group.
  abbrev pub Enforced : R → Type ℓ
  Enforced e =
      (dg : ℕ) × (w : Authorization) × ((outcome_on db user dg).winning ≡ some w)
      × (e ≡ read dg w (outcome_on db user dg).overridden)

  abbrev shown : List R
  shown = permissions read db user (group_on [] (candidates_of db user))

  pub shown-Enforced : (e : R) → Memᴰ e shown → Enforced e
  shown-Enforced e m =
      let (dg, xs, w, n, h, q) = permissions-FromEntry e _ m in
      let same =
        ap (outcome dg) ((by_dg-Grouped (candidates_of db user)).holds dg xs n)
        ∙ outcome-eq db user dg in
      (
        dg,
        w,
        ap (λ (o : EffectiveAuthorization). o.winning) (sym same) ∙ h,
        q ∙ ap (λ (o : EffectiveAuthorization). read dg w o.overridden) same,
      )

  pub Enforced-shown : (e : R) → Enforced e → Memᴰ e shown
  Enforced-shown e (dg, w, h, q) =
      let (m, on) = winner-Mem db user dg w h in
      let g = by_dg-Grouped (candidates_of db user) in
      let (xs, n) = g.covers w m in
      let at = subst (λ k. Memᴰ (k, xs) (group_on [] (candidates_of db user))) on n in
      let same = ap (outcome dg) (g.holds dg xs at) ∙ outcome-eq db user dg in
      FromEntry-permissions e _ (
        dg,
        xs,
        w,
        at,
        ap (λ (o : EffectiveAuthorization). o.winning) same ∙ h,
        q ∙ ap (λ (o : EffectiveAuthorization). read dg w o.overridden) (sym same),
      )

  -- A view is sorted in the end.
  pub sorted-Enforced : (before : R → R → Bool) (e : R) → Memᴰ e (sort_by before shown) ↔ Enforced e
  sorted-Enforced before e =
      let perm = sort_by-perm before shown in
      (
        λ n. shown-Enforced e (Mem-perm e perm n),
        λ n. Mem-perm e (Permᴰ.symm perm) (Enforced-shown e n),
      )

-- The view of a user answers with exactly the outcomes that the policy has for the user when it is
-- asked as the MAVIS route asks it, with the authorizations of one device group: a row is in the view
-- if and only if it is the row of a device group on which an authorization wins, with that winner and
-- what it overrides. A view is given only of a user that is there.
pub list_effective_permissions-Enforced :
    (user_id : ℕ) (db : Db) (view : List EffectivePermissionRead)
    → list_effective_permissions user_id db ≡ ok view
    → (user : User) × Memᴰ user db.users
      × (user.id ≡ user_id)
      × ((e : EffectivePermissionRead) → Memᴰ e view ↔ Enforced (effective_read db) db user e)
unfolding list_effective_permissions permissions_of
list_effective_permissions-Enforced user_id db view h =
    found (find? (λ (u : User). u.id == user_id) db.users) refl h
  where
    found :
        (o : Option User)
        → find? (λ (u : User). u.id == user_id) db.users ≡ o
        → permissions_of db o ≡ ok view
        → (user : User) × Memᴰ user db.users
          × (user.id ≡ user_id)
          × ((e : EffectivePermissionRead) → Memᴰ e view ↔ Enforced (effective_read db) db user e)
    found none q k = absurd (cc k)
    found (some user) q k =
        let (m, e) = find?-eq-some _ user db.users q in
        (
          user,
          m,
          (==_iff user.id user_id).0 e,
          λ r.
              subst (λ l. Memᴰ r l ↔ Enforced (effective_read db) db user r) (ok_inj k)
                (sorted-Enforced (effective_read db) db user by_group r),
        )
