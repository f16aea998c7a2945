-- ===== src/Authz/Policy/Candidates.antt =====
-- Who is a candidate, independently of the loop: an authorization on the device group whose
-- principal is the user or a group of the user.
use mathlib.Core.List.Memᴰ
use tacacs_web.Prelude.{
  ℕ, ◌≡◌, ap, ◌⊎◌, inl, inr, true, Option, none, some, List, map, Memᴰ, arith, ◌==◌, ==_iff,
  ==_refl, any, any-eq-true, any-Mem, &&-eq-true, Bool-cases,
}
use tacacs_web.Models.{User, AdGroup, Authorization}
use tacacs_web.Authz.Policy.{opt_eq, in_groups, is_candidate}

pub record IsCandidate (user : User) (groups : List AdGroup) (device_group_id : ℕ)
    (auth : Authorization) : Type 0 where
  pub on_group : auth.device_group_id ≡ device_group_id
  pub principal :
      (auth.principal_user_id ≡ some user.id)
      ⊎ ((g : AdGroup) × Memᴰ g groups × (auth.principal_ad_group_id ≡ some g.id))

eq_of_opt_eq : (o : Option ℕ) (n : ℕ) → opt_eq o n ≡ true → o ≡ some n
eq_of_opt_eq none n h = cc
eq_of_opt_eq (some m) n h = ap some ((==_iff m n).0 h)

opt_eq_refl : (o : Option ℕ) (n : ℕ) → o ≡ some n → opt_eq o n ≡ true
opt_eq_refl o n h = rw h (==_refl n)

any_id :
    (groups : List AdGroup) (n : ℕ)
    → any (λ i. i == n) (map (λ g. g.id) groups) ≡ true
    → (g : AdGroup) × Memᴰ g groups × (n ≡ g.id)
any_id groups n h =
    let (i, m, e) = any-eq-true (λ i. i == n) (map (λ g. g.id) groups) h in
    let (g, m', e') = Memᴰ.of_map (λ (g : AdGroup). g.id) groups m in
    (g, m', ground (arith, ==_iff i n))

module _ (user : User) (groups : List AdGroup) (dg : ℕ) (auth : Authorization) where
  in_groups_sound :
      (o : Option ℕ)
      → in_groups (map (λ g. g.id) groups) o ≡ true
      → (g : AdGroup) × Memᴰ g groups × (o ≡ some g.id)
  unfolding in_groups
  in_groups_sound none h = cc
  in_groups_sound (some n) h = let (g, m, e) = any_id groups n h in (g, m, ap some e)

  in_groups_complete :
      (g : AdGroup)
      → Memᴰ g groups
      → (o : Option ℕ) → o ≡ some g.id
      → in_groups (map (λ g. g.id) groups) o ≡ true
  unfolding in_groups
  in_groups_complete g m none h = cc
  in_groups_complete g m (some n) h =
      any-Mem (λ i. i == n) g.id (map (λ g. g.id) groups) (Memᴰ.map (λ (g : AdGroup). g.id) m)
        (ground (arith, ==_iff g.id n))

  pub is_candidate_sound : is_candidate user groups dg auth ≡ true → IsCandidate user groups dg auth
  unfolding is_candidate
  is_candidate_sound h =
      let (on, p) = &&-eq-true _ _ h in
      record {
        on_group = (==_iff _ _).0 on;
        principal = elim (Bool-cases (opt_eq auth.principal_user_id user.id)) [
          | inl e ↦ inl (eq_of_opt_eq auth.principal_user_id user.id e)
          | inr e ↦ inr (in_groups_sound auth.principal_ad_group_id (rw e at p))
        ];
      }

  pub is_candidate_complete :
      IsCandidate user groups dg auth → is_candidate user groups dg auth ≡ true
  unfolding is_candidate
  is_candidate_complete c = elim c.principal [
    | inl e ↦ rw ((==_iff _ _).1 c.on_group, opt_eq_refl auth.principal_user_id user.id e)
    | inr (g, m, e) ↦
        let h = in_groups_complete g m auth.principal_ad_group_id e in
        let on = (==_iff _ _).1 c.on_group in ground (arith, h, on)
  ]
