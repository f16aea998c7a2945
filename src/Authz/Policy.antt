-- ===== src/Authz/Policy.antt =====
-- backend/app/authz/policy.py. The groups of a user are the relation `User.groups`, which the
-- callers load with the user.
pub mod Candidates
pub mod Winner
pub mod Order
use tacacs_web.Prelude.{
  ℕ, Bool, true, false, ◌&&◌, ◌||◌, not, Option, none, some, List, [], ◌∷◌, map, ltb, leb, ◌==◌,
  if◌then◌else◌, is_empty, any, filter, sort_by,
}
use tacacs_web.Models.{User, AdGroup, Authorization, PrivilegeProfile, is_direct}

-- Equality with an optional column: `None` equals no number.
abbrev pub opt_eq : Option ℕ → ℕ → Bool
opt_eq none n = false
opt_eq (some m) n = m == n

pub record EffectiveAuthorization : Type 0 where
  pub winning : Option Authorization
  pub overridden : List Authorization

abbrev pub profile : EffectiveAuthorization → Option PrivilegeProfile
profile e = elim e.winning [ none ↦ none | some a ↦ some a.privilege_profile ]

-- `principal_ad_group_id is not None and principal_ad_group_id in user_group_ids`
unfoldable pub in_groups : List ℕ → Option ℕ → Bool
unfolding any
in_groups ids none = false
in_groups ids (some g) = any (λ i. i == g) ids

-- The body of the loop that collects the candidates.
unfoldable pub is_candidate : User → List AdGroup → ℕ → Authorization → Bool
unfolding in_groups
is_candidate user groups device_group_id auth =
    (auth.device_group_id == device_group_id)
    && (opt_eq auth.principal_user_id user.id
        || in_groups (map (λ g. g.id) groups) auth.principal_ad_group_id)

-- The sort key `(-priv_lvl, id)`.
unfoldable pub before : Authorization → Authorization → Bool
before a b =
    let la = a.privilege_profile.tacacs_priv_lvl in
    let lb = b.privilege_profile.tacacs_priv_lvl in ltb lb la || ((la == lb) && leb a.id b.id)

-- `pool = direct if direct else candidates`
pool_of : List Authorization → List Authorization → List Authorization
pool_of [] candidates = candidates
pool_of (d ∷ direct) candidates = d ∷ direct

-- What the list `candidates` holds after `pool.sort`: without a personal authorization `pool` is that
-- same list, and is sorted in place.
after_sort : List Authorization → List Authorization → List Authorization → List Authorization
after_sort [] candidates pool = pool
after_sort (d ∷ direct) candidates pool = candidates

-- One object stands for each row, so `c is not winner` compares the ids.
pick : List Authorization → List Authorization → EffectiveAuthorization
unfolding filter
pick [] candidates = record { winning = none; overridden = [] }
pick (winner ∷ rest) candidates = record {
  winning = some winner;
  overridden = filter (λ c. not (c.id == winner.id)) candidates;
}

unfoldable pub evaluate_for_user :
    User → List AdGroup → ℕ → List Authorization → EffectiveAuthorization
unfolding filter sort_by is_candidate before pool_of after_sort pick
evaluate_for_user user groups device_group_id authorizations =
    let candidates = filter (is_candidate user groups device_group_id) authorizations in
    let direct = filter is_direct candidates in
    let pool = sort_by before (pool_of direct candidates) in
    pick pool (after_sort direct candidates pool)
