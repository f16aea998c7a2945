-- ===== src/Api/Access.antt =====
-- backend/app/api/v1/effective_permissions.py, the view of what a user may do on each device group.
-- `my_access` is the child Mine.
pub mod Mine
pub mod Grouping
pub mod Outcomes
pub mod Enforced
use tacacs_web.Prelude.{
  ℕ, Bool, ◌||◌, Option, none, some, List, [], ◌∷◌, ◌++◌, map, Str, str, leb, ◌==◌, any, sort_by,
  find?, filter, if◌then◌else◌,
}
use tacacs_web.Models.{User, AdGroup, DeviceGroup, Authorization, AuthorizationRow}
use tacacs_web.Result.{Result, ok, err, http}
use tacacs_web.Db.{Db}
use tacacs_web.Authz.Policy.{EffectiveAuthorization, opt_eq, in_groups, evaluate_for_user}
use tacacs_web.Mavis.Rpc.{groups_of, load_authorizations}

pub record CandidateRead : Type 0 where
  pub authorization_id : ℕ
  pub principal_user_id : Option ℕ
  pub principal_ad_group_id : Option ℕ
  pub privilege_profile_id : ℕ
  pub tacacs_priv_lvl : ℕ

pub record EffectivePermissionRead : Type 0 where
  pub device_group_id : ℕ
  pub device_group_name : Str
  pub winning : CandidateRead
  pub overridden : List CandidateRead

abbrev pub to_candidate : Authorization → CandidateRead
to_candidate a = record {
  authorization_id = a.id;
  principal_user_id = a.principal_user_id;
  principal_ad_group_id = a.principal_ad_group_id;
  privilege_profile_id = a.privilege_profile_id;
  tacacs_priv_lvl = a.privilege_profile.tacacs_priv_lvl;
}

-- The `where` of `candidate_stmt`: NULL equals nothing and is in no list.
unfoldable pub is_of_user : ℕ → List ℕ → AuthorizationRow → Bool
unfolding in_groups
is_of_user user_id group_ids a =
    opt_eq a.principal_user_id user_id || in_groups group_ids a.principal_ad_group_id

unfoldable pub candidates_of : Db → User → List Authorization
unfolding groups_of is_of_user load_authorizations filter
candidates_of db user = load_authorizations db.profiles (
    filter (is_of_user user.id (map (λ (g : AdGroup). g.id) (groups_of db user))) db.authorizations)

abbrev pub Groups : Type 0
Groups = List (ℕ × List Authorization)

-- `by_dg.setdefault(auth.device_group_id, []).append(auth)`
pub setdefault_append : Authorization → Groups → Groups
setdefault_append auth [] = (auth.device_group_id, auth ∷ []) ∷ []
setdefault_append auth ((dg_id, auths) ∷ by_dg) =
    let rest = setdefault_append auth by_dg in
    if dg_id == auth.device_group_id
    then (dg_id, auths ++ auth ∷ []) ∷ by_dg
    else (dg_id, auths) ∷ rest

pub group_on : Groups → List Authorization → Groups
unfolding setdefault_append
group_on by_dg [] = by_dg
group_on by_dg (auth ∷ auths) = group_on (setdefault_append auth by_dg) auths

-- `dgs[dg_id].name if dg_id in dgs else ""`
unfoldable pub group_name : Db → ℕ → Str
unfolding find?
group_name db dg_id = elim (find? (λ (g : DeviceGroup). g.id == dg_id) db.device_groups) [
  | none ↦ []
  | some g ↦ g.name
]

abbrev pub effective_read : Db → ℕ → Authorization → List Authorization → EffectivePermissionRead
unfolding group_name
effective_read db dg_id winning overridden = record {
  device_group_id = dg_id;
  device_group_name = group_name db dg_id;
  winning = to_candidate winning;
  overridden = map to_candidate overridden;
}

module _ {ℓ} {R : Type ℓ} (read : ℕ → Authorization → List Authorization → R) where
  -- One turn of the loops of both views: `continue` without a winner.
  pub reads_of : ℕ → Option Authorization → List Authorization → List R
  reads_of dg_id none overridden = []
  reads_of dg_id (some winning) overridden = read dg_id winning overridden ∷ []

  pub permissions : Db → User → Groups → List R
  unfolding evaluate_for_user reads_of groups_of
  permissions db user [] = []
  permissions db user ((dg_id, dg_candidates) ∷ rest) =
      let outcome = evaluate_for_user user (groups_of db user) dg_id dg_candidates in
      reads_of dg_id outcome.winning outcome.overridden ++ permissions db user rest

pub by_group : EffectivePermissionRead → EffectivePermissionRead → Bool
by_group a b = leb a.device_group_id b.device_group_id

pub permissions_of : Db → Option User → Result (List EffectivePermissionRead)
unfolding candidates_of group_on permissions by_group sort_by effective_read
permissions_of db none = err (http 404 (str "unknown_user_id"))
permissions_of db (some user) = ok (
    sort_by by_group
      (permissions (effective_read db) db user (group_on [] (candidates_of db user))))

unfoldable pub list_effective_permissions : ℕ → Db → Result (List EffectivePermissionRead)
unfolding permissions_of find?
list_effective_permissions user_id db =
    permissions_of db (find? (λ (u : User). u.id == user_id) db.users)
