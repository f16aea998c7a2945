-- ===== src/Api/Authorizations.antt =====
-- backend/app/api/v1/authorizations.py. A handler commits all or nothing, as in Api/Devices.
pub mod Keeps
use tacacs_web.Prelude.{
  ℕ, ◌+◌, Bool, true, false, not, ◌&&◌, ◌||◌, Option, none, some, List, [], ◌∷◌, ◌++◌, Str, str,
  decimal, is_some, leb, ◌==◌, sort_by, find?, if◌then◌else◌,
}
use tacacs_web.Models.{User, AdGroup, AuthorizationRow}
use tacacs_web.Result.{
  Result, ok, err, http, integrity_error, ◌>>=◌, ◌>>◌, guard, or_raise, on_conflict,
}
use tacacs_web.Db.{Db}
use tacacs_web.Auth.Sessions.{SessionContext}
use tacacs_web.Audit.Actions.{authorization_created, authorization_deleted}
use tacacs_web.Audit.Logger.{append_crud}
use tacacs_web.Api.Tables.{get_row, delete_row, clashes_with}
use tacacs_web.Api.Devices.{ensure_device_group_exists, unprocessable}
use tacacs_web.Api.Profiles.{profile_id}

abbrev pub authorization_id : AuthorizationRow → ℕ
authorization_id a = a.id

abbrev pub user_id : User → ℕ
user_id u = u.id

abbrev pub ad_group_id : AdGroup → ℕ
ad_group_id g = g.id

pub record AuthorizationCreate : Type 0 where
  pub principal_user_id : Option ℕ
  pub principal_ad_group_id : Option ℕ
  pub device_group_id : ℕ
  pub privilege_profile_id : ℕ

-- `(a is None) == (b is None)` raises.
abbrev pub exactly_one_principal : Option ℕ → Option ℕ → Bool
exactly_one_principal none none = false
exactly_one_principal none (some g) = true
exactly_one_principal (some u) none = true
exactly_one_principal (some u) (some g) = false

-- NULL equals nothing, so that a unique constraint leaves out the rows without the column.
abbrev pub same_key : Option ℕ → Option ℕ → Bool
same_key (some a) (some b) = a == b
same_key _ _ = false

-- The two unique constraints.
abbrev pub same_edge : AuthorizationRow → AuthorizationRow → Bool
same_edge a b =
    (same_key a.principal_user_id b.principal_user_id
      || same_key a.principal_ad_group_id b.principal_ad_group_id)
    && a.device_group_id == b.device_group_id
    && a.privilege_profile_id == b.privilege_profile_id

unfoldable pub insert_authorization : AuthorizationRow → Db → Result Db
unfolding clashes_with
insert_authorization row db =
    guard (not (clashes_with authorization_id same_edge row db.authorizations)) integrity_error
    >> ok (record db {
      authorizations = db.authorizations ++ row ∷ [];
      next_authorization_id = db.next_authorization_id + 1;
    })

authorization_not_found : Option AuthorizationRow → Result AuthorizationRow
authorization_not_found row = or_raise (http 404 (str "Not Found")) row

unfoldable pub list_authorizations : Db → List AuthorizationRow
list_authorizations db = sort_by (λ (a b : AuthorizationRow). leb a.id b.id) db.authorizations

unfoldable pub get_authorization : ℕ → Db → Result AuthorizationRow
unfolding authorization_not_found get_row find?
get_authorization id db = authorization_not_found (get_row authorization_id id db.authorizations)

-- The payload has exactly one principal.
ensure_principal_exists : Option ℕ → Option ℕ → Db → Result (Unit {0})
unfolding get_row find?
ensure_principal_exists (some u) g db =
    guard (is_some (get_row user_id u db.users)) (http 400 (str "unknown_user_id"))
ensure_principal_exists none (some g) db =
    guard (is_some (get_row ad_group_id g db.ad_groups)) (http 400 (str "unknown_ad_group_id"))
ensure_principal_exists none none db = err (http 400 (str "unknown_ad_group_id"))

ensure_profile_exists : ℕ → Db → Result (Unit {0})
unfolding get_row find?
ensure_profile_exists id db =
    guard (is_some (get_row profile_id id db.profiles))
      (http 400 (str "unknown_privilege_profile_id"))

new_authorization : ℕ → AuthorizationCreate → Db → AuthorizationRow
new_authorization now p db = record {
  id = db.next_authorization_id;
  principal_user_id = p.principal_user_id;
  principal_ad_group_id = p.principal_ad_group_id;
  device_group_id = p.device_group_id;
  privilege_profile_id = p.privilege_profile_id;
  created_at = now;
}

abbrev principal_desc : Option ℕ → Option ℕ → Str
principal_desc (some u) g = str "user#" ++ decimal u
principal_desc none (some g) = str "ad_group#" ++ decimal g
principal_desc none none = str "ad_group#None"

abbrev edge_summary : AuthorizationRow → Str
edge_summary row =
    principal_desc row.principal_user_id row.principal_ad_group_id
    ++ (str " -> dg#"
        ++ (decimal row.device_group_id ++ (str " profile#" ++ decimal row.privilege_profile_id)))

module _ (now : ℕ) (ctx : SessionContext) where
  unfoldable pub create_authorization : AuthorizationCreate → Db → Result (AuthorizationRow × Db)
  unfolding ensure_principal_exists ensure_device_group_exists ensure_profile_exists
      new_authorization insert_authorization append_crud
  create_authorization p db = do
    guard (exactly_one_principal p.principal_user_id p.principal_ad_group_id)
        (http 422 unprocessable)
    ensure_principal_exists p.principal_user_id p.principal_ad_group_id db
    ensure_device_group_exists p.device_group_id db
    ensure_profile_exists p.privilege_profile_id db
    let row = new_authorization now p db
    db1 ← on_conflict (str "authorization_already_exists") (insert_authorization row db)
    db2 ←
        append_crud now ctx authorization_created (str "authorization") row.id
          (some (edge_summary row)) db1
    ok (row, db2)

  unfoldable pub delete_authorization : ℕ → Db → Result (Unit {0} × Db)
  unfolding authorization_not_found get_row find? delete_row append_crud
  delete_authorization id db = do
    row ← authorization_not_found (get_row authorization_id id db.authorizations)
    db1 ←
        append_crud now ctx authorization_deleted (str "authorization") row.id
          (some (edge_summary row))
          (record db { authorizations = delete_row authorization_id id db.authorizations })
    ok (tt, db1)
