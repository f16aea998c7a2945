-- ===== src/Api/Profiles.antt =====
-- backend/app/api/v1/privilege_profiles.py. A handler commits all or nothing, as in Api/Devices.
pub mod Keeps
use tacacs_web.Prelude.{
  ℕ, ◌+◌, Bool, not, ◌&&◌, Option, none, some, List, [], ◌∷◌, ◌++◌, Str, str, str_eq, decimal, leb,
  ◌==◌, any, sort_by, find?, if◌then◌else◌,
}
use tacacs_web.Models.{PrivilegeProfile, AuthorizationRow}
use tacacs_web.Result.{
  Result, ok, err, http, integrity_error, ◌>>=◌, ◌>>◌, guard, or_raise, on_conflict,
}
use tacacs_web.Db.{Db}
use tacacs_web.Auth.Sessions.{SessionContext}
use tacacs_web.Audit.Actions.{
  privilege_profile_created, privilege_profile_updated, privilege_profile_deleted,
}
use tacacs_web.Audit.Logger.{append_crud}
use tacacs_web.Api.Tables.{get_row, put_row, delete_row, clashes_with}
use tacacs_web.Api.Devices.{is_between, all_some, changes, unprocessable}

abbrev pub profile_id : PrivilegeProfile → ℕ
profile_id p = p.id

pub record ProfileCreate : Type 0 where
  pub name : Str
  pub tacacs_priv_lvl : ℕ
  pub permit_commands_regex : List Str
  pub deny_commands_regex : List Str
  pub extra_av_pairs : List (Str × Str)
  pub description : Option Str

pub record ProfileUpdate : Type 0 where
  pub name : Option Str
  pub tacacs_priv_lvl : Option ℕ
  pub permit_commands_regex : Option (List Str)
  pub deny_commands_regex : Option (List Str)
  pub extra_av_pairs : Option (List (Str × Str))
  pub description : Option Str

unfoldable pub valid_profile_create : ProfileCreate → Bool
valid_profile_create p =
    leb p.tacacs_priv_lvl 15
    && is_between 1 128 p.name
    && all_some (is_between 0 2048) p.description

unfoldable pub valid_profile_update : ProfileUpdate → Bool
valid_profile_update p =
    all_some (λ n. leb n 15) p.tacacs_priv_lvl
    && all_some (is_between 1 128) p.name
    && all_some (is_between 0 2048) p.description

abbrev pub same_profile_name : PrivilegeProfile → PrivilegeProfile → Bool
same_profile_name a b = str_eq a.name b.name

unfoldable pub insert_profile : PrivilegeProfile → Db → Result Db
unfolding clashes_with
insert_profile row db =
    guard (not (clashes_with profile_id same_profile_name row db.profiles)) integrity_error
    >> ok
        (record db { profiles = db.profiles ++ row ∷ []; next_profile_id = db.next_profile_id + 1 })

unfoldable pub update_profile : PrivilegeProfile → Db → Result Db
unfolding clashes_with put_row
update_profile row db =
    guard (not (clashes_with profile_id same_profile_name row db.profiles)) integrity_error
    >> ok (record db { profiles = put_row profile_id row db.profiles })

profile_not_found : Option PrivilegeProfile → Result PrivilegeProfile
profile_not_found row = or_raise (http 404 (str "Not Found")) row

unfoldable pub list_privilege_profiles : Db → List PrivilegeProfile
list_privilege_profiles db = sort_by (λ (a b : PrivilegeProfile). leb a.id b.id) db.profiles

unfoldable pub get_privilege_profile : ℕ → Db → Result PrivilegeProfile
unfolding profile_not_found get_row find?
get_privilege_profile id db = profile_not_found (get_row profile_id id db.profiles)

new_profile : ℕ → ProfileCreate → Db → PrivilegeProfile
new_profile now p db = record {
  id = db.next_profile_id;
  name = p.name;
  tacacs_priv_lvl = p.tacacs_priv_lvl;
  permit_commands_regex = p.permit_commands_regex;
  deny_commands_regex = p.deny_commands_regex;
  extra_av_pairs = p.extra_av_pairs;
  description = p.description;
  created_at = now;
}

abbrev ProfileChanged : Type 0
ProfileChanged = PrivilegeProfile × List Str

change_priv_lvl : Option ℕ → ProfileChanged → ProfileChanged
change_priv_lvl none c = c
change_priv_lvl (some lvl) (row, changed) = if lvl == row.tacacs_priv_lvl then (row, changed) else (
  record row { tacacs_priv_lvl = lvl },
  changed ++ (str "priv-lvl " ++ (decimal row.tacacs_priv_lvl ++ (str "->" ++ decimal lvl))) ∷ [],
)

change_permit : Option (List Str) → ProfileChanged → ProfileChanged
change_permit none c = c
change_permit (some l) (row, changed) =
    (record row { permit_commands_regex = l }, changed ++ str "permit_commands" ∷ [])

change_deny : Option (List Str) → ProfileChanged → ProfileChanged
change_deny none c = c
change_deny (some l) (row, changed) =
    (record row { deny_commands_regex = l }, changed ++ str "deny_commands" ∷ [])

change_av_pairs : Option (List (Str × Str)) → ProfileChanged → ProfileChanged
change_av_pairs none c = c
change_av_pairs (some l) (row, changed) =
    (record row { extra_av_pairs = l }, changed ++ str "extra_av_pairs" ∷ [])

change_profile_description : Option Str → ProfileChanged → ProfileChanged
change_profile_description none c = c
change_profile_description (some d) (row, changed) =
    (record row { description = some d }, changed ++ str "description" ∷ [])

-- An authorization with the profile forbids the delete, which raises at the commit.
unfoldable pub drop_profile : ℕ → Db → Result Db
unfolding delete_row
drop_profile id db =
    guard (not (any (λ (a : AuthorizationRow). a.privilege_profile_id == id) db.authorizations))
      integrity_error
    >> ok (record db { profiles = delete_row profile_id id db.profiles })

module _ (repr : Str → Str) (now : ℕ) (ctx : SessionContext) where
  unfoldable pub create_privilege_profile : ProfileCreate → Db → Result (PrivilegeProfile × Db)
  unfolding valid_profile_create new_profile insert_profile append_crud
  create_privilege_profile p db = do
    guard (valid_profile_create p) (http 422 unprocessable)
    let row = new_profile now p db
    db1 ← on_conflict (str "name_already_exists") (insert_profile row db)
    db2 ←
        append_crud now ctx privilege_profile_created (str "privilege_profile") row.id
          (some (row.name ++ (str " priv-lvl=" ++ decimal row.tacacs_priv_lvl))) db1
    ok (row, db2)

  change_profile_name : Option Str → ProfileChanged → ProfileChanged
  change_profile_name none c = c
  change_profile_name (some name) (row, changed) =
      if str_eq name row.name then (row, changed) else (
        record row { name = name },
        changed ++ (str "name " ++ (repr row.name ++ (str "->" ++ repr name))) ∷ [],
      )

  abbrev changed_profile : ProfileUpdate → PrivilegeProfile → ProfileChanged
  unfolding change_profile_name change_priv_lvl change_permit change_deny change_av_pairs
      change_profile_description
  changed_profile p old = change_profile_description p.description (
      change_av_pairs p.extra_av_pairs (
        change_deny p.deny_commands_regex (
          change_permit p.permit_commands_regex
            (change_priv_lvl p.tacacs_priv_lvl (change_profile_name p.name (old, []))))))

  unfoldable pub update_privilege_profile : ℕ → ProfileUpdate → Db → Result (PrivilegeProfile × Db)
  unfolding valid_profile_update profile_not_found get_row find? change_profile_name change_priv_lvl
      change_permit change_deny change_av_pairs change_profile_description update_profile
      append_crud
  update_privilege_profile id p db = do
    guard (valid_profile_update p) (http 422 unprocessable)
    old ← profile_not_found (get_row profile_id id db.profiles)
    let (row, changed) = changed_profile p old
    db1 ← on_conflict (str "name_already_exists") (update_profile row db)
    db2 ←
        append_crud now ctx privilege_profile_updated (str "privilege_profile") row.id
          (some (row.name ++ (str ": " ++ changes changed))) db1
    ok (row, db2)

  unfoldable pub delete_privilege_profile : ℕ → Db → Result (Unit {0} × Db)
  unfolding profile_not_found get_row find? drop_profile append_crud
  delete_privilege_profile id db = do
    row ← profile_not_found (get_row profile_id id db.profiles)
    db1 ←
        append_crud now ctx privilege_profile_deleted (str "privilege_profile") row.id
          (some row.name) db
    db2 ← on_conflict (str "profile_in_use") (drop_profile id db1)
    ok (tt, db2)
