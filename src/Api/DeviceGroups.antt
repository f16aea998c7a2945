-- ===== src/Api/DeviceGroups.antt =====
-- backend/app/api/v1/device_groups.py. A handler commits all or nothing, as in Api/Devices.
pub mod Keeps
use tacacs_web.Prelude.{
  ℕ, ◌+◌, Bool, not, ◌&&◌, Option, none, some, List, [], ◌∷◌, ◌++◌, Str, str, str_eq, leb, ◌==◌,
  any, sort_by, find?, filter, if◌then◌else◌,
}
use tacacs_web.Models.{Device, DeviceGroup, AuthorizationRow}
use tacacs_web.Result.{
  Result, ok, err, http, integrity_error, ◌>>=◌, ◌>>◌, guard, or_raise, on_conflict,
}
use tacacs_web.Db.{Db}
use tacacs_web.Auth.Sessions.{SessionContext}
use tacacs_web.Audit.Actions.{device_group_created, device_group_updated, device_group_deleted}
use tacacs_web.Audit.Logger.{append_crud}
use tacacs_web.Api.Tables.{get_row, put_row, delete_row, clashes_with}
use tacacs_web.Api.Devices.{is_between, all_some, changes, unprocessable}

abbrev pub group_id : DeviceGroup → ℕ
group_id g = g.id

pub record DeviceGroupCreate : Type 0 where
  pub name : Str
  pub description : Option Str

pub record DeviceGroupUpdate : Type 0 where
  pub name : Option Str
  pub description : Option Str

abbrev pub same_group_name : DeviceGroup → DeviceGroup → Bool
same_group_name a b = str_eq a.name b.name

unfoldable pub insert_device_group : DeviceGroup → Db → Result Db
unfolding clashes_with
insert_device_group row db =
    guard (not (clashes_with group_id same_group_name row db.device_groups)) integrity_error
    >> ok (record db {
      device_groups = db.device_groups ++ row ∷ [];
      next_device_group_id = db.next_device_group_id + 1;
    })

unfoldable pub update_group : DeviceGroup → Db → Result Db
unfolding clashes_with put_row
update_group row db =
    guard (not (clashes_with group_id same_group_name row db.device_groups)) integrity_error
    >> ok (record db { device_groups = put_row group_id row db.device_groups })

group_not_found : Option DeviceGroup → Result DeviceGroup
group_not_found row = or_raise (http 404 (str "Not Found")) row

unfoldable pub list_device_groups : Db → List DeviceGroup
list_device_groups db = sort_by (λ (a b : DeviceGroup). leb a.id b.id) db.device_groups

unfoldable pub get_device_group : ℕ → Db → Result DeviceGroup
unfolding group_not_found get_row find?
get_device_group id db = group_not_found (get_row group_id id db.device_groups)

abbrev GroupChanged : Type 0
GroupChanged = DeviceGroup × List Str

change_group_description : Option Str → GroupChanged → GroupChanged
change_group_description none c = c
change_group_description (some d) (row, changed) =
    (record row { description = some d }, changed ++ str "description" ∷ [])

new_device_group : ℕ → DeviceGroupCreate → Db → DeviceGroup
new_device_group now p db = record {
  id = db.next_device_group_id;
  name = p.name;
  description = p.description;
  created_at = now;
}

-- A device of the group forbids the delete, which raises at the commit: the mapper would set its
-- group to NULL, and the foreign key is RESTRICT. The authorizations of the group go with it, by the
-- foreign key's CASCADE.
unfoldable pub drop_group : ℕ → Db → Result Db
unfolding delete_row filter
drop_group id db =
    guard (not (any (λ (d : Device). d.device_group_id == id) db.devices)) integrity_error
    >> ok (record db {
      device_groups = delete_row group_id id db.device_groups;
      authorizations =
          filter (λ (a : AuthorizationRow). not (a.device_group_id == id)) db.authorizations;
    })

module _ (repr : Str → Str) (now : ℕ) (ctx : SessionContext) where
  unfoldable pub create_device_group : DeviceGroupCreate → Db → Result (DeviceGroup × Db)
  unfolding new_device_group insert_device_group append_crud
  create_device_group p db = do
    guard (is_between 1 128 p.name && all_some (is_between 0 2048) p.description)
        (http 422 unprocessable)
    let row = new_device_group now p db
    db1 ← on_conflict (str "name_already_exists") (insert_device_group row db)
    db2 ← append_crud now ctx device_group_created (str "device_group") row.id (some row.name) db1
    ok (row, db2)

  change_group_name : Option Str → GroupChanged → GroupChanged
  change_group_name none c = c
  change_group_name (some name) (row, changed) = if str_eq name row.name then (row, changed) else (
    record row { name = name },
    changed ++ (str "name " ++ (repr row.name ++ (str "->" ++ repr name))) ∷ [],
  )

  unfoldable pub update_device_group : ℕ → DeviceGroupUpdate → Db → Result (DeviceGroup × Db)
  unfolding group_not_found get_row find? change_group_name change_group_description update_group
      append_crud
  update_device_group id p db = do
    guard (all_some (is_between 1 128) p.name && all_some (is_between 0 2048) p.description)
        (http 422 unprocessable)
    old ← group_not_found (get_row group_id id db.device_groups)
    let (row, changed) = change_group_description p.description (change_group_name p.name (old, []))
    db1 ← on_conflict (str "name_already_exists") (update_group row db)
    db2 ←
        append_crud now ctx device_group_updated (str "device_group") row.id
          (some (row.name ++ (str ": " ++ changes changed))) db1
    ok (row, db2)

  unfoldable pub delete_device_group : ℕ → Db → Result (Unit {0} × Db)
  unfolding group_not_found get_row find? drop_group append_crud
  delete_device_group id db = do
    row ← group_not_found (get_row group_id id db.device_groups)
    db1 ← append_crud now ctx device_group_deleted (str "device_group") row.id (some row.name) db
    db2 ← on_conflict (str "device_group_in_use") (drop_group id db1)
    ok (tt, db2)
