-- ===== src/Api/Devices.antt =====
-- backend/app/api/v1/devices.py. Each handler is a transaction: it gives its answer and the database
-- that it commits, or raises and commits nothing. `repr` is Python's `repr` of a text. Ids are
-- natural numbers. The detail of a 422 answer, which FastAPI writes, is left out.
pub mod Keeps
pub mod Rotation
use tacacs_web.Prelude.{
  ℕ, ◌+◌, Bool, true, false, not, ◌&&◌, ◌||◌, Option, none, some, List, [], ◌∷◌, ◌++◌, map, Str,
  str, str_eq, is_empty, is_some, decimal, join, leb, ◌==◌, sort_by, find?, length, if◌then◌else◌,
}
use tacacs_web.Models.{Device, AccountingRecord}
use tacacs_web.Result.{
  Result, ok, err, http, integrity_error, ◌>>=◌, ◌>>◌, guard, or_raise, on_conflict,
}
use tacacs_web.Db.{Db}
use tacacs_web.Ipaddress.{Ipaddress}
use tacacs_web.Auth.Sessions.{SessionContext}
use tacacs_web.Audit.Actions.{
  device_created, device_updated, device_deleted, device_secret_rotated, device_previous_retired,
}
use tacacs_web.Audit.Logger.{append_crud}
use tacacs_web.Api.Tables.{get_row, put_row, delete_row, clashes_with}

abbrev pub device_id : Device → ℕ
device_id d = d.id

pub record DeviceCreate : Type 0 where
  pub name : Str
  pub ip_or_cidr : Str
  pub device_group_id : ℕ
  pub current_secret : Option Str
  pub description : Option Str

pub record DeviceUpdate : Type 0 where
  pub name : Option Str
  pub ip_or_cidr : Option Str
  pub device_group_id : Option ℕ
  pub description : Option Str
  pub current_secret : Option Str

pub record DeviceRead : Type 0 where
  pub id : ℕ
  pub name : Str
  pub ip_or_cidr : Str
  pub device_group_id : ℕ
  pub has_current_secret : Bool
  pub has_previous_secret : Bool
  pub previous_retired_at : Option ℕ
  pub description : Option Str
  pub created_at : ℕ
  pub updated_at : ℕ

unfoldable pub from_row : Device → DeviceRead
from_row row = record {
  id = row.id;
  name = row.name;
  ip_or_cidr = row.ip_or_cidr;
  device_group_id = row.device_group_id;
  has_current_secret = is_some row.current_secret_enc;
  has_previous_secret = is_some row.previous_secret_enc;
  previous_retired_at = row.previous_retired_at;
  description = row.description;
  created_at = row.created_at;
  updated_at = row.updated_at;
}

-- `Field(min_length=1, max_length=…)`, and the same of a field that may be missing.
abbrev pub is_between : ℕ → ℕ → Str → Bool
is_between lo hi s = leb lo (length s) && leb (length s) hi

abbrev pub all_some {ℓ} : {A : Type ℓ} → (A → Bool) → Option A → Bool
all_some p none = true
all_some p (some a) = p a

abbrev pub unprocessable : Str
unprocessable = str "validation_error"

module _ (lib : Ipaddress) where
  unfoldable pub validate_ip_or_cidr : Str → Bool
  validate_ip_or_cidr value = is_some (lib.ip_network value)

  unfoldable pub valid_create : DeviceCreate → Bool
  unfolding validate_ip_or_cidr
  valid_create p =
      is_between 1 128 p.name
      && is_between 1 64 p.ip_or_cidr
      && validate_ip_or_cidr p.ip_or_cidr
      && all_some (is_between 0 512) p.current_secret
      && all_some (is_between 0 2048) p.description

  unfoldable pub valid_update : DeviceUpdate → Bool
  unfolding validate_ip_or_cidr
  valid_update p =
      all_some (is_between 1 128) p.name
      && all_some (is_between 1 64) p.ip_or_cidr
      && all_some validate_ip_or_cidr p.ip_or_cidr
      && all_some (is_between 0 2048) p.description
      && all_some (is_between 0 512) p.current_secret

unfoldable pub ensure_device_group_exists : ℕ → Db → Result (Unit {0})
unfolding get_row find?
ensure_device_group_exists id db =
    guard (is_some (get_row (λ g. g.id) id db.device_groups))
      (http 400 (str "unknown_device_group_id"))

-- The unique columns, as the flush of an insert or of an update checks them.
abbrev same_name_or_ip : Device → Device → Bool
same_name_or_ip a b = str_eq a.name b.name || str_eq a.ip_or_cidr b.ip_or_cidr

pub insert_device : Device → Db → Result Db
unfolding clashes_with
insert_device row db =
    guard (not (clashes_with device_id same_name_or_ip row db.devices)) integrity_error
    >> ok (record db { devices = db.devices ++ row ∷ []; next_device_id = db.next_device_id + 1 })

abbrev opt_str_eq : Option Str → Option Str → Bool
opt_str_eq none none = true
opt_str_eq (some a) (some b) = str_eq a b
opt_str_eq _ _ = false

abbrev opt_time_eq : Option ℕ → Option ℕ → Bool
opt_time_eq none none = true
opt_time_eq (some a) (some b) = a == b
opt_time_eq _ _ = false

-- An UPDATE is emitted only if a column changed; it sets `updated_at`.
abbrev same_columns : Device → Device → Bool
same_columns a b =
    str_eq a.name b.name
    && str_eq a.ip_or_cidr b.ip_or_cidr
    && a.device_group_id == b.device_group_id
    && opt_str_eq a.current_secret_enc b.current_secret_enc
    && opt_str_eq a.previous_secret_enc b.previous_secret_enc
    && opt_time_eq a.previous_retired_at b.previous_retired_at
    && opt_str_eq a.description b.description

abbrev stamped : ℕ → Device → Device → Device
stamped now old new = if same_columns old new then old else record new { updated_at = now }

-- The row behind the flush, and the database.
pub flush_device : ℕ → Device → Device → Db → Result (Device × Db)
unfolding clashes_with put_row
flush_device now old new db =
    let row = stamped now old new in
    guard (not (clashes_with device_id same_name_or_ip row db.devices)) integrity_error
    >> ok (row, record db { devices = put_row device_id row db.devices })

not_found : Option Device → Result Device
not_found row = or_raise (http 404 (str "Not Found")) row

unfoldable pub list_devices : Db → List DeviceRead
unfolding from_row
list_devices db = map from_row (sort_by (λ (a b : Device). leb a.id b.id) db.devices)

unfoldable pub get_device : ℕ → Db → Result DeviceRead
unfolding not_found get_row find? from_row
get_device id db = do row ← not_found (get_row device_id id db.devices); ok (from_row row)

new_device : ℕ → DeviceCreate → Db → Device
new_device now p db = record {
  id = db.next_device_id;
  name = p.name;
  ip_or_cidr = p.ip_or_cidr;
  device_group_id = p.device_group_id;
  current_secret_enc = p.current_secret;
  previous_secret_enc = none;
  previous_retired_at = none;
  description = p.description;
  created_at = now;
  updated_at = now;
}

abbrev name_or_ip_already_exists : Str
name_or_ip_already_exists = str "name_or_ip_already_exists"

-- The row as it is changed, with the list `changed`.
abbrev Changed : Type 0
Changed = Device × List Str

change_group : Option ℕ → Db → Changed → Result Changed
unfolding ensure_device_group_exists
change_group none db c = ok c
change_group (some g) db (row, changed) =
    if g == row.device_group_id
    then ok (row, changed)
    else (ensure_device_group_exists g db
        >> ok (
          record row { device_group_id = g },
          changed ++ (str "dg " ++ (decimal row.device_group_id ++ (str "->" ++ decimal g))) ∷ [],
        ))

change_ip : Option Str → Changed → Changed
change_ip none c = c
change_ip (some ip) (row, changed) = if str_eq ip row.ip_or_cidr then (row, changed) else (
  record row { ip_or_cidr = ip },
  changed ++ (str "ip " ++ (row.ip_or_cidr ++ (str "->" ++ ip))) ∷ [],
)

change_description : Option Str → Changed → Changed
change_description none c = c
change_description (some d) (row, changed) =
    (record row { description = some d }, changed ++ str "description" ∷ [])

change_secret : Option Str → Changed → Changed
change_secret none c = c
change_secret (some s) (row, changed) =
    if is_empty s
    then (row, changed)
    else (record row { current_secret_enc = some s }, changed ++ str "secret" ∷ [])

-- `', '.join(changed) or 'no-op'`
abbrev pub changes : List Str → Str
changes [] = str "no-op"
changes (c ∷ cs) = join (str ", ") (c ∷ cs)

module _ (lib : Ipaddress) (repr : Str → Str) (now : ℕ) (ctx : SessionContext) where
  unfoldable pub create_device : DeviceCreate → Db → Result (DeviceRead × Db)
  unfolding ensure_device_group_exists insert_device new_device from_row append_crud
  create_device p db = do
    guard (valid_create lib p) (http 422 unprocessable)
    ensure_device_group_exists p.device_group_id db
    let row = new_device now p db
    db1 ← on_conflict name_or_ip_already_exists (insert_device row db)
    db2 ←
        append_crud now ctx device_created (str "device") row.id
          (some (row.name ++ (str " " ++ row.ip_or_cidr))) db1
    ok (from_row row, db2)

  change_name : Option Str → Changed → Changed
  change_name none c = c
  change_name (some name) (row, changed) = if str_eq name row.name then (row, changed) else (
    record row { name = name },
    changed ++ (str "name " ++ (repr row.name ++ (str "->" ++ repr name))) ∷ [],
  )

  unfoldable pub update_device : ℕ → DeviceUpdate → Db → Result (DeviceRead × Db)
  unfolding not_found get_row find? change_group change_name change_ip change_description
      change_secret flush_device from_row append_crud
  update_device id p db = do
    guard (valid_update lib p) (http 422 unprocessable)
    old ← not_found (get_row device_id id db.devices)
    c ← change_group p.device_group_id db (old, [])
    let (new, changed) =
        change_secret p.current_secret
          (change_description p.description (change_ip p.ip_or_cidr (change_name p.name c)))
    (row, db1) ← on_conflict name_or_ip_already_exists (flush_device now old new db)
    db2 ←
        append_crud now ctx device_updated (str "device") row.id
          (some (row.name ++ (str ": " ++ changes changed))) db1
    ok (from_row row, db2)

-- The foreign key of the accounting rows is set to NULL.
abbrev forget_device : ℕ → List AccountingRecord → List AccountingRecord
forget_device id rows =
    map
      (λ (r : AccountingRecord). elim r.device_id [
        | none ↦ r
        | some d ↦ if d == id then record r { device_id = none } else r
      ])
      rows

abbrev pub without_device : ℕ → Db → Db
without_device id db = record db {
  devices = delete_row device_id id db.devices;
  accounting = forget_device id db.accounting;
}

module _ (now : ℕ) (ctx : SessionContext) where
  unfoldable pub delete_device : ℕ → Db → Result (Unit {0} × Db)
  unfolding not_found get_row find? delete_row append_crud
  delete_device id db = do
    row ← not_found (get_row device_id id db.devices)
    db1 ←
        append_crud now ctx device_deleted (str "device") row.id
          (some (row.name ++ (str " " ++ row.ip_or_cidr))) (without_device id db)
    ok (tt, db1)

  unfoldable pub rotate_secret : ℕ → Str → Db → Result (DeviceRead × Db)
  unfolding not_found get_row find? flush_device from_row append_crud
  rotate_secret id new_secret db = do
    guard (is_between 1 512 new_secret) (http 422 unprocessable)
    old ← not_found (get_row device_id id db.devices)
    let new = record old {
      previous_secret_enc = old.current_secret_enc;
      previous_retired_at = none;
      current_secret_enc = some new_secret;
    }
    (row, db1) ← flush_device now old new db
    db2 ← append_crud now ctx device_secret_rotated (str "device") row.id (some row.name) db1
    ok (from_row row, db2)

  unfoldable pub retire_previous_secret : ℕ → Db → Result (DeviceRead × Db)
  unfolding not_found get_row find? flush_device from_row append_crud
  retire_previous_secret id db = do
    old ← not_found (get_row device_id id db.devices)
    let new = record old { previous_secret_enc = none; previous_retired_at = some now }
    (row, db1) ← flush_device now old new db
    db2 ← append_crud now ctx device_previous_retired (str "device") row.id (some row.name) db1
    ok (from_row row, db2)
