-- ===== src/Api/History.antt =====
-- The management API as a whole: the database and the hosts file that the routes of
-- backend/app/api/v1/devices.py, device_groups.py, privilege_profiles.py, authorizations.py and
-- admin.py leave, request by request. A request that raises leaves both as they are, and has no step.
pub mod Invariant
pub mod Hosts
use tacacs_web.Prelude.{ℕ, Bool, true, false, ◌≡◌, Option, none, List, Str, if◌then◌else◌}
use tacacs_web.Models.{Device, DeviceGroup, PrivilegeProfile, AuthorizationRow}
use tacacs_web.Result.{ok}
use tacacs_web.Db.{Db}
use tacacs_web.Ipaddress.{Ipaddress}
use tacacs_web.Auth.Sessions.{SessionContext}
use tacacs_web.Api.Site.{Site, regen, RegenerateResponse, regenerate}
use tacacs_web.Api.Devices.{
  DeviceCreate, DeviceUpdate, DeviceRead, create_device, update_device, delete_device,
  rotate_secret, retire_previous_secret,
}
use tacacs_web.Api.DeviceGroups.{
  DeviceGroupCreate, DeviceGroupUpdate, create_device_group, update_device_group,
  delete_device_group,
}
use tacacs_web.Api.Profiles.{
  ProfileCreate, ProfileUpdate, create_privilege_profile, update_privilege_profile,
  delete_privilege_profile,
}
use tacacs_web.Api.Authorizations.{AuthorizationCreate, create_authorization, delete_authorization}

module _ (lib : Ipaddress) (repr : Str → Str) where
  -- The routes that end in `_regen`.
  pub data DeviceStep : Db → Db → Type 0 where
    created :
        {db db' : Db} (now : ℕ) (ctx : SessionContext) (p : DeviceCreate) (r : DeviceRead)
        → create_device lib repr now ctx p db ≡ ok (r, db')
        → DeviceStep db db'
    updated :
        {db db' : Db} (now : ℕ) (ctx : SessionContext) (id : ℕ) (p : DeviceUpdate) (r : DeviceRead)
        → update_device lib repr now ctx id p db ≡ ok (r, db')
        → DeviceStep db db'
    deleted :
        {db db' : Db} (now : ℕ) (ctx : SessionContext) (id : ℕ) (r : Unit {0})
        → delete_device now ctx id db ≡ ok (r, db')
        → DeviceStep db db'
    rotated :
        {db db' : Db} (now : ℕ) (ctx : SessionContext) (id : ℕ) (secret : Str) (r : DeviceRead)
        → rotate_secret now ctx id secret db ≡ ok (r, db')
        → DeviceStep db db'
    retired :
        {db db' : Db} (now : ℕ) (ctx : SessionContext) (id : ℕ) (r : DeviceRead)
        → retire_previous_secret now ctx id db ≡ ok (r, db')
        → DeviceStep db db'

  -- The routes of the other tables.
  pub data OtherStep : Db → Db → Type 0 where
    group_created :
        {db db' : Db} (now : ℕ) (ctx : SessionContext) (p : DeviceGroupCreate) (r : DeviceGroup)
        → create_device_group repr now ctx p db ≡ ok (r, db')
        → OtherStep db db'
    group_updated :
        {db db' : Db} (now : ℕ) (ctx : SessionContext) (id : ℕ) (p : DeviceGroupUpdate)
        (r : DeviceGroup)
        → update_device_group repr now ctx id p db ≡ ok (r, db')
        → OtherStep db db'
    group_deleted :
        {db db' : Db} (now : ℕ) (ctx : SessionContext) (id : ℕ) (r : Unit {0})
        → delete_device_group repr now ctx id db ≡ ok (r, db')
        → OtherStep db db'
    profile_created :
        {db db' : Db} (now : ℕ) (ctx : SessionContext) (p : ProfileCreate) (r : PrivilegeProfile)
        → create_privilege_profile repr now ctx p db ≡ ok (r, db')
        → OtherStep db db'
    profile_updated :
        {db db' : Db} (now : ℕ) (ctx : SessionContext) (id : ℕ) (p : ProfileUpdate)
        (r : PrivilegeProfile)
        → update_privilege_profile repr now ctx id p db ≡ ok (r, db')
        → OtherStep db db'
    profile_deleted :
        {db db' : Db} (now : ℕ) (ctx : SessionContext) (id : ℕ) (r : Unit {0})
        → delete_privilege_profile repr now ctx id db ≡ ok (r, db')
        → OtherStep db db'
    authorization_created :
        {db db' : Db} (now : ℕ) (ctx : SessionContext) (p : AuthorizationCreate)
        (r : AuthorizationRow)
        → create_authorization now ctx p db ≡ ok (r, db')
        → OtherStep db db'
    authorization_deleted :
        {db db' : Db} (now : ℕ) (ctx : SessionContext) (id : ℕ) (r : Unit {0})
        → delete_authorization now ctx id db ≡ ok (r, db')
        → OtherStep db db'

  -- The sites reached from `first`. The test says that the last request that was to write the
  -- file did.
  pub data History (shared_secret : Str) (first : Site) : Bool → Site → Type 0 where
    start : History shared_secret first false first
    device :
        {b : Bool} {s : Site} {db' : Db} (written : Bool)
        → History shared_secret first b s
        → DeviceStep s.db db'
        → History shared_secret first written (regen shared_secret written (record s { db = db' }))
    other :
        {b : Bool} {s : Site} {db' : Db}
        → History shared_secret first b s
        → OtherStep s.db db'
        → History shared_secret first b (record s { db = db' })
    reconciled :
        {b : Bool} {s s' : Site} (path : Str) (now : ℕ) (ctx : SessionContext)
        (r : RegenerateResponse)
        → History shared_secret first b s
        → regenerate shared_secret path none now ctx s ≡ (ok r, s')
        → History shared_secret first true s'
