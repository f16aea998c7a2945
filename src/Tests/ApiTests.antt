-- ===== src/Tests/ApiTests.antt =====
-- The management routes at concrete inputs: a new installation that gets a device group and a device.
use mathlib.Core.List.Memᴰ
use tacacs_web.Prelude.{◌≡◌, refl, true, false, none, some, [], Str, str, str_eq, decimal, any}
use tacacs_web.Models.{DeviceGroup}
use tacacs_web.Result.{Result, ok, err, ◌>>=◌}
use tacacs_web.Audit.Actions.{is_action}
use tacacs_web.Db.{Db, empty_db}
use tacacs_web.Auth.Sessions.{SessionContext}
use tacacs_web.Api.Site.{Site, regen, rendered}
use tacacs_web.Api.Devices.{
  DeviceCreate, DeviceRead, valid_create, create_device, rotate_secret, retire_previous_secret,
}
use tacacs_web.Api.DeviceGroups.{DeviceGroupCreate, create_device_group}
use tacacs_web.Api.WellFormed.{WellFormed}
use tacacs_web.Api.History.{History, start, device, other, created, group_created}
use tacacs_web.Api.History.Invariant.{History-WellFormed}
use tacacs_web.Api.History.Hosts.{History-hosts_file}
use tacacs_web.Tests.Data.{parsers}

abbrev same : Str → Str
same s = s

abbrev ctx : SessionContext
ctx = record {
  token = str "t";
  username = str "root";
  role = str "admin";
  auth_method = str "local";
  actor_id = some 1;
  client_ip = none;
  user_agent = none;
}

abbrev routers : DeviceGroupCreate
routers = record { name = str "routers"; description = none }

abbrev core : DeviceCreate
core = record {
  name = str "core";
  ip_or_cidr = str "10.0.0.0/24";
  device_group_id = 1;
  current_secret = some (str "0123456789abcdef");
  description = none;
}

abbrev new_site : Site
new_site = record { db = empty_db; hosts_file = [] }

abbrev routers_row : DeviceGroup
routers_row = record { id = 1; name = str "routers"; description = none; created_at = 5 }

-- What a handler commits.
abbrev db_of : {A : Type 0} → Result (A × Db) → Db
db_of (ok s) = s.1
db_of (err e) = empty_db

abbrev grouped : Db
grouped = db_of (create_device_group same 5 ctx routers empty_db)

grouped_lem : create_device_group same 5 ctx routers empty_db ≡ ok (routers_row, grouped)
unfolding create_device_group ◌>>=◌ is_action str_eq
grouped_lem = refl

abbrev core_read : DeviceRead
core_read = record {
  id = 1;
  name = str "core";
  ip_or_cidr = str "10.0.0.0/24";
  device_group_id = 1;
  has_current_secret = true;
  has_previous_secret = false;
  previous_retired_at = none;
  description = none;
  created_at = 6;
  updated_at = 6;
}

abbrev provisioned : Db
provisioned = db_of (create_device parsers same 6 ctx core grouped)

provisioned_lem : create_device parsers same 6 ctx core grouped ≡ ok (core_read, provisioned)
unfolding create_device create_device_group ◌>>=◌ is_action str_eq valid_create any decimal
provisioned_lem = refl

abbrev secret : Str
secret = str "shared"

abbrev provisioned_site : Site
unfolding regen
provisioned_site = regen secret true (record { db = provisioned; hosts_file = [] })

history : History parsers same secret new_site true provisioned_site
unfolding provisioned_site regen
history =
    device true (other start (group_created 5 ctx routers routers_row grouped_lem))
      (created 6 ctx core core_read provisioned_lem)

empty_db-WellFormed : WellFormed empty_db
empty_db-WellFormed = (
  (
    λ a m. absurd (Memᴰ.not-nil m),
    λ a b m k h. absurd (Memᴰ.not-nil m),
    λ a b m k h. absurd (Memᴰ.not-nil m),
    λ d m. absurd (Memᴰ.not-nil m),
  ),
  (λ a m. absurd (Memᴰ.not-nil m), λ a b m k h. absurd (Memᴰ.not-nil m)),
  (
    λ a m. absurd (Memᴰ.not-nil m),
    λ a b m k h. absurd (Memᴰ.not-nil m),
    λ p m. absurd (Memᴰ.not-nil m),
  ),
  (
    λ a m. absurd (Memᴰ.not-nil m),
    λ a b m k h. absurd (Memᴰ.not-nil m),
    λ a m. absurd (Memᴰ.not-nil m),
  ),
)

History-WellFormed_example : WellFormed provisioned_site.db
History-WellFormed_example =
    History-WellFormed parsers same secret new_site provisioned_site true history
      empty_db-WellFormed

History-hosts_file_example : provisioned_site.hosts_file ≡ rendered secret provisioned_site
History-hosts_file_example =
    History-hosts_file parsers same secret new_site provisioned_site history

abbrev next_secret : Str
next_secret = str "fedcba9876543210"

abbrev rotated_db : Db
rotated_db = db_of (rotate_secret 7 ctx 1 next_secret provisioned)

abbrev rotated_read : DeviceRead
rotated_read = record core_read { has_previous_secret = true; updated_at = 7 }

abbrev retired_db : Db
retired_db = db_of (retire_previous_secret 8 ctx 1 rotated_db)

abbrev retired_read : DeviceRead
retired_read = record core_read { previous_retired_at = some 8; updated_at = 8 }
