-- ===== src/Api/History/Invariant.antt =====
-- Every database that the management API commits is well formed.
use tacacs_web.Prelude.{Bool, true, false, Str}
use tacacs_web.Db.{Db}
use tacacs_web.Ipaddress.{Ipaddress}
use tacacs_web.Api.WellFormed.{WellFormed}
use tacacs_web.Api.Devices.Keeps.{
  create_device-WellFormed, update_device-WellFormed, delete_device-WellFormed,
  rotate_secret-WellFormed, retire_previous_secret-WellFormed,
}
use tacacs_web.Api.DeviceGroups.Keeps.{
  create_device_group-WellFormed, update_device_group-WellFormed, delete_device_group-WellFormed,
}
use tacacs_web.Api.Profiles.Keeps.{
  create_privilege_profile-WellFormed, update_privilege_profile-WellFormed,
  delete_privilege_profile-WellFormed,
}
use tacacs_web.Api.Authorizations.Keeps.{
  create_authorization-WellFormed, delete_authorization-WellFormed,
}
use tacacs_web.Api.Site.{Site, regen}
use tacacs_web.Api.Site.Laws.{regenerate-eq-ok}
use tacacs_web.Api.History.{
  DeviceStep, OtherStep, History, created, updated, deleted, rotated, retired, group_created,
  group_updated, group_deleted, profile_created, profile_updated, profile_deleted,
  authorization_created, authorization_deleted, start, device, other, reconciled,
}

module _ (lib : Ipaddress) (repr : Str → Str) where
  DeviceStep-WellFormed :
      {db db' : Db} → DeviceStep lib repr db db' → WellFormed db → WellFormed db'
  DeviceStep-WellFormed (created {db} now ctx p r h) w =
      (create_device-WellFormed lib repr now ctx p db w).at _ h
  DeviceStep-WellFormed (updated {db} now ctx id p r h) w =
      (update_device-WellFormed lib repr now ctx id p db w).at _ h
  DeviceStep-WellFormed (deleted {db} now ctx id r h) w =
      (delete_device-WellFormed now ctx id db w).at _ h
  DeviceStep-WellFormed (rotated {db} now ctx id secret r h) w =
      (rotate_secret-WellFormed now ctx id secret db w).at _ h
  DeviceStep-WellFormed (retired {db} now ctx id r h) w =
      (retire_previous_secret-WellFormed now ctx id db w).at _ h

  OtherStep-WellFormed : {db db' : Db} → OtherStep lib repr db db' → WellFormed db → WellFormed db'
  OtherStep-WellFormed (group_created {db} now ctx p r h) w =
      (create_device_group-WellFormed repr now ctx p db w).at _ h
  OtherStep-WellFormed (group_updated {db} now ctx id p r h) w =
      (update_device_group-WellFormed repr now ctx id p db w).at _ h
  OtherStep-WellFormed (group_deleted {db} now ctx id r h) w =
      (delete_device_group-WellFormed repr now ctx id db w).at _ h
  OtherStep-WellFormed (profile_created {db} now ctx p r h) w =
      (create_privilege_profile-WellFormed repr now ctx p db w).at _ h
  OtherStep-WellFormed (profile_updated {db} now ctx id p r h) w =
      (update_privilege_profile-WellFormed repr now ctx id p db w).at _ h
  OtherStep-WellFormed (profile_deleted {db} now ctx id r h) w =
      (delete_privilege_profile-WellFormed repr now ctx id db w).at _ h
  OtherStep-WellFormed (authorization_created {db} now ctx p r h) w =
      (create_authorization-WellFormed now ctx p db w).at _ h
  OtherStep-WellFormed (authorization_deleted {db} now ctx id r h) w =
      (delete_authorization-WellFormed now ctx id db w).at _ h

  regen-WellFormed :
      (secret : Str) (written : Bool) (s : Site)
      → WellFormed s.db
      → WellFormed (regen secret written s).db
  unfolding regen
  regen-WellFormed secret true s w = w
  regen-WellFormed secret false s w = w

  -- From a well-formed database, every database that the management routes reach, whatever the
  -- requests and their order, is well formed: names and addresses are unique, every device belongs to
  -- a group, every authorization has exactly one principal, a group and a profile that are there, no
  -- two authorizations are the same edge, privilege levels are at most 15, and ids are fresh.
  pub History-WellFormed :
      (secret : Str) (first s : Site) (b : Bool)
      → History lib repr secret first b s
      → WellFormed first.db
      → WellFormed s.db
  History-WellFormed secret first s b start w = w
  History-WellFormed secret first _ _ (device {b} {s} {db'} written h d) w =
      regen-WellFormed secret written (record s { db = db' })
        (DeviceStep-WellFormed d (History-WellFormed secret first s b h w))
  History-WellFormed secret first _ _ (other {b} {s} {db'} h o) w =
      OtherStep-WellFormed o (History-WellFormed secret first s b h w)
  History-WellFormed secret first s' _ (reconciled {b} {s} path now ctx r h e) w =
      (regenerate-eq-ok secret path now ctx s s' r e).1 (History-WellFormed secret first s b h w)
