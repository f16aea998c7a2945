-- ===== src/Api/History/Hosts.antt =====
-- The hosts file is the image of the device table.
use tacacs_web.Prelude.{ℕ, Bool, true, false, ◌≡◌, refl, ap, sym, ◌∙◌, List, Option, Str}
use tacacs_web.Models.{Device}
use tacacs_web.Result.{
  Result, ok, Ensures, Ensures-ok, Ensures->>=, ◌>>◌, >>=-eq-ok, ok_inj, on_conflict-eq-ok,
}
use tacacs_web.Db.{Db}
use tacacs_web.Ipaddress.{Ipaddress}
use tacacs_web.Auth.Sessions.{SessionContext}
use tacacs_web.Audit.Logger.{append_crud, crud_entry}
use tacacs_web.Api.Site.{Site, regen, rendered}
use tacacs_web.Api.Site.Laws.{regenerate-eq-ok}
use tacacs_web.Api.WellFormed.{append-eq-ok}
use tacacs_web.Api.DeviceGroups.{
  DeviceGroupCreate, DeviceGroupUpdate, insert_device_group, update_group, drop_group,
  create_device_group, update_device_group, delete_device_group,
}
use tacacs_web.Api.Profiles.{
  ProfileCreate, ProfileUpdate, insert_profile, update_profile, drop_profile,
  create_privilege_profile, update_privilege_profile, delete_privilege_profile,
}
use tacacs_web.Api.Authorizations.{
  AuthorizationCreate, insert_authorization, create_authorization, delete_authorization,
}
use tacacs_web.Api.History.{
  OtherStep, History, group_created, group_updated, group_deleted, profile_created, profile_updated,
  profile_deleted, authorization_created, authorization_deleted, start, device, other, reconciled,
}

-- The database commits with the devices of the first one.
abbrev Same {ℓ} : {A : Type ℓ} → Db → A × Db → Type 0
Same db s = s.1.devices ≡ db.devices

pub append_crud-devices :
    (now : ℕ) (ctx : SessionContext) (action target : Str) (id : ℕ) (summary : Option Str)
    (db db' : Db)
    → append_crud now ctx action target id summary db ≡ ok db'
    → db'.devices ≡ db.devices
unfolding append_crud
append_crud-devices now ctx action target id summary db db' h =
    let (log, next, q) = append-eq-ok now (crud_entry ctx action target id summary) db db' h in
    ap (λ (d : Db). d.devices) q

-- A guarded write that leaves the devices.
written-devices :
    (db : Db) (m : Result (Unit {0})) (d db' : Db)
    → d.devices ≡ db.devices
    → (m >> ok d) ≡ ok db'
    → db'.devices ≡ db.devices
written-devices db m d db' q h =
    let (u, e, f) = >>=-eq-ok _ _ db' h in sym (ap (λ (t : Db). t.devices) (ok_inj f)) ∙ q

module _ (repr : Str → Str) (now : ℕ) (ctx : SessionContext) where
  create_device_group-devices :
      (p : DeviceGroupCreate) (db : Db) → Ensures (Same db) (create_device_group repr now ctx p db)
  unfolding create_device_group insert_device_group
  create_device_group-devices p db = Ensures->>= _ _ λ u valid. Ensures->>= _ _ λ db1 inserted.
      Ensures->>= _ _ λ db2 audited. Ensures-ok (Same db) _ (
        append_crud-devices now ctx _ _ _ _ db1 db2 audited
        ∙ written-devices db _ _ db1 (λ i. db.devices) (on_conflict-eq-ok _ _ db1 inserted))

  update_device_group-devices :
      (id : ℕ) (p : DeviceGroupUpdate) (db : Db)
      → Ensures (Same db) (update_device_group repr now ctx id p db)
  unfolding update_device_group update_group
  update_device_group-devices id p db = Ensures->>= _ _ λ u valid. Ensures->>= _ _ λ old found.
      Ensures->>= _ _ λ db1 updated. Ensures->>= _ _ λ db2 audited. Ensures-ok (Same db) _ (
        append_crud-devices now ctx _ _ _ _ db1 db2 audited
        ∙ written-devices db _ _ db1 (λ i. db.devices) (on_conflict-eq-ok _ _ db1 updated))

  delete_device_group-devices :
      (id : ℕ) (db : Db) → Ensures (Same db) (delete_device_group repr now ctx id db)
  unfolding delete_device_group drop_group
  delete_device_group-devices id db = Ensures->>= _ _ λ row found. Ensures->>= _ _ λ db1 audited.
      Ensures->>= _ _ λ db2 dropped. Ensures-ok (Same db) _ (
        written-devices db1 _ _ db2 (λ i. db1.devices) (on_conflict-eq-ok _ _ db2 dropped)
        ∙ append_crud-devices now ctx _ _ _ _ db db1 audited)

  create_privilege_profile-devices :
      (p : ProfileCreate) (db : Db) → Ensures (Same db) (create_privilege_profile repr now ctx p db)
  unfolding create_privilege_profile insert_profile
  create_privilege_profile-devices p db = Ensures->>= _ _ λ u valid. Ensures->>= _ _ λ db1 inserted.
      Ensures->>= _ _ λ db2 audited. Ensures-ok (Same db) _ (
        append_crud-devices now ctx _ _ _ _ db1 db2 audited
        ∙ written-devices db _ _ db1 (λ i. db.devices) (on_conflict-eq-ok _ _ db1 inserted))

  update_privilege_profile-devices :
      (id : ℕ) (p : ProfileUpdate) (db : Db)
      → Ensures (Same db) (update_privilege_profile repr now ctx id p db)
  unfolding update_privilege_profile update_profile
  update_privilege_profile-devices id p db = Ensures->>= _ _ λ u valid. Ensures->>= _ _ λ old found.
      Ensures->>= _ _ λ db1 updated. Ensures->>= _ _ λ db2 audited. Ensures-ok (Same db) _ (
        append_crud-devices now ctx _ _ _ _ db1 db2 audited
        ∙ written-devices db _ _ db1 (λ i. db.devices) (on_conflict-eq-ok _ _ db1 updated))

  delete_privilege_profile-devices :
      (id : ℕ) (db : Db) → Ensures (Same db) (delete_privilege_profile repr now ctx id db)
  unfolding delete_privilege_profile drop_profile
  delete_privilege_profile-devices id db = Ensures->>= _ _ λ row found.
      Ensures->>= _ _ λ db1 audited. Ensures->>= _ _ λ db2 dropped. Ensures-ok (Same db) _ (
        written-devices db1 _ _ db2 (λ i. db1.devices) (on_conflict-eq-ok _ _ db2 dropped)
        ∙ append_crud-devices now ctx _ _ _ _ db db1 audited)

module _ (now : ℕ) (ctx : SessionContext) where
  create_authorization-devices :
      (p : AuthorizationCreate) (db : Db) → Ensures (Same db) (create_authorization now ctx p db)
  unfolding create_authorization insert_authorization
  create_authorization-devices p db = Ensures->>= _ _ λ v one. Ensures->>= _ _ λ v1 principal.
      Ensures->>= _ _ λ v2 group. Ensures->>= _ _ λ v3 profile. Ensures->>= _ _ λ db1 inserted.
        Ensures->>= _ _ λ db2 audited. Ensures-ok (Same db) _ (
          append_crud-devices now ctx _ _ _ _ db1 db2 audited
          ∙ written-devices db _ _ db1 (λ i. db.devices) (on_conflict-eq-ok _ _ db1 inserted))

  delete_authorization-devices :
      (id : ℕ) (db : Db) → Ensures (Same db) (delete_authorization now ctx id db)
  unfolding delete_authorization
  delete_authorization-devices id db = Ensures->>= _ _ λ row found.
      Ensures->>= _ _
        λ db1 audited. Ensures-ok (Same db) _ (append_crud-devices now ctx _ _ _ _ _ db1 audited)

module _ (lib : Ipaddress) (repr : Str → Str) where
  OtherStep-devices : {db db' : Db} → OtherStep lib repr db db' → db'.devices ≡ db.devices
  OtherStep-devices (group_created {db} now ctx p r h) =
      (create_device_group-devices repr now ctx p db).at _ h
  OtherStep-devices (group_updated {db} now ctx id p r h) =
      (update_device_group-devices repr now ctx id p db).at _ h
  OtherStep-devices (group_deleted {db} now ctx id r h) =
      (delete_device_group-devices repr now ctx id db).at _ h
  OtherStep-devices (profile_created {db} now ctx p r h) =
      (create_privilege_profile-devices repr now ctx p db).at _ h
  OtherStep-devices (profile_updated {db} now ctx id p r h) =
      (update_privilege_profile-devices repr now ctx id p db).at _ h
  OtherStep-devices (profile_deleted {db} now ctx id r h) =
      (delete_privilege_profile-devices repr now ctx id db).at _ h
  OtherStep-devices (authorization_created {db} now ctx p r h) =
      (create_authorization-devices now ctx p db).at _ h
  OtherStep-devices (authorization_deleted {db} now ctx id r h) =
      (delete_authorization-devices now ctx id db).at _ h

  -- Whatever requests have been served since the site `first`, in whatever order, and also after writes
  -- of the hosts file that failed: if the last request that was to write the file wrote it, the file is
  -- the rendering of the device table as it is now, the fallback of an empty table included.
  pub History-hosts_file :
      (secret : Str) (first s : Site)
      → History lib repr secret first true s
      → s.hosts_file ≡ rendered secret s
  unfolding regen
  History-hosts_file secret first s h = current true s h (λ i. true)
    where
      current :
          (b : Bool) (t : Site)
          → History lib repr secret first b t
          → b ≡ true
          → t.hosts_file ≡ rendered secret t
      current _ _ start e = absurd (cc e)
      current _ _ (device true h d) e = refl
      current _ _ (device false h d) e = absurd (cc e)
      current _ _ (other {b} {s = t} {db'} h o) e =
          current b t h e
          ∙ ap
              (λ (l : List Device). rendered secret (record t { db = record t.db { devices = l } }))
              (sym (OtherStep-devices o))
      current _ t (reconciled {b} {s = before} path now ctx r h q) e =
          (regenerate-eq-ok secret path now ctx before t r q).0
