-- ===== src/Api/WellFormed.antt =====
-- What holds of the tables that the management routes write: the unique columns, the foreign keys and
-- the check constraints, and ids below the next one.
use tacacs_web.Prelude.{
  ℕ, ◌≤◌, ◌≡◌, sym, subst, Bool, true, false, Option, none, some, List, Memᴰ, Str, ◌+◌, [], ◌∷◌,
  ◌++◌, if◌then◌else◌,
}
use tacacs_web.Models.{
  User, AdGroup, Device, DeviceGroup, PrivilegeProfile, AuthorizationRow, AuditLog,
}
use tacacs_web.Result.{ok, err, value_error, ok_inj}
use tacacs_web.Db.{Db}
use tacacs_web.Auth.Sessions.{SessionContext}
use tacacs_web.Audit.Actions.{is_action}
use tacacs_web.Audit.Logger.{Entry, audit_row, append, crud_entry, append_crud}
use tacacs_web.Api.Tables.{HasRow, Unique, Fresh}
use tacacs_web.Api.Devices.{device_id}
use tacacs_web.Api.DeviceGroups.{group_id}
use tacacs_web.Api.Profiles.{profile_id}
use tacacs_web.Api.Authorizations.{authorization_id, user_id, ad_group_id, same_edge}

abbrev pub DevicesOk : List Device → ℕ → List DeviceGroup → Type 0
DevicesOk devices next groups =
    Fresh device_id devices next
    × Unique device_id (λ (a b : Device). a.name ≡ b.name) devices
    × Unique device_id (λ (a b : Device). a.ip_or_cidr ≡ b.ip_or_cidr) devices
    × ((d : Device) → Memᴰ d devices → HasRow group_id d.device_group_id groups)

abbrev pub GroupsOk : List DeviceGroup → ℕ → Type 0
GroupsOk groups next =
    Fresh group_id groups next × Unique group_id (λ (a b : DeviceGroup). a.name ≡ b.name) groups

abbrev pub ProfilesOk : List PrivilegeProfile → ℕ → Type 0
ProfilesOk profiles next =
    Fresh profile_id profiles next
    × Unique profile_id (λ (a b : PrivilegeProfile). a.name ≡ b.name) profiles
    × ((p : PrivilegeProfile) → Memᴰ p profiles → p.tacacs_priv_lvl ≤ 15)

-- A principal is a user or a group of the directory, not both, and is there.
abbrev pub HasPrincipal : Option ℕ → Option ℕ → List User → List AdGroup → Type 0
HasPrincipal (some u) none users ad_groups = HasRow user_id u users
HasPrincipal none (some g) users ad_groups = HasRow ad_group_id g ad_groups
HasPrincipal (some u) (some g) users ad_groups = ⊥
HasPrincipal none none users ad_groups = ⊥

abbrev pub AuthorizationsOk :
    List AuthorizationRow
    → ℕ
    → List User
    → List AdGroup
    → List DeviceGroup
    → List PrivilegeProfile
    → Type 0
AuthorizationsOk rows next users ad_groups groups profiles =
    Fresh authorization_id rows next
    × Unique authorization_id (λ (a b : AuthorizationRow). same_edge a b ≡ true) rows
    × ((a : AuthorizationRow)
        → Memᴰ a rows
        → HasPrincipal a.principal_user_id a.principal_ad_group_id users ad_groups
          × HasRow group_id a.device_group_id groups
          × HasRow profile_id a.privilege_profile_id profiles)

abbrev pub WellFormed : Db → Type 0
WellFormed db =
    DevicesOk db.devices db.next_device_id db.device_groups
    × GroupsOk db.device_groups db.next_device_group_id
    × ProfilesOk db.profiles db.next_profile_id
    × AuthorizationsOk db.authorizations db.next_authorization_id db.users db.ad_groups
        db.device_groups db.profiles

-- What a handler commits satisfies the predicate.
abbrev pub Commits {ℓ} : {A : Type ℓ} → (Db → Type 0) → A × Db → Type 0
Commits P s = P s.1

-- An audit row touches none of the tables.
pub append-eq-ok :
    (now : ℕ) (e : Entry) (db db' : Db)
    → append now e db ≡ ok db'
    → (log : List AuditLog) × (next : ℕ) × (db'
        ≡ record db { audit_log = log; next_audit_id = next })
unfolding append
append-eq-ok now e db db' h = split (is_action e.action) h
  where
    logged : Db
    logged = record db {
      audit_log = db.audit_log ++ audit_row db.next_audit_id now e ∷ [];
      next_audit_id = db.next_audit_id + 1;
    }

    split :
        (b : Bool)
        → (if b then ok logged else err value_error) ≡ ok db'
        → (log : List AuditLog) × (next : ℕ) × (db'
            ≡ record db { audit_log = log; next_audit_id = next })
    split true e = (logged.audit_log, logged.next_audit_id, sym (ok_inj e))
    split false e = absurd (cc e)

pub append-WellFormed :
    (now : ℕ) (e : Entry) (db db' : Db) → append now e db ≡ ok db' → WellFormed db → WellFormed db'
append-WellFormed now e db db' h w =
    let (log, next, q) = append-eq-ok now e db db' h in subst WellFormed (sym q) w

pub append_crud-WellFormed :
    (now : ℕ) (ctx : SessionContext) (action target : Str) (id : ℕ) (summary : Option Str)
    (db db' : Db)
    → append_crud now ctx action target id summary db ≡ ok db'
    → WellFormed db
    → WellFormed db'
unfolding append_crud
append_crud-WellFormed now ctx action target id summary db db' =
    append-WellFormed now (crud_entry ctx action target id summary) db db'
