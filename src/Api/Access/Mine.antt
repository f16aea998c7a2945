-- ===== src/Api/Access/Mine.antt =====
-- `my_access` of backend/app/api/v1/effective_permissions.py. `ilike` is the operator of SQL, the text
-- before the pattern, and `collate` the order of the database's `ORDER BY` on texts.
pub mod Caller
use tacacs_web.Prelude.{
  ℕ, zero, suc, ◌<◌, ◌||◌, ◌&&◌, Bool, true, false, Option, none, some, List, [], ◌∷◌, map, Memᴰ,
  Mem-filter, ◌≡◌, refl, sym, ap, subst, ◌⊎◌, inl, inr, ◌↔◌, Str, str, strip, is_empty, take,
  length, ltb, ◌==◌, any, sort_by, find?, filter, if◌then◌else◌,
}
use tacacs_web.Prelude.Int.{ℤ, pos, negsuc}
use tacacs_web.Models.{User, AdGroup, Device, PrivilegeProfile, Authorization}
use tacacs_web.Result.{Result, ok, err, ◌>>=◌, >>=-eq-ok, ok_inj}
use tacacs_web.Db.{Db, scalar_one_or_none}
use tacacs_web.Auth.Sessions.{SessionContext}
use tacacs_web.Authz.Policy.{opt_eq}
use tacacs_web.Mavis.Rpc.{groups_of}
use tacacs_web.Api.Access.{candidates_of, group_on, permissions, group_name}

-- `MY_ACCESS_DEVICE_PREVIEW`
abbrev pub my_access_device_preview : ℕ
my_access_device_preview = 50

pub record MyDeviceRead : Type 0 where
  pub id : ℕ
  pub name : Str
  pub ip_or_cidr : Str

pub record MyAccessGroupRead : Type 0 where
  pub device_group_id : ℕ
  pub device_group_name : Str
  pub tacacs_priv_lvl : ℤ
  pub privilege_profile_name : Str
  pub via_ad_group_name : Option Str
  pub devices : List MyDeviceRead
  pub device_count : ℕ

pub record MyAccessRead : Type 0 where
  pub tacacs_username : Option Str
  pub display_name : Option Str
  pub groups : List MyAccessGroupRead

-- The order of Python on texts.
pub text_leb : Str → Str → Bool
text_leb [] t = true
text_leb (c ∷ s) [] = false
text_leb (c ∷ s) (d ∷ t) = ltb c d || ((c == d) && text_leb s t)

level_of : Option PrivilegeProfile → ℤ
level_of none = negsuc 0
level_of (some p) = pos p.tacacs_priv_lvl

prof_name : Option PrivilegeProfile → Str
prof_name none = []
prof_name (some p) = p.name

-- `group_names_by_id.get(principal_ad_group_id or -1)`: an id of 0 is no id.
via_name : List AdGroup → Option ℕ → Option Str
unfolding find?
via_name groups none = none
via_name groups (some zero) = none
via_name groups (some (suc n)) = elim (find? (λ (g : AdGroup). g.id == suc n) groups) [
  | none ↦ none
  | some g ↦ g.name
]

device_read : Device → MyDeviceRead
device_read d = record { id = d.id; name = d.name; ip_or_cidr = d.ip_or_cidr }

module _ (collate : Str → Str → Bool) where
  devices_of : Db → ℕ → List Device
  unfolding filter sort_by
  devices_of db dg_id =
      sort_by (λ (a b : Device). collate a.name b.name)
        (filter (λ (d : Device). d.device_group_id == dg_id) db.devices)

  pub access_read : Db → User → ℕ → Authorization → List Authorization → MyAccessGroupRead
  unfolding level_of prof_name via_name device_read devices_of group_name groups_of find?
  access_read db user dg_id winner overridden =
      let prof =
        find? (λ (p : PrivilegeProfile). p.id == winner.privilege_profile_id) db.profiles in
      let devices = devices_of db dg_id in
      record {
        device_group_id = dg_id;
        device_group_name = group_name db dg_id;
        tacacs_priv_lvl = level_of prof;
        privilege_profile_name = prof_name prof;
        via_ad_group_name =
            if opt_eq winner.principal_user_id user.id
            then none
            else via_name (groups_of db user) winner.principal_ad_group_id;
        devices = map device_read (take my_access_device_preview devices);
        device_count = length devices;
      }

module _ (ilike : Str → Str → Bool) where
  by_sam : Str → Db → List User
  unfolding filter
  by_sam username db = filter (λ (u : User). ilike u.sam_account_name username) db.users

  has_upn : Str → Option Str → Bool
  has_upn username none = false
  has_upn username (some upn) = ilike upn username

  by_upn : Str → Db → List User
  unfolding filter has_upn
  by_upn username db = filter (λ (u : User). has_upn username u.upn) db.users

  -- The second query, when the first found no one.
  or_by_upn : Str → Db → Option User → Result (Option User)
  unfolding by_upn any scalar_one_or_none
  or_by_upn username db (some user) = ok (some user)
  or_by_upn username db none =
      if any (λ c. c == 64) username then scalar_one_or_none (by_upn username db) else ok none

  pub caller : Str → Db → Result (Option User)
  unfolding by_sam or_by_upn scalar_one_or_none
  caller username db =
      if is_empty username
      then ok none
      else (scalar_one_or_none (by_sam username db) >>= or_by_upn username db)

module _ (collate ilike : Str → Str → Bool) where
  pub access_of : Db → Option User → MyAccessRead
  unfolding access_read permissions candidates_of group_on sort_by text_leb
  access_of db none = record { tacacs_username = none; display_name = none; groups = [] }
  access_of db (some user) = record {
    tacacs_username = some user.sam_account_name;
    display_name = user.display_name;
    groups =
        sort_by (λ (a b : MyAccessGroupRead). text_leb a.device_group_name b.device_group_name)
          (permissions (access_read collate db user) db user (group_on [] (candidates_of db user)));
  }

  unfoldable pub my_access : SessionContext → Db → Result MyAccessRead
  unfolding caller access_of strip
  my_access ctx db = caller ilike (strip ctx.username) db >>= λ user. ok (access_of db user)
