-- ===== src/Models/Domain.antt =====
-- backend/app/db/models/domain.py. `AuthorizationRow` holds the columns of an authorization; an
-- `Authorization` is the loaded object, with the profile that `lazy="joined"` attaches.
use tacacs_web.Prelude.{ℕ, Bool, Option, List, Str, is_some}

pub record DeviceGroup : Type 0 where
  pub id : ℕ
  pub name : Str
  pub description : Option Str
  pub created_at : ℕ

pub record PrivilegeProfile : Type 0 where
  pub id : ℕ
  pub name : Str
  pub tacacs_priv_lvl : ℕ
  pub permit_commands_regex : List Str
  pub deny_commands_regex : List Str
  pub extra_av_pairs : List (Str × Str)
  pub description : Option Str
  pub created_at : ℕ

pub record Device : Type 0 where
  pub id : ℕ
  pub name : Str
  pub ip_or_cidr : Str
  pub device_group_id : ℕ
  pub current_secret_enc : Option Str
  pub previous_secret_enc : Option Str
  pub previous_retired_at : Option ℕ
  pub description : Option Str
  pub created_at : ℕ
  pub updated_at : ℕ

pub record AuthorizationRow : Type 0 where
  pub id : ℕ
  pub principal_user_id : Option ℕ
  pub principal_ad_group_id : Option ℕ
  pub device_group_id : ℕ
  pub privilege_profile_id : ℕ
  pub created_at : ℕ

pub record Authorization : Type 0 where
  pub row : AuthorizationRow
  pub open row use *
  pub privilege_profile : PrivilegeProfile

abbrev pub is_direct : Authorization → Bool
is_direct a = is_some a.principal_user_id
