-- ===== src/Db.antt =====
-- The database: one list of rows for each table, in the order of insertion, and one counter for the
-- ids of each table whose ids the database gives. Queries are folds over the rows.
use tacacs_web.Prelude.{ℕ, Option, none, some, List, [], ◌∷◌, Memᴰ, ◌≡◌, sym, Str, str_eq, find?}
use tacacs_web.Models.{
  User, AdGroup, UserAdGroup, Device, DeviceGroup, PrivilegeProfile, AuthorizationRow,
  AccountingRecord, LocalAdmin, WebSession, AuditLog, SystemSetting, SystemSecret,
}
use tacacs_web.Result.{Result, ok, err, multiple_results_found}

pub record Db : Type 0 where
  pub users : List User
  pub ad_groups : List AdGroup
  pub user_ad_groups : List UserAdGroup
  pub devices : List Device
  pub device_groups : List DeviceGroup
  pub profiles : List PrivilegeProfile
  pub authorizations : List AuthorizationRow
  pub accounting : List AccountingRecord
  pub audit_log : List AuditLog
  pub web_sessions : List WebSession
  pub local_admins : List LocalAdmin
  pub settings : List SystemSetting
  pub secrets : List SystemSecret
  pub next_user_id : ℕ
  pub next_ad_group_id : ℕ
  pub next_device_id : ℕ
  pub next_accounting_id : ℕ
  pub next_audit_id : ℕ
  pub next_device_group_id : ℕ
  pub next_profile_id : ℕ
  pub next_authorization_id : ℕ

abbrev pub empty_db : Db
empty_db = record {
  users = [];
  ad_groups = [];
  user_ad_groups = [];
  devices = [];
  device_groups = [];
  profiles = [];
  authorizations = [];
  accounting = [];
  audit_log = [];
  web_sessions = [];
  local_admins = [];
  settings = [];
  secrets = [];
  next_user_id = 1;
  next_ad_group_id = 1;
  next_device_id = 1;
  next_accounting_id = 1;
  next_audit_id = 1;
  next_device_group_id = 1;
  next_profile_id = 1;
  next_authorization_id = 1;
}

-- `scalar_one_or_none()` of the rows that a query selects.
unfoldable pub scalar_one_or_none {ℓ} : {A : Type ℓ} → List A → Result (Option A)
scalar_one_or_none [] = ok none
scalar_one_or_none (a ∷ []) = ok (some a)
scalar_one_or_none (a ∷ b ∷ rest) = err multiple_results_found

-- The row that it gives is one of those selected.
pub scalar-some {ℓ} :
    {A : Type ℓ} (xs : List A) (a : A) → scalar_one_or_none xs ≡ ok (some a) → Memᴰ a xs
unfolding scalar_one_or_none
scalar-some [] a h = absurd (cc h)
scalar-some (x ∷ []) a h = let e : x ≡ a = cc h in Memᴰ.head (sym e)
scalar-some (x ∷ y ∷ xs) a h = absurd (cc h)

-- The value of a setting or of a secret; the key is the primary key of both tables.
unfoldable pub read_setting : Db → Str → Option Str
read_setting db key = elim (find? (λ (s : SystemSetting). str_eq s.key key) db.settings) [
  | none ↦ none
  | some s ↦ some s.value
]

unfoldable pub read_secret : Db → Str → Option Str
read_secret db key = elim (find? (λ (s : SystemSecret). str_eq s.key key) db.secrets) [
  | none ↦ none
  | some s ↦ some s.value
]
