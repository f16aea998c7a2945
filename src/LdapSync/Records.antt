-- ===== src/LdapSync/Records.antt =====
-- The records of backend/app/ldap_sync/sync.py.
use tacacs_web.Prelude.{ℕ, Option, none, List, Str}

pub record AdGroupRecord : Type 0 where
  pub sid : Str
  pub distinguished_name : Str
  pub name : Option Str

pub record AdUserRecord : Type 0 where
  pub sam_account_name : Str
  pub distinguished_name : Str
  pub ad_object_guid : Option Str
  pub upn : Option Str
  pub display_name : Option Str
  pub groups : List AdGroupRecord

pub record SyncResult : Type 0 where
  pub users_seen : ℕ
  pub users_inserted : ℕ
  pub users_updated : ℕ
  pub users_disabled : ℕ
  pub groups_seen : ℕ
  pub groups_inserted : ℕ
  pub edges_total : ℕ
  pub started_at : ℕ
  pub finished_at : Option ℕ

abbrev pub start_result : ℕ → SyncResult
start_result now = record {
  users_seen = 0;
  users_inserted = 0;
  users_updated = 0;
  users_disabled = 0;
  groups_seen = 0;
  groups_inserted = 0;
  edges_total = 0;
  started_at = now;
  finished_at = none;
}
