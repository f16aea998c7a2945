-- ===== src/Api/Lists.antt =====
-- The read-only lists: backend/app/api/v1/audit_log.py, accounting.py and principals.py. A row that is
-- read has every column, so that it is the row itself. `ilike` is the operator of SQL, the text before
-- the pattern, and `collate` the order of the database's `ORDER BY` on texts, NULL included.
use tacacs_web.Prelude.{
  ℕ, zero, suc, ◌&&◌, Bool, true, false, Option, none, some, List, [], ◌∷◌, ◌++◌, Str, str, str_eq,
  leb, ltb, length, take, filter, sort_by,
}
use tacacs_web.Models.{User, AdGroup, AuditLog, AccountingRecord}
use tacacs_web.Result.{Result, ok, http, ◌>>◌, guard}
use tacacs_web.Db.{Db}
use tacacs_web.Auth.Sessions.{SessionContext}
use tacacs_web.Api.Devices.{is_between, all_some, unprocessable}

pub skip {ℓ} : {A : Type ℓ} → ℕ → List A → List A
skip zero xs = xs
skip (suc n) [] = []
skip (suc n) (x ∷ xs) = skip n xs

pub record Page {ℓ} (A : Type ℓ) : Type ℓ where
  pub total : ℕ
  pub limit : ℕ
  pub offset : ℕ
  pub entries : List A

pub newest_first {ℓ} : {A : Type ℓ} → (A → ℕ) → List A → List A
unfolding sort_by
newest_first id rows = sort_by (λ a b. leb (id b) (id a)) rows

-- The count of the rows and one page of them.
pub page {ℓ} : {A : Type ℓ} → (A → ℕ) → ℕ → ℕ → List A → Page A
unfolding skip newest_first
page id limit offset rows = record {
  total = length rows;
  limit = limit;
  offset = offset;
  entries = take limit (skip offset (newest_first id rows));
}

-- `if value: filters.append(column == value)`: an empty text is no filter, and NULL equals nothing.
equals : Option Str → Option Str → Bool
unfolding str_eq
equals none column = true
equals (some []) column = true
equals (some (c ∷ s)) none = false
equals (some (c ∷ s)) (some v) = str_eq v (c ∷ s)

-- `if since: filters.append(column >= since)`
not_before : Option ℕ → ℕ → Bool
not_before none ts = true
not_before (some since) ts = leb since ts

-- `if until: filters.append(column < until)`
is_before : Option ℕ → ℕ → Bool
is_before none ts = true
is_before (some until) ts = ltb ts until

pub record AuditQuery : Type 0 where
  pub action : Option Str
  pub username : Option Str
  pub auth_method : Option Str
  pub since : Option ℕ
  pub until : Option ℕ

pub record AccountingQuery : Type 0 where
  pub action : Option Str
  pub username : Option Str
  pub nas_ip : Option Str
  pub task_id : Option Str
  pub cmd : Option Str
  pub since : Option ℕ
  pub until : Option ℕ

abbrev valid_window : ℕ → Bool
valid_window limit = leb 1 limit && leb limit 500

abbrev fits : ℕ → Option Str → Bool
fits n o = all_some (is_between 0 n) o

module _ (ilike : Str → Str → Bool) where
  -- `column.ilike(f"%{value}%")`
  like : Option Str → Option Str → Bool
  like none column = true
  like (some []) column = true
  like (some (c ∷ s)) none = false
  like (some (c ∷ s)) (some v) = ilike v (str "%" ++ ((c ∷ s) ++ str "%"))

  pub audit_matches : AuditQuery → AuditLog → Bool
  unfolding equals like not_before is_before
  audit_matches q r =
      equals q.action (some r.action)
      && like q.username (some r.actor_username_snapshot)
      && equals q.auth_method (some r.auth_method)
      && not_before q.since r.ts
      && is_before q.until r.ts

  unfoldable pub list_audit_log : SessionContext → ℕ → ℕ → AuditQuery → Db → Result (Page AuditLog)
  unfolding audit_matches filter page
  list_audit_log ctx limit offset q db = do
    guard (valid_window limit && fits 64 q.action && fits 256 q.username && fits 16 q.auth_method)
        (http 422 unprocessable)
    guard (str_eq ctx.role (str "admin")) (http 403 (str "admin_required"))
    ok (page (λ (r : AuditLog). r.id) limit offset (filter (audit_matches q) db.audit_log))

  pub accounting_matches : AccountingQuery → AccountingRecord → Bool
  unfolding equals like not_before is_before
  accounting_matches q r =
      equals q.action (some r.action)
      && like q.username r.username
      && equals q.nas_ip r.nas_ip
      && equals q.task_id r.task_id
      && like q.cmd r.cmd
      && not_before q.since r.ts
      && is_before q.until r.ts

  unfoldable pub list_accounting :
      SessionContext → ℕ → ℕ → AccountingQuery → Db → Result (Page AccountingRecord)
  unfolding accounting_matches filter page
  list_accounting ctx limit offset q db = do
    guard
        (valid_window limit
          && fits 16 q.action
          && fits 256 q.username
          && fits 64 q.nas_ip
          && fits 64 q.task_id
          && fits 512 q.cmd)
        (http 422 unprocessable)
    guard (str_eq ctx.role (str "admin")) (http 403 (str "admin_required"))
    ok (
        page (λ (r : AccountingRecord). r.id) limit offset
          (filter (accounting_matches q) db.accounting))

unfoldable pub list_users : (Str → Str → Bool) → Db → List User
unfolding sort_by
list_users collate db =
    sort_by (λ (a b : User). collate a.sam_account_name b.sam_account_name) db.users

unfoldable pub list_ad_groups : (Option Str → Option Str → Bool) → Db → List AdGroup
unfolding sort_by
list_ad_groups collate db = sort_by (λ (a b : AdGroup). collate a.name b.name) db.ad_groups
