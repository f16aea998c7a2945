-- ===== src/Syslog/Forwarder.antt =====
-- The loop of backend/app/syslog/forwarder.py. The parameters are `str.lower`, the text of
-- a time, UTF-8 and the connection; `now` is the time of the turn.
pub mod Offsets
pub mod Turn
pub mod Progress
pub mod Steps
pub mod Liveness
use tacacs_web.Prelude.{
  ℕ, ◌+◌, Bool, true, false, not, ◌&&◌, ◌||◌, Option, none, some, List, [], ◌∷◌, ◌++◌, map, Str,
  str, is_empty, decimal, digits_value, ltb, leb, filter, sort_by, take, length, if◌then◌else◌,
}
use tacacs_web.Models.{AccountingRecord, AuditLog}
use tacacs_web.Result.{Result, ok, err, Exc}
use tacacs_web.Db.{Db, read_setting}
use tacacs_web.Syslog.Config.{
  SyslogConfig, load_config, or_default, write_setting, setting_last_id, setting_last_audit_id,
  setting_last_error, setting_last_error_at,
}
use tacacs_web.Syslog.Format.{format_rfc5424, format_rfc5424_audit}
use tacacs_web.Syslog.Wire.{Deliver, send_lines}

abbrev pub batch_size : ℕ
batch_size = 200

abbrev or_zero : Option ℕ → ℕ
or_zero none = 0
or_zero (some n) = n

-- `int(raw) if raw.isdigit() else 0`; the digits are those of ASCII.
unfoldable pub offset_of : Option Str → ℕ
offset_of raw = or_zero (digits_value 0 (or_default raw (str "0")))

unfoldable pub rows_after {ℓ} : {A : Type ℓ} → (A → ℕ) → ℕ → List A → List A
rows_after id last rows =
    take batch_size (sort_by (λ a b. leb (id a) (id b)) (filter (λ a. ltb last (id a)) rows))

unfoldable pub audit_rows : Db → List AuditLog
unfolding rows_after
audit_rows db =
    rows_after (λ (r : AuditLog). r.id) (offset_of (read_setting db setting_last_audit_id))
      db.audit_log

unfoldable pub acct_rows : Db → List AccountingRecord
unfolding rows_after
acct_rows db =
    rows_after (λ (r : AccountingRecord). r.id) (offset_of (read_setting db setting_last_id))
      db.accounting

-- The id of the last row.
unfoldable pub last_id {ℓ} : {A : Type ℓ} → (A → ℕ) → List A → Option ℕ
last_id id [] = none
last_id id (a ∷ []) = some (id a)
last_id id (a ∷ b ∷ rows) = last_id id (b ∷ rows)

unfoldable pub save_offset : ℕ → Str → Option ℕ → Db → Db
save_offset now key none db = db
save_offset now key (some id) db = write_setting now key (some (decimal id)) db

record_error : ℕ → Str → Str → Db → Db
unfolding write_setting
record_error now error now_text db =
    write_setting now setting_last_error_at (some now_text)
      (write_setting now setting_last_error (some error) db)

clear_error : ℕ → Db → Db
unfolding write_setting
clear_error now db =
    write_setting now setting_last_error_at none (write_setting now setting_last_error none db)

abbrev is_nil {ℓ} : {A : Type ℓ} → List A → Bool
is_nil [] = true
is_nil (x ∷ xs) = false

module _ (lower : Str → Str) (timestamp : ℕ → Str) (encode : Str → List ℕ) (deliver : Deliver) where
  unfoldable pub batch_lines : SyslogConfig → List AuditLog → List AccountingRecord → List Str
  batch_lines cfg audits accts =
      map (λ r. format_rfc5424_audit timestamp r cfg) audits
      ++ map (λ r. format_rfc5424 timestamp r cfg) accts

  after_send :
      ℕ → Db → List AuditLog → List AccountingRecord → ℕ → Result (Unit {0}) → Result ℕ × Db
  unfolding save_offset last_id
  after_send now db audits accts n (err e) = (err e, db)
  after_send now db audits accts n (ok u) = (
    ok n,
    save_offset now setting_last_id (last_id (λ (r : AccountingRecord). r.id) accts)
        (save_offset now setting_last_audit_id (last_id (λ (r : AuditLog). r.id) audits) db),
  )

  send_batch : ℕ → Db → SyslogConfig → List AuditLog → List AccountingRecord → Result ℕ × Db
  unfolding after_send batch_lines send_lines
  send_batch now db cfg audits accts =
      if is_nil audits && is_nil accts
      then (ok 0, db)
      else after_send now db audits accts (length (batch_lines cfg audits accts))
          (send_lines encode deliver cfg (batch_lines cfg audits accts))

  unfoldable pub process_one_batch : ℕ → Db → Result ℕ × Db
  unfolding send_batch load_config audit_rows acct_rows
  process_one_batch now db =
      let cfg = load_config lower db in
      if not cfg.enabled || is_empty cfg.host
      then (ok 0, db)
      else send_batch now db cfg (audit_rows db) (acct_rows db)

  -- The body of `_forwarder_loop` up to its sleep; the text of an exception is a parameter.
  after_batch : ℕ → (Exc → Str) → Str → Result ℕ × Db → Db
  unfolding clear_error record_error
  after_batch now error_text now_text (ok n, db) = if ltb 0 n then clear_error now db else db
  after_batch now error_text now_text (err e, db) = record_error now (error_text e) now_text db

  unfoldable pub forward_once : ℕ → (Exc → Str) → Str → Db → Db
  unfolding after_batch process_one_batch
  forward_once now error_text now_text db =
      after_batch now error_text now_text (process_one_batch now db)

  -- The turns of `_forwarder_loop` at these times.
  unfoldable pub forwarder_loop : (Exc → Str) → List (ℕ × Str) → Db → Db
  unfolding forward_once
  forwarder_loop error_text [] db = db
  forwarder_loop error_text ((now, now_text) ∷ turns) db =
      forwarder_loop error_text turns (forward_once now error_text now_text db)
