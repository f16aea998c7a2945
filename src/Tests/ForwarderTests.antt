-- ===== src/Tests/ForwarderTests.antt =====
-- Turns of the forwarder with one audit row, over a connection that works and one that does not.
use tacacs_web.Prelude.{
  ℕ, ◌+◌, ◌≤◌, ◌≡◌, refl, none, some, [], ◌∷◌, Memᴰ, Str, str, str_eq, arith, filter, any, find?,
  sort_by, decimal, digits_value,
}
use tacacs_web.Models.{AccountingRecord, AuditLog, SystemSetting}
use tacacs_web.Result.{ok, err, os_error}
use tacacs_web.Db.{Db, empty_db, read_setting}
use tacacs_web.Syslog.Config.{load_config, write_setting, setting_last_audit_id, setting_last_id}
use tacacs_web.Syslog.Format.{format_rfc5424_audit}
use tacacs_web.Syslog.Wire.{Deliver, send_lines}
use tacacs_web.Syslog.Forwarder.{
  offset_of, rows_after, audit_rows, acct_rows, last_id, save_offset, batch_lines,
  process_one_batch, forwarder_loop,
}
use tacacs_web.Syslog.Forwarder.Turn.{lines_of, process_one_batch-err, process_one_batch-sent}
use tacacs_web.Syslog.Forwarder.Offsets.{Distinct}
use tacacs_web.Syslog.Forwarder.Steps.{audit_offset, Enabled}
use tacacs_web.Syslog.Forwarder.Liveness.{Works, forwarder_loop-passes}

abbrev row : AuditLog
row = record {
  id = 4;
  ts = 0;
  actor_id = none;
  actor_username_snapshot = str "jan";
  actor_role = str "admin";
  auth_method = str "local";
  action = str "auth.logout";
  target_type = none;
  target_id = none;
  summary = none;
  client_ip = none;
  user_agent = none;
}

abbrev setting : Str → Str → SystemSetting
setting key value = record { key = key; value = value; updated_at = 0 }

abbrev enabled : Db
enabled = record empty_db {
  audit_log = row ∷ [];
  settings =
      setting (str "syslog.enabled") (str "true")
      ∷ setting (str "syslog.host") (str "siem")
      ∷ setting (str "syslog.last_audit_id") (str "3")
      ∷ [];
}

abbrev forwarded : Db
forwarded = record enabled {
  settings =
      setting (str "syslog.enabled") (str "true")
      ∷ setting (str "syslog.host") (str "siem")
      ∷ record { key = str "syslog.last_audit_id"; value = str "4"; updated_at = 5 }
      ∷ [];
}

abbrev works : Deliver
works cfg chunks = ok tt

abbrev breaks : Deliver
breaks cfg chunks = err os_error

abbrev same_text : Str → Str
same_text s = s

abbrev no_time : ℕ → Str
no_time t = []

fails : process_one_batch same_text no_time same_text breaks 5 enabled ≡ (err os_error, enabled)
unfolding process_one_batch load_config read_setting find? str_eq audit_rows acct_rows rows_after
    filter sort_by offset_of digits_value send_lines
fails = refl

process_one_batch-err_example : enabled ≡ enabled
process_one_batch-err_example =
    process_one_batch-err same_text no_time same_text breaks 5 enabled enabled os_error fails

forwards : process_one_batch same_text no_time same_text works 5 enabled ≡ (ok 1, forwarded)
unfolding process_one_batch load_config read_setting find? str_eq audit_rows acct_rows rows_after
    filter sort_by offset_of digits_value send_lines batch_lines save_offset last_id write_setting
    any decimal
forwards = refl

one_row-Distinct : Distinct (λ (r : AuditLog). r.id) (row ∷ [])
one_row-Distinct a b (Memᴰ.head e) (Memᴰ.head f) h = cc (e, f)
one_row-Distinct a b (Memᴰ.head e) (Memᴰ.tail m) h = elim m [ ]
one_row-Distinct a b (Memᴰ.tail m) k h = elim m [ ]

old_offset : offset_of (read_setting enabled setting_last_audit_id) ≡ 3
unfolding offset_of read_setting find? str_eq digits_value
old_offset = refl

new_offset : offset_of (read_setting forwarded setting_last_audit_id) ≡ 4
unfolding offset_of read_setting find? str_eq digits_value
new_offset = refl

process_one_batch-sent_example :
    (send_lines same_text works
        (load_config same_text enabled)
        (lines_of same_text no_time same_text works enabled)
      ≡ ok tt)
    × Memᴰ
        (format_rfc5424_audit no_time row (load_config same_text enabled))
        (lines_of same_text no_time same_text works enabled)
process_one_batch-sent_example =
    process_one_batch-sent same_text no_time same_text works 5 1 enabled forwarded row
      one_row-Distinct forwards (Memᴰ.head refl) (omega (arith, old_offset))
      (omega (arith, new_offset))

abbrev session_start : AccountingRecord
session_start = record {
  id = 2;
  ts = 0;
  nas_ip = some (str "10.0.0.5");
  username = some (str "jan");
  port = none;
  nac_ip = none;
  action = str "start";
  service = none;
  cmd = none;
  priv_lvl = none;
  elapsed_seconds = none;
  task_id = none;
  device_id = none;
  raw_av_pairs = [];
}

abbrev accounted : Db
accounted = record empty_db {
  accounting = session_start ∷ [];
  settings =
      setting (str "syslog.enabled") (str "true") ∷ setting (str "syslog.host") (str "siem") ∷ [];
}

abbrev accounted_forwarded : Db
accounted_forwarded = record accounted {
  settings =
      setting (str "syslog.enabled") (str "true")
      ∷ setting (str "syslog.host") (str "siem")
      ∷ record { key = str "syslog.last_forwarded_id"; value = str "2"; updated_at = 5 }
      ∷ [];
}

forwards_accounting :
    process_one_batch same_text no_time same_text works 5 accounted ≡ (ok 1, accounted_forwarded)
unfolding process_one_batch load_config read_setting find? str_eq audit_rows acct_rows rows_after
    filter sort_by offset_of digits_value send_lines batch_lines save_offset last_id write_setting
    any decimal
forwards_accounting = refl

one_record-Distinct : Distinct (λ (r : AccountingRecord). r.id) (session_start ∷ [])
one_record-Distinct a b (Memᴰ.head e) (Memᴰ.head f) h = cc (e, f)
one_record-Distinct a b (Memᴰ.head e) (Memᴰ.tail m) h = elim m [ ]
one_record-Distinct a b (Memᴰ.tail m) k h = elim m [ ]

no_offset : offset_of (read_setting accounted setting_last_id) ≡ 0
unfolding offset_of read_setting find? str_eq digits_value
no_offset = refl

accounted_offset : offset_of (read_setting accounted_forwarded setting_last_id) ≡ 2
unfolding offset_of read_setting find? str_eq digits_value
accounted_offset = refl

working : Works same_text no_time same_text works
working cfg packets = refl

enabled-Enabled : Enabled same_text no_time same_text works enabled
unfolding load_config read_setting find? str_eq
enabled-Enabled = (refl, refl)

near_enough : 4 ≤ audit_offset enabled + 1
unfolding offset_of read_setting find? str_eq digits_value
near_enough = omega arith

forwarder_loop-passes_example :
    4
    ≤ audit_offset
        (forwarder_loop same_text no_time same_text works (λ e. []) ((5, str "5") ∷ []) enabled)
forwarder_loop-passes_example =
    forwarder_loop-passes same_text no_time same_text works working row (λ e. [])
      ((5, str "5") ∷ []) enabled enabled-Enabled (Memᴰ.head refl) near_enough
