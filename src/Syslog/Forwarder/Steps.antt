-- ===== src/Syslog/Forwarder/Steps.antt =====
-- What a turn of the forwarder keeps: the audit log, the other settings, and no offset goes back.
use tacacs_web.Prelude.{
  ℕ, ◌≤◌, ◌≡◌, refl, ap, ◌∙◌, ◌⊎◌, inl, inr, Bool, true, false, Option, none, some, List, [], Str,
  str, str_eq, is_empty, ltb, arith, if◌then◌else◌,
}
use tacacs_web.Models.{AccountingRecord, AuditLog}
use tacacs_web.Result.{Result, ok, err, Exc}
use tacacs_web.Db.{Db, read_setting}
use tacacs_web.Syslog.Config.{
  load_config, or_default, write_setting, setting_enabled, setting_host, setting_last_id,
  setting_last_audit_id, setting_last_error, setting_last_error_at,
}
use tacacs_web.Syslog.Config.Store.{read_setting-write_setting_other, read_setting-delete_other}
use tacacs_web.Syslog.Wire.{Deliver}
use tacacs_web.Syslog.Forwarder.{
  offset_of, last_id, audit_rows, acct_rows, save_offset, record_error, clear_error,
  process_one_batch, after_batch, forward_once,
}
use tacacs_web.Syslog.Forwarder.Turn.{
  save_offset-read, save_offset-read_other, saved, process_one_batch-cases,
}
use tacacs_web.Syslog.Forwarder.Progress.{rows_after-lt}

abbrev pub audit_offset : Db → ℕ
audit_offset db = offset_of (read_setting db setting_last_audit_id)

abbrev pub audit_id : AuditLog → ℕ
audit_id r = r.id

if-audit_log :
    (b : Bool) (d e : Db) → d.audit_log ≡ e.audit_log → (if b then d else e).audit_log ≡ e.audit_log
if-audit_log true d e h = h
if-audit_log false d e h = refl

write_setting-audit_log :
    (now : ℕ) (key : Str) (value : Option Str) (db : Db)
    → (write_setting now key value db).audit_log ≡ db.audit_log
unfolding write_setting
write_setting-audit_log now key none db = refl
write_setting-audit_log now key (some v) db =
    if-audit_log _ (record db { settings = _ }) (record db { settings = _ }) refl

save_offset-audit_log :
    (now : ℕ) (key : Str) (o : Option ℕ) (db : Db)
    → (save_offset now key o db).audit_log ≡ db.audit_log
unfolding save_offset
save_offset-audit_log now key none db = refl
save_offset-audit_log now key (some n) db = write_setting-audit_log now key _ db

-- What the end of a turn writes leaves the log and the settings but the two of the error.
record Kept (db db' : Db) : Type 0 where
  log : db'.audit_log ≡ db.audit_log
  setting :
      (key : Str)
      → str_eq setting_last_error key ≡ false
      → str_eq setting_last_error_at key ≡ false
      → read_setting db' key ≡ read_setting db key

clear_error-Kept : (now : ℕ) (db : Db) → Kept db (clear_error now db)
unfolding clear_error
clear_error-Kept now db = record {
  log =
      write_setting-audit_log now setting_last_error_at none
        (write_setting now setting_last_error none db)
      ∙ write_setting-audit_log now setting_last_error none db;
  setting = λ key e f.
      read_setting-delete_other now setting_last_error_at key
        (write_setting now setting_last_error none db) f
      ∙ read_setting-delete_other now setting_last_error key db e;
}

record_error-Kept :
    (now : ℕ) (error now_text : Str) (db : Db) → Kept db (record_error now error now_text db)
unfolding record_error
record_error-Kept now error now_text db = record {
  log =
      write_setting-audit_log now setting_last_error_at (some now_text)
        (write_setting now setting_last_error (some error) db)
      ∙ write_setting-audit_log now setting_last_error (some error) db;
  setting = λ key e f.
      read_setting-write_setting_other now setting_last_error_at key now_text
        (write_setting now setting_last_error (some error) db) f
      ∙ read_setting-write_setting_other now setting_last_error key error db e;
}

module _ (lower : Str → Str) (timestamp : ℕ → Str) (encode : Str → List ℕ) (deliver : Deliver) where
  after_batch-Kept :
      (now : ℕ) (error_text : Exc → Str) (now_text : Str) (r : Result ℕ × Db)
      → Kept r.1 (after_batch lower timestamp encode deliver now error_text now_text r)
  unfolding after_batch
  after_batch-Kept now error_text now_text (ok n, db) = split (ltb 0 n)
    where
      split : (b : Bool) → Kept db (if b then clear_error now db else db)
      split true = clear_error-Kept now db
      split false = record { log = refl; setting = λ key e f. refl }
  after_batch-Kept now error_text now_text (err e, db) =
      record_error-Kept now (error_text e) now_text db

  abbrev pub turn : ℕ → Db → Result ℕ × Db
  turn = process_one_batch lower timestamp encode deliver

  -- The writes of the offsets.
  saved-setting :
      (now : ℕ) (db : Db) (key : Str)
      → str_eq setting_last_id key ≡ false
      → str_eq setting_last_audit_id key ≡ false
      → read_setting (saved lower timestamp encode deliver now db) key ≡ read_setting db key
  saved-setting now db key e f =
      save_offset-read_other now (last_id (λ (r : AccountingRecord). r.id) (acct_rows db))
        setting_last_id key
        (save_offset now setting_last_audit_id (last_id audit_id (audit_rows db)) db) e
      ∙ save_offset-read_other now (last_id audit_id (audit_rows db)) setting_last_audit_id key db f

  saved-audit_log :
      (now : ℕ) (db : Db) → (saved lower timestamp encode deliver now db).audit_log ≡ db.audit_log
  saved-audit_log now db =
      save_offset-audit_log now setting_last_id
        (last_id (λ (r : AccountingRecord). r.id) (acct_rows db))
        (save_offset now setting_last_audit_id (last_id audit_id (audit_rows db)) db)
      ∙ save_offset-audit_log now setting_last_audit_id (last_id audit_id (audit_rows db)) db

  -- The new offset, if the batch has a last audit row.
  pub saved-offset :
      (now m : ℕ) (db : Db)
      → last_id audit_id (audit_rows db) ≡ some m
      → audit_offset (saved lower timestamp encode deliver now db) ≡ m
  unfolding str_eq
  saved-offset now m db h =
      ap offset_of (
        save_offset-read_other now (last_id (λ (r : AccountingRecord). r.id) (acct_rows db))
          setting_last_id setting_last_audit_id
          (save_offset now setting_last_audit_id (last_id audit_id (audit_rows db)) db) refl)
      ∙ ap (λ o. audit_offset (save_offset now setting_last_audit_id o db)) h
      ∙ save_offset-read now m setting_last_audit_id db

  saved-offset_none :
      (now : ℕ) (db : Db)
      → last_id audit_id (audit_rows db) ≡ none
      → audit_offset (saved lower timestamp encode deliver now db) ≡ audit_offset db
  unfolding str_eq save_offset
  saved-offset_none now db h =
      ap offset_of (
        save_offset-read_other now (last_id (λ (r : AccountingRecord). r.id) (acct_rows db))
          setting_last_id setting_last_audit_id
          (save_offset now setting_last_audit_id (last_id audit_id (audit_rows db)) db) refl)
      ∙ ap (λ o. audit_offset (save_offset now setting_last_audit_id o db)) h

  -- A batch takes the offset forwards.
  saved-le :
      (now : ℕ) (db : Db)
      → audit_offset db ≤ audit_offset (saved lower timestamp encode deliver now db)
  unfolding audit_rows
  saved-le now db = split (last_id audit_id (audit_rows db)) refl
    where
      split :
          (o : Option ℕ)
          → last_id audit_id (audit_rows db) ≡ o
          → audit_offset db ≤ audit_offset (saved lower timestamp encode deliver now db)
      split none e = let q = saved-offset_none now db e in omega (arith, q)
      split (some m) e =
          let q = saved-offset now m db e in
          let lt = rows_after-lt audit_id (audit_offset db) m db.audit_log e in omega (arith, q, lt)

  turn-state :
      (now : ℕ) (db : Db)
      → ((turn now db).1 ≡ db) ⊎ ((turn now db).1 ≡ saved lower timestamp encode deliver now db)
  turn-state now db = elim (process_one_batch-cases lower timestamp encode deliver now db) [
    | inl p ↦ inl (ap (λ (t : Result ℕ × Db). t.1) p)
    | inr (inl (x, p)) ↦ inl (ap (λ (t : Result ℕ × Db). t.1) p)
    | inr (inr (s, p)) ↦ inr (ap (λ (t : Result ℕ × Db). t.1) p)
  ]

  module _ (now : ℕ) (error_text : Exc → Str) (now_text : Str) (db : Db) where
    abbrev pub once : Db
    once = forward_once lower timestamp encode deliver now error_text now_text db

    once-Kept : Kept (turn now db).1 once
    unfolding forward_once
    once-Kept = after_batch-Kept now error_text now_text (turn now db)

    pub once-log : once.audit_log ≡ db.audit_log
    once-log = once-Kept.log ∙ elim (turn-state now db) [
      | inl p ↦ ap (λ (d : Db). d.audit_log) p
      | inr p ↦ ap (λ (d : Db). d.audit_log) p ∙ saved-audit_log now db
    ]

    once-setting :
        (key : Str)
        → str_eq setting_last_id key ≡ false
        → str_eq setting_last_audit_id key ≡ false
        → str_eq setting_last_error key ≡ false
        → str_eq setting_last_error_at key ≡ false
        → read_setting once key ≡ read_setting db key
    once-setting key e f g h = once-Kept.setting key g h ∙ elim (turn-state now db) [
      | inl p ↦ ap (λ d. read_setting d key) p
      | inr p ↦ ap (λ d. read_setting d key) p ∙ saved-setting now db key e f
    ]

    pub once-offset : audit_offset once ≡ audit_offset (turn now db).1
    unfolding str_eq
    once-offset = ap offset_of (once-Kept.setting setting_last_audit_id refl refl)

    pub once-le : audit_offset db ≤ audit_offset once
    once-le = split (turn-state now db)
      where
        split :
            ((turn now db).1 ≡ db) ⊎ ((turn now db).1 ≡ saved lower timestamp encode deliver now db)
            → audit_offset db ≤ audit_offset once
        split (inl p) = let q = once-offset ∙ ap audit_offset p in omega (arith, q)
        split (inr p) =
            let q = once-offset ∙ ap audit_offset p in
            let le = saved-le now db in omega (arith, q, le)

  -- Forwarding is on, and there is a host.
  abbrev pub Enabled : Db → Type 0
  Enabled db =
      ((load_config lower db).enabled ≡ true) × (is_empty (load_config lower db).host ≡ false)

  pub once-Enabled :
      (now : ℕ) (error_text : Exc → Str) (now_text : Str) (db : Db)
      → Enabled db
      → Enabled (once now error_text now_text db)
  unfolding load_config str_eq
  once-Enabled now error_text now_text db (on, host) = (
    ap (λ o. str_eq (lower (or_default o (str "false"))) (str "true"))
          (once-setting now error_text now_text db setting_enabled refl refl refl refl)
        ∙ on,
    ap (λ o. is_empty (or_default o []))
          (once-setting now error_text now_text db setting_host refl refl refl refl)
        ∙ host,
  )
