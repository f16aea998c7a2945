-- ===== src/Syslog/Forwarder/Turn.antt =====
-- One turn of the forwarder: what it sends and what it writes.
use mathlib.Core.List.Memᴰ
use tacacs_web.Prelude.{
  ℕ, ◌<◌, ◌≤◌, ◌≡◌, refl, sym, ap, ◌∙◌, ◌⊎◌, inl, inr, Bool, true, false, not, ◌&&◌, ◌||◌, Option,
  none, some, List, [], ◌∷◌, Memᴰ, Str, str, str_eq, is_empty, decimal, decimal-cons, digits_value,
  digits_value-decimal, length, arith, if◌then◌else◌,
}
use tacacs_web.Models.{AccountingRecord, AuditLog}
use tacacs_web.Result.{Result, ok, err, Exc}
use tacacs_web.Db.{Db, read_setting}
use tacacs_web.Syslog.Config.{load_config, or_default, setting_last_id, setting_last_audit_id}
use tacacs_web.Syslog.Config.Store.{read_setting-write_setting, read_setting-write_setting_other}
use tacacs_web.Syslog.Format.{format_rfc5424, format_rfc5424_audit}
use tacacs_web.Syslog.Wire.{Deliver, send_lines}
use tacacs_web.Syslog.Forwarder.{
  is_nil, or_zero, offset_of, last_id, audit_rows, acct_rows, save_offset, batch_lines, after_send,
  send_batch, process_one_batch,
}
use tacacs_web.Syslog.Forwarder.Offsets.{Distinct, Mem-rows_after}

offset_of-decimal : (m : ℕ) → offset_of (some (decimal m)) ≡ m
unfolding offset_of
offset_of-decimal m =
    let (c, s, e) = decimal-cons m in
    ap (λ t. or_zero (digits_value 0 t)) (kept (decimal m) c s e)
    ∙ ap or_zero (digits_value-decimal m)
  where
    kept : (t : Str) (c : ℕ) (s : Str) → t ≡ c ∷ s → or_default (some t) (str "0") ≡ t
    kept [] c s e = absurd (cc e)
    kept (d ∷ t) c s e = refl

pub save_offset-read :
    (now m : ℕ) (key : Str) (db : Db)
    → offset_of (read_setting (save_offset now key (some m) db) key) ≡ m
unfolding save_offset
save_offset-read now m key db =
    ap offset_of (read_setting-write_setting now key (decimal m) db) ∙ offset_of-decimal m

pub save_offset-read_other :
    (now : ℕ) (o : Option ℕ) (key other : Str) (db : Db)
    → str_eq key other ≡ false
    → read_setting (save_offset now key o db) other ≡ read_setting db other
unfolding save_offset
save_offset-read_other now none key other db h = refl
save_offset-read_other now (some m) key other db h =
    read_setting-write_setting_other now key other (decimal m) db h

module _ (lower : Str → Str) (timestamp : ℕ → Str) (encode : Str → List ℕ) (deliver : Deliver) where
  -- The lines of a turn.
  abbrev pub lines_of : Db → List Str
  lines_of db =
      batch_lines lower timestamp encode deliver (load_config lower db) (audit_rows db)
        (acct_rows db)

  abbrev pub saved : ℕ → Db → Db
  saved now db =
      save_offset now setting_last_id (last_id (λ (r : AccountingRecord). r.id) (acct_rows db)) (
        save_offset now setting_last_audit_id (last_id (λ (r : AuditLog). r.id) (audit_rows db)) db)

  -- A turn has nothing to do, or fails, or has sent its lines and moves the offsets.
  pub process_one_batch-cases :
      (now : ℕ) (db : Db)
      → (process_one_batch lower timestamp encode deliver now db ≡ (ok 0, db))
        ⊎ ((e : Exc) × (process_one_batch lower timestamp encode deliver now db ≡ (err e, db)))
        ⊎ ((send_lines encode deliver (load_config lower db) (lines_of db) ≡ ok tt)
            × (process_one_batch lower timestamp encode deliver now db
                ≡ (ok (length (lines_of db)), saved now db)))
  unfolding process_one_batch send_batch after_send
  process_one_batch-cases now db =
      off (not (load_config lower db).enabled || is_empty (load_config lower db).host)
        (is_nil (audit_rows db) && is_nil (acct_rows db))
        (send_lines encode deliver (load_config lower db) (lines_of db))
    where
      n : ℕ
      n = length (lines_of db)

      after : Result (Unit {0}) → Result ℕ × Db
      after q = after_send lower timestamp encode deliver now db (audit_rows db) (acct_rows db) n q

      off :
          (b c : Bool) (q : Result (Unit {0}))
          → ((if b then (ok 0, db) else if c then (ok 0, db) else after q) ≡ (ok 0, db))
            ⊎ ((e : Exc) × ((if b then (ok 0, db) else if c then (ok 0, db) else after q)
                  ≡ (err e, db)))
            ⊎ ((q ≡ ok tt)
                × ((if b then (ok 0, db) else if c then (ok 0, db) else after q)
                    ≡ (ok n, saved now db)))
      off true c q = inl refl
      off false true q = inl refl
      off false false (err e) = inr (inl (e, refl))
      off false false (ok tt) = inr (inr (refl, refl))

  -- A turn that fails writes nothing: no offset moves, so that the next turn sends the same rows.
  pub process_one_batch-err :
      (now : ℕ) (db db' : Db) (e : Exc)
      → process_one_batch lower timestamp encode deliver now db ≡ (err e, db')
      → db' ≡ db
  process_one_batch-err now db db' e h = elim (process_one_batch-cases now db) [
    | inl p ↦ absurd (cc (ap (λ (t : Result ℕ × Db). t.0) (sym p ∙ h)))
    | inr (inl (x, p)) ↦ ap (λ (t : Result ℕ × Db). t.1) (sym h ∙ p)
    | inr (inr (s, p)) ↦ absurd (cc (ap (λ (t : Result ℕ × Db). t.0) (sym p ∙ h)))
  ]

  -- No audit row is lost: a row that the audit offset passes in a turn was in the lines that this turn
  -- sent without an error. The rows have distinct ids.
  pub process_one_batch-sent :
      (now n : ℕ) (db db' : Db) (row : AuditLog)
      → Distinct (λ (r : AuditLog). r.id) db.audit_log
      → process_one_batch lower timestamp encode deliver now db ≡ (ok n, db')
      → Memᴰ row db.audit_log
      → offset_of (read_setting db setting_last_audit_id) < row.id
      → row.id ≤ offset_of (read_setting db' setting_last_audit_id)
      → (send_lines encode deliver (load_config lower db) (lines_of db) ≡ ok tt)
        × Memᴰ (format_rfc5424_audit timestamp row (load_config lower db)) (lines_of db)
  unfolding batch_lines audit_rows str_eq save_offset
  process_one_batch-sent now n db db' row d h m lt le = elim (process_one_batch-cases now db) [
    | inl p ↦
        absurd
          (unmoved (ap (λ (t : Result ℕ × Db). read_setting t.1 setting_last_audit_id) (sym h ∙ p)))
    | inr (inl (x, p)) ↦ absurd (cc (ap (λ (t : Result ℕ × Db). t.0) (sym p ∙ h)))
    | inr (inr (s, p)) ↦ (
      s,
      moved (last_id (λ (r : AuditLog). r.id) (audit_rows db)) refl
          (ap (λ (t : Result ℕ × Db). read_setting t.1 setting_last_audit_id) (sym h ∙ p)),
    )
  ]
    where
      unmoved : read_setting db' setting_last_audit_id ≡ read_setting db setting_last_audit_id → ⊥
      unmoved e = let q = ap offset_of e in omega (arith, q, lt, le)

      other_key : str_eq setting_last_id setting_last_audit_id ≡ false
      other_key = refl

      moved :
          (o : Option ℕ)
          → last_id (λ (r : AuditLog). r.id) (audit_rows db) ≡ o
          → read_setting db' setting_last_audit_id
            ≡ read_setting (saved now db) setting_last_audit_id
          → Memᴰ (format_rfc5424_audit timestamp row (load_config lower db)) (lines_of db)
      moved none e f = absurd (
          unmoved (
            f
            ∙ save_offset-read_other now _ setting_last_id setting_last_audit_id _ other_key
            ∙ ap
                (λ o.
                  read_setting (save_offset now setting_last_audit_id o db) setting_last_audit_id)
                e))
      moved (some k) e f =
          let q =
            ap offset_of (
              f
              ∙ save_offset-read_other now _ setting_last_id setting_last_audit_id _ other_key
              ∙ ap
                  (λ o.
                    read_setting (save_offset now setting_last_audit_id o db) setting_last_audit_id)
                  e)
            ∙ save_offset-read now k setting_last_audit_id db in
          Memᴰ.append_left _ (
            Memᴰ.map (λ r. format_rfc5424_audit timestamp r (load_config lower db))
              (Mem-rows_after (λ (r : AuditLog). r.id) _ k db.audit_log row d e m lt
                (omega (arith, q, le))))

  -- No accounting row is lost: a row that the accounting offset passes in a turn was in the lines that
  -- this turn sent without an error. The rows have distinct ids.
  pub process_one_batch-sent_accounting :
      (now n : ℕ) (db db' : Db) (row : AccountingRecord)
      → Distinct (λ (r : AccountingRecord). r.id) db.accounting
      → process_one_batch lower timestamp encode deliver now db ≡ (ok n, db')
      → Memᴰ row db.accounting
      → offset_of (read_setting db setting_last_id) < row.id
      → row.id ≤ offset_of (read_setting db' setting_last_id)
      → (send_lines encode deliver (load_config lower db) (lines_of db) ≡ ok tt)
        × Memᴰ (format_rfc5424 timestamp row (load_config lower db)) (lines_of db)
  unfolding batch_lines acct_rows str_eq save_offset
  process_one_batch-sent_accounting now n db db' row d h m lt le =
      elim (process_one_batch-cases now db) [
        | inl p ↦
            absurd
              (unmoved (ap (λ (t : Result ℕ × Db). read_setting t.1 setting_last_id) (sym h ∙ p)))
        | inr (inl (x, p)) ↦ absurd (cc (ap (λ (t : Result ℕ × Db). t.0) (sym p ∙ h)))
        | inr (inr (s, p)) ↦ (
          s,
          moved (last_id (λ (r : AccountingRecord). r.id) (acct_rows db)) refl
              (ap (λ (t : Result ℕ × Db). read_setting t.1 setting_last_id) (sym h ∙ p)),
        )
      ]
    where
      unmoved : read_setting db' setting_last_id ≡ read_setting db setting_last_id → ⊥
      unmoved e = let q = ap offset_of e in omega (arith, q, lt, le)

      audited : Db
      audited =
          save_offset now setting_last_audit_id (last_id (λ (r : AuditLog). r.id) (audit_rows db))
            db

      other_key : str_eq setting_last_audit_id setting_last_id ≡ false
      other_key = refl

      moved :
          (o : Option ℕ)
          → last_id (λ (r : AccountingRecord). r.id) (acct_rows db) ≡ o
          → read_setting db' setting_last_id ≡ read_setting (saved now db) setting_last_id
          → Memᴰ (format_rfc5424 timestamp row (load_config lower db)) (lines_of db)
      moved none e f = absurd (
          unmoved (
            f
            ∙ ap (λ o. read_setting (save_offset now setting_last_id o audited) setting_last_id) e
            ∙ save_offset-read_other now _ setting_last_audit_id setting_last_id db other_key))
      moved (some k) e f =
          let q =
            ap offset_of (
              f
              ∙ ap (λ o. read_setting (save_offset now setting_last_id o audited) setting_last_id)
                  e)
            ∙ save_offset-read now k setting_last_id audited in
          Memᴰ.append_right _ (
            Memᴰ.map (λ r. format_rfc5424 timestamp r (load_config lower db))
              (Mem-rows_after (λ (r : AccountingRecord). r.id) _ k db.accounting row d e m lt
                (omega (arith, q, le))))
