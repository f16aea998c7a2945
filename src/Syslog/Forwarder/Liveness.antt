-- ===== src/Syslog/Forwarder/Liveness.antt =====
-- The forwarder does not stand still: with a connection that works it sends every row of the audit log.
use tacacs_web.Prelude.{
  ℕ, suc, ◌+◌, ◌<◌, ◌≤◌, ◌≡◌, refl, sym, ap, ◌∙◌, subst, Bool, true, false, not, ◌&&◌, ◌||◌, Option,
  none, some, List, [], ◌∷◌, Memᴰ, Str, is_empty, length, arith, if◌then◌else◌,
}
use tacacs_web.Models.{AuditLog}
use tacacs_web.Result.{Result, ok, err, Exc}
use tacacs_web.Db.{Db}
use tacacs_web.Syslog.Config.{SyslogConfig, load_config}
use tacacs_web.Syslog.Wire.{Deliver, send_lines}
use tacacs_web.Syslog.Forwarder.{
  is_nil, last_id, audit_rows, acct_rows, after_send, send_batch, process_one_batch, forwarder_loop,
}
use tacacs_web.Syslog.Forwarder.Turn.{saved, lines_of}
use tacacs_web.Syslog.Forwarder.Progress.{rows_after-lt, rows_after-pending, last_id-none}
use tacacs_web.Syslog.Forwarder.Steps.{
  audit_offset, audit_id, turn, saved-offset, once, once-log, once-offset, once-le, Enabled,
  once-Enabled,
}

nearer : (r a b n : ℕ) → r ≤ a + suc n → a ≤ b → (a < r → a < b) → r ≤ b + n
nearer r a b n le mono strict = ground (arith, strict)

module _ (lower : Str → Str) (timestamp : ℕ → Str) (encode : Str → List ℕ) (deliver : Deliver) where
  -- The connection is up.
  abbrev pub Works : Type 0
  Works = (cfg : SyslogConfig) (packets : List (List ℕ)) → deliver cfg packets ≡ ok tt

  module _ (works : Works) where
    send_lines-ok :
        (cfg : SyslogConfig) (lines : List Str)
        → is_empty cfg.host ≡ false
        → send_lines encode deliver cfg lines ≡ ok tt
    unfolding send_lines
    send_lines-ok cfg lines h = rw h (works cfg _)

    is_nil-pending : (l : List AuditLog) (b : Bool) → (l ≡ [] → ⊥) → (is_nil l && b) ≡ false
    is_nil-pending [] b h = absurd (h refl)
    is_nil-pending (x ∷ l) b h = refl

    -- With a row to send, the turn moves the offsets.
    turn-saved :
        (now : ℕ) (db : Db)
        → Enabled lower timestamp encode deliver db
        → (audit_rows db ≡ [] → ⊥)
        → (turn lower timestamp encode deliver now db).1
          ≡ saved lower timestamp encode deliver now db
    unfolding process_one_batch send_batch after_send
    turn-saved now db (on, host) pending =
        sends (not (load_config lower db).enabled || is_empty (load_config lower db).host)
          (is_nil (audit_rows db) && is_nil (acct_rows db))
          (send_lines encode deliver (load_config lower db)
            (lines_of lower timestamp encode deliver db))
          (ap (λ b. not b || is_empty (load_config lower db).host) on ∙ host)
          (is_nil-pending (audit_rows db) (is_nil (acct_rows db)) pending)
          (send_lines-ok (load_config lower db) (lines_of lower timestamp encode deliver db) host)
      where
        n : ℕ
        n = length (lines_of lower timestamp encode deliver db)

        after : Result (Unit {0}) → Result ℕ × Db
        after q =
            after_send lower timestamp encode deliver now db (audit_rows db) (acct_rows db) n q

        sends :
            (b c : Bool) (q : Result (Unit {0}))
            → b ≡ false
            → c ≡ false
            → q ≡ ok tt
            → (if b then (ok 0, db) else if c then (ok 0, db) else after q).1
              ≡ saved lower timestamp encode deliver now db
        sends true c q e f g = absurd (cc e)
        sends false true q e f g = absurd (cc f)
        sends false false (err x) e f g = absurd (cc g)
        sends false false (ok tt) e f g = refl

    module _ (row : AuditLog) where
      -- A turn with the row behind the offset takes the offset forwards.
      once-advances :
          (now : ℕ) (error_text : Exc → Str) (now_text : Str) (db : Db)
          → Enabled lower timestamp encode deliver db
          → Memᴰ row db.audit_log
          → audit_offset db < row.id
          → audit_offset db
            < audit_offset (once lower timestamp encode deliver now error_text now_text db)
      unfolding audit_rows
      once-advances now error_text now_text db on m lt =
          split (last_id audit_id (audit_rows db)) refl
        where
          pending : audit_rows db ≡ [] → ⊥
          pending h = rows_after-pending audit_id (audit_offset db) db.audit_log row m lt h

          split :
              (o : Option ℕ)
              → last_id audit_id (audit_rows db) ≡ o
              → audit_offset db
                < audit_offset (once lower timestamp encode deliver now error_text now_text db)
          split none e = absurd (pending (last_id-none audit_id (audit_rows db) e))
          split (some k) e =
              let q =
                once-offset lower timestamp encode deliver now error_text now_text db
                ∙ ap audit_offset (turn-saved now db on pending)
                ∙ saved-offset lower timestamp encode deliver now k db e in
              let less = rows_after-lt audit_id (audit_offset db) k db.audit_log e in
              omega (arith, q, less)

      -- Every audit row is forwarded in the end: if forwarding is on and the connection works, then after
      -- as many turns of the loop as the row's id is behind the offset, or more, the offset has passed
      -- the row. Nothing but the loop writes to the database meanwhile.
      pub forwarder_loop-passes :
          (error_text : Exc → Str) (turns : List (ℕ × Str)) (db : Db)
          → Enabled lower timestamp encode deliver db
          → Memᴰ row db.audit_log
          → row.id ≤ audit_offset db + length turns
          → row.id
            ≤ audit_offset (forwarder_loop lower timestamp encode deliver error_text turns db)
      unfolding forwarder_loop
      forwarder_loop-passes error_text [] db on m le = omega (arith, le)
      forwarder_loop-passes error_text ((now, now_text) ∷ turns) db on m le =
          forwarder_loop-passes error_text turns _
            (once-Enabled lower timestamp encode deliver now error_text now_text db on)
            (subst (λ l. Memᴰ row l)
              (sym (once-log lower timestamp encode deliver now error_text now_text db)) m)
            (closer (once lower timestamp encode deliver now error_text now_text db)
              (once-le lower timestamp encode deliver now error_text now_text db)
              (once-advances now error_text now_text db on m))
        where
          closer :
              (db' : Db)
              → audit_offset db ≤ audit_offset db'
              → (audit_offset db < row.id → audit_offset db < audit_offset db')
              → row.id ≤ audit_offset db' + length turns
          closer db' mono strict =
              nearer row.id (audit_offset db) (audit_offset db') (length turns) le mono strict
