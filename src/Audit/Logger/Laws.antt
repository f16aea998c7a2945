-- ===== src/Audit/Logger/Laws.antt =====
-- What `append` does to the database.
use tacacs_web.Prelude.{ℕ, ◌+◌, ◌≡◌, true, [], ◌∷◌, ◌++◌}
use tacacs_web.Result.{ok}
use tacacs_web.Db.{Db}
use tacacs_web.Audit.Actions.{is_action}
use tacacs_web.Audit.Logger.{Entry, audit_row, append}

-- The database with one more row.
unfoldable pub appended : ℕ → Entry → Db → Db
appended now e db = record db {
  audit_log = db.audit_log ++ audit_row db.next_audit_id now e ∷ [];
  next_audit_id = db.next_audit_id + 1;
}

-- An action of the vocabulary is written as one row behind the others.
pub append-ok :
    (now : ℕ) (e : Entry) (db : Db)
    → is_action e.action ≡ true
    → append now e db ≡ ok (appended now e db)
unfolding append appended
append-ok now e db h = rw h
