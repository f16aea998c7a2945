-- ===== src/Auth/Local/Laws/Writes.antt =====
-- What a granted and a refused local login leave in the tables.
use mathlib.Core.List.Memᴰ
use tacacs_web.Prelude.{
  ℕ, ◌+◌, ◌≡◌, refl, sym, ap, subst, ◌∙◌, ◌⊎◌, inl, inr, Bool, true, false, not, none, some, List,
  [], ◌∷◌, ◌++◌, map, Memᴰ, Str, str, str_eq, filter, ◌==◌, ==_iff, Bool-cases, if◌then◌else◌,
}
use tacacs_web.Models.{LocalAdmin, WebSession, AuditLog}
use tacacs_web.Result.{Result, ok, err, http, Exc, multiple_results_found, argon2_error, ok_inj}
use tacacs_web.Db.{Db}
use tacacs_web.Ipaddress.{Ipaddress}
use tacacs_web.Audit.Actions.{auth_login_failed, auth_login_succeeded}
use tacacs_web.Audit.Logger.{audit_row}
use tacacs_web.Audit.Logger.Laws.{appended}
use tacacs_web.Auth.Password.{Verification}
use tacacs_web.Auth.Sessions.{session_sliding_lifetime, session_hard_lifetime, session_row}
use tacacs_web.Auth.Local.{
  LoginRequest, LoginResponse, failed_entry, succeeded_entry, touch_admin, login_local,
}
use tacacs_web.Auth.Local.Laws.{named, new_row, granted_db, response, Outcome, login_local-Outcome}

-- An admin without the time of the last login.
abbrev pub timeless : LocalAdmin → LocalAdmin
timeless a = record a { last_login_at = none }

abbrev touch : ℕ → ℕ → LocalAdmin → LocalAdmin
touch id at a = if a.id == id then record a { last_login_at = some at } else a

touch-timeless :
    (id at : ℕ) (rows : List LocalAdmin) → map timeless (map (touch id at) rows) ≡ map timeless rows
touch-timeless id at [] = refl
touch-timeless id at (a ∷ rows) = elim (Bool-cases (a.id == id)) [
  | inl e ↦ rw e (ap (λ l. timeless a ∷ l) (touch-timeless id at rows))
  | inr e ↦ rw e (ap (λ l. timeless a ∷ l) (touch-timeless id at rows))
]

touch-others :
    (id at : ℕ) (rows : List LocalAdmin)
    → filter (λ (a : LocalAdmin). not (a.id == id)) (map (touch id at) rows)
      ≡ filter (λ (a : LocalAdmin). not (a.id == id)) rows
unfolding filter
touch-others id at [] = refl
touch-others id at (a ∷ rows) = elim (Bool-cases (a.id == id)) [
  | inl e ↦ rw e (rw e (touch-others id at rows))
  | inr e ↦ rw e (rw e (ap (λ l. a ∷ l) (touch-others id at rows)))
]

touch-time :
    (id at : ℕ) (rows : List LocalAdmin) (a : LocalAdmin)
    → Memᴰ a (map (touch id at) rows)
    → a.id ≡ id
    → a.last_login_at ≡ some at
touch-time id at [] a m e = absurd (Memᴰ.not-nil m)
touch-time id at (b ∷ rows) a (Memᴰ.tail m) e = touch-time id at rows a m e
touch-time id at (b ∷ rows) a (Memᴰ.head h) e = split (b.id == id) refl h
  where
    split :
        (t : Bool)
        → (b.id == id) ≡ t
        → a ≡ (if t then record b { last_login_at = some at } else b)
        → a.last_login_at ≡ some at
    split true k h = ap (λ (x : LocalAdmin). x.last_login_at) h
    split false k h =
        absurd (cc (k, (==_iff b.id id).1 (ap (λ (x : LocalAdmin). x.id) (sym h) ∙ e)))

-- The rows that a granted login writes: a new session of the admin, an audit row, and the time of the
-- login in the admin's row; every other row and column of the three tables is as it was.
pub record LoginWrites (token : Str) (now : ℕ) (req : LoginRequest) (admin : LocalAdmin)
    (db db' : Db) : Type 0 where
  pub session : WebSession
  pub sessions : db'.web_sessions ≡ db.web_sessions ++ session ∷ []
  pub session_token : session.token ≡ token
  pub session_user : session.username_snapshot ≡ admin.username
  pub session_role : session.role ≡ str "admin"
  pub session_admin : session.local_admin_id ≡ some admin.id
  pub session_created : session.created_at ≡ now
  pub session_expires : session.expires_at ≡ now + session_sliding_lifetime
  pub session_capped : session.hard_expires_at ≡ now + session_hard_lifetime
  pub entry : AuditLog
  pub audited : db'.audit_log ≡ db.audit_log ++ entry ∷ []
  pub entry_action : entry.action ≡ auth_login_succeeded
  pub entry_actor : entry.actor_id ≡ some admin.id
  pub entry_ip : entry.client_ip ≡ req.client_ip
  pub login_time :
      (a : LocalAdmin) → Memᴰ a db'.local_admins → a.id ≡ admin.id → a.last_login_at ≡ some now
  pub columns : map timeless db'.local_admins ≡ map timeless db.local_admins
  pub other_admins :
      filter (λ (a : LocalAdmin). not (a.id == admin.id)) db'.local_admins
      ≡ filter (λ (a : LocalAdmin). not (a.id == admin.id)) db.local_admins

granted_db-LoginWrites :
    (token : Str) (now : ℕ) (req : LoginRequest) (admin : LocalAdmin) (db : Db)
    → LoginWrites token now req admin db (granted_db token now req db admin)
unfolding granted_db appended touch_admin succeeded_entry audit_row new_row session_row str_eq
granted_db-LoginWrites token now req admin db = record {
  session = new_row token now req db admin;
  sessions = refl;
  session_token = refl;
  session_user = refl;
  session_role = refl;
  session_admin = refl;
  session_created = refl;
  session_expires = refl;
  session_capped = refl;
  entry = audit_row db.next_audit_id now (succeeded_entry admin req);
  audited = refl;
  entry_action = refl;
  entry_actor = refl;
  entry_ip = refl;
  login_time = touch-time admin.id now db.local_admins;
  columns = touch-timeless admin.id now db.local_admins;
  other_admins = touch-others admin.id now db.local_admins;
}

err_unique : (p : Result LoginResponse) (x y : Exc) → p ≡ err x → p ≡ err y → x ≡ y
err_unique p x y h k = cc (h, k)

module _ (lib : Ipaddress) (verify : Str → Str → Verification) (token : Str) (now : ℕ)
    (req : LoginRequest) (db db' : Db) where
  -- A granted login sets the token of the session that it starts, and writes that session of the admin,
  -- one audit row and the time of the login in the admin's row; the other admins, and the other
  -- columns of this one, stay as they were.
  pub login_local-granted :
      (r : LoginResponse)
      → login_local lib verify token now req db ≡ (ok r, db')
      → (admin : LocalAdmin) × (named req db ≡ admin ∷ [])
        × (r.cookie ≡ token)
        × (r.username ≡ admin.username)
        × LoginWrites token now req admin db db'
  unfolding Outcome response
  login_local-granted r h = elim (login_local-Outcome lib verify token now req db) [
    | inl (e, p, _) ↦ absurd (cc (p, h))
    | inr (inl (b, p)) ↦ absurd (cc (p, h))
    | inr (inr (admin, only, m, p)) ↦
        let q = sym p ∙ h in
        let same : response token now req db admin ≡ r =
          ok_inj (ap (λ (x : Result LoginResponse × Db). x.0) q) in
        (
          admin,
          only,
          ap (λ (x : LoginResponse). x.cookie) (sym same),
          ap (λ (x : LoginResponse). x.username) (sym same),
          subst (LoginWrites token now req admin db) (ap (λ (x : Result LoginResponse × Db). x.1) q)
              (granted_db-LoginWrites token now req admin db),
        )
  ]

  -- A login that is not granted either fails by an exception, for two admins of one name or a stored
  -- hash that argon2 cannot check, and writes nothing, or answers 401 with the same detail whatever failed,
  -- and writes one audit row of a failed login under the given name and nothing else.
  pub login_local-refused :
      (e : Exc)
      → login_local lib verify token now req db ≡ (err e, db')
      → ((db' ≡ db) × ((e ≡ multiple_results_found) ⊎ (e ≡ argon2_error)))
        ⊎ ((e ≡ http 401 (str "invalid_credentials"))
            × (entry : AuditLog) × (db' ≡ record db {
              audit_log = db.audit_log ++ entry ∷ [];
              next_audit_id = db.next_audit_id + 1;
            })
            × (entry.action ≡ auth_login_failed)
            × (entry.actor_username_snapshot ≡ req.username))
  unfolding Outcome appended audit_row failed_entry
  login_local-refused e h = elim (login_local-Outcome lib verify token now req db) [
    | inl (x, p, which) ↦
        let q = sym h ∙ p in
        let same : e ≡ x = outcome_of x h p in
        inl (
          ap (λ (x : Result LoginResponse × Db). x.1) q,
          subst (λ x. (x ≡ multiple_results_found) ⊎ (x ≡ argon2_error)) (sym same) which,
        )
    | inr (inl (b, p)) ↦
        let q = sym h ∙ p in
        inr (
          outcome_of (http 401 (str "invalid_credentials")) h p,
          audit_row db.next_audit_id now (failed_entry lib b req),
          ap (λ (x : Result LoginResponse × Db). x.1) q,
          refl,
          refl,
        )
    | inr (inr (admin, only, m, p)) ↦ absurd (cc (p, h))
  ]
    where
      outcome_of :
          (x : Exc) {d d' : Db}
          → login_local lib verify token now req db ≡ (err e, d)
          → login_local lib verify token now req db ≡ (err x, d')
          → e ≡ x
      outcome_of x h p =
          err_unique (login_local lib verify token now req db).0 e x
            (ap (λ (t : Result LoginResponse × Db). t.0) h)
            (ap (λ (t : Result LoginResponse × Db). t.0) p)
