-- ===== src/Auth/Local/Laws.antt =====
-- When a local login is granted, and what each outcome writes.
pub mod Writes
use tacacs_web.Prelude.{
  ℕ, ◌≡◌, refl, ap, ◌∙◌, ◌↔◌, ◌⊎◌, inl, inr, Bool, true, false, not, ◌||◌, Option, none, some, List,
  [], ◌∷◌, ◌++◌, Str, str, str_eq, is_empty, filter, if◌then◌else◌,
}
use tacacs_web.Models.{LocalAdmin, WebSession}
use tacacs_web.Result.{
  Result, ok, err, http, Exc, multiple_results_found, argon2_error, or_rollback,
}
use tacacs_web.Db.{Db, scalar_one_or_none}
use tacacs_web.Ipaddress.{Addr, Network, Ipaddress, contains}
use tacacs_web.Audit.Actions.{is_action, auth_login_failed, auth_login_succeeded}
use tacacs_web.Audit.Logger.Laws.{appended, append-ok}
use tacacs_web.Auth.Password.{Verification, matched, mismatched, raised, verified, verify_password}
use tacacs_web.Auth.Sessions.{session_row}
use tacacs_web.Auth.Local.Cidr.{Allowed, cidr_allows_sound, cidr_allows_complete}
use tacacs_web.Auth.Local.{
  LoginRequest, LoginResponse, address_in, allows_from, cidr_allows, accepted, cidr_ok,
  failed_entry, succeeded_entry, touch_admin, refuse, grant, decide_login, check_login, login_local,
}

failed_is_action : is_action auth_login_failed ≡ true
unfolding is_action
failed_is_action = refl

succeeded_is_action : is_action auth_login_succeeded ≡ true
unfolding is_action
succeeded_is_action = refl

-- The rows of the name that the request gives.
abbrev pub named : LoginRequest → Db → List LocalAdmin
named req db = filter (λ (a : LocalAdmin). str_eq a.username req.username) db.local_admins

module _ (token : Str) (now : ℕ) (req : LoginRequest) (db : Db) where
  new_row : LocalAdmin → WebSession
  new_row admin = session_row token now (record {
    username = admin.username;
    role = str "admin";
    auth_method = str "local";
    actor_id = some admin.id;
    client_ip = req.client_ip;
  })

  granted_db : LocalAdmin → Db
  granted_db admin =
      appended now (succeeded_entry admin req)
        (touch_admin admin now (record db { web_sessions = db.web_sessions ++ new_row admin ∷ [] }))

  response : LocalAdmin → LoginResponse
  response admin = record {
    username = admin.username;
    role = str "admin";
    auth_method = str "local";
    cookie = token;
  }

  grant-eq :
      (admin : LocalAdmin) → grant token now admin req db ≡ (ok (response admin), granted_db admin)
  unfolding grant session_row new_row granted_db response
  grant-eq admin = rw (
      append-ok now (succeeded_entry admin req)
        (touch_admin admin now (record db { web_sessions = db.web_sessions ++ new_row admin ∷ [] }))
        succeeded_is_action)

module _ (lib : Ipaddress) (verify : Str → Str → Verification) (token : Str) (now : ℕ)
    (req : LoginRequest) (db : Db) where
  -- What a login of an admin has to rest on.
  pub record MayLogin (admin : LocalAdmin) : Type 0 where
    pub has_password : is_empty req.password ≡ false
    pub has_hash : is_empty admin.password_argon2_hash ≡ false
    pub password : verify admin.password_argon2_hash req.password ≡ matched
    pub network : Allowed lib admin.allowed_source_cidr req.client_ip

  accepted-eq-ok :
      (admin : LocalAdmin) (a b : Bool) (v : Verification)
      → (if a || b then ok false else verified v) ≡ ok true
      → (a ≡ false) × (b ≡ false) × (v ≡ matched)
  unfolding verified
  accepted-eq-ok admin true b v h = absurd (cc h)
  accepted-eq-ok admin false true v h = absurd (cc h)
  accepted-eq-ok admin false false matched h = (refl, refl, refl)
  accepted-eq-ok admin false false mismatched h = absurd (cc h)
  accepted-eq-ok admin false false raised h = absurd (cc h)

  accepted-err :
      (a b : Bool) (v : Verification) (e : Exc)
      → (if a || b then ok false else verified v) ≡ err e
      → e ≡ argon2_error
  unfolding verified
  accepted-err true b v e h = absurd (cc h)
  accepted-err false true v e h = absurd (cc h)
  accepted-err false false matched e h = absurd (cc h)
  accepted-err false false mismatched e h = absurd (cc h)
  accepted-err false false raised e h = cc h

  -- What a login comes to: an exception that writes nothing, a refusal, or a grant.
  Outcome : List LocalAdmin → Result LoginResponse × Db → Type 0
  Outcome rows x =
      ((e : Exc) × (x ≡ (err e, db)) × ((e ≡ multiple_results_found) ⊎ (e ≡ argon2_error)))
      ⊎ ((b : Bool) × (x ≡ (
        err (http 401 (str "invalid_credentials")),
        appended now (failed_entry lib b req) db,
      )))
      ⊎ ((admin : LocalAdmin) × (rows ≡ admin ∷ [])
          × MayLogin admin
          × (x ≡ (ok (response token now req db admin), granted_db token now req db admin)))

  refuse-eq :
      (b : Bool)
      → refuse lib now b req db
        ≡ (err (http 401 (str "invalid_credentials")), appended now (failed_entry lib b req) db)
  unfolding refuse failed_entry
  refuse-eq b = rw (append-ok now (failed_entry lib b req) db failed_is_action)

  decide_login-Outcome :
      (admin : LocalAdmin) (b c : Bool)
      → accepted lib verify (some admin) req ≡ ok b
      → cidr_ok lib (some admin) req ≡ c
      → Outcome
          (admin ∷ [])
          (if not b || not c then refuse lib now b req db else grant token now admin req db)
  unfolding Outcome accepted cidr_ok verify_password
  decide_login-Outcome admin false c h k = inr (inl (false, refuse-eq false))
  decide_login-Outcome admin true false h k = inr (inl (true, refuse-eq true))
  decide_login-Outcome admin true true h k =
      let (p, q, m) =
        accepted-eq-ok admin (is_empty req.password) (is_empty admin.password_argon2_hash)
          (verify admin.password_argon2_hash req.password) h in
      inr (
        inr (
          admin,
          refl,
          record {
            has_password = p;
            has_hash = q;
            password = m;
            network = cidr_allows_sound lib admin.allowed_source_cidr req.client_ip k;
          },
          grant-eq token now req db admin,
        ))

  tried :
      (admin : LocalAdmin) (r : Result Bool)
      → accepted lib verify (some admin) req ≡ r
      → Outcome
          (admin ∷ [])
          (or_rollback db r λ b. decide_login lib token now (some admin) b req db)
  unfolding Outcome decide_login accepted verify_password
  tried admin (err e) h = inl (
    e,
    refl,
    inr (
        accepted-err (is_empty req.password) (is_empty admin.password_argon2_hash)
          (verify admin.password_argon2_hash req.password) e h),
  )
  tried admin (ok b) h = decide_login-Outcome admin b (cidr_ok lib (some admin) req) h refl

  rows-Outcome :
      (rows : List LocalAdmin)
      → Outcome rows
          (or_rollback db (scalar_one_or_none rows) λ o. check_login lib verify token now o req db)
  unfolding Outcome scalar_one_or_none check_login decide_login accepted
  rows-Outcome [] = inr (inl (false, refuse-eq false))
  rows-Outcome (admin ∷ []) = tried admin (accepted lib verify (some admin) req) refl
  rows-Outcome (a ∷ b ∷ rows) = inl (multiple_results_found, refl, inl refl)

  login_local-Outcome : Outcome (named req db) (login_local lib verify token now req db)
  unfolding login_local
  login_local-Outcome = rows-Outcome (named req db)

  granted-MayLogin :
      (admin : LocalAdmin)
      → named req db ≡ admin ∷ []
      → MayLogin admin
      → login_local lib verify token now req db
        ≡ (ok (response token now req db admin), granted_db token now req db admin)
  unfolding login_local scalar_one_or_none check_login decide_login accepted verify_password
      verified cidr_ok
  granted-MayLogin admin only m = rw only (
      rw (m.has_password, m.has_hash)
        (rw m.password (
          rw (cidr_allows_complete lib admin.allowed_source_cidr req.client_ip m.network)
            (grant-eq token now req db admin))))

  -- A login is granted exactly when one admin has that name, the stored hash and the password match and
  -- neither is empty, and the client's address is in the admin's allowed network, if one is set.
  pub login_local-eq-ok_iff :
      ((r : LoginResponse) × ((login_local lib verify token now req db).0 ≡ ok r))
      ↔ ((admin : LocalAdmin) × (named req db ≡ admin ∷ []) × MayLogin admin)
  unfolding Outcome
  login_local-eq-ok_iff = (
    λ (r, h). elim login_local-Outcome [
      | inl (e, p, _) ↦ absurd (cc (ap (λ (x : Result LoginResponse × Db). x.0) p, h))
      | inr (inl (b, p)) ↦ absurd (cc (ap (λ (x : Result LoginResponse × Db). x.0) p, h))
      | inr (inr (admin, only, m, p)) ↦ (admin, only, m)
    ],
    λ (admin, only, m). (
      response token now req db admin,
      ap (λ (x : Result LoginResponse × Db). x.0) (granted-MayLogin admin only m),
    ),
  )
