-- ===== src/Auth/Sessions/Lookup.antt =====
-- Looking up, deleting and writing the rows of the session table, and inversion of an admitted
-- request.
use tacacs_web.Prelude.{
  ℕ, ◌<◌, ◌≡◌, refl, sym, ap, ◌∙◌, inl, inr, false, not, Option, none, some, List, [], ◌∷◌, Memᴰ,
  arith, Str, str, str_eq, str_eq_iff, filter, find?, find?-eq-some, Bool-cases,
}
use tacacs_web.Models.{WebSession}
use tacacs_web.Result.{ok, err, http, Exc}
use tacacs_web.Db.{Db}
use tacacs_web.Auth.Sessions.{
  SessionContext, Caller, get_session, delete_session, revoke_session, is_expired,
  load_active_session, slide, write_session, context_of, admit_loaded, with_cookie, load_row,
  revoke_row, require_session,
}

find?-filter-not :
    (token : Str) (rows : List WebSession)
    → find?
        (λ (w : WebSession). str_eq w.token token)
        (filter (λ (w : WebSession). not (str_eq w.token token)) rows)
      ≡ none
unfolding find? filter
find?-filter-not token [] = refl
find?-filter-not token (w ∷ rows) = elim (Bool-cases (str_eq w.token token)) [
  | inl e ↦ rw e (find?-filter-not token rows)
  | inr e ↦ rw e (rw e (find?-filter-not token rows))
]

-- A deleted session is not found any more.
pub get_session-delete :
    (token : Str) (db : Db) → get_session (delete_session token db) token ≡ none
unfolding get_session delete_session
get_session-delete token db = find?-filter-not token db.web_sessions

pub get_session-revoke :
    (token : Str) (db : Db) → get_session (revoke_session token db).1 token ≡ none
unfolding revoke_session
get_session-revoke token db = go (get_session db token) refl
  where
    go :
        (o : Option WebSession)
        → get_session db token ≡ o
        → get_session (revoke_row token db o).1 token ≡ none
    go none e = e
    go (some row) e = get_session-delete token db

pub get_session-eq-some :
    (db : Db) (token : Str) (row : WebSession)
    → get_session db token ≡ some row
    → Memᴰ row db.web_sessions × (row.token ≡ token)
unfolding get_session
get_session-eq-some db token row h =
    let (m, e) = find?-eq-some (λ (w : WebSession). str_eq w.token token) row db.web_sessions h in
    (m, (str_eq_iff row.token token).0 e)

-- What an admitted request has established.
pub record Admitted (c : Caller) (now : ℕ) (db : Db) (ctx : SessionContext) : Type 0 where
  pub row : WebSession
  pub cookie : c.cookie_token ≡ some row.token
  pub found : get_session db row.token ≡ some row
  pub before_hard : now < row.hard_expires_at
  pub before_sliding : now < row.expires_at
  pub context : ctx ≡ context_of (slide now row) c.client_ip c.user_agent
  pub written : (require_session c now db).1 ≡ write_session (slide now row) db

module _ (c : Caller) (now : ℕ) (ctx : SessionContext) where
  -- What the two steps behind the cookie have established.
  record Passed (token : Str) (db : Db) (p : Option WebSession × Db) : Type 0 where
    row : WebSession
    found : get_session db token ≡ some row
    alive : is_expired row now ≡ false
    context : ctx ≡ context_of (slide now row) c.client_ip c.user_agent
    written : (admit_loaded c now p).1 ≡ write_session (slide now row) db

  load_row-Passed :
      (token : Str) (db : Db) (o : Option WebSession)
      → get_session db token ≡ o
      → (admit_loaded c now (load_row token now db o)).0 ≡ ok ctx
      → Passed token db (load_row token now db o)
  unfolding load_row admit_loaded
  load_row-Passed token db none e h = absurd (cc h)
  load_row-Passed token db (some row) e h = elim (Bool-cases (is_expired row now)) [
    | inl g ↦ absurd (cc (rw g at h))
    | inr g ↦ record {
      row = row;
      found = e;
      alive = g;
      context =
          let k : ok (context_of (slide now row) c.client_ip c.user_agent) ≡ ok ctx = rw g at h in
          cc k;
      written = rw g;
    }
  ]

  -- Of a session that has not expired the request is admitted.
  with_cookie-Admitted :
      (db : Db) (o : Option Str)
      → (with_cookie c now db o).0 ≡ ok ctx
      → (token : Str) × (o ≡ some token)
        × Passed token db (load_active_session token now db)
        × ((with_cookie c now db o).1 ≡ (admit_loaded c now (load_active_session token now db)).1)
  unfolding with_cookie
  with_cookie-Admitted db none h = absurd (cc h)
  with_cookie-Admitted db (some []) h = absurd (cc h)
  with_cookie-Admitted db (some (ch ∷ chars)) h =
      (ch ∷ chars, refl, load_row-Passed (ch ∷ chars) db (get_session db (ch ∷ chars)) refl h, refl)

  -- A request is admitted only with the token of a stored session that has not expired.
  pub require_session-Admitted :
      (db : Db) → (require_session c now db).0 ≡ ok ctx → Admitted c now db ctx
  unfolding require_session
  require_session-Admitted db h =
      let (token, e, p, w) = with_cookie-Admitted db c.cookie_token h in
      let (m, same) = get_session-eq-some db token p.row p.found in
      let alive = p.alive in
      record {
        row = p.row;
        cookie = e ∙ ap some (sym same);
        found = ap (get_session db) same ∙ p.found;
        before_hard = ground arith;
        before_sliding = ground arith;
        context = p.context;
        written = w ∙ p.written;
      }

-- A token that no row has is refused, and nothing is written.
with_cookie-missing :
    (c : Caller) (now : ℕ) (db : Db) (token : Str)
    → get_session db token ≡ none
    → (e : Exc) × (with_cookie c now db (some token) ≡ (err e, db))
unfolding with_cookie load_active_session
with_cookie-missing c now db [] f = (http 401 (str "no_session"), refl)
with_cookie-missing c now db (ch ∷ chars) f = (
  http 401 (str "session_expired"),
  ap (λ o. admit_loaded c now (load_row (ch ∷ chars) now db o)) f,
)

pub require_session-missing :
    (c : Caller) (now : ℕ) (db : Db) (token : Str)
    → c.cookie_token ≡ some token
    → get_session db token ≡ none
    → (e : Exc) × (require_session c now db ≡ (err e, db))
unfolding require_session
require_session-missing c now db token e f =
    let (x, h) = with_cookie-missing c now db token f in (x, ap (with_cookie c now db) e ∙ h)
