-- ===== src/Auth/Sessions.antt =====
-- backend/app/auth/sessions.py. The clock and the random token are arguments. A handler gives its
-- result and the database that it leaves behind.
pub mod Lookup
pub mod Kept
pub mod Lifetime
pub mod Revoked
use tacacs_web.Prelude.{
  ℕ, ◌+◌, ◌*◌, min, Bool, true, false, not, ◌||◌, Option, none, some, List, [], ◌∷◌, ◌++◌, map, Str,
  str, str_eq, is_empty, leb, filter, find?, if◌then◌else◌,
}
use tacacs_web.Models.{WebSession}
use tacacs_web.Result.{Result, ok, err, http}
use tacacs_web.Db.{Db}

-- In microseconds.
abbrev pub session_sliding_lifetime : ℕ
session_sliding_lifetime = 8 * 3600 * 1000000

abbrev pub session_hard_lifetime : ℕ
session_hard_lifetime = 24 * 3600 * 1000000

pub record SessionContext : Type 0 where
  pub token : Str
  pub username : Str
  pub role : Str
  pub auth_method : Str
  pub actor_id : Option ℕ
  pub client_ip : Option Str
  pub user_agent : Option Str

pub record NewSession : Type 0 where
  pub username : Str
  pub role : Str
  pub auth_method : Str
  pub actor_id : Option ℕ
  pub client_ip : Option Str

unfoldable pub session_row : Str → ℕ → NewSession → WebSession
session_row token now n = record {
  token = token;
  auth_method = n.auth_method;
  local_admin_id = if str_eq n.auth_method (str "local") then n.actor_id else none;
  username_snapshot = n.username;
  role = n.role;
  created_at = now;
  last_seen_at = now;
  expires_at = now + session_sliding_lifetime;
  hard_expires_at = now + session_hard_lifetime;
  client_ip = n.client_ip;
}

unfoldable pub create_session : Str → ℕ → NewSession → Db → WebSession × Db
create_session token now n db =
    let row = session_row token now n in
    (row, record db { web_sessions = db.web_sessions ++ row ∷ [] })

-- `session.get(WebSession, token)`
unfoldable pub get_session : Db → Str → Option WebSession
get_session db token = find? (λ (w : WebSession). str_eq w.token token) db.web_sessions

unfoldable pub delete_session : Str → Db → Db
delete_session token db = record db {
  web_sessions = filter (λ (w : WebSession). not (str_eq w.token token)) db.web_sessions;
}

revoke_row : Str → Db → Option WebSession → Bool × Db
unfolding delete_session
revoke_row token db none = (false, db)
revoke_row token db (some row) = (true, delete_session token db)

unfoldable pub revoke_session : Str → Db → Bool × Db
unfolding get_session revoke_row
revoke_session token db = revoke_row token db (get_session db token)

-- `now >= row.hard_expires_at or now >= row.expires_at`
abbrev pub is_expired : WebSession → ℕ → Bool
is_expired row now = leb row.hard_expires_at now || leb row.expires_at now

load_row : Str → ℕ → Db → Option WebSession → Option WebSession × Db
unfolding delete_session
load_row token now db none = (none, db)
load_row token now db (some row) =
    if is_expired row now then (none, delete_session token db) else (some row, db)

unfoldable pub load_active_session : Str → ℕ → Db → Option WebSession × Db
unfolding get_session load_row
load_active_session token now db = load_row token now db (get_session db token)

-- The slide of the expiry, never past the hard cap.
unfoldable pub slide : ℕ → WebSession → WebSession
slide now row = record row {
  last_seen_at = now;
  expires_at = min (now + session_sliding_lifetime) row.hard_expires_at;
}

-- The write of a changed row: the token is the primary key.
unfoldable pub write_session : WebSession → Db → Db
write_session row db = record db {
  web_sessions =
      map (λ (w : WebSession). if str_eq w.token row.token then row else w) db.web_sessions;
}

unfoldable pub context_of : WebSession → Option Str → Option Str → SessionContext
context_of row client_ip user_agent = record {
  token = row.token;
  username = row.username_snapshot;
  role = row.role;
  auth_method = row.auth_method;
  actor_id = row.local_admin_id;
  client_ip = client_ip;
  user_agent = user_agent;
}

pub record Caller : Type 0 where
  pub cookie_token : Option Str
  pub client_ip : Option Str
  pub user_agent : Option Str

admit_loaded : Caller → ℕ → Option WebSession × Db → Result SessionContext × Db
unfolding slide write_session context_of
admit_loaded c now (none, db) = (err (http 401 (str "session_expired")), db)
admit_loaded c now (some row, db) =
    let row' = slide now row in
    (ok (context_of row' c.client_ip c.user_agent), write_session row' db)

with_cookie : Caller → ℕ → Db → Option Str → Result SessionContext × Db
unfolding load_active_session admit_loaded
with_cookie c now db none = (err (http 401 (str "no_session")), db)
with_cookie c now db (some []) = (err (http 401 (str "no_session")), db)
with_cookie c now db (some (ch ∷ chars)) =
    admit_loaded c now (load_active_session (ch ∷ chars) now db)

unfoldable pub require_session : Caller → ℕ → Db → Result SessionContext × Db
unfolding with_cookie
require_session c now db = with_cookie c now db c.cookie_token

unfoldable pub require_admin : SessionContext → Result SessionContext
require_admin ctx =
    if str_eq ctx.role (str "admin") then ok ctx else err (http 403 (str "admin_required"))
