-- ===== src/Auth/Sessions/Lifetime.antt =====
-- How long a session lives: an invariant of the session table over every history of logins,
-- requests and logouts.
use tacacs_web.Prelude.{
  ℕ, ◌+◌, ◌≤◌, ◌<◌, ◌≡◌, ap, some, List, [], ◌∷◌, Memᴰ, arith, Str, All, All-append, All-Mem,
}
use tacacs_web.Models.{WebSession}
use tacacs_web.Result.{ok}
use tacacs_web.Db.{Db}
use tacacs_web.Auth.Sessions.{
  session_sliding_lifetime, session_hard_lifetime, SessionContext, NewSession, session_row,
  create_session, revoke_session, Caller, slide, context_of, require_session,
}
use tacacs_web.Auth.Sessions.Kept.{revoke_session-All, require_session-All}
use tacacs_web.Auth.Sessions.Lookup.{require_session-Admitted, get_session-eq-some}

-- What holds of a stored session at the time `now`.
pub record IsSound (now : ℕ) (w : WebSession) : Type 0 where
  pub capped : w.hard_expires_at ≡ w.created_at + session_hard_lifetime
  pub sliding : w.expires_at ≤ w.last_seen_at + session_sliding_lifetime
  pub within : w.expires_at ≤ w.hard_expires_at
  pub order : w.created_at ≤ w.last_seen_at
  pub past : w.last_seen_at ≤ now

IsSound-later : {t now : ℕ} {w : WebSession} → t ≤ now → IsSound t w → IsSound now w
IsSound-later h s = record {
  capped = s.capped;
  sliding = s.sliding;
  within = s.within;
  order = s.order;
  past = omega arith;
}

session_row-IsSound :
    (token : Str) (now : ℕ) (n : NewSession) → IsSound now (session_row token now n)
unfolding session_row
session_row-IsSound token now n = omega arith

slide-IsSound : {now : ℕ} {w : WebSession} → IsSound now w → IsSound now (slide now w)
unfolding slide
slide-IsSound s = omega arith

abbrev AllSound : ℕ → List WebSession → Type 0
AllSound now rows = All (IsSound now) rows

AllSound-later :
    {t now : ℕ} (rows : List WebSession) → t ≤ now → AllSound t rows → AllSound now rows
AllSound-later [] h s = tt
AllSound-later (w ∷ rows) h (p, s) = (IsSound-later h p, AllSound-later rows h s)

-- The databases that a history of logins, requests and logouts leads to, with the time of the last
-- event; the clock does not go back. The other operations leave the session table alone.
pub data History : ℕ → Db → Type 0 where
  start : (db : Db) → db.web_sessions ≡ [] → History 0 db
  login :
      {t : ℕ} {db : Db} (now : ℕ) (token : Str) (n : NewSession)
      → History t db
      → t ≤ now
      → History now (create_session token now n db).1
  request :
      {t : ℕ} {db : Db} (now : ℕ) (c : Caller)
      → History t db
      → t ≤ now
      → History now (require_session c now db).1
  logout : {t : ℕ} {db : Db} (token : Str) → History t db → History t (revoke_session token db).1
  other :
      {t : ℕ} {db : Db} (db' : Db)
      → History t db
      → db'.web_sessions ≡ db.web_sessions
      → History t db'

History-AllSound : {t : ℕ} {db : Db} → History t db → AllSound t db.web_sessions
unfolding create_session revoke_session require_session
History-AllSound (start db e) = rw e tt
History-AllSound (login {t} {db} now token n h le) =
    All-append (IsSound now) db.web_sessions (session_row token now n ∷ [])
      (AllSound-later db.web_sessions le (History-AllSound h)) (session_row-IsSound token now n, tt)
History-AllSound (request {t} {db} now c h le) =
    require_session-All (IsSound now) now (λ w. slide-IsSound) c db
      (AllSound-later db.web_sessions le (History-AllSound h))
History-AllSound (logout {t} {db} token h) =
    revoke_session-All (IsSound t) token db (History-AllSound h)
History-AllSound (other db' h e) = rw e (History-AllSound h)

-- After any history, a request that is admitted carries the token of a stored session that was
-- created less than 24 hours and last used less than 8 hours ago, and acts under its user name and
-- role.
pub require_session_in_time :
    {t : ℕ} {db : Db} (c : Caller) (now : ℕ) (ctx : SessionContext)
    → History t db
    → t ≤ now
    → (require_session c now db).0 ≡ ok ctx
    → (row : WebSession) × Memᴰ row db.web_sessions
      × (c.cookie_token ≡ some row.token)
      × (now < row.created_at + session_hard_lifetime)
      × (now < row.last_seen_at + session_sliding_lifetime)
      × (ctx.username ≡ row.username_snapshot)
      × (ctx.role ≡ row.role)
require_session_in_time {db} c now ctx h le e =
    let a = require_session-Admitted c now ctx db e in
    let m = (get_session-eq-some db a.row.token a.row a.found).0 in
    let s =
      All-Mem (IsSound now) db.web_sessions (AllSound-later db.web_sessions le (History-AllSound h))
        a.row m in
    (
      a.row,
      m,
      a.cookie,
      omega (arith, a.before_hard, s.capped),
      omega (arith, a.before_sliding, s.sliding),
      unfold context_of slide in ap (λ x. x.username) a.context,
      unfold context_of slide in ap (λ x. x.role) a.context,
    )
