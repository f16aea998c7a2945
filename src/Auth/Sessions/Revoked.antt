-- ===== src/Auth/Sessions/Revoked.antt =====
-- A revoked session stays revoked.
use tacacs_web.Prelude.{
  ℕ, ◌≡◌, ◌≢◌, refl, inl, inr, Option, none, some, List, [], ◌∷◌, Str, str_eq, str_eq_iff, find?,
  Bool-cases, All, All-append, All-Mem,
}
use tacacs_web.Models.{WebSession}
use tacacs_web.Result.{err, Exc}
use tacacs_web.Db.{Db}
use tacacs_web.Auth.Sessions.{
  NewSession, session_row, create_session, get_session, revoke_session, Caller, slide,
  require_session,
}
use tacacs_web.Auth.Sessions.Lookup.{
  require_session-missing, get_session-eq-some, get_session-revoke,
}
use tacacs_web.Auth.Sessions.Kept.{revoke_session-All, require_session-All}

-- What may happen to a database after a point in time: logins, each with a new random token other than
-- the given one, requests and logouts of anybody, and operations that leave the session table alone.
pub data Since (token : Str) (db0 : Db) : Db → Type 0 where
  here : Since token db0 db0
  login :
      {db : Db} (now : ℕ) (fresh : Str) (n : NewSession)
      → fresh ≢ token
      → Since token db0 db
      → Since token db0 (create_session fresh now n db).1
  request :
      {db : Db} (now : ℕ) (c : Caller)
      → Since token db0 db
      → Since token db0 (require_session c now db).1
  logout : {db : Db} (gone : Str) → Since token db0 db → Since token db0 (revoke_session gone db).1
  other :
      {db : Db} (db' : Db)
      → Since token db0 db
      → db'.web_sessions ≡ db.web_sessions
      → Since token db0 db'

module _ (token : Str) where
  abbrev NotIts : WebSession → Type 0
  NotIts w = w.token ≢ token

  All-of_none :
      (rows : List WebSession)
      → find? (λ (w : WebSession). str_eq w.token token) rows ≡ none
      → All NotIts rows
  unfolding find?
  All-of_none [] h = tt
  All-of_none (w ∷ rows) h = elim (Bool-cases (str_eq w.token token)) [
    | inl e ↦ absurd (cc (rw e at h))
    | inr e ↦ ((λ q. cc ((str_eq_iff w.token token).1 q, e)), All-of_none rows (rw e at h))
  ]

  get_session-All : (db : Db) → All NotIts db.web_sessions → get_session db token ≡ none
  get_session-All db s = go (get_session db token) refl
    where
      go : (o : Option WebSession) → get_session db token ≡ o → get_session db token ≡ none
      go none e = e
      go (some row) e =
          let (m, same) = get_session-eq-some db token row e in
          absurd (All-Mem NotIts db.web_sessions s row m same)

  Since-All :
      {db0 db : Db} → Since token db0 db → All NotIts db0.web_sessions → All NotIts db.web_sessions
  unfolding create_session session_row slide
  Since-All Since.here s = s
  Since-All (Since.login {db} now fresh n new h) s =
      All-append NotIts db.web_sessions (session_row fresh now n ∷ []) (Since-All h s) (new, tt)
  Since-All (Since.request {db} now c h) s =
      require_session-All NotIts now (λ w e. e) c db (Since-All h s)
  Since-All (Since.logout {db} gone h) s = revoke_session-All NotIts gone db (Since-All h s)
  Since-All (Since.other db' h e) s = rw e (Since-All h s)

  -- Once a session is revoked, a request with its token is refused and changes nothing, whatever logins,
  -- requests and logouts came in between, as long as no later login is given the same token.
  pub require_session-revoke :
      (db0 : Db) {db : Db} (c : Caller) (now : ℕ)
      → Since token (revoke_session token db0).1 db
      → c.cookie_token ≡ some token
      → (e : Exc) × (require_session c now db ≡ (err e, db))
  unfolding get_session
  require_session-revoke db0 {db} c now h e =
      let gone =
        All-of_none (revoke_session token db0).1.web_sessions (get_session-revoke token db0) in
      require_session-missing c now db token e (get_session-All db (Since-All h gone))
