-- ===== src/Auth/Sessions/Kept.antt =====
-- What holds of every stored session, and is kept by the slide of the expiry, is kept by every
-- operation on the session table but the login.
use tacacs_web.Prelude.{
  ℕ, ◌≡◌, refl, inl, inr, Bool, not, Option, none, some, List, [], ◌∷◌, map, Str, str_eq, filter,
  Bool-cases, All, All-Mem, if◌then◌else◌,
}
use tacacs_web.Models.{WebSession}
use tacacs_web.Db.{Db}
use tacacs_web.Auth.Sessions.{
  get_session, delete_session, revoke_session, revoke_row, Caller, is_expired, load_row,
  load_active_session, slide, admit_loaded, with_cookie, require_session,
}
use tacacs_web.Auth.Sessions.Lookup.{get_session-eq-some}

module _ (P : WebSession → Type 0) where
  filter-All : (p : WebSession → Bool) (rows : List WebSession) → All P rows → All P (filter p rows)
  unfolding filter
  filter-All p [] s = tt
  filter-All p (w ∷ rows) (h, s) = elim (Bool-cases (p w)) [
    | inl e ↦ rw e (h, filter-All p rows s)
    | inr e ↦ rw e (filter-All p rows s)
  ]

  write-All :
      (row : WebSession) (rows : List WebSession)
      → P row
      → All P rows
      → All P (map (λ (w : WebSession). if str_eq w.token row.token then row else w) rows)
  write-All row [] r s = tt
  write-All row (w ∷ rows) r (h, s) = elim (Bool-cases (str_eq w.token row.token)) [
    | inl e ↦ (rw e r, write-All row rows r s)
    | inr e ↦ (rw e h, write-All row rows r s)
  ]

  delete-All :
      (token : Str) (db : Db) → All P db.web_sessions → All P (delete_session token db).web_sessions
  unfolding delete_session
  delete-All token db s =
      filter-All (λ (w : WebSession). not (str_eq w.token token)) db.web_sessions s

  revoke_row-All :
      (token : Str) (db : Db) (o : Option WebSession)
      → All P db.web_sessions
      → All P (revoke_row token db o).1.web_sessions
  unfolding revoke_row
  revoke_row-All token db none s = s
  revoke_row-All token db (some row) s = delete-All token db s

  pub revoke_session-All :
      (token : Str) (db : Db)
      → All P db.web_sessions
      → All P (revoke_session token db).1.web_sessions
  unfolding revoke_session
  revoke_session-All token db s = revoke_row-All token db (get_session db token) s

  module _ (now : ℕ) (slides : (w : WebSession) → P w → P (slide now w)) where
    admit_load_row-All :
        (c : Caller) (token : Str) (db : Db) (o : Option WebSession)
        → get_session db token ≡ o
        → All P db.web_sessions
        → All P (admit_loaded c now (load_row token now db o)).1.web_sessions
    unfolding load_row admit_loaded
    admit_load_row-All c token db none e s = s
    admit_load_row-All c token db (some row) e s = elim (Bool-cases (is_expired row now)) [
      | inl g ↦ rw g (delete-All token db s)
      | inr g ↦ rw g (
          write-All (slide now row) db.web_sessions
            (slides row (All-Mem P db.web_sessions s row (get_session-eq-some db token row e).0)) s)
    ]

    with_cookie-All :
        (c : Caller) (db : Db) (o : Option Str)
        → All P db.web_sessions
        → All P (with_cookie c now db o).1.web_sessions
    unfolding with_cookie load_active_session
    with_cookie-All c db none s = s
    with_cookie-All c db (some []) s = s
    with_cookie-All c db (some (ch ∷ chars)) s =
        admit_load_row-All c (ch ∷ chars) db (get_session db (ch ∷ chars)) refl s

    pub require_session-All :
        (c : Caller) (db : Db)
        → All P db.web_sessions
        → All P (require_session c now db).1.web_sessions
    unfolding require_session
    require_session-All c db s = with_cookie-All c db c.cookie_token s
