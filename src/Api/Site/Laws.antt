-- ===== src/Api/Site/Laws.antt =====
-- What the maintenance route of backend/app/api/v1/admin.py leaves.
use tacacs_web.Prelude.{
  ℕ, Bool, true, false, ◌≡◌, refl, ap, sym, ◌∙◌, subst, none, Str, str, str_eq, length,
  if◌then◌else◌,
}
use tacacs_web.Result.{Result, ok, err, http}
use tacacs_web.Db.{Db}
use tacacs_web.Auth.Sessions.{SessionContext}
use tacacs_web.Audit.Logger.{append}
use tacacs_web.Api.Site.{
  Site, rendered, RegenerateResponse, regenerated_entry, committed, write_hosts, regenerate,
}
use tacacs_web.Api.WellFormed.{WellFormed, append-eq-ok, append-WellFormed}

committed-eq-ok :
    (q r : RegenerateResponse) (s s' : Site) (x : Result Db)
    → committed q s x ≡ (ok r, s')
    → (db : Db) × (x ≡ ok db) × (s' ≡ record s { db = db })
unfolding committed
committed-eq-ok q r s s' (ok db) h =
    (db, refl, sym (ap (λ (t : Result RegenerateResponse × Site). t.1) h))
committed-eq-ok q r s s' (err e) h =
    absurd (cc (ap (λ (t : Result RegenerateResponse × Site). t.0) h))

-- A route that answers has written the device table, and leaves the tables as they are but for the audit log.
pub regenerate-eq-ok :
    (secret path : Str) (now : ℕ) (ctx : SessionContext) (s s' : Site) (r : RegenerateResponse)
    → regenerate secret path none now ctx s ≡ (ok r, s')
    → (s'.hosts_file ≡ rendered secret s') × (WellFormed s.db → WellFormed s'.db)
unfolding regenerate write_hosts
regenerate-eq-ok secret path now ctx s s' r h = split (str_eq ctx.role (str "admin")) h
  where
    content : Str
    content = rendered secret s

    split :
        (b : Bool)
        → (if b
            then committed
                (record { path = path; bytes_written = length content })
                (record s { hosts_file = content })
                (append now (regenerated_entry path ctx content) s.db)
            else (err (http 403 (str "admin_required")), s))
          ≡ (ok r, s')
        → (s'.hosts_file ≡ rendered secret s') × (WellFormed s.db → WellFormed s'.db)
    split true e =
        let (db, x, q) = committed-eq-ok _ r _ s' _ e in
        let (log, next, t) = append-eq-ok now _ s.db db x in
        (
          ap (λ (v : Site). v.hosts_file) q
              ∙ ap (λ (d : Db). rendered secret (record s { db = d })) (sym t)
              ∙ ap (rendered secret) (sym q),
          λ w. subst (λ (v : Site). WellFormed v.db) (sym q) (append-WellFormed now _ s.db db x w),
        )
    split false e = absurd (cc (ap (λ (t : Result RegenerateResponse × Site). t.0) e))
