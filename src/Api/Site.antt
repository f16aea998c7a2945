-- ===== src/Api/Site.antt =====
-- The hosts file beside the database: `_regen` of backend/app/api/v1/devices.py, and
-- backend/app/api/v1/admin.py. Whether a write of the file raises an `OSError` is an argument.
pub mod Laws
use tacacs_web.Prelude.{
  ℕ, Bool, Option, none, some, Str, str, str_eq, decimal, length, ◌++◌, if◌then◌else◌,
}
use tacacs_web.Result.{Result, ok, err, http}
use tacacs_web.Db.{Db}
use tacacs_web.Auth.Sessions.{SessionContext}
use tacacs_web.Audit.Actions.{nas_config_regenerated}
use tacacs_web.Audit.Logger.{Entry, append}
use tacacs_web.NasConfig.Writer.{regenerate_nas_config}

pub record Site : Type 0 where
  pub db : Db
  pub hosts_file : Str

abbrev pub rendered : Str → Site → Str
unfolding regenerate_nas_config
rendered shared_secret s = regenerate_nas_config shared_secret s.db.devices

-- The secret is `TACACS_SHARED_SECRET`. A write that raises is logged, and leaves the file.
unfoldable pub regen : Str → Bool → Site → Site
unfolding rendered
regen shared_secret written s =
    if written then record s { hosts_file = rendered shared_secret s } else s

pub record RegenerateResponse : Type 0 where
  pub path : Str
  pub bytes_written : ℕ

abbrev regenerated_entry : Str → SessionContext → Str → Entry
regenerated_entry path ctx content = record {
  actor_username_snapshot = ctx.username;
  actor_role = ctx.role;
  auth_method = ctx.auth_method;
  action = nas_config_regenerated;
  target_type = some (str "nas_config");
  target_id = none;
  summary = some (str "wrote " ++ (decimal (length content) ++ (str " bytes to " ++ path)));
  client_ip = ctx.client_ip;
  user_agent = ctx.user_agent;
  actor_id = ctx.actor_id;
}

-- The file stays written if the audit row raises.
committed : RegenerateResponse → Site → Result Db → Result RegenerateResponse × Site
committed r s (ok db) = (ok r, record s { db = db })
committed r s (err e) = (err e, s)

-- `failure` is the text of the `OSError`.
write_hosts : Str → Str → Option Str → ℕ → SessionContext → Site → Result RegenerateResponse × Site
unfolding append committed rendered
write_hosts shared_secret path none now ctx s =
    let content = rendered shared_secret s in
    committed (record { path = path; bytes_written = length content })
      (record s { hosts_file = content }) (append now (regenerated_entry path ctx content) s.db)
write_hosts shared_secret path (some failure) now ctx s =
    (err (http 500 (str "could not write to shared tac_plus-ng volume: " ++ failure)), s)

-- `path` is `HOSTS_FILE`.
unfoldable pub regenerate :
    Str → Str → Option Str → ℕ → SessionContext → Site → Result RegenerateResponse × Site
unfolding write_hosts
regenerate shared_secret path failure now ctx s =
    if str_eq ctx.role (str "admin")
    then write_hosts shared_secret path failure now ctx s
    else (err (http 403 (str "admin_required")), s)
