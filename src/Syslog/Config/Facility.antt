-- ===== src/Syslog/Config/Facility.antt =====
-- The priority of a line, as the configuration allows it.
use tacacs_web.Prelude.{ℕ, ◌+◌, ◌*◌, ◌≤◌, Option, none, some, Str, str, arith}
use tacacs_web.Prelude.Int.{ℤ, pos, negsuc, parse_int}
use tacacs_web.Db.{Db, read_setting}
use tacacs_web.Syslog.Config.{or_default, setting_facility, facility_of, load_config}

facility_of-le : (o : Option ℤ) → facility_of o ≤ 23
unfolding facility_of
facility_of-le none = omega arith
facility_of-le (some (pos n)) = ground arith
facility_of-le (some (negsuc n)) = omega arith

-- Whatever is stored as the facility, the priority of a line with a severity up to 7 is at most 191,
-- the largest that RFC 5424 allows.
pub load_config-facility :
    (lower : Str → Str) (db : Db) (severity : ℕ)
    → severity ≤ 7
    → (load_config lower db).facility * 8 + severity ≤ 191
unfolding load_config
load_config-facility lower db severity h =
    let le =
      facility_of-le (parse_int (or_default (read_setting db setting_facility) (str "16"))) in
    omega (arith, le, h)
