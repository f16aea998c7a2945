-- ===== src/Syslog/Config.antt =====
-- The settings of backend/app/syslog/forwarder.py. `str.lower` is a parameter.
pub mod Store
pub mod Facility
use tacacs_web.Prelude.{
  ℕ, Bool, Option, none, some, [], ◌∷◌, ◌++◌, map, filter, Str, str, str_eq, is_empty, not, any,
  if◌then◌else◌,
}
use tacacs_web.Prelude.Int.{ℤ, pos, negsuc, int_le, parse_int}
use tacacs_web.Models.{SystemSetting}
use tacacs_web.Db.{Db, read_setting, read_secret}

abbrev pub setting_enabled : Str
setting_enabled = str "syslog.enabled"

abbrev pub setting_host : Str
setting_host = str "syslog.host"

abbrev pub setting_port : Str
setting_port = str "syslog.port"

abbrev pub setting_protocol : Str
setting_protocol = str "syslog.protocol"

abbrev pub setting_facility : Str
setting_facility = str "syslog.facility"

abbrev pub setting_app_name : Str
setting_app_name = str "syslog.app_name"

abbrev pub setting_hostname : Str
setting_hostname = str "syslog.hostname"

abbrev pub setting_tls_verify : Str
setting_tls_verify = str "syslog.tls_verify"

abbrev pub setting_tls_server_name : Str
setting_tls_server_name = str "syslog.tls_server_name"

abbrev pub setting_last_id : Str
setting_last_id = str "syslog.last_forwarded_id"

abbrev pub setting_last_audit_id : Str
setting_last_audit_id = str "syslog.last_audit_id"

abbrev pub setting_last_error : Str
setting_last_error = str "syslog.last_error"

abbrev pub setting_last_error_at : Str
setting_last_error_at = str "syslog.last_error_at"

abbrev pub secret_tls_ca_pem : Str
secret_tls_ca_pem = str "syslog.tls_ca_pem"

abbrev pub secret_tls_client_cert_pem : Str
secret_tls_client_cert_pem = str "syslog.tls_client_cert_pem"

abbrev pub secret_tls_client_key_pem : Str
secret_tls_client_key_pem = str "syslog.tls_client_key_pem"

abbrev pub default_facility : ℕ
default_facility = 16

pub data Protocol : Type 0 where
  tcp udp tls : Protocol

pub record SyslogConfig : Type 0 where
  pub enabled : Bool
  pub host : Str
  pub port : ℤ
  pub protocol : Protocol
  pub facility : ℕ
  pub app_name : Str
  pub hostname : Str
  pub tls_verify : Bool
  pub tls_server_name : Option Str
  pub tls_ca_pem : Option Str
  pub tls_client_cert_pem : Option Str
  pub tls_client_key_pem : Option Str

-- `value or default`
abbrev pub or_default : Option Str → Str → Str
or_default none d = d
or_default (some s) d = if is_empty s then d else s

-- An assignment of the same value writes nothing.
abbrev assign : ℕ → Str → SystemSetting → SystemSetting
assign now value s =
    if str_eq s.value value then s else record s { value = value; updated_at = now }

-- `_write_setting`, at the time `now`.
unfoldable pub write_setting : ℕ → Str → Option Str → Db → Db
write_setting now key none db = record db {
  settings = filter (λ (s : SystemSetting). not (str_eq s.key key)) db.settings;
}
write_setting now key (some value) db =
    if any (λ (s : SystemSetting). str_eq s.key key) db.settings
    then record db {
      settings =
          map (λ (s : SystemSetting). if str_eq s.key key then assign now value s else s)
            db.settings;
    }
    else record db {
      settings = db.settings ++ record { key = key; value = value; updated_at = now } ∷ [];
    }

protocol_of : Str → Protocol
protocol_of s = if str_eq s (str "tls") then tls else if str_eq s (str "udp") then udp else tcp

port_of : Option ℤ → ℤ
port_of none = pos 6514
port_of (some p) = p

-- `max(0, min(23, int(fac_raw)))`
facility_of : Option ℤ → ℕ
facility_of none = default_facility
facility_of (some (pos n)) = if int_le (pos n) (pos 23) then n else 23
facility_of (some (negsuc n)) = 0

module _ (lower : Str → Str) where
  is_true : Str → Bool
  is_true s = str_eq (lower s) (str "true")

  unfoldable pub load_config : Db → SyslogConfig
  unfolding is_true protocol_of port_of facility_of
  load_config db = record {
    enabled = is_true (or_default (read_setting db setting_enabled) (str "false"));
    host = or_default (read_setting db setting_host) [];
    port = port_of (parse_int (or_default (read_setting db setting_port) (str "6514")));
    protocol = protocol_of (lower (or_default (read_setting db setting_protocol) (str "tls")));
    facility = facility_of (parse_int (or_default (read_setting db setting_facility) (str "16")));
    app_name = or_default (read_setting db setting_app_name) (str "tacacs-web");
    hostname = or_default (read_setting db setting_hostname) (str "tacacs-web");
    tls_verify = is_true (or_default (read_setting db setting_tls_verify) (str "true"));
    tls_server_name = read_setting db setting_tls_server_name;
    tls_ca_pem = read_secret db secret_tls_ca_pem;
    tls_client_cert_pem = read_secret db secret_tls_client_cert_pem;
    tls_client_key_pem = read_secret db secret_tls_client_key_pem;
  }
