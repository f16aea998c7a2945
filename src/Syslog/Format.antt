-- ===== src/Syslog/Format.antt =====
-- The RFC 5424 lines of backend/app/syslog/forwarder.py. `timestamp` gives the text of a time, which
-- the standard library formats.
use tacacs_web.Prelude.{
  ℕ, ◌+◌, ◌*◌, Option, none, some, List, [], ◌∷◌, ◌++◌, Str, str, str_eq, is_empty, replace, join,
  any, decimal, if◌then◌else◌,
}
use tacacs_web.Prelude.Int.{ℤ, show_int}
use tacacs_web.Models.{AccountingRecord, AuditLog}
use tacacs_web.Syslog.Config.{SyslogConfig}

abbrev pub severity_warning : ℕ
severity_warning = 4

abbrev pub severity_info : ℕ
severity_info = 6

abbrev pub warning_actions : List Str
warning_actions =
    str "auth.login_failed"
    ∷ str "auth.session_expired"
    ∷ str "tacacs.authn_failed"
    ∷ str "tacacs.authz_failed"
    ∷ str "ldap_sync.test_failed"
    ∷ str "ldap_sync.run_failed"
    ∷ str "syslog.test_failed"
    ∷ []

abbrev pub bracket : ℕ
bracket = 93

unfoldable pub sd_escape : Str → Str
sd_escape value =
    replace bracket (92 ∷ bracket ∷ [])
      (replace 34 (92 ∷ 34 ∷ []) (replace 92 (92 ∷ 92 ∷ []) value))

unfoldable pub sd_param : Str → Str → Str
unfolding sd_escape
sd_param name value = name ++ str "=\"" ++ sd_escape value ++ str "\""

-- `if value: sd_parts.append(…)`
abbrev truthy_param : Str → Option Str → List Str
truthy_param name none = []
truthy_param name (some value) = if is_empty value then [] else sd_param name value ∷ []

-- `if value is not None: sd_parts.append(…)`
abbrev int_param : Str → Option ℤ → List Str
int_param name none = []
int_param name (some value) = sd_param name (show_int value) ∷ []

abbrev id_param : Str → Option ℕ → List Str
id_param name none = []
id_param name (some value) = sd_param name (decimal value) ∷ []

abbrev or_text : Option Str → Str → Str
or_text none d = d
or_text (some s) d = if is_empty s then d else s

-- `f"{name}: {msg}"` if there is a name.
abbrev named : Option Str → Str → Str
named none msg = msg
named (some name) msg = if is_empty name then msg else name ++ str ": " ++ msg

abbrev head_of : ℕ → Str → SyslogConfig → Str → Str
head_of pri timestamp cfg kind =
    str "<"
    ++ decimal pri
    ++ str ">1 "
    ++ timestamp
    ++ str " "
    ++ cfg.hostname
    ++ str " "
    ++ cfg.app_name
    ++ str " - "
    ++ kind

abbrev acct_params : AccountingRecord → List Str
acct_params r =
    sd_param (str "action") r.action ∷ truthy_param (str "user") r.username
    ++ truthy_param (str "nas") r.nas_ip
    ++ truthy_param (str "nac") r.nac_ip
    ++ truthy_param (str "port") r.port
    ++ truthy_param (str "service") r.service
    ++ truthy_param (str "cmd") r.cmd
    ++ int_param (str "privlvl") r.priv_lvl
    ++ int_param (str "elapsed") r.elapsed_seconds
    ++ truthy_param (str "task") r.task_id

abbrev audit_params : AuditLog → List Str
audit_params row =
    sd_param (str "action") row.action
      ∷ truthy_param (str "actor") (some row.actor_username_snapshot)
    ++ truthy_param (str "role") (some row.actor_role)
    ++ truthy_param (str "auth_method") (some row.auth_method)
    ++ truthy_param (str "target_type") row.target_type
    ++ id_param (str "target_id") row.target_id
    ++ truthy_param (str "client_ip") row.client_ip

abbrev severity_of : Str → ℕ
severity_of action = if any (str_eq action) warning_actions then severity_warning else severity_info

module _ (timestamp : ℕ → Str) where
  unfoldable pub format_rfc5424 : AccountingRecord → SyslogConfig → Str
  unfolding sd_param
  format_rfc5424 r cfg =
      head_of (cfg.facility * 8 + severity_info) (timestamp r.ts) cfg (str "acct")
      ++ str " [acct@tacacs-web "
      ++ join (str " ") (acct_params r)
      ++ str "] "
      ++ named r.username (or_text r.cmd (str "action=" ++ r.action))

  unfoldable pub format_rfc5424_audit : AuditLog → SyslogConfig → Str
  unfolding sd_param
  format_rfc5424_audit row cfg =
      head_of (cfg.facility * 8 + severity_of row.action) (timestamp row.ts) cfg (str "audit")
      ++ str " [audit@tacacs-web "
      ++ join (str " ") (audit_params row)
      ++ str "] "
      ++ named (some row.actor_username_snapshot) (or_text row.summary row.action)

  -- The message of `send_test_message` at the time `now`.
  unfoldable pub test_message : ℕ → SyslogConfig → Str
  test_message now cfg =
      head_of (cfg.facility * 8 + severity_info) (timestamp now) cfg (str "test")
      ++ str " [acct@tacacs-web test=\"connectivity\"] tacacs-web syslog reachability test"
