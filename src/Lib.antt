-- ===== src/Lib.antt =====
-- tacacs-web: the backend that administers a TACACS+ server and answers its questions.
--
-- The daemon tac_plus-ng asks a child process (docker/tac_plus-ng/mavis_child.py), which asks the
-- backend's two MAVIS routes (backend/app/api/internal_mavis.py): AUTH checks a password at the
-- directory (backend/app/auth), INFO finds the device of an address, the authorization that wins for
-- the user on the device's group, and renders its privilege profile (backend/app/authz). Each answer
-- is a row of the audit log (backend/app/audit). Users and groups are copied from the directory by
-- backend/app/ldap_sync, the devices are rendered for the daemon by backend/app/nas_config, people log
-- in by backend/app/api/auth_local.py and backend/app/auth/sessions.py, administrators manage devices,
-- groups, profiles and authorizations by backend/app/api/v1, backend/app/accounting/ingestor.py
-- takes in the daemon's accounting log, and backend/app/syslog/forwarder.py sends accounting and audit
-- rows to a collector.
--
-- The files:
--   Prelude       Boolean tests, lists, texts as lists of code points, decimals, integers, sorting
--   Models, Db    backend/app/db/models: the rows, and the tables as lists in one state
--   Result        exceptions as values; what is not committed is lost
--   Ipaddress     the values of the standard library's ipaddress; its two parsers are parameters
--   Quoting       readers of the two quoted notations that the renderers write
--   Audit         backend/app/audit/actions.py and logger.py
--   Auth          backend/app/auth: Password, Ldap, MavisAuthn, Sessions, and Local for
--                 backend/app/api/auth_local.py
--   Authz         backend/app/authz: Resolution, Policy, Render
--   NasConfig     backend/app/nas_config: Render, Writer
--   Mavis         Rpc for backend/app/api/internal_mavis.py (mavis_auth, mavis_info, resolve_info for
--                 _resolve_info), Child for docker/tac_plus-ng/mavis_child.py
--   LdapSync      backend/app/ldap_sync/sync.py: Records, Groups (replace_user_groups), Sync
--                 (find_existing_user, upsert_user, run_sync)
--   Syslog        backend/app/syslog/forwarder.py: Config, Format, Wire (frames and datagrams),
--                 Forwarder (process_one_batch, forwarder_loop)
--   Accounting    backend/app/accounting/ingestor.py: Parser (parse_record), Ingestor (consume_file for
--                 the reading of _consume_file up to the end of the file)
--   Api           backend/app/api/v1: Devices, DeviceGroups, Profiles (privilege_profiles.py),
--                 Authorizations, Access (effective_permissions.py), Site (admin.py and _regen of
--                 devices.py), Lists (audit_log.py, accounting.py, principals.py), Tables (the rows of
--                 a table by id), WellFormed (what holds of the tables) and History (the requests in
--                 any order)
--   Tests         a small installation and the theorems at concrete inputs
--
-- A handler is a function of the database that gives a result and the database behind it; one that
-- commits all or nothing gives both or an exception. Requests are served one after the other. Times and
-- ids are natural numbers; a clock that is read several times in one handler is read once. Loops are
-- structural; only the main loop of the child runs on fuel, one unit for each turn: without fuel it
-- has no result, and one unit more than the input has lines is enough, since a request takes a line.
--
-- Parameters: the parsers of ipaddress, the verification of argon2, with its exceptions, the
-- answers of the LDAP server and of the backend's HTTP port, Python's and the database's lower
-- case, the text of a time, UTF-8, f.tell() on a text file, the sockets of the forwarder, Python's
-- repr of a text, shlex.split, strptime, ILIKE and the order of texts in the database.
--
-- Not modelled: the directory fetcher and its schedule, the task of the ingestor with its sleeps and
-- its check for a rotated file, the device templates, the settings, setup and SAML routes, TLS
-- certificates, the start-up code, the migrations, the frontend and the container files; the lengths
-- of columns, and the detail of a 422 answer. Foreign keys are checked by the management routes alone.
pub mod Prelude
pub mod Models
pub mod Result
pub mod Db
pub mod Ipaddress
pub mod Quoting
pub mod Audit
pub mod Auth
pub mod Authz
pub mod NasConfig
pub mod Mavis
pub mod LdapSync
pub mod Syslog
pub mod Api
pub mod Accounting
pub mod Tests
