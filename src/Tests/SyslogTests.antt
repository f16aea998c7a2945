-- ===== src/Tests/SyslogTests.antt =====
-- The forwarder at concrete rows and payloads.
use tacacs_web.Prelude.{
  ◌+◌, ◌*◌, ℕ, ◌≤◌, ◌≡◌, refl, some, [], ◌∷◌, ◌++◌, str, arith, filter, sort_by,
}
use tacacs_web.Db.{empty_db}
use tacacs_web.Syslog.Config.{load_config}
use tacacs_web.Syslog.Config.Facility.{load_config-facility}
use tacacs_web.Syslog.Wire.{frame}
use tacacs_web.Syslog.Wire.Framing.{read_frame, read_frame-frame}
use tacacs_web.Syslog.Forwarder.{rows_after, last_id}
use tacacs_web.Syslog.Forwarder.Offsets.{Distinct}

read_frame-frame_example : read_frame (frame (str "a b") ++ str "9 x") ≡ some (str "a b", str "9 x")
read_frame-frame_example = read_frame-frame (str "a b") (str "9 x")

abbrev same : ℕ → ℕ
same n = n

two_ids-Distinct : Distinct same (9 ∷ 7 ∷ [])
two_ids-Distinct a b m k e = e

last_is_nine : last_id same (rows_after same 5 (9 ∷ 7 ∷ [])) ≡ some 9
unfolding last_id rows_after filter sort_by
last_is_nine = refl

load_config-facility_example : (load_config (λ s. s) empty_db).facility * 8 + 6 ≤ 191
load_config-facility_example = load_config-facility (λ s. s) empty_db 6 (omega arith)
