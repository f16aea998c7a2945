-- ===== src/NasConfig/Writer.antt =====
-- backend/app/nas_config/writer.py. The file system is not modelled: `regenerate_nas_config` gives
-- the content that is written.
use tacacs_web.Prelude.{List, [], ◌∷◌, ◌++◌, Str, str, replace, is_empty, if◌then◌else◌}
use tacacs_web.Models.{Device}
use tacacs_web.Quoting.{backslash, quote}
use tacacs_web.NasConfig.Render.{render_host_blocks}

pub fallback_block : Str → Str
fallback_block shared_secret =
    let safe_secret =
      replace quote (backslash ∷ quote ∷ [])
        (replace backslash (backslash ∷ backslash ∷ []) shared_secret) in
    str "host bootstrap {\n"
    ++ str "    address = 0.0.0.0/0\n"
    ++ str "    address = ::/0\n"
    ++ str "    key = \""
    ++ safe_secret
    ++ str "\"\n"
    ++ str "    mavis backend = yes\n"
    ++ str "}\n"
    ++ str "\n"
    ++ str "# Docker healthcheck probes via TCP from the container's own\n"
    ++ str "# loopback; matching it explicitly stops the log from filling\n"
    ++ str "# with `connection request from ::1 ... rejected (host unknown)`\n"
    ++ str "# every 15 seconds.\n"
    ++ str "host healthcheck {\n"
    ++ str "    address = 127.0.0.1\n"
    ++ str "    address = ::1\n"
    ++ str "    key = \"healthcheck-only-no-tacacs-traffic\"\n"
    ++ str "}\n"

-- The environment's `TACACS_SHARED_SECRET`, empty if it is not set, and the device table.
unfoldable pub regenerate_nas_config : Str → List Device → Str
unfolding fallback_block
regenerate_nas_config shared_secret devices =
    let rendered = render_host_blocks devices in
    if is_empty rendered
    then (if is_empty shared_secret then rendered else fallback_block shared_secret)
    else rendered
