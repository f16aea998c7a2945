-- ===== src/Api/Devices/Rotation.antt =====
-- The rotation of a secret: the daemon accepts the old secret beside the new one until the old one is
-- retired.
use tacacs_web.Prelude.{ℕ, ◌≡◌, Option, some, List, [], ◌∷◌, Str, if◌then◌else◌}
use tacacs_web.Models.{Device}
use tacacs_web.Db.{Db}
use tacacs_web.Auth.Sessions.{SessionContext}
use tacacs_web.NasConfig.Render.{block_lines, is_set}
use tacacs_web.NasConfig.Render.Blocks.{block_secrets}
use tacacs_web.Api.Tables.{get_row}
use tacacs_web.Api.Devices.{device_id}

-- The row behind a flush has the secrets that were set.
abbrev SameSecrets : Device → Device → Type 0
SameSecrets a b =
    (a.current_secret_enc ≡ b.current_secret_enc) × (a.previous_secret_enc ≡ b.previous_secret_enc)

-- The secrets that the block of a device under a label holds.
abbrev pub served : Str → Device → List (Option Str)
served label d = block_secrets (block_lines label d)

-- A secret that is stored, and not empty.
abbrev pub stored : Option Str → List (Option Str)
stored o = if is_set o then o ∷ [] else []

module _ (id : ℕ) (ctx : SessionContext) where
  -- The device with the id in this database, with the secrets of its block under any label.
  abbrev pub Serves : Db → List (Option Str) → Type 0
  Serves db secrets =
      (d : Device) × (get_row device_id id db.devices ≡ some d)
      × ((label : Str) → served label d ≡ secrets)

  -- What a rotation leaves: the new secret, and the old one as the previous.
  Rotated : Str → Db → Db → Type 0
  Rotated secret db db1 =
      (old : Device) × (get_row device_id id db.devices ≡ some old)
      × (d : Device) × (get_row device_id id db1.devices ≡ some d)
      × ((label : Str) → served label d ≡ some secret ∷ stored old.current_secret_enc)
      × (d.current_secret_enc ≡ some secret)
