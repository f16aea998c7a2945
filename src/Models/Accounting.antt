-- ===== src/Models/Accounting.antt =====
-- backend/app/db/models/accounting.py. The integers that come from the log may be negative.
use tacacs_web.Prelude.{ℕ, Option, List, Str}
use tacacs_web.Prelude.Int.{ℤ}

pub record AccountingRecord : Type 0 where
  pub id : ℕ
  pub ts : ℕ
  pub nas_ip : Option Str
  pub username : Option Str
  pub port : Option Str
  pub nac_ip : Option Str
  pub action : Str
  pub service : Option Str
  pub cmd : Option Str
  pub priv_lvl : Option ℤ
  pub elapsed_seconds : Option ℤ
  pub task_id : Option Str
  pub device_id : Option ℕ
  pub raw_av_pairs : List (Str × Str)
