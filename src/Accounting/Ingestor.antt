-- ===== src/Accounting/Ingestor.antt =====
-- The tail of the accounting log, of backend/app/accounting/ingestor.py. The file is the list of its
-- bytes; `decode` is UTF-8 with replacement characters. Python's `f.tell()` on a text file is a number
-- of which only `f.seek` knows the meaning: it is the parameter `tell`, of the file's bytes and the
-- number of those that were read. One call of `consume_file` goes to the end of
-- the file. A line is parsed and written at the time `now`.
pub mod Lines
pub mod Resume
use tacacs_web.Prelude.{
  ℕ, zero, suc, ◌+◌, Bool, true, false, Option, none, some, List, [], ◌∷◌, ◌++◌, Str, str, str_eq,
  is_empty, decimal, digits_value, ltb, ◌==◌, length, find?, if◌then◌else◌,
}
use tacacs_web.Prelude.Int.{ℤ, parse_int}
use tacacs_web.Models.{Device, AccountingRecord}
use tacacs_web.Db.{Db, read_setting}
use tacacs_web.Ipaddress.{Ipaddress}
use tacacs_web.Authz.Resolution.{resolve_device_for_ip}
use tacacs_web.Syslog.Config.{write_setting}
use tacacs_web.Accounting.Parser.{TimeParsers, ParsedRecord, parse_record}

abbrev pub setting_offset : Str
setting_offset = str "accounting.log_offset"

-- The text of a line without its end, whether it has one, and its bytes with it.
pub record Line : Type 0 where
  pub body : List ℕ
  pub ended : Bool
  pub size : ℕ

starts_with_lf : List ℕ → Bool
starts_with_lf [] = false
starts_with_lf (b ∷ s) = b == 10

abbrev lone_end : Line
lone_end = record { body = []; ended = true; size = 1 }

-- A byte before the first line.
push : ℕ → List Line → List Line
push b [] = record { body = b ∷ []; ended = false; size = 1 } ∷ []
push b (l ∷ lines) = record l { body = b ∷ l.body; size = suc l.size } ∷ lines

-- `\r\n` is one end of a line.
widen : List Line → List Line
widen [] = []
widen (l ∷ lines) = record l { size = suc l.size } ∷ lines

-- A byte before the lines of what is behind it, which may start with a line feed.
extend : ℕ → Bool → List Line → List Line
unfolding push widen
extend b lf lines =
    if b == 10
    then lone_end ∷ lines
    else if b == 13
    then (if lf then widen lines else lone_end ∷ lines)
    else push b lines

-- What `f.readline()` gives until the end of the file, in universal newlines mode.
pub log_lines : List ℕ → List Line
unfolding extend starts_with_lf
log_lines [] = []
log_lines (b ∷ s) = extend b (starts_with_lf s) (log_lines s)

pub drop_bytes : ℕ → List ℕ → List ℕ
drop_bytes zero s = s
drop_bytes (suc n) [] = []
drop_bytes (suc n) (b ∷ s) = drop_bytes n s

offset_value : Option Str → ℕ
unfolding digits_value
offset_value none = 0
offset_value (some value) = elim (digits_value 0 value) [ none ↦ 0 | some n ↦ n ]

-- `_load_offset`; the digits of `isdigit` are those of ASCII.
unfoldable pub load_offset : Db → ℕ
unfolding offset_value read_setting
load_offset db = offset_value (read_setting db setting_offset)

-- `_save_offset`
unfoldable pub save_log_offset : ℕ → ℕ → Db → Db
unfolding write_setting
save_log_offset now offset db = write_setting now setting_offset (some (decimal offset)) db

get : Str → List (Str × Str) → Option Str
unfolding find?
get key d = elim (find? (λ (p : Str × Str). str_eq p.0 key) d) [ none ↦ none | some p ↦ some p.1 ]

-- `int(args[key])`, if there is one.
get_int : Str → List (Str × Str) → Option ℤ
unfolding get parse_int
get_int key d = elim (get key d) [ none ↦ none | some v ↦ parse_int v ]

module _ (lib : Ipaddress) where
  unfoldable pub resolve_device_id : Option Str → List Device → Option ℕ
  unfolding resolve_device_for_ip
  resolve_device_id none devices = none
  resolve_device_id (some nas_ip) devices = elim (resolve_device_for_ip lib nas_ip devices) [
    | none ↦ none
    | some d ↦ some d.id
  ]

  unfoldable pub persist_one : ParsedRecord → Db → Db
  unfolding resolve_device_id get get_int
  persist_one rec db = record db {
    accounting =
        db.accounting
        ++ record {
          id = db.next_accounting_id;
          ts = rec.ts;
          nas_ip = rec.nas_ip;
          username = rec.username;
          port = rec.port;
          nac_ip = rec.nac_ip;
          action = rec.action;
          service = get (str "service") rec.av_pairs;
          cmd = get (str "cmd") rec.av_pairs;
          priv_lvl = get_int (str "priv-lvl") rec.av_pairs;
          elapsed_seconds = get_int (str "elapsed_time") rec.av_pairs;
          task_id = rec.task_id;
          device_id = resolve_device_id rec.nas_ip db.devices;
          raw_av_pairs = rec.av_pairs;
        }
          ∷ [];
    next_accounting_id = db.next_accounting_id + 1;
  }

  module _ (decode : List ℕ → Str) (shlex_split : Str → Option (List Str)) (times : TimeParsers)
      (now : ℕ) where
    abbrev pub parsed : Line → Option ParsedRecord
    parsed l =
        parse_record shlex_split times now (decode l.body ++ (if l.ended then 10 ∷ [] else []))

    -- A line that is read up to the position: one transaction, if it parses.
    pub consume_line : ℕ → Option ParsedRecord → Db → Db
    unfolding save_log_offset persist_one
    consume_line position none db = db
    consume_line position (some rec) db = save_log_offset now position (persist_one rec db)

    -- The function gives the position of `f.tell()` from the number of bytes read.
    pub consume_lines : (ℕ → ℕ) → ℕ → List Line → Db → Db
    unfolding consume_line parse_record
    consume_lines told n [] db = db
    consume_lines told n (l ∷ lines) db =
        consume_lines told (n + l.size) lines (consume_line (told (n + l.size)) (parsed l) db)

    module _ (tell : List ℕ → ℕ → ℕ) where
      -- A file that is shorter than the offset is read from its start. A position that is not past the
      -- end of the file is a number of bytes.
      pub consume_from : List ℕ → ℕ → Db → Db
      unfolding save_log_offset consume_lines log_lines drop_bytes
      consume_from content offset db =
          if ltb (length content) offset
          then consume_lines (tell content) 0 (log_lines content) (save_log_offset now 0 db)
          else consume_lines (tell content) offset (log_lines (drop_bytes offset content)) db

      unfoldable pub consume_file : List ℕ → Db → Db
      unfolding consume_from load_offset
      consume_file content db = consume_from content (load_offset db) db
