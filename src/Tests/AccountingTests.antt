-- ===== src/Tests/AccountingTests.antt =====
-- The accounting log at concrete inputs: a restart between two lines, and one record.
use tacacs_web.Prelude.{
  ℕ, ◌≤◌, ◌≡◌, refl, ◌++◌, Option, none, some, List, [], ◌∷◌, Str, str, arith, length, find?, join,
  ◌==◌, Bool, true, not, ◌&&◌, &&-eq-true, Lacks, ==_iff,
}
use tacacs_web.Api.Tables.{not-eq-true}
use tacacs_web.Db.{empty_db, read_setting}
use tacacs_web.Accounting.Parser.{TimeParsers, parse_ts, parse_args, args_blob, parse_record}
use tacacs_web.Accounting.Parser.Fields.{AllLack, parse_record-join}
use tacacs_web.Accounting.Ingestor.{load_offset, consume_file}
use tacacs_web.Accounting.Ingestor.Lines.{Complete}
use tacacs_web.Accounting.Ingestor.Resume.{NoCr, PlainTell, consume_file-resumed}
use tacacs_web.Tests.Data.{parsers}

abbrev no_times : TimeParsers
no_times = record { fromtimestamp = λ n. some n; strptime = λ format text. none }

abbrev same : List ℕ → Str
same s = s

abbrev words : Str → Option (List Str)
words s = some (s ∷ [])

abbrev line : Str
line = str "5\t10.0.0.5\tjan\tvty0\t\t77\tstart\tcmd=show\n"

whole : Complete line
whole = refl

at_start : load_offset empty_db ≤ length line
unfolding load_offset read_setting find?
at_start = omega arith

abbrev fields : List Str
fields =
    str "5"
    ∷ str "10.0.0.5"
    ∷ str "jan"
    ∷ str "vty0"
    ∷ []
    ∷ str "77"
    ∷ str "start"
    ∷ str "cmd=show"
    ∷ []

abbrev lacks : ℕ → Str → Bool
lacks c [] = true
lacks c (a ∷ s) = not (a == c) && lacks c s

lacks-Lacks : (c : ℕ) (s : Str) → lacks c s ≡ true → Lacks c s
lacks-Lacks c [] h = tt
lacks-Lacks c (a ∷ s) h =
    let (p, q) = &&-eq-true (not (a == c)) (lacks c s) h in
    (not-eq-true (a == c) p, lacks-Lacks c s q)

lacks-NoCr : (s : List ℕ) → lacks 13 s ≡ true → NoCr s
lacks-NoCr [] h = tt
lacks-NoCr (a ∷ s) h =
    let (p, q) = &&-eq-true (not (a == 13)) (lacks 13 s) h in
    ((λ e. cc (not-eq-true (a == 13) p, (==_iff a 13).1 e)), lacks-NoCr s q)

abbrev bytes_read : List ℕ → ℕ → ℕ
bytes_read content n = n

bytes_read-PlainTell : PlainTell bytes_read
bytes_read-PlainTell content n clean le = refl

line-NoCr : NoCr line
line-NoCr = lacks-NoCr line refl

consume_file-resumed_example :
    consume_file parsers same words no_times 9 bytes_read
      (line ++ line)
      (consume_file parsers same words no_times 9 bytes_read line empty_db)
    ≡ consume_file parsers same words no_times 9 bytes_read (line ++ line) empty_db
consume_file-resumed_example =
    consume_file-resumed parsers same words no_times 9 bytes_read line line empty_db
      bytes_read-PlainTell line-NoCr line-NoCr whole at_start

abbrev all_lack : ℕ → List Str → Bool
all_lack c [] = true
all_lack c (f ∷ fs) = lacks c f && all_lack c fs

all_lack-AllLack : (c : ℕ) (fs : List Str) → all_lack c fs ≡ true → AllLack c fs
all_lack-AllLack c [] h = tt
all_lack-AllLack c (f ∷ fs) h =
    let (p, q) = &&-eq-true (lacks c f) (all_lack c fs) h in
    (lacks-Lacks c f p, all_lack-AllLack c fs q)

plain : AllLack 9 fields × AllLack 10 fields × AllLack 13 fields
plain = (
  all_lack-AllLack 9 fields refl,
  all_lack-AllLack 10 fields refl,
  all_lack-AllLack 13 fields refl,
)

parse_record-join_example :
    parse_record words no_times 9 (
      join (9 ∷ []) (
        str "5"
        ∷ str "10.0.0.5"
        ∷ str "jan"
        ∷ str "vty0"
        ∷ []
        ∷ str "77"
        ∷ str "start"
        ∷ str "cmd=show"
        ∷ [])
      ++ 10 ∷ [])
    ≡ some (record {
      ts = parse_ts words no_times 9 (str "5");
      nas_ip = some (str "10.0.0.5");
      username = some (str "jan");
      port = some (str "vty0");
      nac_ip = none;
      task_id = some (str "77");
      action = str "start";
      av_pairs = parse_args words no_times (args_blob (str "cmd=show") []);
    })
parse_record-join_example =
    parse_record-join words no_times 9 (str "5") (str "10.0.0.5") (str "jan") (str "vty0") []
      (str "77") (str "start") (str "cmd=show") [] plain
