-- ===== src/Accounting/Parser.antt =====
-- The parser of a line of the accounting log, of backend/app/accounting/ingestor.py. `shlex.split`,
-- `datetime.strptime` and `datetime.fromtimestamp` are parameters; a time without a zone is in UTC.
pub mod Fields
use tacacs_web.Prelude.{
  ℕ, ◌||◌, ◌&&◌, not, Bool, true, false, Option, none, some, List, [], ◌∷◌, ◌++◌, Str, str, str_eq,
  is_empty, leb, ◌==◌, strip, rstrip_of, split, join, replace, is_space, digits_value,
  if◌then◌else◌,
}

pub record TimeParsers : Type 0 where
  pub fromtimestamp : ℕ → Option ℕ
  pub strptime : Str → Str → Option ℕ

-- A dictionary of texts: an assignment keeps the place of a key that is there.
pub dict_set : Str → Str → List (Str × Str) → List (Str × Str)
dict_set key value [] = (key, value) ∷ []
dict_set key value ((k, v) ∷ d) =
    let rest = dict_set key value d in if str_eq k key then (k, value) ∷ d else (k, v) ∷ rest

-- `[A-Za-z0-9._\-]`
is_key_char : ℕ → Bool
is_key_char c =
    (leb 65 c && leb c 90)
    || (leb 97 c && leb c 122)
    || (leb 48 c && leb c 57)
    || c == 46
    || c == 95
    || c == 45

-- `(.*)$`: a text without a newline, but for one at its end.
dot_star : Str → Option Str
dot_star [] = some []
dot_star (c ∷ s) =
    let rest = dot_star s in
    if c == 10
    then (if is_empty s then some [] else none)
    else elim rest [ none ↦ none | some t ↦ some (c ∷ t) ]

-- The key, its first character first, and what is behind the `=`.
key_from : Str → Option (Str × Str)
unfolding is_key_char
key_from [] = none
key_from (c ∷ s) =
    let rest = key_from s in
    if c == 61
    then some ([], s)
    else if is_key_char c
    then elim rest [ none ↦ none | some p ↦ some (c ∷ p.0, p.1) ]
    else none

valued : Option (Str × Str) → Option (Str × Str)
unfolding dot_star
valued none = none
valued (some (key, rest)) =
    if is_empty key
    then none
    else elim (dot_star rest) [ none ↦ none | some value ↦ some (key, value) ]

-- `_AV_TOKEN.match`
av_token : Str → Option (Str × Str)
unfolding key_from valued
av_token tok = valued (key_from tok)

-- `blob.split()`
split_words_from : Str → Str → List Str
split_words_from cur [] = if is_empty cur then [] else cur ∷ []
split_words_from cur (c ∷ s) = elim (is_space c) [
  | true ↦ if is_empty cur then split_words_from [] s else cur ∷ split_words_from [] s
  | false ↦ split_words_from (cur ++ c ∷ []) s
]

add_tokens : List (Str × Str) → List Str → List (Str × Str)
unfolding av_token dict_set
add_tokens out [] = out
add_tokens out (tok ∷ tokens) =
    add_tokens (elim (av_token tok) [ none ↦ out | some p ↦ dict_set p.0 p.1 out ]) tokens

pub record ParsedRecord : Type 0 where
  pub ts : ℕ
  pub nas_ip : Option Str
  pub username : Option Str
  pub port : Option Str
  pub nac_ip : Option Str
  pub task_id : Option Str
  pub action : Str
  pub av_pairs : List (Str × Str)

-- `value or None`
abbrev pub or_none : Str → Option Str
or_none s = if is_empty s then none else some s

-- `action or "unknown"`
abbrev pub or_unknown : Str → Str
or_unknown s = if is_empty s then str "unknown" else s

first_time : List (Option ℕ) → ℕ → ℕ
first_time [] now = now
first_time (none ∷ rest) now = first_time rest now
first_time (some t ∷ rest) now = t

-- `"\t".join([args_raw, *extras])`
abbrev pub args_blob : Str → List Str → Str
args_blob args extras = join (9 ∷ []) (args ∷ extras)

-- `line.rstrip("\n").rstrip("\r")`
pub chomped : Str → Str
unfolding rstrip_of
chomped line = rstrip_of (λ c. c == 13) (rstrip_of (λ c. c == 10) line)

module _ (shlex_split : Str → Option (List Str)) (times : TimeParsers) where
  unfoldable pub parse_args : Str → List (Str × Str)
  unfolding replace strip split_words_from add_tokens
  parse_args blob =
      if is_empty blob
      then []
      else let text = strip (replace 9 (32 ∷ []) blob) in
        add_tokens []
          (elim (shlex_split text) [ none ↦ split_words_from [] text | some tokens ↦ tokens ])

  -- The digits of `isdigit` are those of ASCII.
  epoch_of : Str → Option ℕ
  unfolding digits_value
  epoch_of raw = elim (digits_value 0 raw) [ none ↦ none | some n ↦ times.fromtimestamp n ]

  -- `now` is the time when the line is read.
  unfoldable pub parse_ts : ℕ → Str → ℕ
  unfolding strip epoch_of first_time
  parse_ts now raw =
      let text = strip raw in
      if is_empty text
      then now
      else first_time
          (epoch_of text
            ∷ times.strptime (str "%Y-%m-%dT%H:%M:%S%z") text
            ∷ times.strptime (str "%Y-%m-%d %H:%M:%S %z") text
            ∷ times.strptime (str "%Y-%m-%d %H:%M:%S") text
            ∷ times.strptime (str "%Y-%m-%dT%H:%M:%S") text
            ∷ times.strptime (str "%a %b %d %H:%M:%S %Y") text
            ∷ [])
          now

  pub record_of_parts : ℕ → List Str → Option ParsedRecord
  unfolding parse_args parse_ts
  record_of_parts now (ts ∷ nas ∷ user ∷ port ∷ nac ∷ task_id ∷ action ∷ args ∷ extras) =
      some (record {
        ts = parse_ts now ts;
        nas_ip = or_none nas;
        username = or_none user;
        port = or_none port;
        nac_ip = or_none nac;
        task_id = or_none task_id;
        action = or_unknown action;
        av_pairs = parse_args (args_blob args extras);
      })
  record_of_parts now _ = none

  unfoldable pub parse_record : ℕ → Str → Option ParsedRecord
  unfolding chomped record_of_parts
  parse_record now line =
      let text = chomped line in if is_empty text then none else record_of_parts now (split 9 text)
