-- ===== src/Accounting/Ingestor/Resume.antt =====
-- A restart of the ingestor neither loses a line nor reads one twice.
use mathlib.Core.List.Memᴰ
use tacacs_web.Prelude.{
  ℕ, ◌+◌, ◌≤◌, ◌≡◌, ◌≢◌, All, All-append, append-nil, refl, sym, ap, ◌∙◌, ◌⊎◌, inl, inr, false,
  Option, none, some, List, [], ◌∷◌, ◌++◌, append_assoc, Memᴰ, Str, decimal, digits_value-decimal,
  length, length-append, ltb, arith,
}
use tacacs_web.Db.{Db}
use tacacs_web.Ipaddress.{Ipaddress}
use tacacs_web.Syslog.Config.Store.{read_setting-write_setting}
use tacacs_web.Accounting.Parser.{TimeParsers, ParsedRecord}
use tacacs_web.Accounting.Ingestor.{
  setting_offset, Line, log_lines, drop_bytes, offset_value, load_offset, save_log_offset,
  persist_one, parsed, consume_line, consume_lines, consume_from, consume_file,
}
use tacacs_web.Accounting.Ingestor.Lines.{
  Complete, total, log_lines-append, drop_bytes-drop_bytes, length-drop_bytes, drop_bytes-append,
  log_lines-drop_bytes, Complete-drop_bytes,
}

load_offset-save : (now n : ℕ) (db : Db) → load_offset (save_log_offset now n db) ≡ n
unfolding load_offset save_log_offset offset_value
load_offset-save now n db =
    ap offset_value (read_setting-write_setting now setting_offset (decimal n) db)
    ∙ ap (λ (o : Option ℕ). elim o [ none ↦ 0 | some n ↦ n ]) (digits_value-decimal n)

total-append : (xs ys : List Line) → total (xs ++ ys) ≡ total xs + total ys
total-append [] ys = omega arith
total-append (x ∷ xs) ys = omega (arith, total-append xs ys)

ltb-eq-false : (a b : ℕ) → b ≤ a → ltb a b ≡ false
ltb-eq-false a b h = ground arith

abbrev pub NoCr : List ℕ → Type 0
NoCr content = All (λ b. b ≢ 13) content

-- Where there is no carriage return, the decoder of a text file holds nothing back at the end of a
-- line, and `f.tell()` is the number of bytes read.
abbrev pub PlainTell : (List ℕ → ℕ → ℕ) → Type 0
PlainTell tell = (content : List ℕ) (n : ℕ) → NoCr content → n ≤ length content → tell content n ≡ n

module _ (lib : Ipaddress) (decode : List ℕ → Str) (shlex_split : Str → Option (List Str))
    (times : TimeParsers) (now : ℕ) where
  abbrev reading : ℕ → List Line → Db → Db
  reading = consume_lines lib decode shlex_split times now (λ n. n)

  abbrev one : ℕ → Option ParsedRecord → Db → Db
  one = consume_line lib decode shlex_split times now

  abbrev record_of : Line → Option ParsedRecord
  record_of = parsed lib decode shlex_split times now

  abbrev Skipped : List Line → Type 0
  Skipped lines = (l : Line) → Memᴰ l lines → record_of l ≡ none

  reading-append :
      (p : ℕ) (xs ys : List Line) (db : Db)
      → reading p (xs ++ ys) db ≡ reading (p + total xs) ys (reading p xs db)
  unfolding consume_lines
  reading-append p [] ys db = let q : p ≡ p + 0 = omega arith in ap (λ k. reading k ys db) q
  reading-append p (x ∷ xs) ys db =
      let q : p + x.size + total xs ≡ p + (x.size + total xs) = omega arith in
      reading-append (p + x.size) xs ys (one (p + x.size) (record_of x) db)
      ∙ ap (λ k. reading k ys (reading (p + x.size) xs (one (p + x.size) (record_of x) db))) q

  reading-Skipped : (p : ℕ) (xs : List Line) (db : Db) → Skipped xs → reading p xs db ≡ db
  unfolding consume_lines consume_line
  reading-Skipped p [] db h = refl
  reading-Skipped p (x ∷ xs) db h =
      ap (λ r. reading (p + x.size) xs (one (p + x.size) r db)) (h x (Memᴰ.head refl))
      ∙ reading-Skipped (p + x.size) xs db (λ l m. h l (Memᴰ.tail m))

  -- The offset is behind the last line that was written, and the lines behind it do not parse.
  abbrev Saved : ℕ → List Line → Db → Type 0
  Saved p lines db =
      Skipped lines
      ⊎ ((xs : List Line) × (ys : List Line) × (lines ≡ xs ++ ys)
          × Skipped ys
          × (load_offset (reading p lines db) ≡ p + total xs))

  reading-Saved : (p : ℕ) (lines : List Line) (db : Db) → Saved p lines db
  unfolding consume_lines consume_line
  reading-Saved p [] db = inl (λ l m. absurd (Memᴰ.not-nil m))
  reading-Saved p (x ∷ lines) db = split (record_of x) refl (reading-Saved (p + x.size) lines)
    where
      further :
          (d : Db)
          → (xs : List Line) → reading p (x ∷ lines) db ≡ reading (p + x.size) lines d
          → load_offset (reading (p + x.size) lines d) ≡ (p + x.size) + total xs
          → load_offset (reading p (x ∷ lines) db) ≡ p + (x.size + total xs)
      further d xs same e =
          let q : (p + x.size) + total xs ≡ p + (x.size + total xs) = omega arith in
          ap load_offset same ∙ e ∙ q

      skip : record_of x ≡ none → Skipped lines → Skipped (x ∷ lines)
      skip e h l (Memᴰ.head f) = ap record_of f ∙ e
      skip e h l (Memᴰ.tail m) = h l m

      split :
          (r : Option ParsedRecord)
          → record_of x ≡ r
          → ((d : Db) → Saved (p + x.size) lines d)
          → Saved p (x ∷ lines) db
      split none e ih = elim (ih db) [
        | inl h ↦ inl (skip e h)
        | inr (xs, ys, cut, h, at) ↦ inr (
          x ∷ xs,
          ys,
          ap (λ l. x ∷ l) cut,
          h,
          further db xs (ap (λ r. reading (p + x.size) lines (one (p + x.size) r db)) e) at,
        )
      ]
      split (some rec) e ih =
          let d = save_log_offset now (p + x.size) (persist_one lib rec db) in
          let same : reading p (x ∷ lines) db ≡ reading (p + x.size) lines d =
            ap (λ r. reading (p + x.size) lines (one (p + x.size) r db)) e in
          elim (ih d) [
            | inl h ↦
                let at =
                  ap load_offset (reading-Skipped (p + x.size) lines d h)
                  ∙ load_offset-save now (p + x.size) (persist_one lib rec db) in
                let q : p + x.size ≡ (p + x.size) + total [] = omega arith in
                inr (x ∷ [], lines, refl, h, further d [] same (at ∙ q))
            | inr (xs, ys, cut, h, at) ↦
                inr (x ∷ xs, ys, ap (λ l. x ∷ l) cut, h, further d xs same at)
          ]

  -- A run where positions are byte counts.
  abbrev file : List ℕ → Db → Db
  file = consume_file lib decode shlex_split times now (λ content n. n)

  consume_file-reading :
      (content : List ℕ) (db : Db)
      → load_offset db ≤ length content
      → file content db
        ≡ reading (load_offset db) (log_lines (drop_bytes (load_offset db) content)) db
  unfolding consume_file consume_from
  consume_file-reading content db le = rw (ltb-eq-false (length content) (load_offset db) le) refl

  -- The saved offset is a place from which the lines that were not written come next, and then the new
  -- ones.
  resumed :
      (s t : List ℕ) (db : Db)
      → Complete s
      → load_offset db ≤ length s
      → Saved (load_offset db) (log_lines (drop_bytes (load_offset db) s)) db
      → file (s ++ t) (file s db) ≡ file (s ++ t) db
  resumed s t db whole le (inl h) = ap (file (s ++ t)) (
      consume_file-reading s db le
      ∙ reading-Skipped (load_offset db) (log_lines (drop_bytes (load_offset db) s)) db h)
  resumed s t db whole le (inr (xs, ys, cut, h, at)) =
      let p = load_offset db in
      let first = reading p (log_lines (drop_bytes p s)) db in
      let long = length-append s t in
      let from = drop_bytes-append p s t le in
      let all : log_lines (drop_bytes p (s ++ t)) ≡ log_lines (drop_bytes p s) ++ log_lines t =
        ap log_lines from ∙ log_lines-append (drop_bytes p s) t (Complete-drop_bytes p s whole) in
      let parts : log_lines (drop_bytes p (s ++ t)) ≡ xs ++ (ys ++ log_lines t) =
        all ∙ ap (λ l. l ++ log_lines t) cut ∙ append_assoc xs ys (log_lines t) in
      let (rest, short) =
        log_lines-drop_bytes (drop_bytes p (s ++ t)) xs (ys ++ log_lines t) parts in
      let room = length-drop_bytes p (s ++ t) (omega (arith, le, long)) in
      let next : log_lines (drop_bytes (load_offset first) (s ++ t)) ≡ ys ++ log_lines t =
        ap (λ n. log_lines (drop_bytes n (s ++ t))) at
        ∙ ap log_lines (drop_bytes-drop_bytes p (total xs) (s ++ t))
        ∙ rest in
      let sum : load_offset first + total ys ≡ p + total (log_lines (drop_bytes p s)) =
        let e = ap total cut ∙ total-append xs ys in omega (arith, at, e) in
      ap (file (s ++ t)) (consume_file-reading s db le)
      ∙ consume_file-reading (s ++ t) first (omega (arith, at, short, room))
      ∙ ap (λ l. reading (load_offset first) l first) next
      ∙ reading-append (load_offset first) ys (log_lines t) first
      ∙ ap (λ n. reading n (log_lines t) (reading (load_offset first) ys first)) sum
      ∙ ap (reading (p + total (log_lines (drop_bytes p s))) (log_lines t))
          (reading-Skipped (load_offset first) ys first h)
      ∙ sym (reading-append p (log_lines (drop_bytes p s)) (log_lines t) db)
      ∙ ap (λ l. reading p l db) (sym all)
      ∙ sym (consume_file-reading (s ++ t) db (omega (arith, le, long)))

  -- The offset that is left is in the file.
  load_offset-file :
      (s : List ℕ) (db : Db)
      → load_offset db ≤ length s
      → Saved (load_offset db) (log_lines (drop_bytes (load_offset db) s)) db
      → load_offset (file s db) ≤ length s
  load_offset-file s db le (inl h) =
      let same = ap load_offset (
        consume_file-reading s db le
        ∙ reading-Skipped (load_offset db) (log_lines (drop_bytes (load_offset db) s)) db h) in
      omega (arith, le, same)
  load_offset-file s db le (inr (xs, ys, cut, h, at)) =
      let (_, short) = log_lines-drop_bytes (drop_bytes (load_offset db) s) xs ys cut in
      let room = length-drop_bytes (load_offset db) s le in
      let same = ap load_offset (consume_file-reading s db le) in
      omega (arith, at, short, room, same)

  -- Positions that are byte counts up to the end of the lines give the same run.
  reading-told :
      (told : ℕ → ℕ) (size p : ℕ) (lines : List Line) (db : Db)
      → ((n : ℕ) → n ≤ size → told n ≡ n)
      → p + total lines ≤ size
      → consume_lines lib decode shlex_split times now told p lines db ≡ reading p lines db
  unfolding consume_lines
  reading-told told size p [] db h le = refl
  reading-told told size p (x ∷ lines) db h le =
      reading-told told size (p + x.size) lines (one (told (p + x.size)) (record_of x) db) h
        (omega (arith, le))
      ∙ ap (λ n. reading (p + x.size) lines (one n (record_of x) db))
          (h (p + x.size) (omega (arith, le)))

  module _ (tell : List ℕ → ℕ → ℕ) where
    abbrev tailed : List ℕ → Db → Db
    tailed = consume_file lib decode shlex_split times now tell

    tailed-file :
        (content : List ℕ) (db : Db)
        → PlainTell tell
        → NoCr content
        → load_offset db ≤ length content
        → tailed content db ≡ file content db
    unfolding consume_file consume_from
    tailed-file content db plain clean le =
        let p = load_offset db in
        let lines = log_lines (drop_bytes p content) in
        let (_, short) =
          log_lines-drop_bytes (drop_bytes p content) lines [] (sym (append-nil lines)) in
        let room = length-drop_bytes p content le in
        rw (ltb-eq-false (length content) p le) (
          reading-told (tell content) (length content) p lines db (λ n. plain content n clean)
            (omega (arith, short, room)))

    -- The ingestor may stop behind any complete line and start again when more lines were written: the
    -- database is as if the whole file had been read at once, so that no line is lost and none is read
    -- twice. The file holds no carriage return, where the position of `f.tell()` is the number of bytes
    -- read; the text that was read ends in a line feed, the offset was in it, and both runs are at one
    -- time.
    pub consume_file-resumed :
        (s t : List ℕ) (db : Db)
        → PlainTell tell
        → NoCr s
        → NoCr t
        → Complete s
        → load_offset db ≤ length s
        → tailed (s ++ t) (tailed s db) ≡ tailed (s ++ t) db
    consume_file-resumed s t db plain cs ct whole le =
        let saved = reading-Saved (load_offset db) (log_lines (drop_bytes (load_offset db) s)) db in
        let clean = All-append (λ (b : ℕ). b ≢ 13) s t cs ct in
        let long = length-append s t in
        let kept = load_offset-file s db le saved in
        ap (tailed (s ++ t)) (tailed-file s db plain cs le)
        ∙ tailed-file (s ++ t) (file s db) plain clean (omega (arith, kept, long))
        ∙ resumed s t db whole le saved
        ∙ sym (tailed-file (s ++ t) db plain clean (omega (arith, le, long)))
