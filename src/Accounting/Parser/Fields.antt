-- ===== src/Accounting/Parser/Fields.antt =====
-- A line that the daemon writes is read back.
use tacacs_web.Prelude.{
  ℕ, ◌≡◌, refl, ap, ◌∙◌, false, Option, none, some, List, [], ◌∷◌, ◌++◌, Str, is_empty, ◌==◌,
  ==_refl, rstrip_of, rstrip_cons_of, split, split_from-field, split_from-last, join, Lacks,
  if◌then◌else◌,
}
use tacacs_web.Accounting.Parser.{
  TimeParsers, or_none, or_unknown, args_blob, parse_args, parse_ts, record_of_parts, chomped,
  parse_record,
}

Lacks-append : (c : ℕ) (s t : Str) → Lacks c s → Lacks c t → Lacks c (s ++ t)
Lacks-append c [] t h k = k
Lacks-append c (a ∷ s) t (p, h) k = (p, Lacks-append c s t h k)

rstrip-Lacks : (c : ℕ) (s : Str) → Lacks c s → rstrip_of (λ x. x == c) s ≡ s
unfolding rstrip_of rstrip_cons_of
rstrip-Lacks c [] h = refl
rstrip-Lacks c (a ∷ []) (p, h) = rw p refl
rstrip-Lacks c (a ∷ b ∷ s) (p, h) = ap (rstrip_cons_of (λ x. x == c) a) (rstrip-Lacks c (b ∷ s) h)

rstrip-end : (c : ℕ) (s : Str) → Lacks c s → rstrip_of (λ x. x == c) (s ++ c ∷ []) ≡ s
unfolding rstrip_of rstrip_cons_of
rstrip-end c [] h = rw (==_refl c) refl
rstrip-end c (a ∷ []) (p, h) = ap (rstrip_cons_of (λ x. x == c) a) (rstrip-end c [] h) ∙ rw p refl
rstrip-end c (a ∷ b ∷ s) (p, h) = ap (rstrip_cons_of (λ x. x == c) a) (rstrip-end c (b ∷ s) h)

-- No field has the character.
abbrev pub AllLack : ℕ → List Str → Type 0
AllLack c [] = Unit
AllLack c (f ∷ fields) = Lacks c f × AllLack c fields

join-Lacks :
    (c : ℕ) (fields : List Str)
    → (9 == c) ≡ false
    → AllLack c fields
    → Lacks c (join (9 ∷ []) fields)
unfolding join
join-Lacks c [] h k = tt
join-Lacks c (f ∷ []) h (p, k) = p
join-Lacks c (f ∷ g ∷ fields) h (p, k) = Lacks-append c f _ p (h, join-Lacks c (g ∷ fields) h k)

split-join :
    (f : Str) (fields : List Str)
    → AllLack 9 (f ∷ fields)
    → split 9 (join (9 ∷ []) (f ∷ fields)) ≡ f ∷ fields
unfolding join
split-join f [] (p, k) = split_from-last 9 [] f p
split-join f (g ∷ fields) (p, k) =
    split_from-field 9 [] f (join (9 ∷ []) (g ∷ fields)) p ∙ ap (λ l. f ∷ l) (split-join g fields k)

is_empty-join : (f g : Str) (fields : List Str) → is_empty (join (9 ∷ []) (f ∷ g ∷ fields)) ≡ false
unfolding join
is_empty-join [] g fields = refl
is_empty-join (a ∷ f) g fields = refl

chomped-line : (text : Str) → Lacks 10 text → Lacks 13 text → chomped (text ++ 10 ∷ []) ≡ text
unfolding chomped
chomped-line text h k =
    ap (rstrip_of (λ c. c == 13)) (rstrip-end 10 text h) ∙ rstrip-Lacks 13 text k

module _ (shlex_split : Str → Option (List Str)) (times : TimeParsers) (now : ℕ) where
  -- A line of eight or more fields that are joined by tabs and end in a line feed gives a record of
  -- these fields: what is behind the seventh is the argument text, an empty field is none, and an empty
  -- action is `unknown`. No field has a tab or an end of a line in it.
  pub parse_record-join :
      (ts nas user port nac task_id action args : Str) (extras : List Str)
      → (let fields = ts ∷ nas ∷ user ∷ port ∷ nac ∷ task_id ∷ action ∷ args ∷ extras in
          AllLack 9 fields × AllLack 10 fields × AllLack 13 fields)
      → parse_record shlex_split times now (
          join (9 ∷ []) (ts ∷ nas ∷ user ∷ port ∷ nac ∷ task_id ∷ action ∷ args ∷ extras)
          ++ 10 ∷ [])
        ≡ some (record {
          ts = parse_ts shlex_split times now ts;
          nas_ip = or_none nas;
          username = or_none user;
          port = or_none port;
          nac_ip = or_none nac;
          task_id = or_none task_id;
          action = or_unknown action;
          av_pairs = parse_args shlex_split times (args_blob args extras);
        })
  unfolding parse_record record_of_parts
  parse_record-join ts nas user port nac task_id action args extras (tabs, lfs, crs) =
      let fields = nas ∷ user ∷ port ∷ nac ∷ task_id ∷ action ∷ args ∷ extras in
      let text = join (9 ∷ []) (ts ∷ fields) in
      let clean =
        chomped-line text (join-Lacks 10 (ts ∷ fields) refl lfs)
          (join-Lacks 13 (ts ∷ fields) refl crs) in
      ap (λ t. if is_empty t then none else record_of_parts shlex_split times now (split 9 t)) clean
      ∙ ap (λ b. if b then none else record_of_parts shlex_split times now (split 9 text))
          (is_empty-join ts nas _)
      ∙ ap (record_of_parts shlex_split times now) (split-join ts fields tabs)
