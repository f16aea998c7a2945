-- ===== src/Mavis/Child/Wire.antt =====
-- The requests of the daemon on the wire: `<index> <value>` lines up to a line `=`.
use tacacs_web.Prelude.{
  ℕ, ◌≡◌, refl, ap, ◌∙◌, subst, true, false, some, List, [], ◌∷◌, ◌++◌, map, Str, str, str_eq,
  Lacks, rstrip_of, rstrip_cons_of, decimal, decimal-digits, decimal-cons, is_digit, All, ◌==◌,
  arith, if◌then◌else◌,
}
use tacacs_web.Prelude.Int.{pos, parse_int, parse_int-decimal}
use tacacs_web.Mavis.Child.{Av, av_set, partition, chomp, store_pair, take_line, read_request}

-- What the daemon writes for a pair; it translates no code of the program.
abbrev pub request_line : ℕ × Str → Str
request_line (idx, value) = (decimal idx ++ 32 ∷ value) ++ 10 ∷ []

abbrev pub set_all : List (ℕ × Str) → Av → Av
set_all [] req = req
set_all ((idx, value) ∷ pairs) req = set_all pairs (av_set (pos idx) value req)

Lacks-line :
    (digits value : Str)
    → All (λ c. is_digit c ≡ true) digits
    → Lacks 10 value
    → Lacks 10 (digits ++ 32 ∷ value)
Lacks-line [] value h k = (refl, k)
Lacks-line (c ∷ digits) value (d, h) k = (not_feed c d, Lacks-line digits value h k)
  where
    not_feed : (c : ℕ) → is_digit c ≡ true → (c == 10) ≡ false
    not_feed c d = ground arith

chomp-line : (line : Str) → Lacks 10 line → chomp (line ++ 10 ∷ []) ≡ line
unfolding rstrip_of rstrip_cons_of
chomp-line [] h = refl
chomp-line (c ∷ line) (n, h) = ap (rstrip_cons_of (λ c. c == 10) c) (chomp-line line h) ∙ keeps line
  where
    keeps : (s : Str) → rstrip_cons_of (λ c. c == 10) c s ≡ c ∷ s
    keeps [] = rw n refl
    keeps (d ∷ s) = refl

partition-line :
    (digits value : Str)
    → All (λ c. is_digit c ≡ true) digits
    → partition 32 (digits ++ 32 ∷ value) ≡ (digits, value)
unfolding partition
partition-line [] value h = refl
partition-line (c ∷ digits) value (d, h) =
    rw (not_space c d) (rw (partition-line digits value h) refl)
  where
    not_space : (c : ℕ) → is_digit c ≡ true → (c == 32) ≡ false
    not_space c d = ground arith

take_line-line :
    (idx : ℕ) (value : Str) (req : Av)
    → take_line (decimal idx ++ 32 ∷ value) req ≡ av_set (pos idx) value req
unfolding take_line store_pair
take_line-line idx value req =
    ap (λ (p : Str × Str). store_pair (parse_int p.0) p.1 req)
      (partition-line (decimal idx) value (decimal-digits idx))
    ∙ ap (λ o. store_pair o value req) (parse_int-decimal idx)

line_is_no_end : (idx : ℕ) (value : Str) → str_eq (decimal idx ++ 32 ∷ value) (str "=") ≡ false
unfolding str_eq
line_is_no_end idx value =
    let (c, s, e) = decimal-cons idx in
    ap (λ t. str_eq (t ++ 32 ∷ value) (str "=")) e
    ∙ first c s (subst (All (λ c. is_digit c ≡ true)) e (decimal-digits idx))
  where
    first :
        (c : ℕ) (s : Str)
        → All (λ c. is_digit c ≡ true) (c ∷ s)
        → str_eq ((c ∷ s) ++ 32 ∷ value) (str "=") ≡ false
    first c s (d, h) = rw (no_mark c d) refl
      where
        no_mark : (c : ℕ) → is_digit c ≡ true → (c == 61) ≡ false
        no_mark c d = ground arith

-- The pairs that the daemon writes, with values that hold no line feed, are the request that the
-- child reads, a later pair with the same index replacing an earlier one, and nothing behind the end
-- mark is touched.
pub read_request-pairs :
    (pairs : List (ℕ × Str)) (req : Av) (rest : List Str)
    → All (λ (p : ℕ × Str). Lacks 10 p.1) pairs
    → read_request req (map request_line pairs ++ str "=\n" ∷ rest) ≡ some (set_all pairs req, rest)
unfolding read_request str_eq rstrip_of rstrip_cons_of
read_request-pairs [] req rest h = refl
read_request-pairs ((idx, value) ∷ pairs) req rest (l, h) =
    let tail = map request_line pairs ++ str "=\n" ∷ rest in
    ap (λ x. if str_eq x (str "=") then some (req, tail) else read_request (take_line x req) tail)
      (chomp-line (decimal idx ++ 32 ∷ value)
        (Lacks-line (decimal idx) value (decimal-digits idx) l))
    ∙ ap
        (λ b.
          if b
          then some (req, tail)
          else read_request (take_line (decimal idx ++ 32 ∷ value) req) tail)
        (line_is_no_end idx value)
    ∙ ap (λ r. read_request r tail) (take_line-line idx value req)
    ∙ read_request-pairs pairs (av_set (pos idx) value req) rest h
