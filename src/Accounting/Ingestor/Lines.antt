-- ===== src/Accounting/Ingestor/Lines.antt =====
-- The lines of a file, from any line on and with more lines behind.
use tacacs_web.Prelude.{
  ℕ, zero, suc, ◌+◌, ◌≤◌, ◌≡◌, refl, sym, ap, ◌∙◌, ◌⊎◌, inl, inr, Bool, true, false, List, [], ◌∷◌,
  ◌++◌, length, ◌==◌, arith, if◌then◌else◌,
}
use tacacs_web.Accounting.Ingestor.{
  Line, starts_with_lf, lone_end, push, widen, extend, log_lines, drop_bytes,
}

-- The text is empty or ends in a line feed.
abbrev pub Complete : List ℕ → Type 0
Complete [] = Unit
Complete (b ∷ []) = b ≡ 10
Complete (b ∷ c ∷ s) = Complete (c ∷ s)

-- The bytes of these lines.
abbrev pub total : List Line → ℕ
total [] = 0
total (l ∷ lines) = l.size + total lines

-- The first line of an extended list is a new one, or the first line with the byte before it.
abbrev Extended : List Line → Line → List Line → Type 0
Extended before l lines =
    ((l.size ≡ 1) × (before ≡ lines)) ⊎ ((m : Line) × (before ≡ m ∷ lines) × (l.size ≡ suc m.size))

extend-cons :
    (b : ℕ) (lf : Bool) (m : Line) (ls : List Line)
    → (l : Line) × (lines : List Line) × (extend b lf (m ∷ ls) ≡ l ∷ lines)
unfolding extend push widen
extend-cons b lf m ls = split (b == 10) (b == 13) lf
  where
    grown : Line
    grown = record m { body = b ∷ m.body; size = suc m.size }

    split :
        (x y z : Bool)
        → (l : Line) × (lines : List Line) × ((if x
              then lone_end ∷ m ∷ ls
              else if y
              then (if z then record m { size = suc m.size } ∷ ls else lone_end ∷ m ∷ ls)
              else grown ∷ ls)
            ≡ l ∷ lines)
    split true y z = (lone_end, m ∷ ls, refl)
    split false true true = (record m { size = suc m.size }, ls, refl)
    split false true false = (lone_end, m ∷ ls, refl)
    split false false z = (grown, ls, refl)

extend-nil : (b : ℕ) → (l : Line) × (extend b false [] ≡ l ∷ []) × (l.size ≡ 1)
unfolding extend push widen
extend-nil b = split (b == 10) (b == 13)
  where
    split :
        (x y : Bool)
        → (l : Line) × ((if x
              then lone_end ∷ []
              else if y
              then lone_end ∷ []
              else record { body = b ∷ []; ended = false; size = 1 } ∷ [])
            ≡ l ∷ [])
          × (l.size ≡ 1)
    split true y = (lone_end, refl, refl)
    split false true = (lone_end, refl, refl)
    split false false = (record { body = b ∷ []; ended = false; size = 1 }, refl, refl)

log_lines-cons :
    (b : ℕ) (s : List ℕ) → (l : Line) × (lines : List Line) × (log_lines (b ∷ s) ≡ l ∷ lines)
unfolding log_lines starts_with_lf
log_lines-cons b [] = let (l, e, _) = extend-nil b in (l, [], e)
log_lines-cons b (c ∷ s) =
    let (m, ls, e) = log_lines-cons c s in
    let (l, lines, f) = extend-cons b (c == 10) m ls in (l, lines, ap (extend b (c == 10)) e ∙ f)

extend-append :
    (b : ℕ) (lf : Bool) (m : Line) (ls ms : List Line)
    → extend b lf ((m ∷ ls) ++ ms) ≡ extend b lf (m ∷ ls) ++ ms
unfolding extend push widen
extend-append b lf m ls ms = ground arith

pub log_lines-append : (s t : List ℕ) → Complete s → log_lines (s ++ t) ≡ log_lines s ++ log_lines t
unfolding log_lines extend starts_with_lf
log_lines-append [] t h = refl
log_lines-append (b ∷ []) t h = rw h refl
log_lines-append (b ∷ c ∷ s) t h =
    let (m, ls, e) = log_lines-cons c s in
    ap (extend b (c == 10)) (log_lines-append (c ∷ s) t h ∙ ap (λ l. l ++ log_lines t) e)
    ∙ extend-append b (c == 10) m ls (log_lines t)
    ∙ ap (λ l. extend b (c == 10) l ++ log_lines t) (sym e)

extend-Extended :
    (b : ℕ) (lf : Bool) (before : List Line) (l : Line) (lines : List Line)
    → extend b lf before ≡ l ∷ lines
    → Extended before l lines
unfolding extend push widen
extend-Extended b lf before l lines = split (b == 10) (b == 13) lf before
  where
    same : (m : Line) (ls : List Line) → m ∷ ls ≡ l ∷ lines → (m ≡ l) × (ls ≡ lines)
    same m ls e = (cc e, cc e)

    split :
        (x y z : Bool) (before : List Line)
        → (if x
            then lone_end ∷ before
            else if y
            then (if z then widen before else lone_end ∷ before)
            else push b before)
          ≡ l ∷ lines
        → Extended before l lines
    split true y z before e = let (p, q) = same _ _ e in inl (ap (λ (m : Line). m.size) (sym p), q)
    split false true true [] e = absurd (cc e)
    split false true true (m ∷ ls) e =
        let (p, q) = same _ _ e in inr (m, ap (λ t. m ∷ t) q, ap (λ (n : Line). n.size) (sym p))
    split false true false before e =
        let (p, q) = same _ _ e in inl (ap (λ (m : Line). m.size) (sym p), q)
    split false false z [] e = let (p, q) = same _ _ e in inl (ap (λ (m : Line). m.size) (sym p), q)
    split false false z (m ∷ ls) e =
        let (p, q) = same _ _ e in inr (m, ap (λ t. m ∷ t) q, ap (λ (n : Line). n.size) (sym p))

-- Behind the first line are the others, and it is no longer than the text.
log_lines-first :
    (s : List ℕ) (l : Line) (lines : List Line)
    → log_lines s ≡ l ∷ lines
    → (log_lines (drop_bytes l.size s) ≡ lines) × (l.size ≤ length s)
unfolding log_lines drop_bytes
log_lines-first [] l lines e = absurd (cc e)
log_lines-first (b ∷ s) l lines e =
    split (extend-Extended b (starts_with_lf s) (log_lines s) l lines e) (log_lines-first s)
  where
    split :
        Extended (log_lines s) l lines
        → ((m : Line) (ls : List Line)
            → log_lines s ≡ m ∷ ls
            → (log_lines (drop_bytes m.size s) ≡ ls) × (m.size ≤ length s))
        → (log_lines (drop_bytes l.size (b ∷ s)) ≡ lines) × (l.size ≤ suc (length s))
    split (inl (one, same)) ih =
        (ap (λ n. log_lines (drop_bytes n (b ∷ s))) one ∙ same, omega (arith, one))
    split (inr (m, same, more)) ih =
        let (rest, le) = ih m lines same in
        (ap (λ n. log_lines (drop_bytes n (b ∷ s))) more ∙ rest, omega (arith, more, le))

drop_bytes-nil : (n : ℕ) → drop_bytes n [] ≡ []
unfolding drop_bytes
drop_bytes-nil zero = refl
drop_bytes-nil (suc n) = refl

pub drop_bytes-drop_bytes :
    (m n : ℕ) (s : List ℕ) → drop_bytes (m + n) s ≡ drop_bytes n (drop_bytes m s)
unfolding drop_bytes
drop_bytes-drop_bytes zero n s = let q : zero + n ≡ n = omega arith in ap (λ k. drop_bytes k s) q
drop_bytes-drop_bytes (suc m) n [] = drop_bytes-nil (suc m + n) ∙ sym (drop_bytes-nil n)
drop_bytes-drop_bytes (suc m) n (b ∷ s) =
    let q : suc m + n ≡ suc (m + n) = omega arith in
    ap (λ k. drop_bytes k (b ∷ s)) q ∙ drop_bytes-drop_bytes m n s

pub length-drop_bytes : (n : ℕ) (s : List ℕ) → n ≤ length s → n + length (drop_bytes n s) ≡ length s
unfolding drop_bytes
length-drop_bytes zero s h = omega arith
length-drop_bytes (suc n) [] h = absurd (omega (arith, h))
length-drop_bytes (suc n) (b ∷ s) h =
    let e = length-drop_bytes n s (omega (arith, h)) in omega (arith, e)

pub drop_bytes-append :
    (n : ℕ) (s t : List ℕ) → n ≤ length s → drop_bytes n (s ++ t) ≡ drop_bytes n s ++ t
unfolding drop_bytes
drop_bytes-append zero s t h = refl
drop_bytes-append (suc n) [] t h = absurd (omega (arith, h))
drop_bytes-append (suc n) (b ∷ s) t h = drop_bytes-append n s t (omega (arith, h))

-- Behind the bytes of some lines are the others.
pub log_lines-drop_bytes :
    (s : List ℕ) (lines more : List Line)
    → log_lines s ≡ lines ++ more
    → (log_lines (drop_bytes (total lines) s) ≡ more) × (total lines ≤ length s)
unfolding drop_bytes
log_lines-drop_bytes s [] more e = (e, omega arith)
log_lines-drop_bytes s (l ∷ lines) more e =
    let (rest, le) = log_lines-first s l (lines ++ more) e in
    let (last, short) = log_lines-drop_bytes (drop_bytes l.size s) lines more rest in
    let len = length-drop_bytes l.size s le in
    (
      ap log_lines (drop_bytes-drop_bytes l.size (total lines) s) ∙ last,
      omega (arith, len, short, le),
    )

Complete-tail : (b : ℕ) (s : List ℕ) → Complete (b ∷ s) → Complete s
Complete-tail b [] h = tt
Complete-tail b (c ∷ s) h = h

pub Complete-drop_bytes : (n : ℕ) (s : List ℕ) → Complete s → Complete (drop_bytes n s)
unfolding drop_bytes
Complete-drop_bytes zero s h = h
Complete-drop_bytes (suc n) [] h = tt
Complete-drop_bytes (suc n) (b ∷ s) h = Complete-drop_bytes n s (Complete-tail b s h)
