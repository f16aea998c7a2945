-- ===== src/Quoting.antt =====
-- Quoted literals: what a reader of a double-quoted text with backslash escapes, and a reader of a
-- regular expression between slashes, make of the texts that the renderers write. The readers
-- describe the two notations and translate no code of the program.
use tacacs_web.Prelude.{
  ℕ, ◌≡◌, refl, ap, Bool, true, false, ◌||◌, Option, none, some, [], ◌∷◌, ◌++◌, arith, inl, inr,
  Str, replace, Lacks, ◌==◌, ==_iff, if◌then◌else◌, Bool-cases,
}

abbrev pub backslash : ℕ
backslash = 92

abbrev pub quote : ℕ
quote = 34

abbrev pub slash : ℕ
slash = 47

-- A backslash before each character of the set.
unfoldable pub escape_each : (ℕ → Bool) → Str → Str
escape_each special [] = []
escape_each special (c ∷ s) =
    (if special c then backslash ∷ c ∷ [] else c ∷ []) ++ escape_each special s

abbrev pub is_quoted : ℕ → Bool
is_quoted c = (c == backslash) || (c == quote)

abbrev pub prepend : ℕ → Option (Str × Str) → Option (Str × Str)
prepend c none = none
prepend c (some (s, rest)) = some (c ∷ s, rest)

-- Reads up to the first `stop` that no backslash precedes, and gives what was read, each escaped
-- character without its backslash, and the rest. The flag says that a backslash was just read.
unfoldable pub read_until : ℕ → Bool → Str → Option (Str × Str)
read_until stop escaped [] = none
read_until stop true (c ∷ s) = prepend c (read_until stop false s)
read_until stop false (c ∷ s) =
    let after = read_until stop true s in
    let next = prepend c (read_until stop false s) in
    if c == backslash then after else if c == stop then some ([], s) else next

-- The same for a regular expression: only the delimiter loses its backslash, since every other
-- escape belongs to the expression.
unfoldable pub read_regex : Bool → Str → Option (Str × Str)
read_regex escaped [] = none
read_regex true (c ∷ s) =
    let next = read_regex false s in
    if c == slash then prepend c next else prepend backslash (prepend c next)
read_regex false (c ∷ s) =
    let after = read_regex true s in
    let next = prepend c (read_regex false s) in
    if c == backslash then after else if c == slash then some ([], s) else next

-- An escaped text is read back whole, whatever follows its closing mark.
pub read_until-escape_each :
    (special : ℕ → Bool) (stop : ℕ)
    → special backslash ≡ true
    → special stop ≡ true
    → (stop == backslash) ≡ false
    → (s rest : Str) → read_until stop false (escape_each special s ++ stop ∷ rest) ≡ some (s, rest)
unfolding read_until escape_each
read_until-escape_each special stop hb hs ne [] rest = ground (arith, ==_iff stop stop)
read_until-escape_each special stop hb hs ne (c ∷ s) rest = elim (Bool-cases (special c)) [
  | inl e ↦ rw e (rw (read_until-escape_each special stop hb hs ne s rest))
  | inr e ↦
      rw e
        (rw (not_bs c e, not_stop c e) (rw (read_until-escape_each special stop hb hs ne s rest)))
]
  where
    not_bs : (x : ℕ) → special x ≡ false → (x == backslash) ≡ false
    not_bs x e = elim (Bool-cases (x == backslash)) [
      | inl h ↦ absurd (cc (ap special ((==_iff x backslash).0 h), e, hb))
      | inr h ↦ h
    ]

    not_stop : (x : ℕ) → special x ≡ false → (x == stop) ≡ false
    not_stop x e = elim (Bool-cases (x == stop)) [
      | inl h ↦ absurd (cc (ap special ((==_iff x stop).0 h), e, hs))
      | inr h ↦ h
    ]

-- `value.replace("\\", "\\\\").replace('"', '\\"')` escapes each character once.
pub replace-eq-escape_each :
    (s : Str)
    → replace quote (backslash ∷ quote ∷ []) (replace backslash (backslash ∷ backslash ∷ []) s)
      ≡ escape_each is_quoted s
unfolding replace escape_each
replace-eq-escape_each [] = refl
replace-eq-escape_each (c ∷ s) = elim (Bool-cases (c == backslash)) [
  | inl e ↦
      rw ((==_iff c backslash).0 e) (ap (λ t. backslash ∷ backslash ∷ t) (replace-eq-escape_each s))
  | inr e ↦ elim (Bool-cases (c == quote)) [
    | inl f ↦ rw ((==_iff c quote).0 f) (ap (λ t. backslash ∷ quote ∷ t) (replace-eq-escape_each s))
    | inr f ↦ rw (e, f) (ap (λ t. c ∷ t) (replace-eq-escape_each s))
  ]
]

-- `pattern.replace("/", "\\/")` of a pattern without backslashes is read back whole.
pub read_regex-replace :
    (s rest : Str)
    → Lacks backslash s
    → read_regex false (replace slash (backslash ∷ slash ∷ []) s ++ slash ∷ rest) ≡ some (s, rest)
unfolding read_regex replace
read_regex-replace [] rest h = refl
read_regex-replace (c ∷ s) rest (n, h) = elim (Bool-cases (c == slash)) [
  | inl e ↦ rw ((==_iff c slash).0 e) (rw (read_regex-replace s rest h))
  | inr e ↦ rw e (rw (n, e) (rw (read_regex-replace s rest h)))
]
