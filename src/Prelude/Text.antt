-- ===== src/Prelude/Text.antt =====
-- Python's `str` as the list of its code points: equality, replacement of one character,
-- joining, splitting.
use Prim.Native.Nat.{ℕ}
use Prim.Native.Char.{code}
use Prim.Native.String.{String}
use mathlib.Core.Path.{◌≡◌, refl}
use mathlib.Core.Logic.{◌↔◌}
use mathlib.Core.Bool.{Bool, true, false, ◌&&◌, ◌||◌}
use mathlib.Core.List.{List, [], ◌∷◌, ◌++◌, append_assoc, append-nil}
use native.Mathlib.Omega.{arith}
use tacacs_web.Prelude.Tests.{if◌then◌else◌, ◌==◌, leb, &&-eq-true}

abbrev pub Str : Type 0
Str = List ℕ

-- A literal.
abbrev pub str : String → Str
str String.[] = []
str (String.◌∷◌ c s) = code c ∷ str s

unfoldable pub str_eq : Str → Str → Bool
str_eq [] [] = true
str_eq (a ∷ s) (b ∷ t) = (a == b) && str_eq s t
str_eq _ _ = false

pub str_eq_refl : (s : Str) → str_eq s s ≡ true
unfolding str_eq
str_eq_refl [] = refl
str_eq_refl (a ∷ s) = ground (arith, str_eq_refl s)

pub eq_of_str_eq : (s t : Str) → str_eq s t ≡ true → s ≡ t
unfolding str_eq
eq_of_str_eq [] [] h = refl
eq_of_str_eq (a ∷ s) (b ∷ t) h =
    let (p, q) = &&-eq-true (a == b) (str_eq s t) h in ground (arith, eq_of_str_eq s t q)
eq_of_str_eq [] (b ∷ t) h = cc
eq_of_str_eq (a ∷ s) [] h = cc

pub str_eq_iff : (s t : Str) → (str_eq s t ≡ true) ↔ (s ≡ t)
str_eq_iff s t = (eq_of_str_eq s t, λ e. rw e (str_eq_refl t))

abbrev pub is_empty : Str → Bool
is_empty [] = true
is_empty (_ ∷ _) = false

-- `s.replace(c, by)` for a text `c` of one character.
unfoldable pub replace : ℕ → Str → Str → Str
replace c by [] = []
replace c by (a ∷ s) = (if a == c then by else a ∷ []) ++ replace c by s

-- `sep.join(parts)`.
unfoldable pub join : Str → List Str → Str
join sep [] = []
join sep (s ∷ []) = s
join sep (s ∷ t ∷ rest) = s ++ (sep ++ join sep (t ∷ rest))

-- `s.split(sep)` for a separator of one character: never the empty list. `cur` is the field that
-- is being read.
unfoldable pub split_from : ℕ → Str → Str → List Str
split_from sep cur [] = cur ∷ []
split_from sep cur (a ∷ s) =
    let closed = cur ∷ split_from sep [] s in
    let longer = split_from sep (cur ++ a ∷ []) s in if a == sep then closed else longer

abbrev pub split : ℕ → Str → List Str
split sep s = split_from sep [] s

-- No character `c` in the text.
abbrev pub Lacks : ℕ → Str → Type 0
Lacks c [] = Unit
Lacks c (a ∷ s) = ((a == c) ≡ false) × Lacks c s

pub replace-Lacks : (c : ℕ) (by s : Str) → Lacks c s → replace c by s ≡ s
unfolding replace
replace-Lacks c by [] h = refl
replace-Lacks c by (a ∷ s) (p, h) = rw (p, replace-Lacks c by s h)

pub replace-append :
    (c : ℕ) (by s t : Str) → replace c by (s ++ t) ≡ replace c by s ++ replace c by t
unfolding replace
replace-append c by [] t = refl
replace-append c by (a ∷ s) t = rw (replace-append c by s t) (rw append_assoc)

-- A field without the separator is read to its end.
pub split_from-field :
    (sep : ℕ) (cur field rest : Str)
    → Lacks sep field
    → split_from sep cur (field ++ sep ∷ rest) ≡ (cur ++ field) ∷ split_from sep [] rest
unfolding split_from
split_from-field sep cur [] rest h = ground (arith, append-nil cur)
split_from-field sep cur (a ∷ field) rest (p, h) =
    rw p (rw (split_from-field sep (cur ++ a ∷ []) field rest h) (rw append_assoc))

pub split_from-last :
    (sep : ℕ) (cur field : Str) → Lacks sep field → split_from sep cur field ≡ (cur ++ field) ∷ []
unfolding split_from
split_from-last sep cur [] h = rw append-nil
split_from-last sep cur (a ∷ field) (p, h) =
    rw p (rw (split_from-last sep (cur ++ a ∷ []) field h) (rw append_assoc))

-- The characters that `str.isspace` accepts.
abbrev pub is_space : ℕ → Bool
is_space c =
    (leb 9 c && leb c 13)
    || (leb 28 c && leb c 32)
    || (c == 0x85)
    || (c == 0xa0)
    || (c == 0x1680)
    || (leb 0x2000 c && leb c 0x200a)
    || (c == 0x2028)
    || (c == 0x2029)
    || (c == 0x202f)
    || (c == 0x205f)
    || (c == 0x3000)

-- `s.lstrip(chars)`, `s.rstrip(chars)` for a set of characters.
unfoldable pub lstrip_of : (ℕ → Bool) → Str → Str
lstrip_of p [] = []
lstrip_of p (c ∷ s) = let rest = lstrip_of p s in if p c then rest else c ∷ s

unfoldable pub rstrip_cons_of : (ℕ → Bool) → ℕ → Str → Str
rstrip_cons_of p c [] = if p c then [] else c ∷ []
rstrip_cons_of p c (d ∷ s) = c ∷ d ∷ s

unfoldable pub rstrip_of : (ℕ → Bool) → Str → Str
unfolding rstrip_cons_of
rstrip_of p [] = []
rstrip_of p (c ∷ s) = rstrip_cons_of p c (rstrip_of p s)

-- `s.strip()`
unfoldable pub strip : Str → Str
unfolding lstrip_of rstrip_of
strip s = rstrip_of is_space (lstrip_of is_space s)

unfoldable pub starts_with : Str → Str → Bool
starts_with s [] = true
starts_with [] (b ∷ t) = false
starts_with (a ∷ s) (b ∷ t) = (a == b) && starts_with s t
