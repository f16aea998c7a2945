-- ===== src/Prelude/Int.antt =====
-- Signed integers over the native numbers: `negsuc n` is -(n + 1). Python's `str(i)` and `int(text)`.
use Prim.Native.Nat.{ℕ, zero, suc, ◌+◌, ◌-◌, ◌*◌}
use mathlib.Core.Path.{◌≡◌, refl, sym, ap, subst, ◌∙◌}
use mathlib.Core.Bool.{Bool, true, false, ◌&&◌}
use mathlib.Core.Option.{Option, none, some}
use mathlib.Core.List.{[], ◌∷◌}
use native.Mathlib.Omega.{arith}
use tacacs_web.Prelude.Tests.{leb, ◌==◌, if◌then◌else◌}
use tacacs_web.Prelude.Lists.{All}
use tacacs_web.Prelude.Text.{Str, is_space, rstrip_of, rstrip_cons_of, strip}
use tacacs_web.Prelude.Decimal.{
  is_digit, digits_value, decimal, decimal-digits, decimal-cons, digits_value-decimal,
}

pub data ℤ : Type 0 where
  pos : ℕ → ℤ
  negsuc : ℕ → ℤ

abbrev pub int_eq : ℤ → ℤ → Bool
int_eq (pos a) (pos b) = a == b
int_eq (negsuc a) (negsuc b) = a == b
int_eq _ _ = false

abbrev pub int_le : ℤ → ℤ → Bool
int_le (pos a) (pos b) = leb a b
int_le (pos a) (negsuc b) = false
int_le (negsuc a) (pos b) = true
int_le (negsuc a) (negsuc b) = leb b a

pub eq_of_int_eq : (a b : ℤ) → int_eq a b ≡ true → a ≡ b
eq_of_int_eq (pos a) (pos b) h = ground arith
eq_of_int_eq (negsuc a) (negsuc b) h = ground arith
eq_of_int_eq (pos a) (negsuc b) h = cc
eq_of_int_eq (negsuc a) (pos b) h = cc

pub int_eq_refl : (a : ℤ) → int_eq a a ≡ true
int_eq_refl (pos a) = ground arith
int_eq_refl (negsuc a) = ground arith

-- `str(i)`
unfoldable pub show_int : ℤ → Str
show_int (pos n) = decimal n
show_int (negsuc n) = b'-' ∷ decimal (suc n)

-- The digits of an integer literal, with single underscores between digits. The flag says that the
-- last character was a digit.
unfoldable pub int_digits : Bool → ℕ → Str → Option ℕ
int_digits after_digit acc [] = if after_digit then some acc else none
int_digits after_digit acc (c ∷ s) =
    let digit = int_digits true (acc * 10 + (c - 48)) s in
    let gap = int_digits false acc s in
    if is_digit c then digit else if (c == b'_') && after_digit then gap else none

abbrev positive : Option ℕ → Option ℤ
positive none = none
positive (some n) = some (pos n)

abbrev negative : Option ℕ → Option ℤ
negative none = none
negative (some zero) = some (pos 0)
negative (some (suc n)) = some (negsuc n)

signed : Str → Option ℤ
signed [] = none
signed (c ∷ s) =
    if c == b'-'
    then negative (int_digits false 0 s)
    else if c == b'+'
    then positive (int_digits false 0 s)
    else positive (int_digits false 0 (c ∷ s))

-- `int(text)`; `none` is a `ValueError`.
unfoldable pub parse_int : Str → Option ℤ
unfolding signed int_digits strip
parse_int s = signed (strip s)

abbrev IsNumeral : Str → Type 0
IsNumeral s = All (λ c. is_digit c ≡ true) s

int_digits-numeral : (acc : ℕ) (s : Str) → IsNumeral s → int_digits true acc s ≡ digits_value acc s
unfolding int_digits digits_value
int_digits-numeral acc [] h = refl
int_digits-numeral acc (c ∷ s) (p, h) = rw p (int_digits-numeral (acc * 10 + (c - 48)) s h)

rstrip-numeral : (s : Str) → IsNumeral s → rstrip_of is_space s ≡ s
unfolding rstrip_of
rstrip-numeral [] h = refl
rstrip-numeral (c ∷ s) (p, h) = ap (rstrip_cons_of is_space c) (rstrip-numeral s h) ∙ keep s
  where
    not_space : is_space c ≡ false
    not_space = ground arith

    keep : (t : Str) → rstrip_cons_of is_space c t ≡ c ∷ t
    keep [] = rw not_space
    keep (d ∷ t) = refl

strip-numeral : (c : ℕ) (s : Str) → IsNumeral (c ∷ s) → strip (c ∷ s) ≡ c ∷ s
unfolding strip
strip-numeral c s (p, h) =
    let not_space : is_space c ≡ false = ground arith in
    rw not_space (rstrip-numeral (c ∷ s) (p, h))

-- A numeral is read as its value.
pub parse_int-numeral :
    (c : ℕ) (s : Str) (n : ℕ)
    → IsNumeral (c ∷ s)
    → digits_value 0 (c ∷ s) ≡ some n
    → parse_int (c ∷ s) ≡ some (pos n)
unfolding parse_int
parse_int-numeral c s n (p, h) v = ap signed (strip-numeral c s (p, h)) ∙ value
  where
    minus : (c == b'-') ≡ false
    minus = ground arith

    plus : (c == b'+') ≡ false
    plus = ground arith

    first : digits_value (0 * 10 + (c - 48)) s ≡ some n
    first = unfold digits_value in rw p at v

    value : signed (c ∷ s) ≡ some (pos n)
    value =
        rw (minus, plus) (rw p (ap positive (int_digits-numeral (0 * 10 + (c - 48)) s h ∙ first)))

-- Reading back what was printed.
pub parse_int-decimal : (n : ℕ) → parse_int (decimal n) ≡ some (pos n)
parse_int-decimal n = go (decimal-cons n)
  where
    go : (c : ℕ) × (s : Str) × (decimal n ≡ c ∷ s) → parse_int (decimal n) ≡ some (pos n)
    go (c, s, e) =
        ap parse_int e
        ∙ parse_int-numeral c s n (subst IsNumeral e (decimal-digits n))
            (ap (digits_value 0) (sym e) ∙ digits_value-decimal n)
