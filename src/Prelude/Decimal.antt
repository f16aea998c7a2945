-- ===== src/Prelude/Decimal.antt =====
-- Decimal numerals as Python prints and reads them: `str(n)`, `int(text)`, `text.isdigit()`,
-- `text.strip()`. Of the digits that `int` and `isdigit` know only the ASCII ones are read here.
use mathlib.Core.List.{[], ◌∷◌, ◌++◌}
use Prim.Native.Nat.{ℕ, zero, suc, ◌+◌, ◌-◌, ◌*◌, ◌/◌, ◌%◌, ◌<◌}
use mathlib.Core.Path.{◌≡◌, ap, ◌∙◌}
use mathlib.Core.Bool.{Bool, true, ◌&&◌}
use mathlib.Core.Logic.{inl, inr}
use mathlib.Core.Option.{Option, none, some}
use native.Mathlib.Omega.{arith}
use tacacs_web.Prelude.Tests.{ltb, leb, if◌then◌else◌, Bool-cases, ltb→lt}
use tacacs_web.Prelude.Lists.{All, All-append}
use tacacs_web.Prelude.Text.{Str}

abbrev pub is_digit : ℕ → Bool
is_digit c = leb 48 c && leb c 57

-- With fuel; `decimal` gives one round more than the number, and each round divides it by ten.
unfoldable pub decimal_from : ℕ → ℕ → Str
decimal_from zero n = []
decimal_from (suc fuel) n =
    let more = decimal_from fuel (n / 10) ++ (48 + n % 10) ∷ [] in
    if ltb n 10 then (48 + n) ∷ [] else more

unfoldable pub decimal : ℕ → Str
unfolding decimal_from
decimal n = decimal_from (suc n) n

-- The value of a run of digits that follows digits of value `acc`.
unfoldable pub digits_value : ℕ → Str → Option ℕ
digits_value acc [] = some acc
digits_value acc (c ∷ s) =
    let rest = digits_value (acc * 10 + (c - 48)) s in if is_digit c then rest else none

digits_value-append :
    (acc c : ℕ) (s : Str) (n : ℕ)
    → digits_value acc s ≡ some n
    → is_digit c ≡ true
    → digits_value acc (s ++ c ∷ []) ≡ some (n * 10 + (c - 48))
unfolding digits_value
digits_value-append acc c [] n h d = ground arith
digits_value-append acc c (a ∷ s) n h d = elim (Bool-cases (is_digit a)) [
  | inl e ↦ rw e (digits_value-append (acc * 10 + (a - 48)) c s n (rw e at h) d)
  | inr e ↦ ground arith
]

decimal_from-value : (fuel n : ℕ) → n < fuel → digits_value 0 (decimal_from fuel n) ≡ some n
unfolding decimal_from
decimal_from-value zero n h = absurd (omega arith)
decimal_from-value (suc fuel) n h = elim (Bool-cases (ltb n 10)) [
  | inl e ↦ rw e (one n (ltb→lt n 10 e))
  | inr e ↦ rw e (
      digits_value-append 0 (48 + n % 10) (decimal_from fuel (n / 10)) (n / 10)
        (decimal_from-value fuel (n / 10) (ground arith)) (ground arith)
      ∙ ap some (omega arith))
]
  where
    one : (m : ℕ) → m < 10 → digits_value 0 ((48 + m) ∷ []) ≡ some m
    one m k = unfold digits_value in ground arith

-- Reading back what was printed gives the number.
pub digits_value-decimal : (n : ℕ) → digits_value 0 (decimal n) ≡ some n
unfolding decimal
digits_value-decimal n = decimal_from-value (suc n) n (omega arith)

decimal_from-digits : (fuel n : ℕ) → All (λ c. is_digit c ≡ true) (decimal_from fuel n)
unfolding decimal_from
decimal_from-digits zero n = tt
decimal_from-digits (suc fuel) n = elim (Bool-cases (ltb n 10)) [
  | inl e ↦ rw e (ground arith, tt)
  | inr e ↦ rw e (
      All-append (λ c. is_digit c ≡ true) (decimal_from fuel (n / 10)) ((48 + n % 10) ∷ [])
        (decimal_from-digits fuel (n / 10)) (ground arith, tt))
]

pub decimal-digits : (n : ℕ) → All (λ c. is_digit c ≡ true) (decimal n)
unfolding decimal
decimal-digits n = decimal_from-digits (suc n) n

-- A numeral is not empty.
decimal_from-cons : (fuel n : ℕ) → (c : ℕ) × (s : Str) × (decimal_from (suc fuel) n ≡ c ∷ s)
unfolding decimal_from
decimal_from-cons zero n = elim (Bool-cases (ltb n 10)) [
  | inl e ↦ (48 + n, [], rw e)
  | inr e ↦ (48 + n % 10, [], rw e)
]
decimal_from-cons (suc fuel) n = elim (Bool-cases (ltb n 10)) [
  | inl e ↦ (48 + n, [], rw e)
  | inr e ↦
      let (c, s, q) = decimal_from-cons fuel (n / 10) in
      (c, s ++ (48 + n % 10) ∷ [], rw e (ap (λ t. t ++ (48 + n % 10) ∷ []) q))
]

pub decimal-cons : (n : ℕ) → (c : ℕ) × (s : Str) × (decimal n ≡ c ∷ s)
unfolding decimal
decimal-cons n = decimal_from-cons n n
