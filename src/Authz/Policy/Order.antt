-- ===== src/Authz/Policy/Order.antt =====
-- The decision of authz/policy.py does not depend on the order in which the database returns the
-- authorizations.
use mathlib.Core.List.Permᴰ
use tacacs_web.Prelude.{
  ℕ, ◌≡◌, refl, sym, ap, Bool, true, false, Option, none, some, List, Memᴰ, Permᴰ, arith, Mem-perm,
  filter, sort_by,
}
use tacacs_web.Models.{User, AdGroup, Authorization, is_direct}
use tacacs_web.Authz.Policy.{is_candidate, before, pool_of, after_sort, pick, evaluate_for_user}
use tacacs_web.Authz.Policy.Winner.{Beats, IsWinner, evaluate-IsWinner, evaluate-eq-none_iff, level}

-- Two lists that hold the same authorizations, of distinct ids.
pub record SameRows (xs ys : List Authorization) : Type 0 where
  pub perm : Permᴰ xs ys
  pub distinct : (a b : Authorization) → Memᴰ a xs → Memᴰ b xs → a.id ≡ b.id → a ≡ b

eq_of_imp : (a b : Bool) → (a ≡ true → b ≡ true) → (b ≡ true → a ≡ true) → a ≡ b
eq_of_imp true b f g = sym (f refl)
eq_of_imp false true f g = g refl
eq_of_imp false false f g = refl

Beats-antisym : (a b : Authorization) → Beats a b → Beats b a → a.id ≡ b.id
Beats-antisym a b p q =
    let same = eq_of_imp (is_direct a) (is_direct b) q.direct p.direct in
    let l1 = p.level_le same in
    let l2 = q.level_le (sym same) in
    let eq : level a ≡ level b = omega arith in
    let i1 = p.id_le same (sym eq) in let i2 = q.id_le (sym same) eq in omega arith

module _ (user : User) (groups : List AdGroup) (dg : ℕ) (xs ys : List Authorization) where
  winner_unique :
      (a b : Authorization)
      → SameRows xs ys
      → IsWinner user groups dg xs a
      → IsWinner user groups dg ys b
      → a ≡ b
  winner_unique a b same wa wb =
      let back = Permᴰ.symm same.perm in
      let mb = Mem-perm b back wb.listed in
      same.distinct a b wa.listed mb (
        Beats-antisym a b (wa.beats b mb wb.applies)
          (wb.beats a (Mem-perm a same.perm wa.listed) wa.applies))

  -- On two lists of the same authorizations, whose ids are distinct, the winner is the same.
  pub evaluate-perm :
      SameRows xs ys
      → (evaluate_for_user user groups dg xs).winning
        ≡ (evaluate_for_user user groups dg ys).winning
  evaluate-perm same =
      go (evaluate_for_user user groups dg xs).winning (evaluate_for_user user groups dg ys).winning
        refl refl
    where
      go :
          (o p : Option Authorization)
          → (evaluate_for_user user groups dg xs).winning ≡ o
          → (evaluate_for_user user groups dg ys).winning ≡ p
          → o ≡ p
      go none none e f = refl
      go (some a) (some b) e f = ap some (
          winner_unique a b same (evaluate-IsWinner user groups dg xs a e)
            (evaluate-IsWinner user groups dg ys b f))
      go none (some b) e f =
          let w = evaluate-IsWinner user groups dg ys b f in
          absurd (
            (evaluate-eq-none_iff user groups dg xs).0 e b
              (Mem-perm b (Permᴰ.symm same.perm) w.listed) w.applies)
      go (some a) none e f =
          let w = evaluate-IsWinner user groups dg xs a e in
          absurd (
            (evaluate-eq-none_iff user groups dg ys).0 f a (Mem-perm a same.perm w.listed)
              w.applies)

-- The outcome depends on the candidates alone.
pub evaluate-candidates :
    (user : User) (groups : List AdGroup) (dg : ℕ) (xs ys : List Authorization)
    → filter (is_candidate user groups dg) xs ≡ filter (is_candidate user groups dg) ys
    → evaluate_for_user user groups dg xs ≡ evaluate_for_user user groups dg ys
unfolding evaluate_for_user
evaluate-candidates user groups dg xs ys h =
    ap
      (λ candidates.
        let direct = filter is_direct candidates in
        let pool = sort_by before (pool_of direct candidates) in
        pick pool (after_sort direct candidates pool))
      h
