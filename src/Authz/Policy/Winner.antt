-- ===== src/Authz/Policy/Winner.antt =====
-- The winning authorization: highest privilege level, lowest id, a personal authorization before
-- any of a group.
use mathlib.Core.List.Memᴰ
use mathlib.Core.List.Permᴰ
use tacacs_web.Prelude.{
  ℕ, ◌≤◌, ◌≡◌, ◌≢◌, refl, sym, ap, subst, ◌∙◌, ◌↔◌, ◌⊎◌, inl, inr, true, not, none, some, List, [],
  ◌∷◌, Memᴰ, Permᴰ, arith, ◌==◌, filter, Mem-filter, filter-Mem, filter-eq-nil, sort_by,
  sort_by-perm, sort_by-IsSortedBy, IsSortedBy, Mem-perm,
}
use tacacs_web.Models.{User, AdGroup, Authorization, is_direct}
use tacacs_web.Authz.Policy.{is_candidate, before, pool_of, after_sort, pick, evaluate_for_user}
use tacacs_web.Authz.Policy.Candidates.{IsCandidate, is_candidate_sound, is_candidate_complete}

abbrev pub level : Authorization → ℕ
level a = a.privilege_profile.tacacs_priv_lvl

-- `w` is at least as good as `c`: a personal authorization is met only by a personal one, and among
-- equals in that the level decides, then the id.
pub record Beats (w c : Authorization) : Type 0 where
  pub direct : is_direct c ≡ true → is_direct w ≡ true
  pub level_le : is_direct w ≡ is_direct c → level c ≤ level w
  pub id_le : is_direct w ≡ is_direct c → level c ≡ level w → w.id ≤ c.id

before_total : (a b : Authorization) → (before a b ≡ true) ⊎ (before b a ≡ true)
unfolding before
before_total a b = ground arith

before_trans : (a b c : Authorization) → before a b ≡ true → before b c ≡ true → before a c ≡ true
unfolding before
before_trans a b c h k = ground arith

before_order :
    (a b : Authorization)
    → before a b ≡ true
    → (level b ≤ level a) × (level b ≡ level a → a.id ≤ b.id)
unfolding before
before_order a b h = (ground arith, λ e. ground arith)

before-head :
    (w : Authorization) (rest pool : List Authorization)
    → sort_by before pool ≡ w ∷ rest
    → Memᴰ w pool × ((c : Authorization) → Memᴰ c pool → before w c ≡ true)
before-head w rest pool e =
    (Mem-perm w p (Memᴰ.head refl), λ c m. go c (Mem-perm c (Permᴰ.symm p) m))
  where
    p : Permᴰ (w ∷ rest) pool
    p = subst (λ l. Permᴰ l pool) e (sort_by-perm before pool)

    sorted : IsSortedBy before (w ∷ rest)
    sorted = subst (IsSortedBy before) e (sort_by-IsSortedBy before before_total before_trans pool)

    go : (c : Authorization) → Memᴰ c (w ∷ rest) → before w c ≡ true
    go c (Memᴰ.head h) = ap (before w) h ∙ self (before_total w w)
      where
        self : (before w w ≡ true) ⊎ (before w w ≡ true) → before w w ≡ true
        self (inl h) = h
        self (inr h) = h
    go c (Memᴰ.tail m) = sorted.0 c m

-- In the pool are all candidates, or all the personal ones if there are any.
pool_of-Beats :
    (candidates : List Authorization) (w : Authorization) (direct : List Authorization)
    → filter is_direct candidates ≡ direct
    → Memᴰ w (pool_of direct candidates)
    → ((c : Authorization) → Memᴰ c (pool_of direct candidates) → before w c ≡ true)
    → Memᴰ w candidates × ((c : Authorization) → Memᴰ c candidates → Beats w c)
unfolding pool_of
pool_of-Beats candidates w [] e m f = (
  m,
  λ c mc. record {
    direct = λ h. cc (h, filter-eq-nil is_direct candidates e c mc);
    level_le = λ _. (before_order w c (f c mc)).0;
    id_le = λ _. (before_order w c (f c mc)).1;
  },
)
pool_of-Beats candidates w (d ∷ ds) e m f =
    let (mem, dir) = Mem-filter is_direct w candidates (subst (λ l. Memᴰ w l) (sym e) m) in
    (
      mem,
      λ c mc. record {
        direct = λ _. dir;
        level_le = λ h. (before_order w c (f c (among c mc (sym h ∙ dir)))).0;
        id_le = λ h. (before_order w c (f c (among c mc (sym h ∙ dir)))).1;
      },
    )
  where
    among : (c : Authorization) → Memᴰ c candidates → is_direct c ≡ true → Memᴰ c (d ∷ ds)
    among c mc h = subst (λ l. Memᴰ c l) e (filter-Mem is_direct c candidates mc h)

pool_of-nil :
    (direct candidates : List Authorization) → pool_of direct candidates ≡ [] → candidates ≡ []
unfolding pool_of
pool_of-nil [] candidates e = e
pool_of-nil (d ∷ ds) candidates e = cc

-- Sorting in place changes the order alone.
after_sort-perm :
    (candidates direct : List Authorization)
    → Permᴰ (after_sort direct candidates (sort_by before (pool_of direct candidates))) candidates
unfolding after_sort pool_of
after_sort-perm candidates [] = sort_by-perm before candidates
after_sort-perm candidates (d ∷ ds) = Permᴰ.refl candidates

ne_of : (c x w : Authorization) → x ≡ w → not (c.id == x.id) ≡ true → c.id ≢ w.id
ne_of c x w e h k = let q : x.id ≡ w.id = ap (λ a. a.id) e in ground arith

of_ne : (c x w : Authorization) → x ≡ w → c.id ≢ w.id → not (c.id == x.id) ≡ true
of_ne c x w e h = let q : x.id ≡ w.id = ap (λ a. a.id) e in ground arith

module _ (user : User) (groups : List AdGroup) (dg : ℕ) (auths : List Authorization) where
  abbrev candidates : List Authorization
  candidates = filter (is_candidate user groups dg) auths

  abbrev pool : List Authorization
  pool = pool_of (filter is_direct candidates) candidates

  -- The list `candidates` behind the sort.
  abbrev sorted_candidates : List Authorization
  sorted_candidates = after_sort (filter is_direct candidates) candidates (sort_by before pool)

  -- The best of the authorizations that apply.
  pub record IsWinner (w : Authorization) : Type 0 where
    pub listed : Memᴰ w auths
    pub applies : IsCandidate user groups dg w
    pub beats : (c : Authorization) → Memᴰ c auths → IsCandidate user groups dg c → Beats w c

  IsWinner-of_head :
      (w : Authorization) (rest : List Authorization) → sort_by before pool ≡ w ∷ rest → IsWinner w
  IsWinner-of_head w rest e =
      let (mem, top) = before-head w rest pool e in
      let (mc, beats) = pool_of-Beats candidates w (filter is_direct candidates) refl mem top in
      let (ma, ok) = Mem-filter (is_candidate user groups dg) w auths mc in
      record {
        listed = ma;
        applies = is_candidate_sound user groups dg w ok;
        beats = λ c m k. beats c (
            filter-Mem (is_candidate user groups dg) c auths m
              (is_candidate_complete user groups dg c k));
      }

  sort-nil : sort_by before pool ≡ [] → candidates ≡ []
  sort-nil e =
      pool_of-nil (filter is_direct candidates) candidates
        (nil_of_perm pool (subst (λ l. Permᴰ l pool) e (sort_by-perm before pool)))
    where
      nil_of_perm : (l : List Authorization) → Permᴰ [] l → l ≡ []
      nil_of_perm [] p = refl
      nil_of_perm (x ∷ xs) p = absurd (Memᴰ.not-nil (Mem-perm x (Permᴰ.symm p) (Memᴰ.head refl)))

  -- The authorization that wins applies to the user on the device group, and is at least as good as
  -- every other one that applies: a personal one goes before any of a group, then the higher
  -- privilege level, then the lower id.
  pub evaluate-IsWinner :
      (w : Authorization) → (evaluate_for_user user groups dg auths).winning ≡ some w → IsWinner w
  unfolding evaluate_for_user
  evaluate-IsWinner w h = go (sort_by before pool) refl h
    where
      go :
          (l : List Authorization)
          → sort_by before pool ≡ l
          → (pick l sorted_candidates).winning ≡ some w
          → IsWinner w
      go [] e k = absurd (cc k)
      go (x ∷ rest) e k = let same : x ≡ w = cc k in subst IsWinner same (IsWinner-of_head x rest e)

  -- No authorization wins exactly when none applies.
  pub evaluate-eq-none_iff :
      ((evaluate_for_user user groups dg auths).winning ≡ none)
      ↔ ((c : Authorization) → Memᴰ c auths → IsCandidate user groups dg c → ⊥)
  unfolding evaluate_for_user
  evaluate-eq-none_iff = go (sort_by before pool) refl
    where
      go :
          (l : List Authorization)
          → sort_by before pool ≡ l
          → ((pick l sorted_candidates).winning ≡ none)
            ↔ ((c : Authorization) → Memᴰ c auths → IsCandidate user groups dg c → ⊥)
      go [] e = (
        (λ _ c m k. cc (
          is_candidate_complete user groups dg c k,
          filter-eq-nil (is_candidate user groups dg) auths (sort-nil e) c m,
        )),
        λ _. refl,
      )
      go (x ∷ rest) e =
          ((λ k. cc k), λ f. let w = IsWinner-of_head x rest e in absurd (f x w.listed w.applies))

  -- Beside a winner, the overridden authorizations are exactly the others that apply.
  pub Mem-overridden_iff :
      (w c : Authorization)
      → (evaluate_for_user user groups dg auths).winning ≡ some w
      → Memᴰ c (evaluate_for_user user groups dg auths).overridden
        ↔ (Memᴰ c auths × IsCandidate user groups dg c × (c.id ≢ w.id))
  unfolding evaluate_for_user
  Mem-overridden_iff w c h = go (sort_by before pool) h
    where
      reordered : Permᴰ sorted_candidates candidates
      reordered = after_sort-perm candidates (filter is_direct candidates)

      go :
          (l : List Authorization)
          → (pick l sorted_candidates).winning ≡ some w
          → Memᴰ c (pick l sorted_candidates).overridden
            ↔ (Memᴰ c auths × IsCandidate user groups dg c × (c.id ≢ w.id))
      go [] k = absurd (cc k)
      go (x ∷ rest) k =
          let same : x ≡ w = cc k in
          (
            (λ m.
                let (ms, ne) = Mem-filter (λ a. not (a.id == x.id)) c sorted_candidates m in
                let mc = Mem-perm c reordered ms in
                let (ma, ok) = Mem-filter (is_candidate user groups dg) c auths mc in
                (ma, is_candidate_sound user groups dg c ok, ne_of c x w same ne)),
            λ (ma, k', ne).
                filter-Mem (λ a. not (a.id == x.id)) c sorted_candidates
                  (Mem-perm c (Permᴰ.symm reordered) (
                    filter-Mem (is_candidate user groups dg) c auths ma
                      (is_candidate_complete user groups dg c k')))
                  (of_ne c x w same ne),
          )
