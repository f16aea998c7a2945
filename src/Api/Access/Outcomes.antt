-- ===== src/Api/Access/Outcomes.antt =====
-- The dictionary of a view and the authorizations of a device group have the same outcomes.
use tacacs_web.Prelude.{
  ℕ, ◌≡◌, refl, sym, ap, ◌∙◌, subst, Bool, true, false, &&-eq-true, Option, none, some, List, [],
  ◌∷◌, map, Memᴰ, ◌==◌, ==_iff, find?, filter, filter-Mem, Mem-filter, if◌then◌else◌,
}
use tacacs_web.Models.{User, AdGroup, Authorization, AuthorizationRow, PrivilegeProfile}
use tacacs_web.Db.{Db}
use tacacs_web.Authz.Policy.{EffectiveAuthorization, is_candidate, evaluate_for_user}
use tacacs_web.Authz.Policy.Candidates.{is_candidate_complete}
use tacacs_web.Authz.Policy.Order.{evaluate-candidates}
use tacacs_web.Authz.Policy.Winner.{evaluate-IsWinner}
use tacacs_web.Mavis.Rpc.{groups_of, load_authorizations, authorizations_on}
use tacacs_web.Api.Access.{is_of_user, candidates_of}
use tacacs_web.Api.Access.Grouping.{on_group}

-- A selection from a selection.
filter-filter :
    (p q : Authorization → Bool) (xs : List Authorization)
    → ((a : Authorization) → p a ≡ true → q a ≡ true)
    → filter p (filter q xs) ≡ filter p xs
unfolding filter
filter-filter p q [] h = refl
filter-filter p q (x ∷ xs) h = split (q x) refl (filter-filter p q xs h)
  where
    split :
        (b : Bool)
        → q x ≡ b
        → filter p (filter q xs) ≡ filter p xs
        → filter p (if b then x ∷ filter q xs else filter q xs) ≡ filter p (x ∷ xs)
    split true e ih = ap (λ t. if p x then x ∷ t else t) ih
    split false e ih = drop (p x) refl
      where
        drop :
            (b : Bool)
            → p x ≡ b
            → filter p (filter q xs) ≡ (if p x then x ∷ filter p xs else filter p xs)
        drop true u = absurd (cc (h x u, e))
        drop false u = ih ∙ rw u refl

-- A selection of rows is a selection of the loaded objects.
load-filter :
    (profiles : List PrivilegeProfile) (p : AuthorizationRow → Bool) (rows : List AuthorizationRow)
    → load_authorizations profiles (filter p rows)
      ≡ filter (λ (a : Authorization). p a.row) (load_authorizations profiles rows)
unfolding load_authorizations filter
load-filter profiles p [] = refl
load-filter profiles p (row ∷ rows) =
    split (p row) refl (find? (λ (q : PrivilegeProfile). q.id == row.privilege_profile_id) profiles)
      refl (load-filter profiles p rows)
  where
    split :
        (b : Bool)
        → p row ≡ b
        → (o : Option PrivilegeProfile)
        → find? (λ (q : PrivilegeProfile). q.id == row.privilege_profile_id) profiles ≡ o
        → load_authorizations profiles (filter p rows)
          ≡ filter (λ (a : Authorization). p a.row) (load_authorizations profiles rows)
        → load_authorizations profiles (if b then row ∷ filter p rows else filter p rows)
          ≡ filter (λ (a : Authorization). p a.row) (load_authorizations profiles (row ∷ rows))
    split true e none q ih = rw q ih
    split true e (some found) q ih =
        rw (q, e) (ap (λ l. record { row = row; privilege_profile = found } ∷ l) ih)
    split false e none q ih = rw q ih
    split false e (some found) q ih = rw (q, e) ih

module _ (db : Db) (user : User) where
  abbrev loaded : List Authorization
  loaded = load_authorizations db.profiles db.authorizations

  mine : Authorization → Bool
  unfolding is_of_user
  mine a = is_of_user user.id (map (λ (g : AdGroup). g.id) (groups_of db user)) a.row

  mine-Candidate :
      (dg : ℕ) (a : Authorization)
      → is_candidate user (groups_of db user) dg a ≡ true
      → ((a.device_group_id == dg) ≡ true) × (mine a ≡ true)
  unfolding is_candidate mine is_of_user
  mine-Candidate dg a h = &&-eq-true _ _ h

  candidates_of-eq : candidates_of db user ≡ filter mine loaded
  unfolding candidates_of mine
  candidates_of-eq = load-filter db.profiles _ db.authorizations

  authorizations_on-eq : (dg : ℕ) → authorizations_on db dg ≡ on_group dg loaded
  unfolding authorizations_on
  authorizations_on-eq dg = load-filter db.profiles _ db.authorizations

  abbrev pub outcome_on : ℕ → EffectiveAuthorization
  outcome_on dg = evaluate_for_user user (groups_of db user) dg (authorizations_on db dg)

  -- The group of the view decides as the authorizations of the device group do.
  pub outcome-eq :
      (dg : ℕ)
      → evaluate_for_user user (groups_of db user) dg (on_group dg (candidates_of db user))
        ≡ outcome_on dg
  outcome-eq dg =
      let p = is_candidate user (groups_of db user) dg in
      evaluate-candidates user (groups_of db user) dg _ _ (
        filter-filter p _ (candidates_of db user) (λ a h. (mine-Candidate dg a h).0)
        ∙ ap (filter p) candidates_of-eq
        ∙ filter-filter p mine loaded (λ a h. (mine-Candidate dg a h).1)
        ∙ sym (filter-filter p _ loaded (λ a h. (mine-Candidate dg a h).0))
        ∙ ap (filter p) (sym (authorizations_on-eq dg)))

  pub winner-Mem :
      (dg : ℕ) (w : Authorization)
      → (outcome_on dg).winning ≡ some w
      → Memᴰ w (candidates_of db user) × (w.device_group_id ≡ dg)
  winner-Mem dg w h =
      let win = evaluate-IsWinner user (groups_of db user) dg (authorizations_on db dg) w h in
      let (on, own) =
        mine-Candidate dg w (is_candidate_complete user (groups_of db user) dg w win.applies) in
      let (m, _) =
        Mem-filter _ w loaded (subst (λ l. Memᴰ w l) (authorizations_on-eq dg) win.listed) in
      (
        subst (λ l. Memᴰ w l) (sym candidates_of-eq) (filter-Mem mine w loaded m own),
        (==_iff w.device_group_id dg).0 on,
      )
