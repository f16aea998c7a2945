-- ===== src/Api/Profiles/Keeps.antt =====
-- The privilege-profile handlers keep the tables well formed.
use tacacs_web.Prelude.{
  ℕ, ◌≤◌, ◌≡◌, refl, sym, ◌∙◌, subst, Bool, true, false, Option, none, some, List, [], ◌∷◌, Memᴰ,
  Str, str_eq, str_eq_iff, ◌==◌, ==_iff, arith, if◌then◌else◌, any-Mem,
}
use tacacs_web.Models.{PrivilegeProfile, AuthorizationRow}
use tacacs_web.Result.{
  ok, Ensures, Ensures-ok, Ensures->>=, >>=-eq-ok, ok_inj, guard-eq-ok, or_raise-eq-ok,
  on_conflict-eq-ok,
}
use tacacs_web.Db.{Db}
use tacacs_web.Auth.Sessions.{SessionContext}
use tacacs_web.Api.Tables.{
  get_row, get_row-eq-some, not-eq-true, Mem-delete_row, clashes_with-eq-false, HasRow-append,
  HasRow-put_row, HasRow-delete_row, Unique-append, Unique-put_row, Unique-delete_row, Fresh-append,
  Fresh-put_row, Fresh-delete_row, Fresh-ne, Mem-append_new, Mem-put_row_new,
}
use tacacs_web.Api.Profiles.{
  profile_id, ProfileCreate, ProfileUpdate, valid_profile_create, valid_profile_update,
  same_profile_name, insert_profile, update_profile, profile_not_found, ProfileChanged,
  change_profile_name, change_priv_lvl, change_permit, change_deny, change_av_pairs,
  change_profile_description, changed_profile, new_profile, drop_profile, create_privilege_profile,
  update_privilege_profile, delete_privilege_profile,
}
use tacacs_web.Api.WellFormed.{WellFormed, Commits, append_crud-WellFormed}

abbrev InRange : PrivilegeProfile → Type 0
InRange p = p.tacacs_priv_lvl ≤ 15

same_name : (a b : PrivilegeProfile) → a.name ≡ b.name → same_profile_name a b ≡ true
same_name a b = (str_eq_iff a.name b.name).1

insert_profile-WellFormed :
    (row : PrivilegeProfile) (db db' : Db)
    → insert_profile row db ≡ ok db'
    → row.id ≡ db.next_profile_id
    → InRange row
    → WellFormed db
    → WellFormed db'
unfolding insert_profile
insert_profile-WellFormed row db db' h id low
      (ds, gs, (fresh, unique, levels), (afresh, edges, refs)) =
    let (u, e, f) = >>=-eq-ok _ _ db' h in
    let free =
      clashes_with-eq-false profile_id same_profile_name row db.profiles
        (not-eq-true _ (guard-eq-ok _ _ u e)) in
    let ne = Fresh-ne profile_id db.profiles row db.next_profile_id id fresh in
    let kept = HasRow-append profile_id db.profiles (row ∷ []) in
    subst WellFormed (ok_inj f) (
      ds,
      gs,
      (
        Fresh-append profile_id db.profiles row db.next_profile_id id fresh,
        Unique-append profile_id (λ a b. a.name ≡ b.name) db.profiles row (λ a b q. sym q)
            (λ a m q. free a m (ne a m) (same_name a row q)) unique,
        Mem-append_new profile_id InRange db.profiles row levels low,
      ),
      (afresh, edges, λ a m. let (p, g, l) = refs a m in (p, g, kept a.privilege_profile_id l)),
    )

update_profile-WellFormed :
    (old row : PrivilegeProfile) (db db' : Db)
    → update_profile row db ≡ ok db'
    → Memᴰ old db.profiles
    → row.id ≡ old.id
    → InRange row
    → WellFormed db
    → WellFormed db'
unfolding update_profile
update_profile-WellFormed old row db db' h m same low
      (ds, gs, (fresh, unique, levels), (afresh, edges, refs)) =
    let (u, e, f) = >>=-eq-ok _ _ db' h in
    let free =
      clashes_with-eq-false profile_id same_profile_name row db.profiles
        (not-eq-true _ (guard-eq-ok _ _ u e)) in
    let lt = fresh old m in
    let kept = HasRow-put_row profile_id row db.profiles in
    subst WellFormed (ok_inj f) (
      ds,
      gs,
      (
        Fresh-put_row profile_id db.profiles row db.next_profile_id (omega (arith, lt, same)) fresh,
        Unique-put_row profile_id (λ a b. a.name ≡ b.name) db.profiles row (λ a b q. sym q)
            (λ a k n q. free a k n (same_name a row q)) unique,
        Mem-put_row_new profile_id InRange db.profiles row levels low,
      ),
      (afresh, edges, λ a k. let (p, g, l) = refs a k in (p, g, kept a.privilege_profile_id l)),
    )

drop_profile-WellFormed :
    (id : ℕ) (db db' : Db) → drop_profile id db ≡ ok db' → WellFormed db → WellFormed db'
unfolding drop_profile
drop_profile-WellFormed id db db' h (ds, gs, (fresh, unique, levels), (afresh, edges, refs)) =
    let (u, e, f) = >>=-eq-ok _ _ db' h in
    let unused = not-eq-true _ (guard-eq-ok _ _ u e) in
    let used = any-Mem (λ (a : AuthorizationRow). a.privilege_profile_id == id) in
    subst WellFormed (ok_inj f) (
      ds,
      gs,
      (
        Fresh-delete_row profile_id id db.profiles db.next_profile_id fresh,
        Unique-delete_row profile_id (λ a b. a.name ≡ b.name) id db.profiles unique,
        λ p m. levels p (Mem-delete_row profile_id id p db.profiles m).0,
      ),
      (
        afresh,
        edges,
        λ a m.
            let (p, g, l) = refs a m in
            (
              p,
              g,
              HasRow-delete_row profile_id id a.privilege_profile_id db.profiles l (λ q. absurd (
                  cc
                    (used a db.authorizations m ((==_iff a.privilege_profile_id id).1 q), unused))),
            ),
      ),
    )

get_profile-Mem :
    (id : ℕ) (db : Db) (row : PrivilegeProfile)
    → profile_not_found (get_row profile_id id db.profiles) ≡ ok row
    → Memᴰ row db.profiles
unfolding profile_not_found
get_profile-Mem id db row h =
    (get_row-eq-some profile_id id db.profiles row (or_raise-eq-ok _ _ row h)).0

valid_create-level : (p : ProfileCreate) → valid_profile_create p ≡ true → p.tacacs_priv_lvl ≤ 15
unfolding valid_profile_create
valid_create-level p h = ground arith

-- The change keeps the id and a level that is in range.
abbrev Kept : ProfileChanged → ProfileChanged → Type 0
Kept c d = (d.0.id ≡ c.0.id) × (InRange c.0 → InRange d.0)

Kept-if : (b : Bool) (c d : ProfileChanged) → (b ≡ false → Kept c d) → Kept c (if b then c else d)
Kept-if true c d h = (refl, λ l. l)
Kept-if false c d h = h refl

Kept-priv_lvl :
    (p : ProfileUpdate) (c : ProfileChanged)
    → valid_profile_update p ≡ true
    → Kept c (change_priv_lvl p.tacacs_priv_lvl c)
unfolding change_priv_lvl valid_profile_update
Kept-priv_lvl p (row, changed) valid = split p.tacacs_priv_lvl refl
  where
    split :
        (o : Option ℕ)
        → p.tacacs_priv_lvl ≡ o
        → Kept (row, changed) (change_priv_lvl o (row, changed))
    split none e = (refl, λ l. l)
    split (some lvl) e =
        let low = rw e at valid in
        Kept-if (lvl == row.tacacs_priv_lvl) (row, changed) _
          (λ n. (refl, λ l. ground (arith, low)))

Kept-permit : (o : Option (List Str)) (c : ProfileChanged) → Kept c (change_permit o c)
unfolding change_permit
Kept-permit none c = (refl, λ l. l)
Kept-permit (some x) (row, changed) = (refl, λ l. l)

Kept-deny : (o : Option (List Str)) (c : ProfileChanged) → Kept c (change_deny o c)
unfolding change_deny
Kept-deny none c = (refl, λ l. l)
Kept-deny (some x) (row, changed) = (refl, λ l. l)

Kept-av_pairs : (o : Option (List (Str × Str))) (c : ProfileChanged) → Kept c (change_av_pairs o c)
unfolding change_av_pairs
Kept-av_pairs none c = (refl, λ l. l)
Kept-av_pairs (some x) (row, changed) = (refl, λ l. l)

Kept-description : (o : Option Str) (c : ProfileChanged) → Kept c (change_profile_description o c)
unfolding change_profile_description
Kept-description none c = (refl, λ l. l)
Kept-description (some x) (row, changed) = (refl, λ l. l)

module _ (repr : Str → Str) (now : ℕ) (ctx : SessionContext) where
  Kept-name : (o : Option Str) (c : ProfileChanged) → Kept c (change_profile_name repr now ctx o c)
  unfolding change_profile_name
  Kept-name none c = (refl, λ l. l)
  Kept-name (some name) (row, changed) =
      Kept-if (str_eq name row.name) (row, changed) _ (λ n. (refl, λ l. l))

  changed_profile-Kept :
      (p : ProfileUpdate) (old : PrivilegeProfile)
      → valid_profile_update p ≡ true
      → Kept (old, []) (changed_profile repr now ctx p old)
  unfolding changed_profile
  changed_profile-Kept p old valid =
      let c1 = change_profile_name repr now ctx p.name (old, []) in
      let c2 = change_priv_lvl p.tacacs_priv_lvl c1 in
      let c3 = change_permit p.permit_commands_regex c2 in
      let c4 = change_deny p.deny_commands_regex c3 in
      let c5 = change_av_pairs p.extra_av_pairs c4 in
      let k1 = Kept-name p.name (old, []) in
      let k2 = Kept-priv_lvl p c1 valid in
      let k3 = Kept-permit p.permit_commands_regex c2 in
      let k4 = Kept-deny p.deny_commands_regex c3 in
      let k5 = Kept-av_pairs p.extra_av_pairs c4 in
      let k6 = Kept-description p.description c5 in
      (k6.0 ∙ k5.0 ∙ k4.0 ∙ k3.0 ∙ k2.0 ∙ k1.0, λ h. k6.1 (k5.1 (k4.1 (k3.1 (k2.1 (k1.1 h))))))

  pub create_privilege_profile-WellFormed :
      (p : ProfileCreate) (db : Db)
      → WellFormed db
      → Ensures (Commits WellFormed) (create_privilege_profile repr now ctx p db)
  unfolding create_privilege_profile new_profile
  create_privilege_profile-WellFormed p db w = Ensures->>= _ _ λ u valid.
      Ensures->>= _ _ λ db1 inserted. Ensures->>= _ _ λ db2 audited.
        let low = valid_create-level p (guard-eq-ok _ _ u valid) in
        let w1 =
          insert_profile-WellFormed (new_profile now p db) db db1
            (on_conflict-eq-ok _ _ db1 inserted) refl low w in
        Ensures-ok (Commits WellFormed) _
          (append_crud-WellFormed now ctx _ _ _ _ db1 db2 audited w1)

  pub update_privilege_profile-WellFormed :
      (id : ℕ) (p : ProfileUpdate) (db : Db)
      → WellFormed db
      → Ensures (Commits WellFormed) (update_privilege_profile repr now ctx id p db)
  unfolding update_privilege_profile
  update_privilege_profile-WellFormed id p db w = Ensures->>= _ _ λ u valid.
      Ensures->>= _ _ λ old found. Ensures->>= _ _ λ db1 updated. Ensures->>= _ _ λ db2 audited.
        let m = get_profile-Mem id db old found in
        let (same, low) = changed_profile-Kept p old (guard-eq-ok _ _ u valid) in
        let w1 =
          update_profile-WellFormed old (changed_profile repr now ctx p old).0 db db1
            (on_conflict-eq-ok _ _ db1 updated) m same (low (w.2.2 old m)) w in
        Ensures-ok (Commits WellFormed) _
          (append_crud-WellFormed now ctx _ _ _ _ db1 db2 audited w1)

  pub delete_privilege_profile-WellFormed :
      (id : ℕ) (db : Db)
      → WellFormed db
      → Ensures (Commits WellFormed) (delete_privilege_profile repr now ctx id db)
  unfolding delete_privilege_profile
  delete_privilege_profile-WellFormed id db w = Ensures->>= _ _ λ row found.
      Ensures->>= _ _ λ db1 audited. Ensures->>= _ _ λ db2 dropped.
        let w1 = append_crud-WellFormed now ctx _ _ _ _ db db1 audited w in
        Ensures-ok (Commits WellFormed) _
          (drop_profile-WellFormed id db1 db2 (on_conflict-eq-ok _ _ db2 dropped) w1)
