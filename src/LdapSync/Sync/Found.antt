-- ===== src/LdapSync/Sync/Found.antt =====
-- Which row `_find_existing_user` takes for a directory user.
use mathlib.Core.List.Permᴰ
use tacacs_web.Prelude.{
  ℕ, ◌≡◌, refl, sym, ap, subst, ◌∙◌, ◌⊎◌, inl, inr, Bool, true, false, Option, none, some, List, [],
  ◌∷◌, Str, str_eq, leb, find?, Mem-filter, filter-Mem, filter-eq-nil, find?-eq-some, find?-eq-none,
  sort_by-perm, sort_by-IsSortedBy, IsSortedBy, Mem-perm, Memᴰ, arith,
}
use tacacs_web.Models.{User}
use tacacs_web.Result.{Result, ok, err, ok_inj}
use tacacs_web.Db.{Db, scalar_one_or_none, scalar-some}
use tacacs_web.Mavis.Rpc.{Casing}
use tacacs_web.LdapSync.Records.{AdUserRecord}
use tacacs_web.LdapSync.Sync.{
  has_guid, truthy, by_guid, candidates, first, exact_or_first, by_name, or_by_name,
  find_existing_user,
}

scalar-none {ℓ} : {A : Type ℓ} (xs : List A) → scalar_one_or_none xs ≡ ok none → xs ≡ []
unfolding scalar_one_or_none
scalar-none [] h = refl
scalar-none (x ∷ []) h = absurd (cc h)
scalar-none (x ∷ y ∷ xs) h = absurd (cc h)

abbrev pub SameName : Casing → Str → User → Type 0
SameName casing name u = str_eq (casing.sql_lower u.sam_account_name) (casing.lower name) ≡ true

abbrev pub HasGuid : Option Str → User → Type 0
HasGuid guid u = (g : Str) × (guid ≡ some g) × (has_guid g u ≡ true)

abbrev pub ExactName : Str → User → Type 0
ExactName name u = str_eq u.sam_account_name name ≡ true

-- The row has the name in any case. It has the exact name, or no such row has it and the row is the
-- oldest of them.
abbrev pub IsNamed : Casing → Str → Db → User → Type 0
IsNamed casing name db u =
    SameName casing name u
    × (ExactName name u
        ⊎ ((v : User)
            → Memᴰ v db.users
            → SameName casing name v
            → (str_eq v.sam_account_name name ≡ false) × (leb u.id v.id ≡ true)))

abbrev by_id : User → User → Bool
by_id a b = leb a.id b.id

Mem-candidates :
    (casing : Casing) (name : Str) (db : Db) (v : User)
    → Memᴰ v (candidates casing name db)
    → Memᴰ v db.users × SameName casing name v
unfolding candidates
Mem-candidates casing name db v m = Mem-filter _ v db.users (Mem-perm v (sort_by-perm by_id _) m)

candidates-Mem :
    (casing : Casing) (name : Str) (db : Db) (v : User)
    → Memᴰ v db.users
    → SameName casing name v
    → Memᴰ v (candidates casing name db)
unfolding candidates
candidates-Mem casing name db v m s =
    Mem-perm v (Permᴰ.symm (sort_by-perm by_id _)) (filter-Mem _ v db.users m s)

candidates-IsSortedBy :
    (casing : Casing) (name : Str) (db : Db) → IsSortedBy by_id (candidates casing name db)
unfolding candidates
candidates-IsSortedBy casing name db =
    sort_by-IsSortedBy by_id (λ a b. total a.id b.id) (λ a b c. trans a.id b.id c.id) _
  where
    total : (a b : ℕ) → (leb a b ≡ true) ⊎ (leb b a ≡ true)
    total a b = ground arith

    trans : (a b c : ℕ) → leb a b ≡ true → leb b c ≡ true → leb a c ≡ true
    trans a b c h k = ground arith

by_name-some :
    (casing : Casing) (name : Str) (db : Db) (u : User)
    → by_name casing name db ≡ some u
    → Memᴰ u db.users × IsNamed casing name db u
unfolding by_name exact_or_first
by_name-some casing name db u h = found (find? exact (candidates casing name db)) refl h
  where
    exact : User → Bool
    exact v = str_eq v.sam_account_name name

    below :
        (w : User) (us : List User)
        → w ≡ u
        → candidates casing name db ≡ w ∷ us
        → (v : User) → Memᴰ v (w ∷ us)
        → leb u.id v.id ≡ true
    below w us q e v (Memᴰ.head k) =
        let same = ap (λ (x : User). x.id) (k ∙ q) in ground (arith, same)
    below w us q e v (Memᴰ.tail m) =
        ap (λ (x : User). leb x.id v.id) (sym q)
        ∙ (subst (IsSortedBy by_id) e (candidates-IsSortedBy casing name db)).0 v m

    oldest :
        (us : List User)
        → candidates casing name db ≡ us
        → first us ≡ some u
        → find? exact (candidates casing name db) ≡ none
        → Memᴰ u db.users × IsNamed casing name db u
    oldest [] e f n = absurd (cc f)
    oldest (w ∷ us) e f n =
        let q : w ≡ u = cc f in
        let (m, same) =
          Mem-candidates casing name db u (subst (λ l. Memᴰ u l) (sym e) (Memᴰ.head (sym q))) in
        (
          m,
          (
            same,
            inr (λ v mv sv. (
              find?-eq-none exact _ n v (candidates-Mem casing name db v mv sv),
              below w us q e v (subst (λ l. Memᴰ v l) e (candidates-Mem casing name db v mv sv)),
            )),
          ),
        )

    found :
        (o : Option User)
        → find? exact (candidates casing name db) ≡ o
        → exact_or_first (candidates casing name db) o ≡ some u
        → Memᴰ u db.users × IsNamed casing name db u
    found (some v) e f =
        let q : v ≡ u = cc f in
        let (m, x) = find?-eq-some exact u _ (e ∙ ap some q) in
        let (m', same) = Mem-candidates casing name db u m in (m', (same, inl x))
    found none e f = oldest (candidates casing name db) refl f e

by_guid-some :
    (guid : Option Str) (db : Db) (u : User)
    → by_guid guid db ≡ ok (some u)
    → Memᴰ u db.users × HasGuid guid u
unfolding by_guid
by_guid-some none db u h = absurd (cc h)
by_guid-some (some g) db u h =
    let (m, e) = Mem-filter (has_guid g) u db.users (scalar-some _ u h) in (m, (g, refl, e))

by_guid-none :
    (guid : Option Str) (db : Db)
    → by_guid guid db ≡ ok none
    → (v : User) → Memᴰ v db.users
    → HasGuid guid v
    → ⊥
unfolding by_guid
by_guid-none none db h v m (g, e, k) = cc e
by_guid-none (some g) db h v m (g', e, k) =
    let f = filter-eq-nil (has_guid g) db.users (scalar-none _ h) v m in
    let q : g ≡ g' = cc e in absurd (cc (ap (λ x. has_guid x v) q, f, k))

by_name-none :
    (casing : Casing) (name : Str) (db : Db)
    → by_name casing name db ≡ none
    → (v : User) → Memᴰ v db.users
    → SameName casing name v
    → ⊥
unfolding by_name exact_or_first
by_name-none casing name db h v m s = found (find? _ (candidates casing name db)) h
  where
    empty : (us : List User) → candidates casing name db ≡ us → first us ≡ none → ⊥
    empty [] e f = elim (subst (λ l. Memᴰ v l) e (candidates-Mem casing name db v m s)) [ ]
    empty (w ∷ us) e f = cc f

    found : (o : Option User) → exact_or_first (candidates casing name db) o ≡ none → ⊥
    found (some w) e = cc e
    found none e = empty (candidates casing name db) refl e

-- The row that a directory user is matched with is a row of the table. If the record has a GUID and a
-- row has it, the match is a row with that GUID, whatever its name. Otherwise its name is the
-- record's in any case: the exact name if there is one, else the oldest row.
pub find_existing_user-some :
    (casing : Casing) (r : AdUserRecord) (db : Db) (u : User)
    → find_existing_user casing r db ≡ ok (some u)
    → Memᴰ u db.users
      × (HasGuid (truthy r.ad_object_guid) u
          ⊎ (((v : User) → Memᴰ v db.users → HasGuid (truthy r.ad_object_guid) v → ⊥)
              × IsNamed casing r.sam_account_name db u))
unfolding find_existing_user or_by_name
find_existing_user-some casing r db u h = split (by_guid (truthy r.ad_object_guid) db) refl h
  where
    some_inj : {a b : User} → ok (some a) ≡ ok (some b) → a ≡ b
    some_inj q = cc q

    split :
        (q : Result (Option User))
        → by_guid (truthy r.ad_object_guid) db ≡ q
        → or_by_name casing r.sam_account_name db q ≡ ok (some u)
        → Memᴰ u db.users
          × (HasGuid (truthy r.ad_object_guid) u
              ⊎ (((v : User) → Memᴰ v db.users → HasGuid (truthy r.ad_object_guid) v → ⊥)
                  × IsNamed casing r.sam_account_name db u))
    split (err x) e f = absurd (cc f)
    split (ok (some v)) e f =
        let (m, g) = by_guid-some _ db u (e ∙ ap (λ x. ok (some x)) (some_inj f)) in (m, inl g)
    split (ok none) e f =
        let (m, named) = by_name-some casing _ db u (ok_inj f) in
        (m, inr (by_guid-none _ db e, named))

-- A directory user is new only if no row has its GUID and no row has its name in any case.
pub find_existing_user-none :
    (casing : Casing) (r : AdUserRecord) (db : Db)
    → find_existing_user casing r db ≡ ok none
    → (v : User) → Memᴰ v db.users
    → (HasGuid (truthy r.ad_object_guid) v → ⊥) × (SameName casing r.sam_account_name v → ⊥)
unfolding find_existing_user or_by_name
find_existing_user-none casing r db h v m = split (by_guid (truthy r.ad_object_guid) db) refl h
  where
    split :
        (q : Result (Option User))
        → by_guid (truthy r.ad_object_guid) db ≡ q
        → or_by_name casing r.sam_account_name db q ≡ ok none
        → (HasGuid (truthy r.ad_object_guid) v → ⊥) × (SameName casing r.sam_account_name v → ⊥)
    split (err x) e f = absurd (cc f)
    split (ok (some w)) e f = absurd (cc f)
    split (ok none) e f = (by_guid-none _ db e v m, by_name-none casing _ db (ok_inj f) v m)
