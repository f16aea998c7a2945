-- ===== src/LdapSync/Sync/Turns.antt =====
-- What one record of the directory does to the users.
use mathlib.Core.List.Memᴰ
use mathlib.Core.List.{map-append}
use tacacs_web.Prelude.{
  ℕ, suc, ◌+◌, ◌<◌, ◌≡◌, refl, sym, ap, ◌∙◌, subst, ◌⊎◌, inl, inr, Bool, true, false, Option, none,
  some, List, [], ◌∷◌, ◌++◌, map, append-nil, ◌==◌, ==_iff, any, Memᴰ, arith, Bool-cases,
  if◌then◌else◌,
}
use tacacs_web.Models.{User}
use tacacs_web.Result.{ok, err, integrity_error, bind, bind-eq-ok, ok_inj}
use tacacs_web.Db.{Db}
use tacacs_web.Mavis.Rpc.{Casing}
use tacacs_web.LdapSync.Records.{AdUserRecord}
use tacacs_web.LdapSync.Groups.Edges.{replace_user_groups_lem}
use tacacs_web.LdapSync.Sync.Found.{find_existing_user-some}
use tacacs_web.LdapSync.Sync.{
  clashes, user_of, updated_user, put_user, insert_user, update_user, upsert_found, upsert_user,
  SyncState, sync_groups, sync_user,
}

-- The ids of the rows are below the next one.
abbrev pub FreshIds : List User → ℕ → Type 0
FreshIds users next = (u : User) → Memᴰ u users → u.id < next

abbrev pub IsCurrent : ℕ → User → Type 0
IsCurrent now u = (u.enabled ≡ true) × (u.last_seen_in_sync_at ≡ some now)

-- Each row whose id was seen is enabled and was seen by this run.
abbrev pub SeenAreCurrent : ℕ → List ℕ → List User → Type 0
SeenAreCurrent now seen users =
    (u : User) → Memᴰ u users → any (λ i. i == u.id) seen ≡ true → IsCurrent now u

-- What one record does to the table: a row is appended under the next id, or the rows of one id are
-- replaced by a row of that id. The row is current.
pub data Upsert (now : ℕ) (db : Db) : ℕ → Db → Type 0 where
  inserted :
      (new : User) (db' : Db)
      → new.id ≡ db.next_user_id
      → IsCurrent now new
      → db'.users ≡ db.users ++ new ∷ []
      → db'.next_user_id ≡ suc db.next_user_id
      → Upsert now db new.id db'
  updated :
      (new old : User) (db' : Db)
      → Memᴰ old db.users
      → new.id ≡ old.id
      → IsCurrent now new
      → db'.users ≡ put_user new db.users
      → db'.next_user_id ≡ db.next_user_id
      → Upsert now db new.id db'

upsert_found-Upsert :
    (now : ℕ) (r : AdUserRecord) (db : Db) (found : Option User) (s : ℕ × Bool × Db)
    → ((u : User) → found ≡ some u → Memᴰ u db.users)
    → upsert_found now r db found ≡ ok s
    → Upsert now db s.0 s.2
unfolding upsert_found insert_user update_user
upsert_found-Upsert now r db none s listed h = split (any (clashes (user_of now r db)) db.users) h
  where
    split :
        (b : Bool)
        → bind
            (if b
              then err integrity_error
              else ok (record db {
                users = db.users ++ user_of now r db ∷ [];
                next_user_id = db.next_user_id + 1;
              }))
            (λ db'. ok (db.next_user_id, true, db'))
          ≡ ok s
        → Upsert now db s.0 s.2
    split true e = absurd (cc e)
    split false e =
        subst (λ (t : ℕ × Bool × Db). Upsert now db t.0 t.2) (ok_inj e)
          (inserted (user_of now r db) _ refl (refl, refl) refl (omega arith))
upsert_found-Upsert now r db (some u) s listed h =
    split (any (clashes (updated_user now r u)) db.users) h
  where
    split :
        (b : Bool)
        → bind
            (if b
              then err integrity_error
              else ok (record db { users = put_user (updated_user now r u) db.users }))
            (λ db'. ok (u.id, false, db'))
          ≡ ok s
        → Upsert now db s.0 s.2
    split true e = absurd (cc e)
    split false e =
        subst (λ (t : ℕ × Bool × Db). Upsert now db t.0 t.2) (ok_inj e)
          (updated (updated_user now r u) u _ (listed u refl) refl (refl, refl) refl refl)

-- One turn of the loop: the write of a user, and a seen id.
abbrev pub Turn : ℕ → SyncState → SyncState → Type 0
Turn now s s' =
    (id : ℕ) × (db : Db) × Upsert now s.db id db
    × (s'.db.users ≡ db.users)
    × (s'.db.next_user_id ≡ db.next_user_id)
    × (s'.seen_user_ids ≡ id ∷ s.seen_user_ids)

pub sync_user-Turn :
    (now : ℕ) (casing : Casing) (r : AdUserRecord) (s s' : SyncState)
    → sync_user now casing r s ≡ ok s'
    → Turn now s s'
unfolding sync_user upsert_user sync_groups
sync_user-Turn now casing r s s' h =
    let (t, e, f) = bind-eq-ok _ _ s' h in
    let (found, e', f') = bind-eq-ok _ _ t e in
    let (done, g, k) = bind-eq-ok _ _ s' f in
    let ((users, next, rest), edges) =
      replace_user_groups_lem now t.0 r.groups s.groups_by_sid t.2 done g in
    let same = ok_inj k in
    (
      t.0,
      t.2,
      upsert_found-Upsert now r s.db found t
          (λ u q. (find_existing_user-some casing r s.db u (e' ∙ ap ok q)).0) f',
      ap (λ (x : SyncState). x.db.users) (sym same) ∙ users,
      ap (λ (x : SyncState). x.db.next_user_id) (sym same) ∙ next,
      ap (λ (x : SyncState). x.seen_user_ids) (sym same),
    )

abbrev pub ids : List User → List ℕ
ids users = map (λ (u : User). u.id) users

pub ids-put_user : (new : User) (users : List User) → ids (put_user new users) ≡ ids users
ids-put_user new [] = refl
ids-put_user new (u ∷ users) = elim (Bool-cases (u.id == new.id)) [
  | inl h ↦ rw h (ap2 (sym ((==_iff u.id new.id).0 h)) (ids-put_user new users))
  | inr h ↦ rw h (ap (λ l. u.id ∷ l) (ids-put_user new users))
]
  where
    ap2 : {a b : ℕ} {l m : List ℕ} → a ≡ b → l ≡ m → a ∷ l ≡ b ∷ m
    ap2 p q = cc (p, q)

-- A row behind the replacement is the new one, or an old one of another id.
pub Mem-put_user :
    (new u : User) (users : List User)
    → Memᴰ u (put_user new users)
    → (u ≡ new) ⊎ (Memᴰ u users × ((u.id == new.id) ≡ false))
Mem-put_user new u users m =
    let (x, mx, e) = Memᴰ.of_map (λ (v : User). if v.id == new.id then new else v) users m in
    replaced x mx e (Bool-cases (x.id == new.id))
  where
    replaced :
        (x : User)
        → Memᴰ x users
        → (if x.id == new.id then new else x) ≡ u
        → ((x.id == new.id) ≡ true) ⊎ ((x.id == new.id) ≡ false)
        → (u ≡ new) ⊎ (Memᴰ u users × ((u.id == new.id) ≡ false))
    replaced x mx e (inl h) = inl (sym (rw h at e))
    replaced x mx e (inr h) =
        let q = sym (rw h at e) in
        inr (subst (λ v. Memᴰ v users) (sym q) mx, ap (λ (v : User). v.id == new.id) q ∙ h)

pub Upsert-FreshIds :
    (now id : ℕ) (db db' : Db)
    → Upsert now db id db'
    → FreshIds db.users db.next_user_id
    → FreshIds db'.users db'.next_user_id
Upsert-FreshIds now id db db' (inserted new d e current users next) fresh u m =
    placed (Memᴰ.append_cases db.users (subst (λ l. Memᴰ u l) users m))
  where
    placed : Memᴰ u db.users ⊎ Memᴰ u (new ∷ []) → u.id < db'.next_user_id
    placed (inl old) = let lt = fresh u old in omega (arith, next)
    placed (inr one) =
        let q = ap (λ (v : User). v.id) (Memᴰ.eq_of_singleton one) ∙ e in omega (arith, q, next)
Upsert-FreshIds now id db db' (updated new old_row d row same_id current users next) fresh u m =
    placed (Mem-put_user new u db.users (subst (λ l. Memᴰ u l) users m))
  where
    placed : (u ≡ new) ⊎ (Memᴰ u db.users × ((u.id == new.id) ≡ false)) → u.id < db'.next_user_id
    placed (inl q) =
        let lt = fresh old_row row in
        let i = ap (λ (v : User). v.id) q ∙ same_id in omega (arith, i, next)
    placed (inr (old, k)) = let lt = fresh u old in omega (arith, next)

pub Upsert-SeenAreCurrent :
    (now id : ℕ) (seen : List ℕ) (db db' : Db)
    → Upsert now db id db'
    → FreshIds db.users db.next_user_id
    → SeenAreCurrent now seen db.users
    → SeenAreCurrent now (id ∷ seen) db'.users
unfolding any
Upsert-SeenAreCurrent now id seen db db' (inserted new d e current users next) fresh seen_current u
      m k =
    placed (Memᴰ.append_cases db.users (subst (λ l. Memᴰ u l) users m))
  where
    placed : Memᴰ u db.users ⊎ Memᴰ u (new ∷ []) → IsCurrent now u
    placed (inl old) =
        let lt = fresh u old in seen_current u old (ground (arith, e, ==_iff new.id u.id))
    placed (inr one) = subst (IsCurrent now) (sym (Memᴰ.eq_of_singleton one)) current
Upsert-SeenAreCurrent now id seen db db' (updated new old_row d row same_id current users next)
      fresh seen_current u m k =
    placed (Mem-put_user new u db.users (subst (λ l. Memᴰ u l) users m))
  where
    placed : (u ≡ new) ⊎ (Memᴰ u db.users × ((u.id == new.id) ≡ false)) → IsCurrent now u
    placed (inl q) = subst (IsCurrent now) (sym q) current
    placed (inr (old, h)) = seen_current u old (ground arith)

pub ids-Upsert :
    (now id : ℕ) (db db' : Db)
    → Upsert now db id db'
    → (new : List ℕ) × (ids db'.users ≡ ids db.users ++ new)
ids-Upsert now id db db' (inserted new d e current users next) =
    (new.id ∷ [], ap ids users ∙ map-append (λ (u : User). u.id) db.users (new ∷ []))
ids-Upsert now id db db' (updated new old_row d row same_id current users next) =
    ([], ap ids users ∙ ids-put_user new db.users ∙ sym (append-nil (ids db.users)))
