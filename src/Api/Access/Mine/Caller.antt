-- ===== src/Api/Access/Mine/Caller.antt =====
-- What `my_access` shows its caller.
use tacacs_web.Prelude.{
  ◌≡◌, refl, sym, ap, subst, ◌∙◌, ◌⊎◌, inl, inr, ◌↔◌, Bool, true, false, Option, none, some, [],
  Memᴰ, Mem-filter, Str, strip, is_empty, any, ◌==◌, if◌then◌else◌,
}
use tacacs_web.Models.{User}
use tacacs_web.Result.{ok, ◌>>=◌, >>=-eq-ok, ok_inj}
use tacacs_web.Db.{Db, scalar_one_or_none, scalar-some}
use tacacs_web.Auth.Sessions.{SessionContext}
use tacacs_web.Api.Access.Enforced.{Enforced, sorted-Enforced}
use tacacs_web.Api.Access.Mine.{
  MyAccessGroupRead, MyAccessRead, text_leb, access_read, by_sam, has_upn, by_upn, or_by_upn,
  caller, access_of, my_access,
}

module _ (ilike : Str → Str → Bool) (username : Str) (db : Db) where
  -- The user's account name or principal name is like the caller's.
  abbrev pub IsLike : User → Type 0
  IsLike u =
      Memᴰ u db.users
      × ((ilike u.sam_account_name username ≡ true)
          ⊎ ((upn : Str) × (u.upn ≡ some upn) × (ilike upn username ≡ true)))

  has_upn-some :
      (u : User)
      → has_upn ilike username u.upn ≡ true
      → (upn : Str) × (u.upn ≡ some upn) × (ilike upn username ≡ true)
  unfolding has_upn
  has_upn-some u h = split u.upn refl h
    where
      split :
          (o : Option Str)
          → u.upn ≡ o
          → has_upn ilike username o ≡ true
          → (upn : Str) × (u.upn ≡ some upn) × (ilike upn username ≡ true)
      split none e k = absurd (cc k)
      split (some upn) e k = (upn, e, k)

  or_by_upn-IsLike :
      (first : Option User) (u : User)
      → ((v : User) → first ≡ some v → IsLike v)
      → or_by_upn ilike username db first ≡ ok (some u)
      → IsLike u
  unfolding or_by_upn by_upn
  or_by_upn-IsLike (some v) u f h = f u (ok_inj h)
  or_by_upn-IsLike none u f h = split (any (λ c. c == 64) username) h
    where
      split :
          (b : Bool)
          → (if b then scalar_one_or_none (by_upn ilike username db) else ok none) ≡ ok (some u)
          → IsLike u
      split true k =
          let (m, e) = Mem-filter _ u db.users (scalar-some _ u k) in (m, inr (has_upn-some u e))
      split false k = absurd (cc (ok_inj k))

  caller-IsLike : (u : User) → caller ilike username db ≡ ok (some u) → IsLike u
  unfolding caller by_sam
  caller-IsLike u h = split (is_empty username) h
    where
      found : (v : User) → scalar_one_or_none (by_sam ilike username db) ≡ ok (some v) → IsLike v
      found v k = let (m, e) = Mem-filter _ v db.users (scalar-some _ v k) in (m, inl e)

      split :
          (b : Bool)
          → (if b
              then ok none
              else (scalar_one_or_none (by_sam ilike username db) >>= or_by_upn ilike username db))
            ≡ ok (some u)
          → IsLike u
      split true k = absurd (cc (ok_inj k))
      split false k =
          let (first, e, f) = >>=-eq-ok _ _ (some u) k in
          or_by_upn-IsLike first u (λ v q. found v (e ∙ ap ok q)) f

-- `my_access` answers for no user, with no group, or for a user whose account name or principal name
-- is like the caller's stripped name. It then shows exactly the outcomes that the policy has for that
-- user on the device groups: a row is there if and only if an authorization wins on its group, and it
-- is the row of that authorization.
pub my_access-Enforced :
    (collate ilike : Str → Str → Bool) (ctx : SessionContext) (db : Db) (r : MyAccessRead)
    → my_access collate ilike ctx db ≡ ok r
    → ((r.tacacs_username ≡ none) × (r.groups ≡ []))
      ⊎ ((user : User) × IsLike ilike (strip ctx.username) db user
          × (r.tacacs_username ≡ some user.sam_account_name)
          × ((e : MyAccessGroupRead)
              → Memᴰ e r.groups ↔ Enforced (access_read collate db user) db user e))
unfolding my_access access_of
my_access-Enforced collate ilike ctx db r h =
    let (found, e, f) = >>=-eq-ok _ _ r h in split found e (ok_inj f)
  where
    split :
        (o : Option User)
        → caller ilike (strip ctx.username) db ≡ ok o
        → access_of collate ilike db o ≡ r
        → ((r.tacacs_username ≡ none) × (r.groups ≡ []))
          ⊎ ((user : User) × IsLike ilike (strip ctx.username) db user
              × (r.tacacs_username ≡ some user.sam_account_name)
              × ((e : MyAccessGroupRead)
                  → Memᴰ e r.groups ↔ Enforced (access_read collate db user) db user e))
    split none e q = inl (
      ap (λ (a : MyAccessRead). a.tacacs_username) (sym q),
      ap (λ (a : MyAccessRead). a.groups) (sym q),
    )
    split (some user) e q = inr (
      user,
      caller-IsLike ilike (strip ctx.username) db user e,
      ap (λ (a : MyAccessRead). a.tacacs_username) (sym q),
      λ row.
          subst
            (λ (a : MyAccessRead).
              Memᴰ row a.groups ↔ Enforced (access_read collate db user) db user row)
            q
            (sorted-Enforced (access_read collate db user) db user
              (λ (a b : MyAccessGroupRead). text_leb a.device_group_name b.device_group_name) row),
    )
