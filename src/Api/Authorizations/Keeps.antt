-- ===== src/Api/Authorizations/Keeps.antt =====
-- The authorization handlers keep the tables well formed.
use tacacs_web.Prelude.{ℕ, ◌≡◌, refl, sym, subst, true, Option, none, some, ==_iff, arith}
use tacacs_web.Models.{AuthorizationRow}
use tacacs_web.Result.{
  ok, Ensures, Ensures-ok, Ensures->>=, >>=-eq-ok, ok_inj, guard-eq-ok, on_conflict-eq-ok,
}
use tacacs_web.Db.{Db}
use tacacs_web.Auth.Sessions.{SessionContext}
use tacacs_web.Api.Tables.{
  is_some-get_row, not-eq-true, delete_row, Mem-delete_row, clashes_with-eq-false, HasRow,
  Unique-append, Unique-delete_row, Fresh-append, Fresh-delete_row, Fresh-ne, Mem-append_new,
}
use tacacs_web.Api.Devices.Keeps.{ensure_device_group_exists-HasRow}
use tacacs_web.Api.DeviceGroups.{group_id}
use tacacs_web.Api.Profiles.{profile_id}
use tacacs_web.Api.Authorizations.{
  authorization_id, user_id, ad_group_id, AuthorizationCreate, same_key, same_edge,
  exactly_one_principal, insert_authorization, ensure_principal_exists, ensure_profile_exists,
  new_authorization, create_authorization, delete_authorization,
}
use tacacs_web.Api.WellFormed.{WellFormed, Commits, HasPrincipal, append_crud-WellFormed}

same_key_comm : (x y : Option ℕ) → same_key x y ≡ true → same_key y x ≡ true
same_key_comm (some a) (some b) h = (==_iff b a).1 (sym ((==_iff a b).0 h))
same_key_comm (some a) none h = absurd (cc h)
same_key_comm none y h = absurd (cc h)

same_edge_comm : (a b : AuthorizationRow) → same_edge a b ≡ true → same_edge b a ≡ true
same_edge_comm a b h =
    let u = same_key_comm a.principal_user_id b.principal_user_id in
    let g = same_key_comm a.principal_ad_group_id b.principal_ad_group_id in ground (arith, u, g)

abbrev Refers : Db → AuthorizationRow → Type 0
Refers db a =
    HasPrincipal a.principal_user_id a.principal_ad_group_id db.users db.ad_groups
    × HasRow group_id a.device_group_id db.device_groups
    × HasRow profile_id a.privilege_profile_id db.profiles

insert_authorization-WellFormed :
    (row : AuthorizationRow) (db db' : Db)
    → insert_authorization row db ≡ ok db'
    → row.id ≡ db.next_authorization_id
    → Refers db row
    → WellFormed db
    → WellFormed db'
unfolding insert_authorization
insert_authorization-WellFormed row db db' h id has (ds, gs, ps, (fresh, edges, refs)) =
    let (u, e, f) = >>=-eq-ok _ _ db' h in
    let free =
      clashes_with-eq-false authorization_id same_edge row db.authorizations
        (not-eq-true _ (guard-eq-ok _ _ u e)) in
    let ne = Fresh-ne authorization_id db.authorizations row db.next_authorization_id id fresh in
    subst WellFormed (ok_inj f) (
      ds,
      gs,
      ps,
      (
        Fresh-append authorization_id db.authorizations row db.next_authorization_id id fresh,
        Unique-append authorization_id (λ a b. same_edge a b ≡ true) db.authorizations row
            same_edge_comm (λ a m q. free a m (ne a m) q) edges,
        Mem-append_new authorization_id (Refers db) db.authorizations row refs has,
      ),
    )

delete-WellFormed :
    (id : ℕ) (db : Db)
    → WellFormed db
    → WellFormed (record db { authorizations = delete_row authorization_id id db.authorizations })
delete-WellFormed id db (ds, gs, ps, (fresh, edges, refs)) = (
  ds,
  gs,
  ps,
  (
    Fresh-delete_row authorization_id id db.authorizations db.next_authorization_id fresh,
    Unique-delete_row authorization_id (λ a b. same_edge a b ≡ true) id db.authorizations edges,
    λ a m. refs a (Mem-delete_row authorization_id id a db.authorizations m).0,
  ),
)

ensure_principal_exists-HasPrincipal :
    (u g : Option ℕ) (db : Db) (v : Unit {0})
    → exactly_one_principal u g ≡ true
    → ensure_principal_exists u g db ≡ ok v
    → HasPrincipal u g db.users db.ad_groups
unfolding ensure_principal_exists
ensure_principal_exists-HasPrincipal (some u) none db v one h =
    is_some-get_row user_id u db.users (guard-eq-ok _ _ v h)
ensure_principal_exists-HasPrincipal none (some g) db v one h =
    is_some-get_row ad_group_id g db.ad_groups (guard-eq-ok _ _ v h)
ensure_principal_exists-HasPrincipal (some u) (some g) db v one h = absurd (cc one)
ensure_principal_exists-HasPrincipal none none db v one h = absurd (cc one)

ensure_profile_exists-HasRow :
    (id : ℕ) (db : Db) (v : Unit {0})
    → ensure_profile_exists id db ≡ ok v
    → HasRow profile_id id db.profiles
unfolding ensure_profile_exists
ensure_profile_exists-HasRow id db v h =
    is_some-get_row profile_id id db.profiles (guard-eq-ok _ _ v h)

module _ (now : ℕ) (ctx : SessionContext) where
  pub create_authorization-WellFormed :
      (p : AuthorizationCreate) (db : Db)
      → WellFormed db
      → Ensures (Commits WellFormed) (create_authorization now ctx p db)
  unfolding create_authorization new_authorization
  create_authorization-WellFormed p db w = Ensures->>= _ _ λ v one. Ensures->>= _ _ λ v1 principal.
      Ensures->>= _ _ λ v2 group. Ensures->>= _ _ λ v3 profile. Ensures->>= _ _ λ db1 inserted.
        Ensures->>= _ _ λ db2 audited.
          let has : Refers db (new_authorization now p db) = (
            ensure_principal_exists-HasPrincipal p.principal_user_id p.principal_ad_group_id db v1
                (guard-eq-ok _ _ v one) principal,
            ensure_device_group_exists-HasRow p.device_group_id db v2 group,
            ensure_profile_exists-HasRow p.privilege_profile_id db v3 profile,
          ) in
          let w1 =
            insert_authorization-WellFormed (new_authorization now p db) db db1
              (on_conflict-eq-ok _ _ db1 inserted) refl has w in
          Ensures-ok (Commits WellFormed) _
            (append_crud-WellFormed now ctx _ _ _ _ db1 db2 audited w1)

  pub delete_authorization-WellFormed :
      (id : ℕ) (db : Db)
      → WellFormed db
      → Ensures (Commits WellFormed) (delete_authorization now ctx id db)
  unfolding delete_authorization
  delete_authorization-WellFormed id db w = Ensures->>= _ _ λ row found.
      Ensures->>= _ _ λ db1 audited.
        Ensures-ok (Commits WellFormed) _
          (append_crud-WellFormed now ctx _ _ _ _ _ db1 audited (delete-WellFormed id db w))
