-- ===== src/Api/DeviceGroups/Keeps.antt =====
-- The device-group handlers keep the tables well formed.
use tacacs_web.Prelude.{
  ℕ, ◌≡◌, refl, sym, ◌∙◌, subst, Bool, true, false, not, Option, none, some, [], ◌∷◌, ◌++◌, Memᴰ,
  Str, str, str_eq, str_eq_iff, ◌==◌, ==_iff, arith, if◌then◌else◌, any-Mem, Mem-filter,
}
use tacacs_web.Models.{Device, DeviceGroup, AuthorizationRow}
use tacacs_web.Result.{
  ok, Ensures, Ensures-ok, Ensures->>=, >>=-eq-ok, ok_inj, guard-eq-ok, or_raise-eq-ok,
  on_conflict-eq-ok,
}
use tacacs_web.Db.{Db}
use tacacs_web.Auth.Sessions.{SessionContext}
use tacacs_web.Api.Tables.{
  get_row, get_row-eq-some, not-eq-true, clashes_with-eq-false, HasRow-append, HasRow-put_row,
  HasRow-delete_row, Unique-append, Unique-put_row, Unique-delete_row, Fresh-append, Fresh-put_row,
  Fresh-delete_row, Fresh-ne,
}
use tacacs_web.Api.DeviceGroups.{
  group_id, DeviceGroupCreate, DeviceGroupUpdate, same_group_name, insert_device_group,
  update_group, group_not_found, GroupChanged, change_group_name, change_group_description,
  new_device_group, drop_group, create_device_group, update_device_group, delete_device_group,
}
use tacacs_web.Api.WellFormed.{WellFormed, Commits, append_crud-WellFormed}

same_name : (a b : DeviceGroup) → a.name ≡ b.name → same_group_name a b ≡ true
same_name a b = (str_eq_iff a.name b.name).1

insert_device_group-WellFormed :
    (row : DeviceGroup) (db db' : Db)
    → insert_device_group row db ≡ ok db'
    → row.id ≡ db.next_device_group_id
    → WellFormed db
    → WellFormed db'
unfolding insert_device_group
insert_device_group-WellFormed row db db' h id
      ((dfresh, names, ips, groups), (fresh, unique), ps, (afresh, edges, refs)) =
    let (u, e, f) = >>=-eq-ok _ _ db' h in
    let free =
      clashes_with-eq-false group_id same_group_name row db.device_groups
        (not-eq-true _ (guard-eq-ok _ _ u e)) in
    let ne = Fresh-ne group_id db.device_groups row db.next_device_group_id id fresh in
    let kept = HasRow-append group_id db.device_groups (row ∷ []) in
    subst WellFormed (ok_inj f) (
      (dfresh, names, ips, λ d m. kept d.device_group_id (groups d m)),
      (
        Fresh-append group_id db.device_groups row db.next_device_group_id id fresh,
        Unique-append group_id (λ a b. a.name ≡ b.name) db.device_groups row (λ a b q. sym q)
            (λ a m q. free a m (ne a m) (same_name a row q)) unique,
      ),
      ps,
      (afresh, edges, λ a m. let (p, g, l) = refs a m in (p, kept a.device_group_id g, l)),
    )

update_group-WellFormed :
    (old row : DeviceGroup) (db db' : Db)
    → update_group row db ≡ ok db'
    → Memᴰ old db.device_groups
    → row.id ≡ old.id
    → WellFormed db
    → WellFormed db'
unfolding update_group
update_group-WellFormed old row db db' h m same
      ((dfresh, names, ips, groups), (fresh, unique), ps, (afresh, edges, refs)) =
    let (u, e, f) = >>=-eq-ok _ _ db' h in
    let free =
      clashes_with-eq-false group_id same_group_name row db.device_groups
        (not-eq-true _ (guard-eq-ok _ _ u e)) in
    let lt = fresh old m in
    let kept = HasRow-put_row group_id row db.device_groups in
    subst WellFormed (ok_inj f) (
      (dfresh, names, ips, λ d k. kept d.device_group_id (groups d k)),
      (
        Fresh-put_row group_id db.device_groups row db.next_device_group_id
            (omega (arith, lt, same)) fresh,
        Unique-put_row group_id (λ a b. a.name ≡ b.name) db.device_groups row (λ a b q. sym q)
            (λ a k n q. free a k n (same_name a row q)) unique,
      ),
      ps,
      (afresh, edges, λ a k. let (p, g, l) = refs a k in (p, kept a.device_group_id g, l)),
    )

drop_group-WellFormed :
    (id : ℕ) (db db' : Db) → drop_group id db ≡ ok db' → WellFormed db → WellFormed db'
unfolding drop_group
drop_group-WellFormed id db db' h
      ((dfresh, names, ips, groups), (fresh, unique), ps, (afresh, edges, refs)) =
    let (u, e, f) = >>=-eq-ok _ _ db' h in
    let unused = not-eq-true _ (guard-eq-ok _ _ u e) in
    let stays = Mem-filter (λ (a : AuthorizationRow). not (a.device_group_id == id)) in
    subst WellFormed (ok_inj f) (
      (
        dfresh,
        names,
        ips,
        λ d m. HasRow-delete_row group_id id d.device_group_id db.device_groups (groups d m) (λ q.
            absurd (
              cc (
                any-Mem (λ (d : Device). d.device_group_id == id) d db.devices m
                    ((==_iff d.device_group_id id).1 q),
                unused,
              ))),
      ),
      (
        Fresh-delete_row group_id id db.device_groups db.next_device_group_id fresh,
        Unique-delete_row group_id (λ a b. a.name ≡ b.name) id db.device_groups unique,
      ),
      ps,
      (
        λ a m. afresh a (stays a db.authorizations m).0,
        λ a b m k r. edges a b (stays a db.authorizations m).0 (stays b db.authorizations k).0 r,
        λ a m.
            let (mem, other) = stays a db.authorizations m in
            let (p, g, l) = refs a mem in
            (
              p,
              HasRow-delete_row group_id id a.device_group_id db.device_groups g
                  (λ q. absurd (cc ((==_iff a.device_group_id id).1 q, not-eq-true _ other))),
              l,
            ),
      ),
    )

get_group-Mem :
    (id : ℕ) (db : Db) (row : DeviceGroup)
    → group_not_found (get_row group_id id db.device_groups) ≡ ok row
    → Memᴰ row db.device_groups
unfolding group_not_found
get_group-Mem id db row h =
    (get_row-eq-some group_id id db.device_groups row (or_raise-eq-ok _ _ row h)).0

change_group_description-id :
    (p : Option Str) (c : GroupChanged) → (change_group_description p c).0.id ≡ c.0.id
unfolding change_group_description
change_group_description-id none c = refl
change_group_description-id (some d) (row, changed) = refl

module _ (repr : Str → Str) (now : ℕ) (ctx : SessionContext) where
  change_group_name-id :
      (p : Option Str) (c : GroupChanged) → (change_group_name repr now ctx p c).0.id ≡ c.0.id
  unfolding change_group_name
  change_group_name-id none c = refl
  change_group_name-id (some name) (row, changed) = split (str_eq name row.name)
    where
      renamed : GroupChanged
      renamed = (
        record row { name = name },
        changed ++ (str "name " ++ (repr row.name ++ (str "->" ++ repr name))) ∷ [],
      )

      split : (b : Bool) → (if b then (row, changed) else renamed).0.id ≡ row.id
      split true = refl
      split false = refl

  pub create_device_group-WellFormed :
      (p : DeviceGroupCreate) (db : Db)
      → WellFormed db
      → Ensures (Commits WellFormed) (create_device_group repr now ctx p db)
  unfolding create_device_group new_device_group
  create_device_group-WellFormed p db w = Ensures->>= _ _ λ u valid. Ensures->>= _ _ λ db1 inserted.
      Ensures->>= _ _ λ db2 audited.
        let w1 =
          insert_device_group-WellFormed (new_device_group now p db) db db1
            (on_conflict-eq-ok _ _ db1 inserted) refl w in
        Ensures-ok (Commits WellFormed) _
          (append_crud-WellFormed now ctx _ _ _ _ db1 db2 audited w1)

  pub update_device_group-WellFormed :
      (id : ℕ) (p : DeviceGroupUpdate) (db : Db)
      → WellFormed db
      → Ensures (Commits WellFormed) (update_device_group repr now ctx id p db)
  unfolding update_device_group
  update_device_group-WellFormed id p db w = Ensures->>= _ _ λ u valid. Ensures->>= _ _ λ old found.
      Ensures->>= _ _ λ db1 updated. Ensures->>= _ _ λ db2 audited.
        let c = change_group_name repr now ctx p.name (old, []) in
        let same =
          change_group_description-id p.description c ∙ change_group_name-id p.name (old, []) in
        let w1 =
          update_group-WellFormed old (change_group_description p.description c).0 db db1
            (on_conflict-eq-ok _ _ db1 updated) (get_group-Mem id db old found) same w in
        Ensures-ok (Commits WellFormed) _
          (append_crud-WellFormed now ctx _ _ _ _ db1 db2 audited w1)

  pub delete_device_group-WellFormed :
      (id : ℕ) (db : Db)
      → WellFormed db
      → Ensures (Commits WellFormed) (delete_device_group repr now ctx id db)
  unfolding delete_device_group
  delete_device_group-WellFormed id db w = Ensures->>= _ _ λ row found.
      Ensures->>= _ _ λ db1 audited. Ensures->>= _ _ λ db2 dropped.
        let w1 = append_crud-WellFormed now ctx _ _ _ _ db db1 audited w in
        Ensures-ok (Commits WellFormed) _
          (drop_group-WellFormed id db1 db2 (on_conflict-eq-ok _ _ db2 dropped) w1)
