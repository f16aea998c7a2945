-- ===== src/Api/Devices/Keeps.antt =====
-- The device handlers keep the tables well formed.
use tacacs_web.Prelude.{
  ℕ, ◌≡◌, refl, sym, ◌∙◌, subst, Bool, true, false, Option, none, some, [], ◌∷◌, ◌++◌, Memᴰ, Str,
  str, decimal, str_eq_iff, ◌==◌, arith, if◌then◌else◌, is_empty,
}
use tacacs_web.Models.{Device}
use tacacs_web.Result.{
  ok, Ensures, Ensures-ok, Ensures->>=, ◌>>◌, >>=-eq-ok, ok_inj, guard-eq-ok, or_raise-eq-ok,
  on_conflict-eq-ok,
}
use tacacs_web.Db.{Db}
use tacacs_web.Ipaddress.{Ipaddress}
use tacacs_web.Auth.Sessions.{SessionContext}
use tacacs_web.Api.Tables.{
  get_row, get_row-eq-some, is_some-get_row, not-eq-true, clashes_with-eq-false, HasRow,
  Mem-delete_row, Unique-append, Unique-put_row, Unique-delete_row, Fresh-append, Fresh-put_row,
  Fresh-delete_row, Fresh-ne, Mem-append_new, Mem-put_row_new,
}
use tacacs_web.Api.Devices.{
  device_id, DeviceCreate, DeviceUpdate, ensure_device_group_exists, same_name_or_ip, insert_device,
  flush_device, stamped, same_columns, not_found, new_device, Changed, change_group, change_name,
  change_ip, change_description, change_secret, create_device, update_device, without_device,
  delete_device, rotate_secret, retire_previous_secret,
}
use tacacs_web.Api.DeviceGroups.{group_id}
use tacacs_web.Api.WellFormed.{WellFormed, Commits, append_crud-WellFormed}

same_name : (a b : Device) → a.name ≡ b.name → same_name_or_ip a b ≡ true
same_name a b e = let h = (str_eq_iff a.name b.name).1 e in ground (arith, h)

same_ip : (a b : Device) → a.ip_or_cidr ≡ b.ip_or_cidr → same_name_or_ip a b ≡ true
same_ip a b e = let h = (str_eq_iff a.ip_or_cidr b.ip_or_cidr).1 e in ground (arith, h)

abbrev InGroup : Db → Device → Type 0
InGroup db d = HasRow group_id d.device_group_id db.device_groups

insert_device-WellFormed :
    (row : Device) (db db' : Db)
    → insert_device row db ≡ ok db'
    → row.id ≡ db.next_device_id
    → InGroup db row
    → WellFormed db
    → WellFormed db'
unfolding insert_device
insert_device-WellFormed row db db' h id has ((fresh, names, ips, groups), gs, ps, as_) =
    let (u, e, f) = >>=-eq-ok _ _ db' h in
    let free =
      clashes_with-eq-false device_id same_name_or_ip row db.devices
        (not-eq-true _ (guard-eq-ok _ _ u e)) in
    let ne = Fresh-ne device_id db.devices row db.next_device_id id fresh in
    subst WellFormed (ok_inj f) (
      (
        Fresh-append device_id db.devices row db.next_device_id id fresh,
        Unique-append device_id (λ a b. a.name ≡ b.name) db.devices row (λ a b q. sym q)
            (λ a m q. free a m (ne a m) (same_name a row q)) names,
        Unique-append device_id (λ a b. a.ip_or_cidr ≡ b.ip_or_cidr) db.devices row (λ a b q. sym q)
            (λ a m q. free a m (ne a m) (same_ip a row q)) ips,
        Mem-append_new device_id (InGroup db) db.devices row groups has,
      ),
      gs,
      ps,
      as_,
    )

stamped-id : (now : ℕ) (old new : Device) → new.id ≡ old.id → (stamped now old new).id ≡ old.id
stamped-id now old new e = split (same_columns old new)
  where
    split : (b : Bool) → (if b then old else record new { updated_at = now }).id ≡ old.id
    split true = refl
    split false = e

stamped-group :
    (now : ℕ) (old new : Device) (P : ℕ → Type 0)
    → P old.device_group_id
    → P new.device_group_id
    → P (stamped now old new).device_group_id
stamped-group now old new P p q = split (same_columns old new)
  where
    split : (b : Bool) → P (if b then old else record new { updated_at = now }).device_group_id
    split true = p
    split false = q

flush_device-WellFormed :
    (now : ℕ) (old new : Device) (db : Db) (s : Device × Db)
    → flush_device now old new db ≡ ok s
    → Memᴰ old db.devices
    → new.id ≡ old.id
    → InGroup db new
    → WellFormed db
    → WellFormed s.1
unfolding flush_device
flush_device-WellFormed now old new db s h m id has ((fresh, names, ips, groups), gs, ps, as_) =
    let row = stamped now old new in
    let (u, e, f) = >>=-eq-ok _ _ s h in
    let free =
      clashes_with-eq-false device_id same_name_or_ip row db.devices
        (not-eq-true _ (guard-eq-ok _ _ u e)) in
    let lt = fresh old m in
    let same = stamped-id now old new id in
    let has_row =
      stamped-group now old new (λ g. HasRow group_id g db.device_groups) (groups old m) has in
    subst (λ (t : Device × Db). WellFormed t.1) (ok_inj f)
      (
        (
          Fresh-put_row device_id db.devices row db.next_device_id (omega (arith, lt, same)) fresh,
          Unique-put_row device_id (λ a b. a.name ≡ b.name) db.devices row (λ a b q. sym q)
              (λ a m n q. free a m n (same_name a row q)) names,
          Unique-put_row device_id (λ a b. a.ip_or_cidr ≡ b.ip_or_cidr) db.devices row
              (λ a b q. sym q) (λ a m n q. free a m n (same_ip a row q)) ips,
          Mem-put_row_new device_id (InGroup db) db.devices row groups has_row,
        ),
        gs,
        ps,
        as_,
      )

get_device-Mem :
    (id : ℕ) (db : Db) (row : Device)
    → not_found (get_row device_id id db.devices) ≡ ok row
    → Memᴰ row db.devices
unfolding not_found
get_device-Mem id db row h =
    (get_row-eq-some device_id id db.devices row (or_raise-eq-ok _ _ row h)).0

pub ensure_device_group_exists-HasRow :
    (id : ℕ) (db : Db) (u : Unit {0})
    → ensure_device_group_exists id db ≡ ok u
    → HasRow group_id id db.device_groups
unfolding ensure_device_group_exists
ensure_device_group_exists-HasRow id db u h =
    is_some-get_row group_id id db.device_groups (guard-eq-ok _ _ u h)

-- A change of a column other than the two that link the row.
abbrev Linked : Changed → Changed → Type 0
Linked c c' = (c'.0.id ≡ c.0.id) × (c'.0.device_group_id ≡ c.0.device_group_id)

Linked-if : (b : Bool) (c d : Changed) → Linked c d → Linked c (if b then c else d)
Linked-if true c d h = (refl, refl)
Linked-if false c d h = h

Linked-change_ip : (p : Option Str) (c : Changed) → Linked c (change_ip p c)
unfolding change_ip
Linked-change_ip none c = (refl, refl)
Linked-change_ip (some ip) (row, changed) = Linked-if _ (row, changed) _ (refl, refl)

Linked-change_description : (p : Option Str) (c : Changed) → Linked c (change_description p c)
unfolding change_description
Linked-change_description none c = (refl, refl)
Linked-change_description (some d) (row, changed) = (refl, refl)

Linked-change_secret : (p : Option Str) (c : Changed) → Linked c (change_secret p c)
unfolding change_secret
Linked-change_secret none c = (refl, refl)
Linked-change_secret (some v) (row, changed) = Linked-if (is_empty v) (row, changed) _ (refl, refl)

change_group-InGroup :
    (p : Option ℕ) (db : Db) (old : Device)
    → InGroup db old
    → Ensures (λ (c : Changed). (c.0.id ≡ old.id) × InGroup db c.0) (change_group p db (old, []))
unfolding change_group
change_group-InGroup none db old h = Ensures-ok _ (old, []) (refl, h)
change_group-InGroup (some g) db old h = split (g == old.device_group_id)
  where
    moved : Changed
    moved = (
      record old { device_group_id = g },
      (str "dg " ++ (decimal old.device_group_id ++ (str "->" ++ decimal g))) ∷ [],
    )

    split :
        (b : Bool)
        → Ensures
            (λ (c : Changed). (c.0.id ≡ old.id) × InGroup db c.0)
            (if b then ok (old, []) else (ensure_device_group_exists g db >> ok moved))
    split true = Ensures-ok _ (old, []) (refl, h)
    split false =
        Ensures->>= _ _
          λ u known. Ensures-ok _ moved (refl, ensure_device_group_exists-HasRow g db u known)

-- The handlers: whatever is asked, what they commit is well formed.
module _ (lib : Ipaddress) (repr : Str → Str) (now : ℕ) (ctx : SessionContext) where
  pub create_device-WellFormed :
      (p : DeviceCreate) (db : Db)
      → WellFormed db
      → Ensures (Commits WellFormed) (create_device lib repr now ctx p db)
  unfolding create_device new_device
  create_device-WellFormed p db w = Ensures->>= _ _ λ u valid. Ensures->>= _ _ λ v known.
      Ensures->>= _ _ λ db1 inserted. Ensures->>= _ _ λ db2 audited.
        let has = ensure_device_group_exists-HasRow p.device_group_id db v known in
        let w1 =
          insert_device-WellFormed (new_device now p db) db db1 (on_conflict-eq-ok _ _ db1 inserted)
            refl has w in
        Ensures-ok (Commits WellFormed) _
          (append_crud-WellFormed now ctx _ _ _ _ db1 db2 audited w1)

  Linked-change_name : (p : Option Str) (c : Changed) → Linked c (change_name lib repr now ctx p c)
  unfolding change_name
  Linked-change_name none c = (refl, refl)
  Linked-change_name (some name) (row, changed) = Linked-if _ (row, changed) _ (refl, refl)

  pub update_device-WellFormed :
      (id : ℕ) (p : DeviceUpdate) (db : Db)
      → WellFormed db
      → Ensures (Commits WellFormed) (update_device lib repr now ctx id p db)
  unfolding update_device
  update_device-WellFormed id p db w = Ensures->>= _ _ λ u valid. Ensures->>= _ _ λ old found.
      Ensures->>= _ _ λ c grouped. Ensures->>= _ _ λ s flushed. Ensures->>= _ _ λ db2 audited.
        let m = get_device-Mem id db old found in
        let (same, has) =
          (change_group-InGroup p.device_group_id db old (w.0.3 old m)).at c grouped in
        let l1 = Linked-change_name p.name c in
        let l2 = Linked-change_ip p.ip_or_cidr _ in
        let l3 = Linked-change_description p.description _ in
        let l4 = Linked-change_secret p.current_secret _ in
        let w1 =
          flush_device-WellFormed now old
            (change_secret p.current_secret (
              change_description p.description
                (change_ip p.ip_or_cidr (change_name lib repr now ctx p.name c)))).0
            db s (on_conflict-eq-ok _ _ s flushed) m (l4.0 ∙ l3.0 ∙ l2.0 ∙ l1.0 ∙ same)
            (subst (λ g. HasRow group_id g db.device_groups) (sym (l4.1 ∙ l3.1 ∙ l2.1 ∙ l1.1)) has)
            w in
        Ensures-ok (Commits WellFormed) _
          (append_crud-WellFormed now ctx _ _ _ _ s.1 db2 audited w1)

module _ (now : ℕ) (ctx : SessionContext) where
  pub delete_device-WellFormed :
      (id : ℕ) (db : Db)
      → WellFormed db
      → Ensures (Commits WellFormed) (delete_device now ctx id db)
  unfolding delete_device
  delete_device-WellFormed id db ((fresh, names, ips, groups), gs, ps, as_) =
      Ensures->>= _ _ λ row found. Ensures->>= _ _ λ db2 audited.
        Ensures-ok (Commits WellFormed) _ (
          append_crud-WellFormed now ctx _ _ _ _ (without_device id db) db2 audited (
            (
              Fresh-delete_row device_id id db.devices db.next_device_id fresh,
              Unique-delete_row device_id (λ a b. a.name ≡ b.name) id db.devices names,
              Unique-delete_row device_id (λ a b. a.ip_or_cidr ≡ b.ip_or_cidr) id db.devices ips,
              λ d m. groups d (Mem-delete_row device_id id d db.devices m).0,
            ),
            gs,
            ps,
            as_,
          ))

  pub rotate_secret-WellFormed :
      (id : ℕ) (secret : Str) (db : Db)
      → WellFormed db
      → Ensures (Commits WellFormed) (rotate_secret now ctx id secret db)
  unfolding rotate_secret
  rotate_secret-WellFormed id secret db w = Ensures->>= _ _ λ u valid. Ensures->>= _ _ λ old found.
      Ensures->>= _ _ λ s flushed. Ensures->>= _ _ λ db2 audited.
        let m = get_device-Mem id db old found in
        let w1 =
          flush_device-WellFormed now old
            (record old {
              previous_secret_enc = old.current_secret_enc;
              previous_retired_at = none;
              current_secret_enc = some secret;
            })
            db s flushed m refl (w.0.3 old m) w in
        Ensures-ok (Commits WellFormed) _
          (append_crud-WellFormed now ctx _ _ _ _ s.1 db2 audited w1)

  pub retire_previous_secret-WellFormed :
      (id : ℕ) (db : Db)
      → WellFormed db
      → Ensures (Commits WellFormed) (retire_previous_secret now ctx id db)
  unfolding retire_previous_secret
  retire_previous_secret-WellFormed id db w = Ensures->>= _ _ λ old found.
      Ensures->>= _ _ λ s flushed. Ensures->>= _ _ λ db2 audited.
        let m = get_device-Mem id db old found in
        let w1 =
          flush_device-WellFormed now old
            (record old { previous_secret_enc = none; previous_retired_at = some now }) db s flushed
            m refl (w.0.3 old m) w in
        Ensures-ok (Commits WellFormed) _
          (append_crud-WellFormed now ctx _ _ _ _ s.1 db2 audited w1)
