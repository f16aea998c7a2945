-- ===== src/LdapSync/Sync.antt =====
-- `run_sync` of backend/app/ldap_sync/sync.py. The clock is read once; an exception leaves the
-- database as it was, since nothing was committed. Each write of a user is flushed at once.
pub mod Found
pub mod Turns
pub mod Users
use tacacs_web.Prelude.{
  ℕ, ◌+◌, Bool, true, false, not, ◌&&◌, ◌||◌, Option, none, some, List, [], ◌∷◌, ◌++◌, map, Str,
  str_eq, ◌==◌, leb, any, filter, find?, length, sort_by, is_empty, if◌then◌else◌,
}
use tacacs_web.Models.{User}
use tacacs_web.Result.{Result, ok, err, integrity_error, or_rollback, bind}
use tacacs_web.Db.{Db, scalar_one_or_none}
use tacacs_web.Mavis.Rpc.{Casing}
use tacacs_web.LdapSync.Records.{AdGroupRecord, AdUserRecord, SyncResult, start_result}
use tacacs_web.LdapSync.Groups.{GroupCache, replace_user_groups}

-- A comparison with a NULL column selects no row.
abbrev pub has_guid : Str → User → Bool
has_guid guid u = elim u.ad_object_guid [ none ↦ false | some g ↦ str_eq g guid ]

abbrev pub truthy : Option Str → Option Str
truthy none = none
truthy (some s) = if is_empty s then none else some s

unfoldable pub by_guid : Option Str → Db → Result (Option User)
by_guid none db = ok none
by_guid (some guid) db = scalar_one_or_none (filter (has_guid guid) db.users)

unfoldable pub candidates : Casing → Str → Db → List User
candidates casing name db =
    sort_by (λ (a b : User). leb a.id b.id)
      (filter (λ (u : User). str_eq (casing.sql_lower u.sam_account_name) (casing.lower name))
        db.users)

abbrev first : List User → Option User
first [] = none
first (u ∷ us) = some u

exact_or_first : List User → Option User → Option User
exact_or_first us (some u) = some u
exact_or_first us none = first us

unfoldable pub by_name : Casing → Str → Db → Option User
unfolding candidates exact_or_first
by_name casing name db =
    exact_or_first (candidates casing name db)
      (find? (λ (u : User). str_eq u.sam_account_name name) (candidates casing name db))

or_by_name : Casing → Str → Db → Result (Option User) → Result (Option User)
unfolding by_name
or_by_name casing name db (err e) = err e
or_by_name casing name db (ok (some u)) = ok (some u)
or_by_name casing name db (ok none) = ok (by_name casing name db)

unfoldable pub find_existing_user : Casing → AdUserRecord → Db → Result (Option User)
unfolding by_guid or_by_name
find_existing_user casing r db =
    or_by_name casing r.sam_account_name db (by_guid (truthy r.ad_object_guid) db)

-- Another row with the same name or the same GUID.
abbrev clashes : User → User → Bool
clashes new u =
    not (u.id == new.id)
    && (str_eq u.sam_account_name new.sam_account_name
        || elim new.ad_object_guid [ none ↦ false | some g ↦ has_guid g u ])

abbrev user_of : ℕ → AdUserRecord → Db → User
user_of now r db = record {
  id = db.next_user_id;
  sam_account_name = r.sam_account_name;
  ad_object_guid = r.ad_object_guid;
  distinguished_name = r.distinguished_name;
  upn = r.upn;
  display_name = r.display_name;
  enabled = true;
  last_seen_in_sync_at = some now;
  created_at = now;
  updated_at = now;
}

abbrev or_guid : Option Str → Option Str → Option Str
or_guid (some g) old = some g
or_guid none old = old

abbrev updated_user : ℕ → AdUserRecord → User → User
updated_user now r u = record u {
  sam_account_name = r.sam_account_name;
  ad_object_guid = or_guid (truthy r.ad_object_guid) u.ad_object_guid;
  distinguished_name = r.distinguished_name;
  upn = r.upn;
  display_name = r.display_name;
  enabled = true;
  last_seen_in_sync_at = some now;
  updated_at = now;
}

abbrev pub put_user : User → List User → List User
put_user new users = map (λ (u : User). if u.id == new.id then new else u) users

insert_user : User → Db → Result Db
insert_user new db =
    if any (clashes new) db.users
    then err integrity_error
    else ok (record db { users = db.users ++ new ∷ []; next_user_id = db.next_user_id + 1 })

update_user : User → Db → Result Db
update_user new db =
    if any (clashes new) db.users
    then err integrity_error
    else ok (record db { users = put_user new db.users })

-- The id of the row, whether it was inserted, and the database behind the flush.
abbrev Upserted : Type 0
Upserted = ℕ × Bool × Db

upsert_found : ℕ → AdUserRecord → Db → Option User → Result Upserted
unfolding insert_user update_user
upsert_found now r db none =
    bind (insert_user (user_of now r db) db) λ db'. ok (db.next_user_id, true, db')
upsert_found now r db (some u) =
    bind (update_user (updated_user now r u) db) λ db'. ok (u.id, false, db')

unfoldable pub upsert_user : ℕ → Casing → AdUserRecord → Db → Result Upserted
unfolding find_existing_user upsert_found
upsert_user now casing r db = bind (find_existing_user casing r db) (upsert_found now r db)

-- The variables of the loop.
pub record SyncState : Type 0 where
  pub db : Db
  pub result : SyncResult
  pub groups_by_sid : GroupCache
  pub seen_user_ids : List ℕ

count_user : Bool → ℕ → SyncResult → SyncResult
count_user inserted edges r = record r {
  users_seen = r.users_seen + 1;
  users_inserted = if inserted then r.users_inserted + 1 else r.users_inserted;
  users_updated = if inserted then r.users_updated else r.users_updated + 1;
  edges_total = r.edges_total + edges;
}

sync_groups : ℕ → AdUserRecord → SyncState → Upserted → Result SyncState
unfolding count_user replace_user_groups
sync_groups now r s (id, inserted, db) =
    bind (replace_user_groups now id r.groups s.groups_by_sid db) λ done. ok (record {
      db = done.1;
      result = count_user inserted (length r.groups) s.result;
      groups_by_sid = done.0;
      seen_user_ids = id ∷ s.seen_user_ids;
    })

pub sync_user : ℕ → Casing → AdUserRecord → SyncState → Result SyncState
unfolding upsert_user sync_groups
sync_user now casing r s = bind (upsert_user now casing r s.db) (sync_groups now r s)

sync_users : ℕ → Casing → List AdUserRecord → SyncState → Result SyncState
unfolding sync_user
sync_users now casing [] s = ok s
sync_users now casing (r ∷ records) s =
    bind (sync_user now casing r s) (sync_users now casing records)

-- `select(User).where(User.id.notin_(seen_user_ids), User.enabled.is_(True))`
abbrev pub is_stale : List ℕ → User → Bool
is_stale seen u = u.enabled && not (any (λ i. i == u.id) seen)

unfoldable pub disable : ℕ → (User → Bool) → List User → List User
disable now stale users =
    map (λ (u : User). if stale u then record u { enabled = false; updated_at = now } else u) users

stale_rows : List ℕ → List User → List User
stale_rows [] users = []
stale_rows (i ∷ seen) users = filter (is_stale (i ∷ seen)) users

disable_stale : ℕ → List ℕ → List User → List User
unfolding disable
disable_stale now [] users = users
disable_stale now (i ∷ seen) users = disable now (is_stale (i ∷ seen)) users

-- `_just_created` is always true.
finish : ℕ → SyncState → Result SyncResult × Db
unfolding disable_stale stale_rows
finish now s =
    let db = s.db in
    let r = s.result in
    (
      ok (record r {
        groups_seen = length s.groups_by_sid;
        groups_inserted = length s.groups_by_sid;
        users_disabled = length (stale_rows s.seen_user_ids db.users);
        finished_at = some now;
      }),
      record db { users = disable_stale now s.seen_user_ids db.users },
    )

unfoldable pub run_sync : ℕ → Casing → List AdUserRecord → Db → Result SyncResult × Db
unfolding sync_users finish
run_sync now casing records db =
    or_rollback db
      (sync_users now casing records
        (record { db = db; result = start_result now; groups_by_sid = []; seen_user_ids = [] }))
      (finish now)
