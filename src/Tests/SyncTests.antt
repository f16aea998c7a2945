-- ===== src/Tests/SyncTests.antt =====
-- The synchronisation at a small directory.
use tacacs_web.Prelude.{
  ℕ, ◌≡◌, refl, ◌⊎◌, false, none, some, List, [], ◌∷◌, ◌++◌, Memᴰ, str, str_eq, arith, filter, any,
  find?, sort_by, length,
}
use tacacs_web.Models.{UserAdGroup, User, AdGroup}
use tacacs_web.Result.{ok}
use tacacs_web.Db.{Db, empty_db, scalar_one_or_none}
use tacacs_web.LdapSync.Records.{AdGroupRecord, AdUserRecord, SyncResult}
use tacacs_web.LdapSync.Groups.{cached, touch_group, replace_user_groups}
use tacacs_web.LdapSync.Groups.Edges.{Keeps, own}
use tacacs_web.LdapSync.Groups.Ensured.{HasGroup, CacheOk}
use tacacs_web.LdapSync.Groups.Linked.{edge, replace_user_groups-links}
use tacacs_web.LdapSync.Sync.{
  by_guid, candidates, by_name, truthy, find_existing_user, upsert_user, disable, run_sync,
}
use tacacs_web.LdapSync.Sync.Found.{
  HasGuid, IsNamed, SameName, find_existing_user-some, find_existing_user-none,
}
use tacacs_web.LdapSync.Sync.Turns.{FreshIds, ids}
use tacacs_web.LdapSync.Sync.Users.{run_sync-enabled, run_sync-ids}
use tacacs_web.Tests.Data.{jan, net_admins}
use tacacs_web.Tests.MavisTests.{same_case}

abbrev net_record : AdGroupRecord
net_record = record {
  sid = str "S-1-5-3";
  distinguished_name = str "CN=net2";
  name = some (str "net");
}

abbrev jan_record : AdUserRecord
jan_record = record {
  sam_account_name = str "jan";
  distinguished_name = str "CN=jan2";
  ad_object_guid = some (str "g1");
  upn = none;
  display_name = none;
  groups = net_record ∷ [];
}

abbrev piet_record : AdUserRecord
piet_record = record jan_record {
  sam_account_name = str "piet";
  ad_object_guid = none;
  groups = [];
}

abbrev gone : User
gone = record jan { id = 8; sam_account_name = str "gone" }

abbrev before_sync : Db
before_sync = record empty_db {
  users = jan ∷ gone ∷ [];
  ad_groups = net_admins ∷ [];
  next_user_id = 9;
}

abbrev jan_after : User
jan_after = record jan {
  ad_object_guid = some (str "g1");
  distinguished_name = str "CN=jan2";
  last_seen_in_sync_at = some 5;
  updated_at = 5;
}

abbrev net_after : AdGroup
net_after = record net_admins {
  distinguished_name = str "CN=net2";
  name = some (str "net");
  last_seen_in_sync_at = some 5;
}

abbrev linked : Db
linked = record before_sync {
  ad_groups = net_after ∷ [];
  user_ad_groups = record { user_id = 7; ad_group_id = 3 } ∷ [];
}

abbrev after_sync : Db
after_sync = record linked {
  users = jan_after ∷ record gone { enabled = false; updated_at = 5 } ∷ [];
}

abbrev counts : SyncResult
counts = record {
  users_seen = 1;
  users_inserted = 0;
  users_updated = 1;
  users_disabled = 1;
  groups_seen = 1;
  groups_inserted = 1;
  edges_total = 1;
  started_at = 5;
  finished_at = some 5;
}

links :
    replace_user_groups 5 7 (net_record ∷ []) [] before_sync ≡ ok ((str "S-1-5-3", 3) ∷ [], linked)
unfolding replace_user_groups filter cached scalar_one_or_none str_eq touch_group any
links = refl

no_cache : CacheOk [] before_sync
unfolding cached
no_cache sid id h = cc h

replace_user_groups-links_example :
    Keeps 7 before_sync linked
    × (length (own 7 linked) ≡ 1)
    × ((gr : AdGroupRecord)
        → Memᴰ gr (net_record ∷ [])
        → (id : ℕ) × HasGroup gr.sid id linked × Memᴰ (edge 7 id) linked.user_ad_groups)
    × ((e : UserAdGroup)
        → Memᴰ e linked.user_ad_groups
        → e.user_id ≡ 7
        → (gr : AdGroupRecord) × Memᴰ gr (net_record ∷ []) × HasGroup gr.sid e.ad_group_id linked)
    × CacheOk ((str "S-1-5-3", 3) ∷ []) linked
replace_user_groups-links_example =
    replace_user_groups-links 5 7 (net_record ∷ []) [] before_sync ((str "S-1-5-3", 3) ∷ [], linked)
      no_cache links

finds : find_existing_user same_case jan_record before_sync ≡ ok (some jan)
unfolding find_existing_user by_guid by_name candidates find? filter sort_by str_eq
    scalar_one_or_none
finds = refl

find_existing_user-some_example :
    Memᴰ jan before_sync.users
    × (HasGuid (truthy (some (str "g1"))) jan
        ⊎ (((v : User) → Memᴰ v before_sync.users → HasGuid (truthy (some (str "g1"))) v → ⊥)
            × IsNamed same_case (str "jan") before_sync jan))
find_existing_user-some_example = find_existing_user-some same_case jan_record before_sync jan finds

finds_none : find_existing_user same_case piet_record before_sync ≡ ok none
unfolding find_existing_user by_guid by_name candidates find? filter sort_by str_eq
    scalar_one_or_none
finds_none = refl

find_existing_user-none_example : (HasGuid none jan → ⊥) × (SameName same_case (str "piet") jan → ⊥)
find_existing_user-none_example =
    find_existing_user-none same_case piet_record before_sync finds_none jan (Memᴰ.head refl)

before-FreshIds : FreshIds before_sync.users before_sync.next_user_id
before-FreshIds u (Memᴰ.head e) = ground arith
before-FreshIds u (Memᴰ.tail (Memᴰ.head e)) = ground arith
before-FreshIds u (Memᴰ.tail (Memᴰ.tail m)) = elim m [ ]

syncs : run_sync 5 same_case (jan_record ∷ []) before_sync ≡ (ok counts, after_sync)
unfolding run_sync replace_user_groups filter cached scalar_one_or_none str_eq touch_group any
    find_existing_user by_guid by_name candidates find? sort_by upsert_user disable
syncs = refl

run_sync-enabled_example : jan_after.last_seen_in_sync_at ≡ some 5
run_sync-enabled_example =
    run_sync-enabled 5 same_case jan_record [] before_sync after_sync counts before-FreshIds syncs
      jan_after (Memᴰ.head refl) refl

run_sync-ids_example :
    (new : List ℕ) × (ids (run_sync 5 same_case (jan_record ∷ []) before_sync).1.users
      ≡ ids before_sync.users ++ new)
run_sync-ids_example = run_sync-ids 5 same_case (jan_record ∷ []) before_sync
