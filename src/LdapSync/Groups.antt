-- ===== src/LdapSync/Groups.antt =====
-- `_replace_user_groups` of backend/app/ldap_sync/sync.py. `groups_by_sid` gives the id of a group's row.
pub mod Edges
pub mod Ensured
pub mod Linked
use tacacs_web.Prelude.{
  ℕ, ◌+◌, Bool, not, ◌&&◌, Option, none, some, List, [], ◌∷◌, ◌++◌, map, Str, str_eq, ◌==◌, any,
  filter, length, if◌then◌else◌,
}
use tacacs_web.Models.{AdGroup, UserAdGroup}
use tacacs_web.Result.{Result, ok, err, integrity_error, bind}
use tacacs_web.Db.{Db, scalar_one_or_none}
use tacacs_web.LdapSync.Records.{AdGroupRecord}

abbrev pub GroupCache : Type 0
GroupCache = List (Str × ℕ)

unfoldable pub cached : Str → GroupCache → Option ℕ
cached sid [] = none
cached sid ((s, id) ∷ cache) = let rest = cached sid cache in if str_eq s sid then some id else rest

abbrev new_group : ℕ → AdGroupRecord → Db → AdGroup
new_group now gr db = record {
  id = db.next_ad_group_id;
  sid = gr.sid;
  distinguished_name = gr.distinguished_name;
  name = gr.name;
  last_seen_in_sync_at = some now;
  created_at = now;
}

abbrev insert_group : ℕ → AdGroupRecord → Db → Db
insert_group now gr db = record db {
  ad_groups = db.ad_groups ++ new_group now gr db ∷ [];
  next_ad_group_id = db.next_ad_group_id + 1;
}

-- `group.distinguished_name = …`, `group.name = …`, `group.last_seen_in_sync_at = now`
unfoldable pub touch_group : ℕ → AdGroupRecord → ℕ → List AdGroup → List AdGroup
touch_group now gr id groups =
    map
      (λ (g : AdGroup).
        if g.id == id
        then record g {
          distinguished_name = gr.distinguished_name;
          name = gr.name;
          last_seen_in_sync_at = some now;
        }
        else g)
      groups

-- The id of the group's row, the cache and the database behind the insertion or the update.
store_group : ℕ → AdGroupRecord → GroupCache → Db → Option AdGroup → ℕ × GroupCache × Db
unfolding touch_group
store_group now gr cache db none =
    (db.next_ad_group_id, (gr.sid, db.next_ad_group_id) ∷ cache, insert_group now gr db)
store_group now gr cache db (some g) =
    (g.id, (gr.sid, g.id) ∷ cache, record db { ad_groups = touch_group now gr g.id db.ad_groups })

query_group :
    ℕ → AdGroupRecord → GroupCache → Db → Result (Option AdGroup) → Result (ℕ × GroupCache × Db)
unfolding store_group
query_group now gr cache db (ok found) = ok (store_group now gr cache db found)
query_group now gr cache db (err e) = err e

pub ensure_group : ℕ → AdGroupRecord → GroupCache → Db → Option ℕ → Result (ℕ × GroupCache × Db)
unfolding query_group
ensure_group now gr cache db (some id) = ok (id, cache, db)
ensure_group now gr cache db none =
    query_group now gr cache db
      (scalar_one_or_none (filter (λ (g : AdGroup). str_eq g.sid gr.sid) db.ad_groups))

abbrev pub is_edge : ℕ → ℕ → UserAdGroup → Bool
is_edge user_id ad_group_id e = (e.user_id == user_id) && (e.ad_group_id == ad_group_id)

-- The two ids are the primary key of the table.
add_edge : ℕ → ℕ → Db → Result Db
add_edge user_id ad_group_id db =
    if any (is_edge user_id ad_group_id) db.user_ad_groups
    then err integrity_error
    else ok (record db {
      user_ad_groups =
          db.user_ad_groups ++ record { user_id = user_id; ad_group_id = ad_group_id } ∷ [];
    })

abbrev pub drop_edges : ℕ → Db → Db
drop_edges user_id db = record db {
  user_ad_groups = filter (λ (e : UserAdGroup). not (e.user_id == user_id)) db.user_ad_groups;
}

with_cache : GroupCache → Result Db → Result (GroupCache × Db)
with_cache cache (ok db) = ok (cache, db)
with_cache cache (err e) = err e

link_group : ℕ → Result (ℕ × GroupCache × Db) → Result (GroupCache × Db)
unfolding add_edge with_cache
link_group user_id (ok (id, cache, db)) = with_cache cache (add_edge user_id id db)
link_group user_id (err e) = err e

add_groups : ℕ → ℕ → List AdGroupRecord → GroupCache → Db → Result (GroupCache × Db)
unfolding cached ensure_group link_group
add_groups now user_id [] cache db = ok (cache, db)
add_groups now user_id (gr ∷ groups) cache db =
    bind (link_group user_id (ensure_group now gr cache db (cached gr.sid cache)))
      λ s. add_groups now user_id groups s.0 s.1

-- `_replace_user_groups`, whose result is the number of the records.
unfoldable pub replace_user_groups :
    ℕ → ℕ → List AdGroupRecord → GroupCache → Db → Result (GroupCache × Db)
unfolding add_groups
replace_user_groups now user_id groups cache db =
    add_groups now user_id groups cache (drop_edges user_id db)
