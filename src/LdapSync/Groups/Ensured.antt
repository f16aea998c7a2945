-- ===== src/LdapSync/Groups/Ensured.antt =====
-- What the lookup of a group in `_replace_user_groups` leaves: a row with the sid of the record.
use mathlib.Core.List.Memᴰ
use tacacs_web.Prelude.{
  ℕ, ◌≡◌, refl, ap, ◌∙◌, subst, inl, inr, Bool, true, false, Option, none, some, [], ◌∷◌, Memᴰ, Str,
  str_eq, str_eq_iff, ◌==◌, filter, Mem-filter, Bool-cases, if◌then◌else◌,
}
use tacacs_web.Models.{AdGroup}
use tacacs_web.Result.{Result, ok, err, ok_inj}
use tacacs_web.Db.{Db, scalar_one_or_none, scalar-some}
use tacacs_web.LdapSync.Records.{AdGroupRecord}
use tacacs_web.LdapSync.Groups.{
  GroupCache, cached, new_group, insert_group, touch_group, store_group, query_group, ensure_group,
}

-- The row of the group with this sid has this id.
pub record HasGroup (sid : Str) (id : ℕ) (db : Db) : Type 0 where
  pub group : AdGroup
  pub listed : Memᴰ group db.ad_groups
  pub its_id : group.id ≡ id
  pub its_sid : group.sid ≡ sid

-- The ids that the cache holds are those of the groups' rows.
abbrev pub CacheOk : GroupCache → Db → Type 0
CacheOk cache db = (sid : Str) (id : ℕ) → cached sid cache ≡ some id → HasGroup sid id db

abbrev pub Grows : Db → Db → Type 0
Grows db db' = (sid : Str) (id : ℕ) → HasGroup sid id db → HasGroup sid id db'

-- What a lookup of a group leaves.
abbrev pub Ensured : Str → Db → ℕ × GroupCache × Db → Type 0
Ensured sid db s = HasGroup sid s.0 s.2 × CacheOk s.1 s.2 × Grows db s.2

cached-cons :
    (sid : Str) (id : ℕ) (cache : GroupCache) (db : Db)
    → HasGroup sid id db
    → CacheOk cache db
    → CacheOk ((sid, id) ∷ cache) db
unfolding cached
cached-cons sid id cache db g c sid' id' h = split (str_eq sid sid') refl h
  where
    split :
        (b : Bool)
        → str_eq sid sid' ≡ b
        → (if b then some id else cached sid' cache) ≡ some id'
        → HasGroup sid' id' db
    split true e k =
        let same : id ≡ id' = cc k in
        subst (λ t. HasGroup t id' db) ((str_eq_iff sid sid').0 e)
          (subst (λ n. HasGroup sid n db) same g)
    split false e k = c sid' id' k

insert_group-Grows : (now : ℕ) (gr : AdGroupRecord) (db : Db) → Grows db (insert_group now gr db)
insert_group-Grows now gr db sid id g = record {
  group = g.group;
  listed = Memᴰ.append_left (new_group now gr db ∷ []) g.listed;
  its_id = g.its_id;
  its_sid = g.its_sid;
}

touched : ℕ → AdGroupRecord → ℕ → AdGroup → AdGroup
touched now gr id g =
    if g.id == id
    then record g {
      distinguished_name = gr.distinguished_name;
      name = gr.name;
      last_seen_in_sync_at = some now;
    }
    else g

touched-key :
    (now : ℕ) (gr : AdGroupRecord) (id : ℕ) (g : AdGroup)
    → ((touched now gr id g).id ≡ g.id) × ((touched now gr id g).sid ≡ g.sid)
unfolding touched
touched-key now gr id g = elim (Bool-cases (g.id == id)) [
  | inl e ↦ rw e (refl, refl)
  | inr e ↦ rw e (refl, refl)
]

touch_group-Grows :
    (now : ℕ) (gr : AdGroupRecord) (n : ℕ) (db : Db)
    → Grows db (record db { ad_groups = touch_group now gr n db.ad_groups })
unfolding touch_group touched
touch_group-Grows now gr n db sid id g =
    let (p, q) = touched-key now gr n g.group in
    record {
      group = touched now gr n g.group;
      listed = Memᴰ.map (touched now gr n) g.listed;
      its_id = p ∙ g.its_id;
      its_sid = q ∙ g.its_sid;
    }

stored-Ensured :
    (now : ℕ) (gr : AdGroupRecord) (cache : GroupCache) (db db' : Db) (id : ℕ)
    → HasGroup gr.sid id db'
    → CacheOk cache db
    → Grows db db'
    → Ensured gr.sid db (id, (gr.sid, id) ∷ cache, db')
stored-Ensured now gr cache db db' id g c grows =
    (g, cached-cons gr.sid id cache db' g (λ s i h. grows s i (c s i h)), grows)

store_group-Ensured :
    (now : ℕ) (gr : AdGroupRecord) (cache : GroupCache) (db : Db) (found : Option AdGroup)
    → ((g : AdGroup) → found ≡ some g → HasGroup gr.sid g.id db)
    → CacheOk cache db
    → Ensured gr.sid db (store_group now gr cache db found)
unfolding store_group
store_group-Ensured now gr cache db none has c =
    stored-Ensured now gr cache db (insert_group now gr db) db.next_ad_group_id
      (record {
        group = new_group now gr db;
        listed = Memᴰ.append_right db.ad_groups (Memᴰ.head refl);
        its_id = refl;
        its_sid = refl;
      })
      c (insert_group-Grows now gr db)
store_group-Ensured now gr cache db (some g) has c =
    let grows = touch_group-Grows now gr g.id db in
    stored-Ensured now gr cache db (record db { ad_groups = touch_group now gr g.id db.ad_groups })
      g.id (grows gr.sid g.id (has g refl)) c grows

pub ensure_group-Ensured :
    (now : ℕ) (gr : AdGroupRecord) (cache : GroupCache) (db : Db) (s : ℕ × GroupCache × Db)
    → CacheOk cache db
    → ensure_group now gr cache db (cached gr.sid cache) ≡ ok s
    → Ensured gr.sid db s
unfolding ensure_group query_group
ensure_group-Ensured now gr cache db s c = split (cached gr.sid cache) refl
  where
    queried :
        (q : Result (Option AdGroup))
        → scalar_one_or_none (filter (λ (g : AdGroup). str_eq g.sid gr.sid) db.ad_groups) ≡ q
        → query_group now gr cache db q ≡ ok s
        → Ensured gr.sid db s
    queried (err e) eq k = absurd (cc k)
    queried (ok found) eq k = subst (Ensured gr.sid db) (ok_inj k) (
        store_group-Ensured now gr cache db found
          (λ g e.
            let m = scalar-some (filter _ db.ad_groups) g (eq ∙ ap ok e) in
            let (mem, same) = Mem-filter (λ (g : AdGroup). str_eq g.sid gr.sid) g db.ad_groups m in
            record {
              group = g;
              listed = mem;
              its_id = refl;
              its_sid = (str_eq_iff g.sid gr.sid).0 same;
            })
          c)

    split :
        (o : Option ℕ)
        → cached gr.sid cache ≡ o
        → ensure_group now gr cache db o ≡ ok s
        → Ensured gr.sid db s
    split none e k =
        queried (scalar_one_or_none (filter (λ (g : AdGroup). str_eq g.sid gr.sid) db.ad_groups))
          refl k
    split (some id) e k = subst (Ensured gr.sid db) (ok_inj k) (c gr.sid id e, c, λ sid i g. g)
