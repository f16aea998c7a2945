-- ===== src/LdapSync/Groups/Linked.antt =====
-- Where the edges that `_replace_user_groups` writes lead: to the rows of the groups with the sids of
-- the records.
use mathlib.Core.List.Memᴰ
use tacacs_web.Prelude.{
  ℕ, ◌≡◌, refl, sym, ap, ◌∙◌, subst, ◌⊎◌, inl, inr, Bool, true, false, not, Option, List, [], ◌∷◌,
  ◌++◌, Memᴰ, ◌==◌, ==_iff, any, Mem-filter, length, if◌then◌else◌,
}
use tacacs_web.Models.{UserAdGroup}
use tacacs_web.Result.{Result, ok, err, integrity_error, bind-eq-ok, ok_inj}
use tacacs_web.Db.{Db}
use tacacs_web.LdapSync.Records.{AdGroupRecord}
use tacacs_web.LdapSync.Groups.{
  GroupCache, cached, ensure_group, is_edge, add_edge, drop_edges, with_cache, link_group,
  add_groups, replace_user_groups,
}
use tacacs_web.LdapSync.Groups.Edges.{Keeps, own, ensure_group-keeps, replace_user_groups_lem}
use tacacs_web.LdapSync.Groups.Ensured.{HasGroup, CacheOk, Grows, Ensured, ensure_group-Ensured}

abbrev pub edge : ℕ → ℕ → UserAdGroup
edge user_id ad_group_id = record { user_id = user_id; ad_group_id = ad_group_id }

add_edge-added :
    (user_id ad_group_id : ℕ) (db db' : Db)
    → add_edge user_id ad_group_id db ≡ ok db'
    → record db { user_ad_groups = db.user_ad_groups ++ edge user_id ad_group_id ∷ [] } ≡ db'
unfolding add_edge
add_edge-added user_id ad_group_id db db' h =
    split (any (is_edge user_id ad_group_id) db.user_ad_groups) h
  where
    added : Db
    added = record db { user_ad_groups = db.user_ad_groups ++ edge user_id ad_group_id ∷ [] }

    split : (b : Bool) → (if b then err integrity_error else ok added) ≡ ok db' → added ≡ db'
    split true e = absurd (cc e)
    split false e = ok_inj e

ensure_group-edges :
    (now : ℕ) (gr : AdGroupRecord) (cache : GroupCache) (db : Db) (found : Option ℕ)
    (s : ℕ × GroupCache × Db)
    → ensure_group now gr cache db found ≡ ok s
    → s.2.user_ad_groups ≡ db.user_ad_groups
ensure_group-edges now gr cache db found s h = (ensure_group-keeps now gr cache db found s h).2

-- What linking the groups of some records leaves.
record Links (user_id : ℕ) (groups : List AdGroupRecord) (db : Db) (s : GroupCache × Db)
    : Type 0 where
  cache : CacheOk s.0 s.1
  grows : Grows db s.1
  kept : (e : UserAdGroup) → Memᴰ e db.user_ad_groups → Memᴰ e s.1.user_ad_groups
  linked :
      (gr : AdGroupRecord)
      → Memᴰ gr groups
      → (id : ℕ) × HasGroup gr.sid id s.1 × Memᴰ (edge user_id id) s.1.user_ad_groups
  only :
      (e : UserAdGroup)
      → Memᴰ e s.1.user_ad_groups
      → Memᴰ e db.user_ad_groups
        ⊎ ((gr : AdGroupRecord) × Memᴰ gr groups × HasGroup gr.sid e.ad_group_id s.1)

link_group-Links :
    (now user_id : ℕ) (gr : AdGroupRecord) (cache : GroupCache) (db : Db) (s : GroupCache × Db)
    → CacheOk cache db
    → link_group user_id (ensure_group now gr cache db (cached gr.sid cache)) ≡ ok s
    → Links user_id (gr ∷ []) db s
unfolding link_group
link_group-Links now user_id gr cache db s c h =
    ensured (ensure_group now gr cache db (cached gr.sid cache)) refl h
  where
    linked_by :
        (id : ℕ) (cache' : GroupCache) (db' : Db)
        → Ensured gr.sid db (id, cache', db')
        → db'.user_ad_groups ≡ db.user_ad_groups
        → Links user_id
            (gr ∷ [])
            db
            (cache', record db' { user_ad_groups = db'.user_ad_groups ++ edge user_id id ∷ [] })
    linked_by id cache' db' (g, c', grows) same = record {
      cache = λ sid i k.
          let x = c' sid i k in
          record { group = x.group; listed = x.listed; its_id = x.its_id; its_sid = x.its_sid };
      grows = λ sid i k.
          let x = grows sid i k in
          record { group = x.group; listed = x.listed; its_id = x.its_id; its_sid = x.its_sid };
      kept = λ e m. Memᴰ.append_left (edge user_id id ∷ []) (subst (λ l. Memᴰ e l) (sym same) m);
      linked = λ r m. (
        id,
        record {
          group = g.group;
          listed = g.listed;
          its_id = g.its_id;
          its_sid = g.its_sid ∙ ap (λ (x : AdGroupRecord). x.sid) (sym (Memᴰ.eq_of_singleton m));
        },
        Memᴰ.append_right db'.user_ad_groups (Memᴰ.head refl),
      );
      only = λ e m. elim (Memᴰ.append_cases db'.user_ad_groups m) [
        | inl old ↦ inl (subst (λ l. Memᴰ e l) same old)
        | inr new ↦ inr (
          gr,
          Memᴰ.head refl,
          record {
            group = g.group;
            listed = g.listed;
            its_id =
                g.its_id ∙ ap (λ (x : UserAdGroup). x.ad_group_id) (sym (Memᴰ.eq_of_singleton new));
            its_sid = g.its_sid;
          },
        )
      ];
    }

    ensured :
        (q : Result (ℕ × GroupCache × Db))
        → ensure_group now gr cache db (cached gr.sid cache) ≡ q
        → link_group user_id q ≡ ok s
        → Links user_id (gr ∷ []) db s
    ensured (err e) eq k = absurd (cc k)
    ensured (ok (id, cache', db')) eq k = written (add_edge user_id id db') refl k
      where
        written :
            (r : Result Db)
            → add_edge user_id id db' ≡ r
            → with_cache cache' r ≡ ok s
            → Links user_id (gr ∷ []) db s
        written (err x) er e = absurd (cc e)
        written (ok d) er e =
            subst (Links user_id (gr ∷ []) db)
              (ap (λ (x : Db). (cache', x)) (add_edge-added user_id id db' d er) ∙ ok_inj e)
              (linked_by id cache' db' (ensure_group-Ensured now gr cache db (id, cache', db') c eq)
                (ensure_group-edges now gr cache db (cached gr.sid cache) (id, cache', db') eq))

add_groups-Links :
    (now user_id : ℕ) (groups : List AdGroupRecord) (cache : GroupCache) (db : Db)
    (s : GroupCache × Db)
    → CacheOk cache db
    → add_groups now user_id groups cache db ≡ ok s
    → Links user_id groups db s
unfolding add_groups
add_groups-Links now user_id [] cache db s c h = subst (Links user_id [] db) (ok_inj h) (record {
  cache = c;
  grows = λ sid id g. g;
  kept = λ e m. m;
  linked = λ gr m. absurd (Memᴰ.not-nil m);
  only = λ e m. inl m;
})
add_groups-Links now user_id (gr ∷ groups) cache db s c h =
    let (t, e, f) = bind-eq-ok _ _ s h in
    let first = link_group-Links now user_id gr cache db t c e in
    let rest = add_groups-Links now user_id groups t.0 t.1 s first.cache f in
    record {
      cache = rest.cache;
      grows = λ sid id g. rest.grows sid id (first.grows sid id g);
      kept = λ x m. rest.kept x (first.kept x m);
      linked = λ r m. elim (Memᴰ.cases_cons m) [
        | inl same ↦
            let (id, g, at) = first.linked r (Memᴰ.head same) in
            (id, rest.grows r.sid id g, rest.kept (edge user_id id) at)
        | inr later ↦ rest.linked r later
      ];
      only = λ x m. elim (rest.only x m) [
        | inl before ↦ elim (first.only x before) [
          | inl old ↦ inl old
          | inr (r, mem, g) ↦
              inr (r, Memᴰ.head (Memᴰ.eq_of_singleton mem), rest.grows r.sid x.ad_group_id g)
        ]
        | inr (r, mem, g) ↦ inr (r, Memᴰ.tail mem, g)
      ];
    }

-- When the groups of a user are replaced, the users and the edges of the other users stay as they were;
-- the user has as many edges as there are group records: for each record one to the row of the group
-- with its sid, and no edge leads elsewhere. The cache, which held ids of rows with its sids, as it does when
-- it is empty, still does.
pub replace_user_groups-links :
    (now user_id : ℕ) (groups : List AdGroupRecord) (cache : GroupCache) (db : Db)
    (s : GroupCache × Db)
    → CacheOk cache db
    → replace_user_groups now user_id groups cache db ≡ ok s
    → Keeps user_id db s.1
      × (length (own user_id s.1) ≡ length groups)
      × ((gr : AdGroupRecord)
          → Memᴰ gr groups
          → (id : ℕ) × HasGroup gr.sid id s.1 × Memᴰ (edge user_id id) s.1.user_ad_groups)
      × ((e : UserAdGroup)
          → Memᴰ e s.1.user_ad_groups
          → e.user_id ≡ user_id
          → (gr : AdGroupRecord) × Memᴰ gr groups × HasGroup gr.sid e.ad_group_id s.1)
      × CacheOk s.0 s.1
unfolding replace_user_groups
replace_user_groups-links now user_id groups cache db s c h =
    let (keeps, count) = replace_user_groups_lem now user_id groups cache db s h in
    let links =
      add_groups-Links now user_id groups cache (drop_edges user_id db) s
        (λ sid id k.
          let x = c sid id k in
          record { group = x.group; listed = x.listed; its_id = x.its_id; its_sid = x.its_sid })
        h in
    (
      keeps,
      count,
      links.linked,
      λ e m own_edge. elim (links.only e m) [
        | inl old ↦
            let (_, foreign) =
              Mem-filter (λ (x : UserAdGroup). not (x.user_id == user_id)) e db.user_ad_groups
                old in
            let q = (==_iff e.user_id user_id).1 own_edge in absurd (cc (rw q at foreign))
        | inr found ↦ found
      ],
      links.cache,
    )
