-- ===== src/LdapSync/Groups/Edges.antt =====
-- The rows behind `_replace_user_groups`: what it leaves alone and the edges it writes.
use tacacs_web.Prelude.{
  ℕ, suc, ◌+◌, ◌≡◌, refl, sym, ap, ◌∙◌, inl, inr, Bool, true, false, not, Option, none, some, List,
  [], ◌∷◌, ◌++◌, ◌==◌, ==_refl, any, filter, filter-append, length, length-append, append-nil,
  subst, arith, Bool-cases, if◌then◌else◌,
}
use tacacs_web.Models.{AdGroup, UserAdGroup}
use tacacs_web.Result.{Result, ok, err, integrity_error, bind-eq-ok, ok_inj}
use tacacs_web.Db.{Db, scalar_one_or_none}
use tacacs_web.LdapSync.Records.{AdGroupRecord}
use tacacs_web.LdapSync.Groups.{
  GroupCache, cached, store_group, query_group, ensure_group, is_edge, add_edge, drop_edges,
  with_cache, link_group, add_groups, replace_user_groups,
}

abbrev pub is_own : ℕ → UserAdGroup → Bool
is_own user_id e = e.user_id == user_id

abbrev pub own : ℕ → Db → List UserAdGroup
own user_id db = filter (is_own user_id) db.user_ad_groups

abbrev pub others : ℕ → Db → List UserAdGroup
others user_id db = filter (λ e. not (is_own user_id e)) db.user_ad_groups

-- The tables of the users, and the edges of the other users, are as they were.
abbrev pub Keeps : ℕ → Db → Db → Type 0
Keeps user_id db db' =
    (db'.users ≡ db.users)
    × (db'.next_user_id ≡ db.next_user_id)
    × (others user_id db' ≡ others user_id db)

Keeps-trans : (user_id : ℕ) (a b c : Db) → Keeps user_id a b → Keeps user_id b c → Keeps user_id a c
Keeps-trans user_id a b c (h, i, j) (h', i', j') = (h' ∙ h, i' ∙ i, j' ∙ j)

pub ensure_group-keeps :
    (now : ℕ) (gr : AdGroupRecord) (cache : GroupCache) (db : Db) (found : Option ℕ)
    (s : ℕ × GroupCache × Db)
    → ensure_group now gr cache db found ≡ ok s
    → (s.2.users ≡ db.users)
      × (s.2.next_user_id ≡ db.next_user_id)
      × (s.2.user_ad_groups ≡ db.user_ad_groups)
unfolding ensure_group query_group store_group
ensure_group-keeps now gr cache db (some id) s h =
    let e = ap (λ (t : ℕ × GroupCache × Db). t.2) (sym (ok_inj h)) in
    (
      ap (λ (d : Db). d.users) e,
      ap (λ (d : Db). d.next_user_id) e,
      ap (λ (d : Db). d.user_ad_groups) e,
    )
ensure_group-keeps now gr cache db none s h = queried (scalar_one_or_none _) h
  where
    queried :
        (q : Result (Option AdGroup))
        → query_group now gr cache db q ≡ ok s
        → (s.2.users ≡ db.users)
          × (s.2.next_user_id ≡ db.next_user_id)
          × (s.2.user_ad_groups ≡ db.user_ad_groups)
    queried (err e) k = absurd (cc k)
    queried (ok none) k =
        let e = ap (λ (t : ℕ × GroupCache × Db). t.2) (sym (ok_inj k)) in
        (
          ap (λ (d : Db). d.users) e,
          ap (λ (d : Db). d.next_user_id) e,
          ap (λ (d : Db). d.user_ad_groups) e,
        )
    queried (ok (some g)) k =
        let e = ap (λ (t : ℕ × GroupCache × Db). t.2) (sym (ok_inj k)) in
        (
          ap (λ (d : Db). d.users) e,
          ap (λ (d : Db). d.next_user_id) e,
          ap (λ (d : Db). d.user_ad_groups) e,
        )

-- A written edge is the user's own, and the primary key was free.
add_edge-eq-ok :
    (user_id ad_group_id : ℕ) (db db' : Db)
    → add_edge user_id ad_group_id db ≡ ok db'
    → Keeps user_id db db' × (length (own user_id db') ≡ suc (length (own user_id db)))
unfolding add_edge filter
add_edge-eq-ok user_id ad_group_id db db' h =
    split (any (is_edge user_id ad_group_id) db.user_ad_groups) h
  where
    edge : UserAdGroup
    edge = record { user_id = user_id; ad_group_id = ad_group_id }

    added : Db
    added = record db { user_ad_groups = db.user_ad_groups ++ edge ∷ [] }

    mine : own user_id added ≡ own user_id db ++ edge ∷ []
    mine =
        filter-append (is_own user_id) db.user_ad_groups (edge ∷ [])
        ∙ ap (λ l. own user_id db ++ l) (rw (==_refl user_id) refl)

    theirs : others user_id added ≡ others user_id db
    theirs =
        filter-append (λ e. not (is_own user_id e)) db.user_ad_groups (edge ∷ [])
        ∙ ap (λ l. others user_id db ++ l) (rw (==_refl user_id) refl)
        ∙ append-nil (others user_id db)

    longer : length (own user_id added) ≡ suc (length (own user_id db))
    longer = ap length mine ∙ length-append (own user_id db) (edge ∷ []) ∙ omega arith

    split :
        (b : Bool)
        → (if b then err integrity_error else ok added) ≡ ok db'
        → Keeps user_id db db' × (length (own user_id db') ≡ suc (length (own user_id db)))
    split true e = absurd (cc e)
    split false e =
        subst (λ d. Keeps user_id db d × (length (own user_id d) ≡ suc (length (own user_id db))))
          (ok_inj e) ((refl, refl, theirs), longer)

link_group-eq-ok :
    (now user_id : ℕ) (gr : AdGroupRecord) (cache : GroupCache) (db : Db) (s : GroupCache × Db)
    → link_group user_id (ensure_group now gr cache db (cached gr.sid cache)) ≡ ok s
    → Keeps user_id db s.1 × (length (own user_id s.1) ≡ suc (length (own user_id db)))
unfolding link_group
link_group-eq-ok now user_id gr cache db s h =
    ensured (ensure_group now gr cache db (cached gr.sid cache)) refl h
  where
    ensured :
        (q : Result (ℕ × GroupCache × Db))
        → ensure_group now gr cache db (cached gr.sid cache) ≡ q
        → link_group user_id q ≡ ok s
        → Keeps user_id db s.1 × (length (own user_id s.1) ≡ suc (length (own user_id db)))
    ensured (err e) eq k = absurd (cc k)
    ensured (ok (id, cache', db')) eq k =
        let (users, next, edges) = ensure_group-keeps now gr cache db _ (id, cache', db') eq in
        let (keeps, longer) =
          add_edge-eq-ok user_id id db' s.1 (added (add_edge user_id id db') k) in
        (
          Keeps-trans user_id db db' s.1
              (users, next, ap (filter (λ e. not (is_own user_id e))) edges) keeps,
          longer ∙ ap (λ l. suc (length (filter (is_own user_id) l))) edges,
        )
      where
        added : (q : Result Db) → with_cache cache' q ≡ ok s → q ≡ ok s.1
        added (ok d) e = ap (λ (t : GroupCache × Db). ok t.1) (ok_inj e)
        added (err x) e = absurd (cc e)

add_groups-eq-ok :
    (now user_id : ℕ) (groups : List AdGroupRecord) (cache : GroupCache) (db : Db)
    (s : GroupCache × Db)
    → add_groups now user_id groups cache db ≡ ok s
    → Keeps user_id db s.1 × (length (own user_id s.1) ≡ length groups + length (own user_id db))
unfolding add_groups
add_groups-eq-ok now user_id [] cache db s h =
    let e = ap (λ (t : GroupCache × Db). t.1) (sym (ok_inj h)) in
    (
      subst (Keeps user_id db) (sym e) (refl, refl, refl),
      ap (λ d. length (own user_id d)) e ∙ omega arith,
    )
add_groups-eq-ok now user_id (gr ∷ groups) cache db s h =
    let (t, e, f) = bind-eq-ok _ _ s h in
    let (keeps, one) = link_group-eq-ok now user_id gr cache db t e in
    let (keeps', more) = add_groups-eq-ok now user_id groups t.0 t.1 s f in
    (Keeps-trans user_id db t.1 s.1 keeps keeps', omega (arith, one, more))

-- When the groups of a user are replaced, the users and the edges of the other users stay as they
-- were, and the user has exactly one edge for each group record, none from before.
pub replace_user_groups_lem :
    (now user_id : ℕ) (groups : List AdGroupRecord) (cache : GroupCache) (db : Db)
    (s : GroupCache × Db)
    → replace_user_groups now user_id groups cache db ≡ ok s
    → Keeps user_id db s.1 × (length (own user_id s.1) ≡ length groups)
unfolding replace_user_groups filter
replace_user_groups_lem now user_id groups cache db s h =
    let (keeps, count) = add_groups-eq-ok now user_id groups cache (drop_edges user_id db) s h in
    (
      Keeps-trans user_id db (drop_edges user_id db) s.1 (refl, refl, again db.user_ad_groups)
          keeps,
      count ∙ ap (λ n. length groups + n) (ap length (gone db.user_ad_groups)) ∙ omega arith,
    )
  where
    again :
        (edges : List UserAdGroup)
        → filter (λ e. not (is_own user_id e)) (filter (λ e. not (is_own user_id e)) edges)
          ≡ filter (λ e. not (is_own user_id e)) edges
    again [] = refl
    again (e ∷ edges) = elim (Bool-cases (is_own user_id e)) [
      | inl h ↦ rw h (again edges)
      | inr h ↦ rw h (rw h (ap (λ l. e ∷ l) (again edges)))
    ]

    gone :
        (edges : List UserAdGroup)
        → filter (is_own user_id) (filter (λ e. not (is_own user_id e)) edges) ≡ []
    gone [] = refl
    gone (e ∷ edges) = elim (Bool-cases (is_own user_id e)) [
      | inl h ↦ rw h (gone edges)
      | inr h ↦ rw h (rw h (gone edges))
    ]
