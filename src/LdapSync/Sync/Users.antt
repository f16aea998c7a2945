-- ===== src/LdapSync/Sync/Users.antt =====
-- The users behind a run of the synchronisation: who is enabled, and which rows there are.
use mathlib.Core.List.Memᴰ
use tacacs_web.Prelude.{
  ℕ, suc, ◌≡◌, refl, sym, ap, ◌∙◌, subst, ◌⊎◌, inl, inr, Bool, true, false, some, List, [], ◌∷◌,
  ◌++◌, append_assoc, append-nil, ◌==◌, any, Memᴰ, arith, Bool-cases, if◌then◌else◌, length,
  length-append,
}
use tacacs_web.Models.{User}
use tacacs_web.Result.{Result, ok, err, or_rollback, bind-eq-ok, ok_inj}
use tacacs_web.Db.{Db}
use tacacs_web.Mavis.Rpc.{Casing}
use tacacs_web.LdapSync.Records.{AdUserRecord, SyncResult, start_result}
use tacacs_web.LdapSync.Sync.{
  SyncState, sync_users, is_stale, disable, disable_stale, finish, run_sync,
}
use tacacs_web.LdapSync.Sync.Turns.{
  FreshIds, SeenAreCurrent, Turn, ids, Upsert-FreshIds, Upsert-SeenAreCurrent, ids-Upsert,
  sync_user-Turn,
}

-- What holds at each turn of the loop: the ids are fresh and the seen rows are current.
abbrev Inv : ℕ → SyncState → Type 0
Inv now s = FreshIds s.db.users s.db.next_user_id × SeenAreCurrent now s.seen_user_ids s.db.users

Turn-Inv : (now : ℕ) (s s' : SyncState) → Turn now s s' → Inv now s → Inv now s'
Turn-Inv now s s' (id, db, step, users, next, seen) (fresh, current) = (
  subst2 FreshIds (sym users) (sym next) (Upsert-FreshIds now id s.db db step fresh),
  subst2 (SeenAreCurrent now) (sym seen) (sym users)
      (Upsert-SeenAreCurrent now id s.seen_user_ids s.db db step fresh current),
)
  where
    subst2 :
        {A B : Type 0} (P : A → B → Type 0) {a a' : A} {b b' : B}
        → a ≡ a'
        → b ≡ b'
        → P a b
        → P a' b'
    subst2 P {a} {a'} {b} {b'} p q x = subst (P a') q (subst (λ z. P z b) p x)

sync_users-Inv :
    (now : ℕ) (casing : Casing) (records : List AdUserRecord) (s s' : SyncState)
    → sync_users now casing records s ≡ ok s'
    → Inv now s
    → Inv now s'
unfolding sync_users
sync_users-Inv now casing [] s s' h inv = subst (Inv now) (ok_inj h) inv
sync_users-Inv now casing (r ∷ records) s s' h inv =
    let (t, e, f) = bind-eq-ok _ _ s' h in
    sync_users-Inv now casing records t s' f
      (Turn-Inv now s t (sync_user-Turn now casing r s t e) inv)

sync_users-ids :
    (now : ℕ) (casing : Casing) (records : List AdUserRecord) (s s' : SyncState)
    → sync_users now casing records s ≡ ok s'
    → (new : List ℕ) × (ids s'.db.users ≡ ids s.db.users ++ new)
unfolding sync_users
sync_users-ids now casing [] s s' h =
    ([], ap (λ (x : SyncState). ids x.db.users) (sym (ok_inj h)) ∙ sym (append-nil _))
sync_users-ids now casing (r ∷ records) s s' h =
    let (t, e, f) = bind-eq-ok _ _ s' h in
    let (id, db, step, users, next, seen) = sync_user-Turn now casing r s t e in
    let (one, p) = ids-Upsert now id s.db db step in
    let (more, q) = sync_users-ids now casing records t s' f in
    (
      one ++ more,
      q
          ∙ ap (λ l. ids l ++ more) users
          ∙ ap (λ l. l ++ more) p
          ∙ append_assoc (ids s.db.users) one more,
    )

-- The first record leaves a seen id, and the others keep it.
sync_users-seen :
    (now : ℕ) (casing : Casing) (records : List AdUserRecord) (s s' : SyncState)
    → sync_users now casing records s ≡ ok s'
    → (earlier : List ℕ) × (s'.seen_user_ids ≡ earlier ++ s.seen_user_ids)
      × (length earlier ≡ length records)
unfolding sync_users
sync_users-seen now casing [] s s' h =
    ([], ap (λ (x : SyncState). x.seen_user_ids) (sym (ok_inj h)), refl)
sync_users-seen now casing (r ∷ records) s s' h =
    let (t, e, f) = bind-eq-ok _ _ s' h in
    let (id, db, step, users, next, seen) = sync_user-Turn now casing r s t e in
    let (earlier, q, n) = sync_users-seen now casing records t s' f in
    (
      earlier ++ id ∷ [],
      q ∙ ap (λ l. earlier ++ l) seen ∙ sym (append_assoc earlier (id ∷ []) s.seen_user_ids),
      length-append earlier (id ∷ []) ∙ omega (arith, n),
    )

ids-disable :
    (now : ℕ) (stale : User → Bool) (users : List User) → ids (disable now stale users) ≡ ids users
unfolding disable
ids-disable now stale [] = refl
ids-disable now stale (u ∷ users) = elim (Bool-cases (stale u)) [
  | inl h ↦ rw h (ap (λ l. u.id ∷ l) (ids-disable now stale users))
  | inr h ↦ rw h (ap (λ l. u.id ∷ l) (ids-disable now stale users))
]

-- A row that is enabled behind the pass was there before it, and its id was seen.
disable-enabled :
    (now : ℕ) (seen : List ℕ) (users : List User) (u : User)
    → Memᴰ u (disable now (is_stale seen) users)
    → u.enabled ≡ true
    → Memᴰ u users × (any (λ i. i == u.id) seen ≡ true)
unfolding disable
disable-enabled now seen users u m on =
    let (x, mx, e) = Memᴰ.of_map (off now) users m in was x mx e (Bool-cases (is_stale seen x))
  where
    off : ℕ → User → User
    off now x = if is_stale seen x then record x { enabled = false; updated_at = now } else x

    was :
        (x : User)
        → Memᴰ x users
        → off now x ≡ u
        → (is_stale seen x ≡ true) ⊎ (is_stale seen x ≡ false)
        → Memᴰ u users × (any (λ i. i == u.id) seen ≡ true)
    was x mx e (inl h) = absurd (cc (ap (λ (v : User). v.enabled) (rw h at e), on))
    was x mx e (inr h) =
        let q = rw h at e in
        let on' = ap (λ (v : User). v.enabled) q ∙ on in
        (
          subst (λ v. Memᴰ v users) q mx,
          ap (λ (v : User). any (λ i. i == v.id) seen) (sym q) ∙ ground (arith, h, on'),
        )

-- Behind a successful run that fetched a user, every enabled user was fetched by this run: the users
-- that disappeared from the directory are disabled. The ids of the rows are below the next id.
pub run_sync-enabled :
    (now : ℕ) (casing : Casing) (r : AdUserRecord) (records : List AdUserRecord) (db db' : Db)
    (result : SyncResult)
    → FreshIds db.users db.next_user_id
    → run_sync now casing (r ∷ records) db ≡ (ok result, db')
    → (u : User) → Memᴰ u db'.users
    → u.enabled ≡ true
    → u.last_seen_in_sync_at ≡ some now
unfolding run_sync finish any
run_sync-enabled now casing r records db db' result fresh h u m on =
    done (sync_users now casing (r ∷ records) start) refl h
  where
    start : SyncState
    start = record { db = db; result = start_result now; groups_by_sid = []; seen_user_ids = [] }

    empty : Inv now start
    empty = (fresh, λ v mv k. absurd (cc k))

    passed :
        (s : SyncState) (seen : List ℕ)
        → s.seen_user_ids ≡ seen
        → length seen ≡ suc (length records)
        → Inv now s
        → db'.users ≡ disable_stale now seen s.db.users
        → u.last_seen_in_sync_at ≡ some now
    passed s [] e n inv f = absurd (omega (arith, n))
    passed s (i ∷ seen) e n inv f =
        let (old, k) = disable-enabled now (i ∷ seen) s.db.users u (subst (λ l. Memᴰ u l) f m) on in
        (inv.1 u old (ap (any (λ i. i == u.id)) e ∙ k)).1

    done :
        (q : Result SyncState)
        → sync_users now casing (r ∷ records) start ≡ q
        → or_rollback db q (finish now) ≡ (ok result, db')
        → u.last_seen_in_sync_at ≡ some now
    done (err e) f k = absurd (cc (ap (λ (t : Result SyncResult × Db). t.0) k))
    done (ok s) f k =
        let (earlier, q, n) = sync_users-seen now casing (r ∷ records) start s f in
        passed s s.seen_user_ids refl (ap length (q ∙ append-nil earlier) ∙ n ∙ omega arith)
          (sync_users-Inv now casing (r ∷ records) start s f empty)
          (ap (λ (t : Result SyncResult × Db). t.1.users) (sym k))

-- A run never deletes a row: the users of before are all there, in their order, with new rows only
-- behind them, whether the run succeeds or fails.
pub run_sync-ids :
    (now : ℕ) (casing : Casing) (records : List AdUserRecord) (db : Db)
    → (new : List ℕ) × (ids (run_sync now casing records db).1.users ≡ ids db.users ++ new)
unfolding run_sync finish disable_stale
run_sync-ids now casing records db = done (sync_users now casing records start) refl
  where
    start : SyncState
    start = record { db = db; result = start_result now; groups_by_sid = []; seen_user_ids = [] }

    same : (seen : List ℕ) (users : List User) → ids (disable_stale now seen users) ≡ ids users
    same [] users = refl
    same (i ∷ seen) users = ids-disable now (is_stale (i ∷ seen)) users

    done :
        (q : Result SyncState)
        → sync_users now casing records start ≡ q
        → (new : List ℕ) × (ids (or_rollback db q (finish now)).1.users ≡ ids db.users ++ new)
    done (err e) f = ([], sym (append-nil (ids db.users)))
    done (ok s) f =
        let (new, q) = sync_users-ids now casing records start s f in
        (new, same s.seen_user_ids s.db.users ∙ q)
