-- ===== src/Syslog/Config/Store.antt =====
-- A setting is read back as it was written, and the other settings are as before.
use tacacs_web.Prelude.{
  ℕ, ◌≡◌, refl, sym, ap, ◌∙◌, Bool, true, false, Option, none, some, List, [], ◌∷◌, ◌++◌, map, Str,
  str_eq, eq_of_str_eq, str_eq_refl, str_eq_iff, not, filter, find?, any, if◌then◌else◌, arith,
}
use tacacs_web.Models.{SystemSetting}
use tacacs_web.Db.{Db, read_setting}
use tacacs_web.Syslog.Config.{assign, write_setting}

abbrev value_of : Option SystemSetting → Option Str
value_of none = none
value_of (some s) = some s.value

abbrev lookup : Str → List SystemSetting → Option Str
lookup key settings = value_of (find? (λ (s : SystemSetting). str_eq s.key key) settings)

abbrev put : ℕ → Str → Str → SystemSetting → SystemSetting
put now key value s = if str_eq s.key key then assign now value s else s

read_setting-lookup : (db : Db) (key : Str) → read_setting db key ≡ lookup key db.settings
unfolding read_setting
read_setting-lookup db key = found (find? _ db.settings)
  where
    found :
        (o : Option SystemSetting) → (elim o [ none ↦ none | some s ↦ some s.value ]) ≡ value_of o
    found none = refl
    found (some s) = refl

put-key : (now : ℕ) (key value : Str) (s : SystemSetting) → (put now key value s).key ≡ s.key
put-key now key value s = split (str_eq s.key key) (str_eq s.value value)
  where
    split :
        (b c : Bool)
        → (if b then (if c then s else record s { value = value; updated_at = now }) else s).key
          ≡ s.key
    split true true = refl
    split true false = refl
    split false c = refl

put-value :
    (now : ℕ) (key value : Str) (s : SystemSetting)
    → str_eq s.key key ≡ true
    → (put now key value s).value ≡ value
put-value now key value s h = rw h (split (str_eq s.value value) refl)
  where
    split :
        (c : Bool)
        → str_eq s.value value ≡ c
        → (if c then s else record s { value = value; updated_at = now }).value ≡ value
    split true e = eq_of_str_eq s.value value e
    split false e = refl

lookup-cons :
    (key : Str) (s : SystemSetting) (settings : List SystemSetting)
    → lookup key (s ∷ settings) ≡ (if str_eq s.key key then some s.value else lookup key settings)
unfolding find?
lookup-cons key s settings = split (str_eq s.key key) (find? _ settings)
  where
    split :
        (b : Bool) (o : Option SystemSetting)
        → value_of (if b then some s else o) ≡ (if b then some s.value else value_of o)
    split true o = refl
    split false o = refl

lookup-put :
    (now : ℕ) (key value : Str) (settings : List SystemSetting)
    → any (λ (s : SystemSetting). str_eq s.key key) settings ≡ true
    → lookup key (map (put now key value) settings) ≡ some value
unfolding any
lookup-put now key value [] h = absurd (cc h)
lookup-put now key value (s ∷ settings) h =
    lookup-cons key (put now key value s) (map (put now key value) settings)
    ∙ ap
        (λ k.
          if str_eq k key
          then some (put now key value s).value
          else lookup key (map (put now key value) settings))
        (put-key now key value s)
    ∙ split (str_eq s.key key) refl (lookup-put now key value settings)
  where
    split :
        (b : Bool)
        → str_eq s.key key ≡ b
        → (any (λ (s : SystemSetting). str_eq s.key key) settings ≡ true
            → lookup key (map (put now key value) settings) ≡ some value)
        → (if b
            then some (put now key value s).value
            else lookup key (map (put now key value) settings))
          ≡ some value
    split true e again = ap some (put-value now key value s e)
    split false e again = again (ground (arith, e, h))

lookup-put_other :
    (now : ℕ) (key other value : Str) (settings : List SystemSetting)
    → str_eq key other ≡ false
    → lookup other (map (put now key value) settings) ≡ lookup other settings
lookup-put_other now key other value [] h = refl
lookup-put_other now key other value (s ∷ settings) h =
    lookup-cons other (put now key value s) (map (put now key value) settings)
    ∙ ap
        (λ k.
          if str_eq k other
          then some (put now key value s).value
          else lookup other (map (put now key value) settings))
        (put-key now key value s)
    ∙ ap (λ l. if str_eq s.key other then some (put now key value s).value else l)
        (lookup-put_other now key other value settings h)
    ∙ split (str_eq s.key other) refl (str_eq s.key key) refl
    ∙ sym (lookup-cons other s settings)
  where
    split :
        (b : Bool)
        → str_eq s.key other ≡ b
        → (c : Bool) → str_eq s.key key ≡ c
        → (if b then some (if c then assign now value s else s).value else lookup other settings)
          ≡ (if b then some s.value else lookup other settings)
    split false e c f = refl
    split true e false f = refl
    split true e true f = absurd (cc (ap (λ k. str_eq k other) (eq_of_str_eq s.key key f), e, h))

lookup-append :
    (key : Str) (settings : List SystemSetting) (new : SystemSetting)
    → any (λ (s : SystemSetting). str_eq s.key key) settings ≡ false
    → lookup key (settings ++ new ∷ []) ≡ (if str_eq new.key key then some new.value else none)
unfolding any find?
lookup-append key [] new h = lookup-cons key new []
lookup-append key (s ∷ settings) new h =
    lookup-cons key s (settings ++ new ∷ [])
    ∙ split (str_eq s.key key) refl (lookup-append key settings new)
  where
    split :
        (b : Bool)
        → str_eq s.key key ≡ b
        → (any (λ (s : SystemSetting). str_eq s.key key) settings ≡ false
            → lookup key (settings ++ new ∷ [])
              ≡ (if str_eq new.key key then some new.value else none))
        → (if b then some s.value else lookup key (settings ++ new ∷ []))
          ≡ (if str_eq new.key key then some new.value else none)
    split true e again = absurd (ground (arith, e, h))
    split false e again = again (ground (arith, e, h))

lookup-append_other :
    (key : Str) (settings : List SystemSetting) (new : SystemSetting)
    → str_eq new.key key ≡ false
    → lookup key (settings ++ new ∷ []) ≡ lookup key settings
lookup-append_other key [] new h = lookup-cons key new [] ∙ rw h refl
lookup-append_other key (s ∷ settings) new h =
    lookup-cons key s (settings ++ new ∷ [])
    ∙ ap (λ l. if str_eq s.key key then some s.value else l)
        (lookup-append_other key settings new h)
    ∙ sym (lookup-cons key s settings)

pub read_setting-write_setting :
    (now : ℕ) (key value : Str) (db : Db)
    → read_setting (write_setting now key (some value) db) key ≡ some value
unfolding write_setting
read_setting-write_setting now key value db =
    split (any (λ (s : SystemSetting). str_eq s.key key) db.settings) refl
  where
    new : SystemSetting
    new = record { key = key; value = value; updated_at = now }

    split :
        (b : Bool)
        → any (λ (s : SystemSetting). str_eq s.key key) db.settings ≡ b
        → read_setting
            (if b
              then record db { settings = map (put now key value) db.settings }
              else record db { settings = db.settings ++ new ∷ [] })
            key
          ≡ some value
    split true e = read_setting-lookup _ key ∙ lookup-put now key value db.settings e
    split false e =
        read_setting-lookup _ key ∙ lookup-append key db.settings new e ∙ rw (str_eq_refl key) refl

pub read_setting-write_setting_other :
    (now : ℕ) (key other value : Str) (db : Db)
    → str_eq key other ≡ false
    → read_setting (write_setting now key (some value) db) other ≡ read_setting db other
unfolding write_setting
read_setting-write_setting_other now key other value db h =
    split (any (λ (s : SystemSetting). str_eq s.key key) db.settings)
  where
    new : SystemSetting
    new = record { key = key; value = value; updated_at = now }

    split :
        (b : Bool)
        → read_setting
            (if b
              then record db { settings = map (put now key value) db.settings }
              else record db { settings = db.settings ++ new ∷ [] })
            other
          ≡ read_setting db other
    split true =
        read_setting-lookup _ other
        ∙ lookup-put_other now key other value db.settings h
        ∙ sym (read_setting-lookup db other)
    split false =
        read_setting-lookup _ other
        ∙ lookup-append_other other db.settings new h
        ∙ sym (read_setting-lookup db other)

find?-filter {ℓ} :
    {A : Type ℓ} (p q : A → Bool) (xs : List A)
    → ((a : A) → p a ≡ true → q a ≡ true)
    → find? p (filter q xs) ≡ find? p xs
unfolding find? filter
find?-filter p q [] h = refl
find?-filter p q (x ∷ xs) h = split (q x) (p x) refl refl (find?-filter p q xs h)
  where
    split :
        (b c : Bool)
        → q x ≡ b
        → p x ≡ c
        → find? p (filter q xs) ≡ find? p xs
        → find? p (if b then x ∷ filter q xs else filter q xs)
          ≡ (if p x then some x else find? p xs)
    split true c e f ih = ap (λ t. if p x then some x else t) ih
    split false true e f ih = absurd (cc (h x f, e))
    split false false e f ih = ih ∙ rw f refl

-- A deleted setting leaves the others.
pub read_setting-delete_other :
    (now : ℕ) (key other : Str) (db : Db)
    → str_eq key other ≡ false
    → read_setting (write_setting now key none db) other ≡ read_setting db other
unfolding write_setting read_setting
read_setting-delete_other now key other db h =
    ap (λ (o : Option SystemSetting). elim o [ none ↦ none | some s ↦ some s.value ])
      (find?-filter (λ (s : SystemSetting). str_eq s.key other)
        (λ (s : SystemSetting). not (str_eq s.key key)) db.settings apart)
  where
    apart : (s : SystemSetting) → str_eq s.key other ≡ true → not (str_eq s.key key) ≡ true
    apart s e = split (str_eq s.key key) refl
      where
        split : (b : Bool) → str_eq s.key key ≡ b → not b ≡ true
        split true f = absurd (
            cc (
              (str_eq_iff key other).1
                  (sym ((str_eq_iff s.key key).0 f) ∙ (str_eq_iff s.key other).0 e),
              h,
            ))
        split false f = refl
