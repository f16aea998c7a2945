-- ===== src/Result.antt =====
-- Outcomes of operations that may raise. An `HTTPException` carries its status and its detail; the
-- other exceptions are those of the standard library and of the packages that the code meets.
use tacacs_web.Prelude.{ℕ, Str, ◌≡◌, refl, ap, subst, Bool, true, false, Option, none, some}

pub data Exc : Type 0 where
  http : ℕ → Str → Exc
  value_error type_error multiple_results_found integrity_error ldap_error runtime_error os_error
        argon2_error :
      Exc

pub data Result {ℓ} (A : Type ℓ) : Type ℓ where
  ok : A → Result A
  err : Exc → Result A

-- The rest of a handler behind a step that may raise: what was not committed before is lost.
abbrev pub or_rollback {ℓ κ} :
    {A B : Type ℓ} {S : Type κ} → S → Result A → (A → Result B × S) → Result B × S
or_rollback s (ok a) k = k a
or_rollback s (err e) k = (err e, s)

abbrev pub bind {ℓ κ} : {A : Type ℓ} {B : Type κ} → Result A → (A → Result B) → Result B
bind (ok a) f = f a
bind (err e) f = err e

infixl 5 ◌>>=◌ ◌>>◌
-- The same, shut, for the `do` blocks of the handlers.
unfoldable pub ◌>>=◌ {ℓ κ} : {A : Type ℓ} {B : Type κ} → Result A → (A → Result B) → Result B
m >>= f = bind m f

abbrev pub ◌>>◌ {ℓ} : {B : Type ℓ} → Result (Unit {0}) → Result B → Result B
m >> k = m >>= λ _. k

-- `if not …: raise`
abbrev pub guard : Bool → Exc → Result (Unit {0})
guard true e = ok tt
guard false e = err e

-- The row that a query found, or an exception.
abbrev pub or_raise {ℓ} : {A : Type ℓ} → Exc → Option A → Result A
or_raise e none = err e
or_raise e (some a) = ok a

-- `except IntegrityError: … raise HTTPException(409, detail)`
abbrev pub on_conflict {ℓ} : {A : Type ℓ} → Str → Result A → Result A
on_conflict detail (ok a) = ok a
on_conflict detail (err integrity_error) = err (http 409 detail)
on_conflict detail (err e) = err e

pub ok_inj {ℓ} : {A : Type ℓ} {a b : A} → ok a ≡ ok b → a ≡ b
ok_inj h = cc h

-- A chain that returns has a first step that returns.
pub bind-eq-ok {ℓ κ} :
    {A : Type ℓ} {B : Type κ} (x : Result A) (f : A → Result B) (b : B)
    → bind x f ≡ ok b
    → (a : A) × (x ≡ ok a) × (f a ≡ ok b)
bind-eq-ok (ok a) f b h = (a, refl, h)
bind-eq-ok (err e) f b h = absurd (cc h)

pub guard-eq-ok : (b : Bool) (e : Exc) (u : Unit {0}) → guard b e ≡ ok u → b ≡ true
guard-eq-ok true e u h = refl
guard-eq-ok false e u h = absurd (cc h)

pub or_raise-eq-ok {ℓ} :
    {A : Type ℓ} (e : Exc) (o : Option A) (a : A) → or_raise e o ≡ ok a → o ≡ some a
or_raise-eq-ok e none a h = absurd (cc h)
or_raise-eq-ok e (some b) a h = ap some (ok_inj h)

pub on_conflict-eq-ok {ℓ} :
    {A : Type ℓ} (detail : Str) (r : Result A) (a : A) → on_conflict detail r ≡ ok a → r ≡ ok a
on_conflict-eq-ok detail (ok b) a h = h
on_conflict-eq-ok detail (err (http n d)) a h = absurd (cc h)
on_conflict-eq-ok detail (err value_error) a h = absurd (cc h)
on_conflict-eq-ok detail (err type_error) a h = absurd (cc h)
on_conflict-eq-ok detail (err multiple_results_found) a h = absurd (cc h)
on_conflict-eq-ok detail (err integrity_error) a h = absurd (cc h)
on_conflict-eq-ok detail (err ldap_error) a h = absurd (cc h)
on_conflict-eq-ok detail (err runtime_error) a h = absurd (cc h)
on_conflict-eq-ok detail (err os_error) a h = absurd (cc h)
on_conflict-eq-ok detail (err argon2_error) a h = absurd (cc h)

-- What holds of the value, if the chain returns one.
pub record Ensures {ℓ κ} {A : Type ℓ} (P : A → Type κ) (r : Result A) : Type (ℓ ⊔ κ) where
  pub at : (a : A) → r ≡ ok a → P a

pub Ensures-ok {ℓ κ} : {A : Type ℓ} (P : A → Type κ) (a : A) → P a → Ensures P (ok a)
Ensures-ok P a p = record { at = λ b h. subst P (ok_inj h) p }

-- The rest of the chain may use what the first step returned.
pub Ensures->>= {ℓ κ μ} :
    {A : Type ℓ} {B : Type κ} {P : B → Type μ} (m : Result A) (f : A → Result B)
    → ((a : A) → m ≡ ok a → Ensures P (f a))
    → Ensures P (m >>= f)
unfolding ◌>>=◌
Ensures->>= (ok a) f k = k a refl
Ensures->>= (err e) f k = record { at = λ b h. absurd (cc h) }

pub >>=-eq-ok {ℓ κ} :
    {A : Type ℓ} {B : Type κ} (m : Result A) (f : A → Result B) (b : B)
    → (m >>= f) ≡ ok b
    → (a : A) × (m ≡ ok a) × (f a ≡ ok b)
unfolding ◌>>=◌
>>=-eq-ok m f b h = bind-eq-ok m f b h
