-- ===== src/NasConfig/Render/Labels.antt =====
-- The labels of the `host` blocks cannot break the configuration's grammar.
use tacacs_web.Prelude.{
  ℕ, ◌≡◌, ◌≢◌, refl, inl, inr, Bool, true, false, List, [], ◌∷◌, ◌++◌, Str, arith, All, All-append,
  Bool-cases, decimal, decimal-digits, is_digit, any, str_eq, ◌==◌,
}
use tacacs_web.Models.{Device}
use tacacs_web.NasConfig.Render.{
  is_safe_char, sub_unsafe, collapse, lstrip, rstrip, rstrip_cons, or_dev, safe_block_name, label,
  underscore,
}

abbrev pub AllSafe : Str → Type 0
AllSafe = All (λ c. is_safe_char c ≡ true)

sub_unsafe-AllSafe : (s : Str) → AllSafe (sub_unsafe s)
unfolding sub_unsafe
sub_unsafe-AllSafe [] = tt
sub_unsafe-AllSafe (c ∷ s) = elim (Bool-cases (is_safe_char c)) [
  | inl e ↦ rw e (e, sub_unsafe-AllSafe s)
  | inr e ↦ rw e (refl, sub_unsafe-AllSafe s)
]

collapse-AllSafe : (after : Bool) (s : Str) → AllSafe s → AllSafe (collapse after s)
unfolding collapse
collapse-AllSafe after [] h = tt
collapse-AllSafe true (c ∷ s) (p, h) = elim (Bool-cases (c == underscore)) [
  | inl e ↦ rw e (collapse-AllSafe true s h)
  | inr e ↦ rw e (p, collapse-AllSafe false s h)
]
collapse-AllSafe false (c ∷ s) (p, h) = elim (Bool-cases (c == underscore)) [
  | inl e ↦ rw e (p, collapse-AllSafe true s h)
  | inr e ↦ rw e (p, collapse-AllSafe false s h)
]

lstrip-AllSafe : (s : Str) → AllSafe s → AllSafe (lstrip s)
unfolding lstrip
lstrip-AllSafe [] h = tt
lstrip-AllSafe (c ∷ s) (p, h) = elim (Bool-cases (c == underscore)) [
  | inl e ↦ rw e (lstrip-AllSafe s h)
  | inr e ↦ rw e (p, h)
]

rstrip_cons-AllSafe :
    (c : ℕ) (s : Str) → is_safe_char c ≡ true → AllSafe s → AllSafe (rstrip_cons c s)
unfolding rstrip_cons
rstrip_cons-AllSafe c [] p h = elim (Bool-cases (c == underscore)) [
  | inl e ↦ rw e tt
  | inr e ↦ rw e (p, tt)
]
rstrip_cons-AllSafe c (d ∷ s) p h = (p, h)

rstrip-AllSafe : (s : Str) → AllSafe s → AllSafe (rstrip s)
unfolding rstrip
rstrip-AllSafe [] h = tt
rstrip-AllSafe (c ∷ s) (p, h) = rstrip_cons-AllSafe c (rstrip s) p (rstrip-AllSafe s h)

or_dev-AllSafe : (s : Str) → AllSafe s → AllSafe (or_dev s) × (or_dev s ≢ [])
unfolding or_dev
or_dev-AllSafe [] h = ((refl, (refl, (refl, tt))), λ e. cc e)
or_dev-AllSafe (c ∷ s) h = (h, λ e. cc e)

safe_block_name-AllSafe :
    (name : Str) → AllSafe (safe_block_name name) × (safe_block_name name ≢ [])
unfolding safe_block_name
safe_block_name-AllSafe name = or_dev-AllSafe (rstrip (lstrip (collapse false (sub_unsafe name)))) (
    rstrip-AllSafe (lstrip (collapse false (sub_unsafe name))) (
      lstrip-AllSafe (collapse false (sub_unsafe name))
        (collapse-AllSafe false (sub_unsafe name) (sub_unsafe-AllSafe name))))

digits-AllSafe : (s : Str) → All (λ c. is_digit c ≡ true) s → AllSafe s
digits-AllSafe [] h = tt
digits-AllSafe (c ∷ s) (p, h) = (ground arith, digits-AllSafe s h)

append-ne-nil : (s t : Str) → s ≢ [] → s ++ t ≢ []
append-ne-nil [] t h = absurd (h refl)
append-ne-nil (c ∷ s) t h = λ e. cc e

-- Whatever the device's name and the labels before it, a label is not empty and holds only ASCII
-- letters, digits and underscores.
pub label-AllSafe :
    (seen_names : List Str) (device : Device)
    → AllSafe (label seen_names device) × (label seen_names device ≢ [])
unfolding label
label-AllSafe seen_names device =
    let safe = safe_block_name device.name in
    let (ok, full) = safe_block_name-AllSafe device.name in
    elim (Bool-cases (any (λ n. str_eq n safe) seen_names)) [
      | inl e ↦ rw e (
        All-append (λ c. is_safe_char c ≡ true) safe (underscore ∷ decimal device.id) ok
            (refl, digits-AllSafe (decimal device.id) (decimal-digits device.id)),
        append-ne-nil safe (underscore ∷ decimal device.id) full,
      )
      | inr e ↦ rw e (ok, full)
    ]
