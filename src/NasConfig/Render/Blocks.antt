-- ===== src/NasConfig/Render/Blocks.antt =====
-- Which devices have a `host` block, and what its key lines say.
use mathlib.Core.Path.{ap₂}
use tacacs_web.Prelude.{
  ◌≡◌, refl, ap, ◌∙◌, inl, inr, Bool, false, List, [], ◌∷◌, ◌++◌, map, Str, Bool-cases, Permᴰ,
  filter, filter-perm, filter-append, starts_with, append-nil, str, sort_by, sort_by-perm, Option,
  none, some, if◌then◌else◌,
}
use tacacs_web.Models.{Device}
use tacacs_web.Quoting.{
  quote, read_until, is_quoted, read_until-escape_each, replace-eq-escape_each,
}
use tacacs_web.NasConfig.Render.{
  is_set, name_order, label, blocks_from, blocks, escape_quoted, key_line, key_lines, block_lines,
}

abbrev pub is_provisioned : Device → Bool
is_provisioned d = is_set d.current_secret_enc

blocks_from-devices :
    (seen : List Str) (ds : List Device)
    → map (λ (b : Str × Device). b.1) (blocks_from seen ds) ≡ filter is_provisioned ds
unfolding blocks_from filter
blocks_from-devices seen [] = refl
blocks_from-devices seen (d ∷ ds) = elim (Bool-cases (is_provisioned d)) [
  | inl e ↦ rw e (ap (λ t. d ∷ t) (blocks_from-devices (label seen d ∷ seen) ds))
  | inr e ↦ rw e (blocks_from-devices seen ds)
]

-- Every provisioned device has exactly one block, and no other device has one.
pub blocks-perm :
    (devices : List Device)
    → Permᴰ (map (λ (b : Str × Device). b.1) (blocks devices)) (filter is_provisioned devices)
unfolding blocks
blocks-perm devices =
    rw (blocks_from-devices [] (sort_by name_order devices))
      (filter-perm is_provisioned (sort_by-perm name_order devices))

-- Reading the quoted part of a key line gives the secret, whatever follows the line.
read-escape_quoted :
    (secret rest : Str)
    → read_until quote false (escape_quoted secret ++ quote ∷ rest) ≡ some (secret, rest)
unfolding escape_quoted
read-escape_quoted secret rest =
    rw (replace-eq-escape_each secret)
      (read_until-escape_each is_quoted quote refl refl refl secret rest)

-- The text of a `key` line up to its quote.
abbrev is_key_line : Str → Bool
is_key_line line = starts_with line (str "    key = ")

-- What the daemon accepts from a list of `key` lines.
secret_of : Str → Option Str
secret_of line = elim (read_until quote false line) [ none ↦ none | some (s, _) ↦ some s ]

-- The part of a key line behind its first quote.
after_quote : Str → Str
after_quote line = elim (read_until quote false line) [ none ↦ [] | some (_, rest) ↦ rest ]

secrets_of : List Str → List (Option Str)
unfolding secret_of after_quote
secrets_of lines = map (λ line. secret_of (after_quote line)) lines

-- The secrets that the two columns of a device hold, current first.
unfoldable pub valid_secrets : Device → List (Option Str)
valid_secrets d =
    (if is_set d.current_secret_enc then d.current_secret_enc ∷ [] else [])
    ++ (if is_set d.previous_secret_enc then d.previous_secret_enc ∷ [] else [])

after_quote-key_line :
    (secret : Str) → after_quote (key_line secret) ≡ escape_quoted secret ++ quote ∷ []
unfolding after_quote key_line read_until
after_quote-key_line secret = refl

secret_of-key_line : (secret : Str) → secret_of (after_quote (key_line secret)) ≡ some secret
unfolding secret_of
secret_of-key_line secret =
    ap secret_of (after_quote-key_line secret) ∙ rw (read-escape_quoted secret [], secret_of)

secrets_of-key_lines :
    (o : Option Str) → secrets_of (key_lines o) ≡ (if is_set o then o ∷ [] else [])
unfolding secrets_of key_lines
secrets_of-key_lines none = refl
secrets_of-key_lines (some []) = refl
secrets_of-key_lines (some (c ∷ s)) = ap (λ o. o ∷ []) (secret_of-key_line (c ∷ s))

map-append : (f : Str → Option Str) (xs ys : List Str) → map f (xs ++ ys) ≡ map f xs ++ map f ys
map-append f [] ys = refl
map-append f (x ∷ xs) ys = ap (λ t. f x ∷ t) (map-append f xs ys)

is_key_line-key_lines : (o : Option Str) → filter is_key_line (key_lines o) ≡ key_lines o
unfolding filter key_lines key_line starts_with
is_key_line-key_lines none = refl
is_key_line-key_lines (some []) = refl
is_key_line-key_lines (some (c ∷ s)) = refl

-- The other lines of a block are none of keys.
filter-block_lines :
    (safe : Str) (d : Device)
    → filter is_key_line (block_lines safe d)
      ≡ key_lines d.current_secret_enc ++ key_lines d.previous_secret_enc
unfolding block_lines filter starts_with
filter-block_lines safe d =
    filter-append is_key_line (key_lines d.current_secret_enc)
      (key_lines d.previous_secret_enc ++ str "    mavis backend = yes" ∷ str "}" ∷ [])
    ∙ ap₂ (λ a b. a ++ b) (is_key_line-key_lines d.current_secret_enc)
        (filter-append is_key_line (key_lines d.previous_secret_enc)
            (str "    mavis backend = yes" ∷ str "}" ∷ [])
          ∙ ap (λ l. l ++ []) (is_key_line-key_lines d.previous_secret_enc)
          ∙ append-nil (key_lines d.previous_secret_enc))

-- The secrets of the key lines among the lines of a block.
pub block_secrets : List Str → List (Option Str)
unfolding filter secrets_of
block_secrets lines = secrets_of (filter is_key_line lines)

-- Among the lines of a device's block, whatever its label, the key lines give back its stored secrets
-- and no other: the current one and, if it is set, the previous one behind it.
pub secrets_of-device :
    (safe : Str) (d : Device) → block_secrets (block_lines safe d) ≡ valid_secrets d
unfolding valid_secrets secrets_of block_secrets
secrets_of-device safe d =
    ap (map (λ line. secret_of (after_quote line))) (filter-block_lines safe d)
    ∙ map-append (λ line. secret_of (after_quote line)) (key_lines d.current_secret_enc)
        (key_lines d.previous_secret_enc)
    ∙ ap₂ (λ a b. a ++ b) (secrets_of-key_lines d.current_secret_enc)
        (secrets_of-key_lines d.previous_secret_enc)
