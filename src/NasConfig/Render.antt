-- ===== src/NasConfig/Render.antt =====
-- backend/app/nas_config/render.py
pub mod Labels
pub mod Blocks
use tacacs_web.Prelude.{
  ℕ, Bool, true, false, not, ◌&&◌, ◌||◌, Option, none, some, List, [], ◌∷◌, ◌++◌, map, Str, str,
  str_eq, replace, join, decimal, ltb, leb, ◌==◌, is_empty, any, sort_by, if◌then◌else◌,
}
use tacacs_web.Models.{Device}
use tacacs_web.Quoting.{backslash, quote}

abbrev underscore : ℕ
underscore = 95

-- `[A-Za-z0-9_]`
abbrev pub is_safe_char : ℕ → Bool
is_safe_char c =
    (leb 65 c && leb c 90) || (leb 97 c && leb c 122) || (leb 48 c && leb c 57) || (c == underscore)

-- `_SAFE_NAME_CHARS.sub("_", name)`
pub sub_unsafe : Str → Str
sub_unsafe [] = []
sub_unsafe (c ∷ s) = (if is_safe_char c then c else underscore) ∷ sub_unsafe s

-- `re.sub(r"_+", "_", text)`: one character for each run. The flag says that the last character was
-- an underscore.
pub collapse : Bool → Str → Str
collapse after [] = []
collapse after (c ∷ s) =
    let skipped = collapse true s in
    let first = c ∷ collapse true s in
    let kept = c ∷ collapse false s in
    if c == underscore then (if after then skipped else first) else kept

-- `text.lstrip("_")` and `text.rstrip("_")`
pub lstrip : Str → Str
lstrip [] = []
lstrip (c ∷ s) = let rest = lstrip s in if c == underscore then rest else c ∷ s

-- A character before the stripped rest: it is dropped if it is an underscore with nothing after it.
rstrip_cons : ℕ → Str → Str
rstrip_cons c [] = if c == underscore then [] else c ∷ []
rstrip_cons c (d ∷ s) = c ∷ d ∷ s

pub rstrip : Str → Str
unfolding rstrip_cons
rstrip [] = []
rstrip (c ∷ s) = rstrip_cons c (rstrip s)

-- `cleaned or "dev"`
or_dev : Str → Str
or_dev [] = str "dev"
or_dev (c ∷ s) = c ∷ s

unfoldable pub safe_block_name : Str → Str
unfolding sub_unsafe collapse lstrip rstrip or_dev
safe_block_name name = or_dev (rstrip (lstrip (collapse false (sub_unsafe name))))

pub escape_quoted : Str → Str
escape_quoted value =
    replace quote (backslash ∷ quote ∷ []) (replace backslash (backslash ∷ backslash ∷ []) value)

-- The truth of an optional text: neither `None` nor empty.
abbrev pub is_set : Option Str → Bool
is_set none = false
is_set (some s) = not (is_empty s)

-- Comparison of texts by code points.
pub str_le : Str → Str → Bool
str_le [] t = true
str_le (a ∷ s) [] = false
str_le (a ∷ s) (b ∷ t) = let rest = str_le s t in ltb a b || ((a == b) && rest)

-- The sort key `(d.name, d.id or 0)`.
pub name_order : Device → Device → Bool
unfolding str_le
name_order a b = if str_eq a.name b.name then leb a.id b.id else str_le a.name b.name

pub key_line : Str → Str
key_line secret = str "    key = " ++ quote ∷ escape_quoted secret ++ quote ∷ []

-- The `key` line of an optional secret.
pub key_lines : Option Str → List Str
unfolding key_line
key_lines none = []
key_lines (some secret) = if is_empty secret then [] else key_line secret ∷ []

pub block_lines : Str → Device → List Str
unfolding key_lines
block_lines safe device =
    (str "host " ++ safe ++ str " {")
    ∷ (str "    address = " ++ device.ip_or_cidr)
    ∷ (key_lines device.current_secret_enc
        ++ (key_lines device.previous_secret_enc ++ str "    mavis backend = yes" ∷ str "}" ∷ []))

-- The label of a block, given those already used.
pub label : List Str → Device → Str
label seen_names device =
    let safe = safe_block_name device.name in
    if any (λ n. str_eq n safe) seen_names then safe ++ underscore ∷ decimal device.id else safe

-- The loop of `render_host_blocks`: the blocks of the provisioned devices with their labels.
pub blocks_from : List Str → List Device → List (Str × Device)
unfolding label
blocks_from seen_names [] = []
blocks_from seen_names (device ∷ devices) =
    let safe = label seen_names device in
    let skipped = blocks_from seen_names devices in
    let more = (safe, device) ∷ blocks_from (safe ∷ seen_names) devices in
    if is_set device.current_secret_enc then more else skipped

pub blocks : List Device → List (Str × Device)
unfolding sort_by name_order blocks_from
blocks devices = blocks_from [] (sort_by name_order devices)

pub block_text : Str × Device → Str
unfolding block_lines
block_text (safe, device) = join (str "\n") (block_lines safe device)

-- `("\n\n".join(blocks) + "\n") if blocks else ""`
join_blocks : List Str → Str
join_blocks [] = []
join_blocks (b ∷ bs) = join (str "\n\n") (b ∷ bs) ++ str "\n"

unfoldable pub render_host_blocks : List Device → Str
unfolding blocks block_text join_blocks
render_host_blocks devices = join_blocks (map block_text (blocks devices))
