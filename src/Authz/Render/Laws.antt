-- ===== src/Authz/Render/Laws.antt =====
-- What the daemon reads in the rendered script is what the profile holds.
use tacacs_web.Prelude.{◌≡◌, refl, false, some, ◌∷◌, ◌++◌, Str, Lacks}
use tacacs_web.Quoting.{
  backslash, quote, slash, read_until, read_regex, is_quoted, read_until-escape_each,
  replace-eq-escape_each, read_regex-replace,
}
use tacacs_web.Authz.Render.{escape_double_quote, escape_regex_for_script}

-- The quoted value of an extra attribute is read back whole, whatever follows it: no value can end
-- its literal early.
pub read-escape_double_quote :
    (value rest : Str)
    → read_until quote false (escape_double_quote value ++ quote ∷ rest) ≡ some (value, rest)
unfolding escape_double_quote
read-escape_double_quote value rest =
    rw (replace-eq-escape_each value)
      (read_until-escape_each is_quoted quote refl refl refl value rest)

-- A command pattern without backslashes is read back whole between its slashes.
pub read-escape_regex :
    (pattern rest : Str)
    → Lacks backslash pattern
    → read_regex false (escape_regex_for_script pattern ++ slash ∷ rest) ≡ some (pattern, rest)
unfolding escape_regex_for_script
read-escape_regex pattern rest h = read_regex-replace pattern rest h
