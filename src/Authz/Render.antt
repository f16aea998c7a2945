-- ===== src/Authz/Render.antt =====
-- backend/app/authz/profile_render.py
pub mod Laws
use tacacs_web.Prelude.{
  Bool, true, false, ◌&&◌, List, [], ◌∷◌, ◌++◌, map, Str, str, replace, join, decimal,
  if◌then◌else◌,
}
use tacacs_web.Models.{PrivilegeProfile}
use tacacs_web.Quoting.{backslash, quote, slash}

-- `" " * n`
abbrev indent_3 : Str
indent_3 = str "            "

abbrev indent_4 : Str
indent_4 = str "                "

abbrev indent_5 : Str
indent_5 = str "                    "

pub escape_double_quote : Str → Str
escape_double_quote value =
    replace quote (backslash ∷ quote ∷ []) (replace backslash (backslash ∷ backslash ∷ []) value)

pub escape_regex_for_script : Str → Str
escape_regex_for_script pattern = replace slash (backslash ∷ slash ∷ []) pattern

abbrev is_nil {ℓ} : {A : Type ℓ} → List A → Bool
is_nil [] = true
is_nil (_ ∷ _) = false

-- One line `set <key> = "<value>"`.
pub av_line : Str × Str → Str
av_line (key, value) =
    indent_5 ++ str "set " ++ key ++ str " = " ++ quote ∷ escape_double_quote value ++ quote ∷ []

-- One line `if (cmd =~ /<pattern>/) <permit or deny>`.
pub pattern_line : Str → Str → Str
pattern_line verdict pattern =
    indent_4 ++ str "if (cmd =~ /" ++ escape_regex_for_script pattern ++ str "/) " ++ verdict

pub shell_session_block : PrivilegeProfile → List Str
shell_session_block profile =
    (indent_4 ++ str "if (cmd == \"\") {")
    ∷ (indent_5 ++ str "set priv-lvl = " ++ decimal profile.tacacs_priv_lvl)
    ∷ (map av_line profile.extra_av_pairs
        ++ (indent_5 ++ str "permit") ∷ (indent_4 ++ str "}") ∷ [])

pub per_command_lines : PrivilegeProfile → List Str
per_command_lines profile =
    if is_nil profile.permit_commands_regex && is_nil profile.deny_commands_regex
    then (indent_4 ++ str "permit") ∷ []
    else map (pattern_line (str "deny")) profile.deny_commands_regex
      ++ map (pattern_line (str "permit")) profile.permit_commands_regex
      ++ (indent_4 ++ str "deny") ∷ []

pub script_lines : PrivilegeProfile → List Str
unfolding shell_session_block per_command_lines
script_lines profile =
    str "{"
    ∷ str "    profile {"
    ∷ str "        script {"
    ∷ (indent_3 ++ str "if (service == shell) {")
    ∷ (shell_session_block profile
        ++ (per_command_lines profile
            ++ (indent_3 ++ str "}")
              ∷ (indent_3 ++ str "deny")
              ∷ str "        }"
              ∷ str "    }"
              ∷ str "}"
              ∷ []))

unfoldable pub render_tacprofile : PrivilegeProfile → Str
unfolding script_lines
render_tacprofile profile = join (str "\n") (script_lines profile)
