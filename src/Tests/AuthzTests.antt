-- ===== src/Tests/AuthzTests.antt =====
-- backend/app/authz and backend/app/nas_config at concrete inputs.
use tacacs_web.Prelude.{
  ℕ, false, ◌≡◌, ◌≢◌, refl, ◌↔◌, none, some, [], ◌∷◌, ◌++◌, map, Memᴰ, Permᴰ, arith, Str, str,
  str_eq, filter,
}
use tacacs_web.Models.{Authorization, Device}
use tacacs_web.Ipaddress.{Addr, contains}
use tacacs_web.Quoting.{slash, read_regex}
use tacacs_web.Authz.Resolution.{resolve_device_for_ip}
use tacacs_web.Authz.Resolution.Longest.{Chosen, NoneCovers, resolve-Chosen, resolve-eq-none_iff}
use tacacs_web.Authz.Policy.{evaluate_for_user}
use tacacs_web.Authz.Policy.Candidates.{IsCandidate}
use tacacs_web.Authz.Policy.Winner.{IsWinner, evaluate-IsWinner, evaluate-eq-none_iff}
use tacacs_web.Authz.Policy.Order.{SameRows, evaluate-perm}
use tacacs_web.Authz.Render.{escape_regex_for_script}
use tacacs_web.Authz.Render.Laws.{read-escape_regex}
use tacacs_web.NasConfig.Render.{label, blocks, block_lines}
use tacacs_web.NasConfig.Render.Labels.{AllSafe, label-AllSafe}
use tacacs_web.NasConfig.Render.Blocks.{
  is_provisioned, blocks-perm, block_secrets, valid_secrets, secrets_of-device,
}
use tacacs_web.Tests.Data.{parsers, jan, net_admins, wide, narrow, personal, of_group}

nearest : resolve_device_for_ip parsers (str "10.0.0.5") (wide ∷ narrow ∷ []) ≡ some narrow
unfolding resolve_device_for_ip contains str_eq
nearest = refl

resolve-Chosen_example :
    (addr : Addr) × (parsers.ip_address (str "10.0.0.5") ≡ some addr)
    × (p : ℕ) × Chosen parsers addr (wide ∷ narrow ∷ []) p narrow
resolve-Chosen_example = resolve-Chosen parsers (str "10.0.0.5") (wide ∷ narrow ∷ []) narrow nearest

resolve-eq-none_iff_example :
    (resolve_device_for_ip parsers (str "10.0.0.5") (wide ∷ []) ≡ none) ↔ (
      (addr : Addr)
      → parsers.ip_address (str "10.0.0.5") ≡ some addr
      → NoneCovers parsers addr (wide ∷ []))
resolve-eq-none_iff_example = resolve-eq-none_iff parsers (str "10.0.0.5") (wide ∷ [])

-- The personal authorization wins over the higher level of the group.
personal_wins :
    evaluate_for_user jan (net_admins ∷ []) 1 (of_group ∷ personal ∷ [])
    ≡ record { winning = some personal; overridden = of_group ∷ [] }
unfolding evaluate_for_user
personal_wins = refl

personal_winning :
    (evaluate_for_user jan (net_admins ∷ []) 1 (of_group ∷ personal ∷ [])).winning ≡ some personal
unfolding evaluate_for_user
personal_winning = refl

-- Without a personal authorization the overridden ones come out sorted.
abbrev group_row : ℕ → ℕ → Authorization
group_row n lvl = record of_group {
  row = record of_group.row { id = n };
  privilege_profile = record of_group.privilege_profile { tacacs_priv_lvl = lvl };
}

sorted_in_place :
    evaluate_for_user jan (net_admins ∷ []) 1 (group_row 1 5 ∷ group_row 2 15 ∷ group_row 3 10 ∷ [])
    ≡ record { winning = some (group_row 2 15); overridden = group_row 3 10 ∷ group_row 1 5 ∷ [] }
unfolding evaluate_for_user
sorted_in_place = refl

evaluate-IsWinner_example : IsWinner jan (net_admins ∷ []) 1 (of_group ∷ personal ∷ []) personal
evaluate-IsWinner_example =
    evaluate-IsWinner jan (net_admins ∷ []) 1 (of_group ∷ personal ∷ []) personal personal_winning

evaluate-eq-none_iff_example :
    ((evaluate_for_user jan [] 1 (of_group ∷ [])).winning ≡ none)
    ↔ ((c : Authorization) → Memᴰ c (of_group ∷ []) → IsCandidate jan [] 1 c → ⊥)
evaluate-eq-none_iff_example = evaluate-eq-none_iff jan [] 1 (of_group ∷ [])

distinct_pair :
    (a b : Authorization)
    → Memᴰ a (of_group ∷ personal ∷ [])
    → Memᴰ b (of_group ∷ personal ∷ [])
    → a.id ≡ b.id
    → a ≡ b
distinct_pair a b (Memᴰ.head e) (Memᴰ.head f) h = cc
distinct_pair a b (Memᴰ.tail (Memᴰ.head e)) (Memᴰ.tail (Memᴰ.head f)) h = cc
distinct_pair a b (Memᴰ.head e) (Memᴰ.tail (Memᴰ.head f)) h = absurd (ground arith)
distinct_pair a b (Memᴰ.tail (Memᴰ.head e)) (Memᴰ.head f) h = absurd (ground arith)
distinct_pair a b (Memᴰ.head e) (Memᴰ.tail (Memᴰ.tail m)) h = elim m [ ]
distinct_pair a b (Memᴰ.tail (Memᴰ.head e)) (Memᴰ.tail (Memᴰ.tail m)) h = elim m [ ]
distinct_pair a b (Memᴰ.tail (Memᴰ.tail m)) _ h = elim m [ ]

swapped : SameRows (of_group ∷ personal ∷ []) (personal ∷ of_group ∷ [])
swapped = record { perm = Permᴰ.swap refl refl; distinct = distinct_pair }

evaluate-perm_example :
    (evaluate_for_user jan (net_admins ∷ []) 1 (of_group ∷ personal ∷ [])).winning
    ≡ (evaluate_for_user jan (net_admins ∷ []) 1 (personal ∷ of_group ∷ [])).winning
evaluate-perm_example =
    evaluate-perm jan (net_admins ∷ []) 1 (of_group ∷ personal ∷ []) (personal ∷ of_group ∷ [])
      swapped

read-escape_regex_example :
    read_regex false (escape_regex_for_script (str "copy a/b") ++ slash ∷ str ") permit")
    ≡ some (str "copy a/b", str ") permit")
read-escape_regex_example = read-escape_regex (str "copy a/b") (str ") permit") (ground arith)

label-AllSafe_example :
    AllSafe (label (str "core_switch" ∷ []) narrow) × (label (str "core_switch" ∷ []) narrow ≢ [])
label-AllSafe_example = label-AllSafe (str "core_switch" ∷ []) narrow

blocks-perm_example :
    Permᴰ
      (map (λ (b : Str × Device). b.1) (blocks (wide ∷ narrow ∷ [])))
      (filter is_provisioned (wide ∷ narrow ∷ []))
blocks-perm_example = blocks-perm (wide ∷ narrow ∷ [])

secrets_of-device_example : block_secrets (block_lines (str "sw") narrow) ≡ valid_secrets narrow
secrets_of-device_example = secrets_of-device (str "sw") narrow
