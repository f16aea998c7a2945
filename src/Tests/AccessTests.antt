-- ===== src/Tests/AccessTests.antt =====
-- The views of the effective permissions at concrete inputs.
use tacacs_web.Prelude.{
  ◌≡◌, refl, ◌↔◌, ◌⊎◌, true, none, some, List, [], ◌∷◌, Memᴰ, str, str_eq, strip,
}
use tacacs_web.Prelude.Int.{pos}
use tacacs_web.Models.{User}
use tacacs_web.Result.{ok, ◌>>=◌}
use tacacs_web.Auth.Sessions.{SessionContext}
use tacacs_web.Api.Access.{
  EffectivePermissionRead, to_candidate, effective_read, list_effective_permissions,
}
use tacacs_web.Api.Access.Enforced.{Enforced, list_effective_permissions-Enforced}
use tacacs_web.Api.Access.Mine.{MyAccessGroupRead, MyAccessRead, access_read, my_access}
use tacacs_web.Api.Access.Mine.Caller.{IsLike, my_access-Enforced}
use tacacs_web.Tests.Data.{personal, of_group, installation}

abbrev view : List EffectivePermissionRead
view =
    record {
      device_group_id = 1;
      device_group_name = str "dg";
      winning = to_candidate personal;
      overridden = to_candidate of_group ∷ [];
    }
    ∷ []

shown : list_effective_permissions 7 installation ≡ ok view
unfolding list_effective_permissions
shown = refl

list_effective_permissions-Enforced_example :
    (user : User) × Memᴰ user installation.users
    × (user.id ≡ 7)
    × ((e : EffectivePermissionRead)
        → Memᴰ e view ↔ Enforced (effective_read installation) installation user e)
list_effective_permissions-Enforced_example =
    list_effective_permissions-Enforced 7 installation view shown

abbrev ctx : SessionContext
ctx = record {
  token = str "t";
  username = str " jan ";
  role = str "user";
  auth_method = str "saml";
  actor_id = none;
  client_ip = none;
  user_agent = none;
}

abbrev access : MyAccessRead
access = record {
  tacacs_username = some (str "jan");
  display_name = none;
  groups =
      record {
        device_group_id = 1;
        device_group_name = str "dg";
        tacacs_priv_lvl = pos 1;
        privilege_profile_name = str "p";
        via_ad_group_name = none;
        devices =
            record { id = 1; name = str "wide"; ip_or_cidr = str "10.0.0.0/8" }
            ∷ record { id = 2; name = str "core switch"; ip_or_cidr = str "10.0.0.0/24" }
            ∷ [];
        device_count = 2;
      }
      ∷ [];
}

accessed : my_access (λ s t. true) str_eq ctx installation ≡ ok access
unfolding my_access ◌>>=◌ str_eq
accessed = refl

my_access-Enforced_example :
    ((access.tacacs_username ≡ none) × (access.groups ≡ []))
    ⊎ ((user : User) × IsLike str_eq (strip ctx.username) installation user
        × (access.tacacs_username ≡ some user.sam_account_name)
        × ((e : MyAccessGroupRead)
            → Memᴰ e access.groups
              ↔ Enforced (access_read (λ s t. true) installation user) installation user e))
my_access-Enforced_example =
    my_access-Enforced (λ s t. true) str_eq ctx installation access accessed
