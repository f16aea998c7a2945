-- ===== src/Tests/Data.antt =====
-- A small installation: two users, one group, three devices, two authorizations, an admin.
use tacacs_web.Prelude.{ℕ, true, none, some, [], ◌∷◌, Str, str, str_eq, if◌then◌else◌}
use tacacs_web.Models.{
  User, AdGroup, Device, PrivilegeProfile, AuthorizationRow, Authorization, LocalAdmin,
}
use tacacs_web.Db.{Db, empty_db}
use tacacs_web.Ipaddress.{Version, Ipaddress}

-- A parser that knows the texts of the tests.
abbrev pub parsers : Ipaddress
parsers = record {
  ip_address = λ s.
      if str_eq s (str "10.0.0.5")
      then some (record { version = Version.v4; value = 167772165 })
      else none;
  ip_network = λ s.
      if str_eq s (str "10.0.0.0/24")
      then some (record { version = Version.v4; network_address = 167772160; prefixlen = 24 })
      else if str_eq s (str "10.0.0.0/8")
      then some (record { version = Version.v4; network_address = 167772160; prefixlen = 8 })
      else none;
}

abbrev pub jan : User
jan = record {
  id = 7;
  sam_account_name = str "jan";
  ad_object_guid = none;
  distinguished_name = str "CN=jan";
  upn = none;
  display_name = none;
  enabled = true;
  last_seen_in_sync_at = none;
  created_at = 0;
  updated_at = 0;
}

abbrev pub net_admins : AdGroup
net_admins = record {
  id = 3;
  sid = str "S-1-5-3";
  distinguished_name = str "CN=net";
  name = none;
  last_seen_in_sync_at = none;
  created_at = 0;
}

abbrev pub device : ℕ → Str → Str → Device
device id name net = record {
  id = id;
  name = name;
  ip_or_cidr = net;
  device_group_id = 1;
  current_secret_enc = some (str "se\"cret");
  previous_secret_enc = none;
  previous_retired_at = none;
  description = none;
  created_at = 0;
  updated_at = 0;
}

abbrev pub wide : Device
wide = device 1 (str "wide") (str "10.0.0.0/8")

abbrev pub narrow : Device
narrow = device 2 (str "core switch") (str "10.0.0.0/24")

abbrev pub profile_of : ℕ → ℕ → PrivilegeProfile
profile_of id lvl = record {
  id = id;
  name = str "p";
  tacacs_priv_lvl = lvl;
  permit_commands_regex = str "show .*" ∷ [];
  deny_commands_regex = [];
  extra_av_pairs = (str "role", str "a\"b") ∷ [];
  description = none;
  created_at = 0;
}

abbrev pub personal_row : AuthorizationRow
personal_row = record {
  id = 2;
  principal_user_id = some 7;
  principal_ad_group_id = none;
  device_group_id = 1;
  privilege_profile_id = 1;
  created_at = 0;
}

abbrev pub group_row : AuthorizationRow
group_row = record {
  id = 1;
  principal_user_id = none;
  principal_ad_group_id = some 3;
  device_group_id = 1;
  privilege_profile_id = 15;
  created_at = 0;
}

abbrev pub personal : Authorization
personal = record { row = personal_row; privilege_profile = profile_of 1 1 }

abbrev pub of_group : Authorization
of_group = record { row = group_row; privilege_profile = profile_of 15 15 }

abbrev pub root : LocalAdmin
root = record {
  id = 1;
  username = str "root";
  password_argon2_hash = str "hash";
  allowed_source_cidr = some (str "10.0.0.0/8");
  created_at = 0;
  last_login_at = none;
}

abbrev pub installation : Db
installation = record empty_db {
  users = jan ∷ [];
  ad_groups = net_admins ∷ [];
  user_ad_groups = record { user_id = 7; ad_group_id = 3 } ∷ [];
  devices = wide ∷ narrow ∷ [];
  device_groups = record { id = 1; name = str "dg"; description = none; created_at = 0 } ∷ [];
  profiles = profile_of 1 1 ∷ profile_of 15 15 ∷ [];
  authorizations = group_row ∷ personal_row ∷ [];
  local_admins = root ∷ [];
}
