-- ===== src/Ipaddress.antt =====
-- What backend/app/authz/device_resolution.py and backend/app/api/auth_local.py use of Python's
-- `ipaddress`. The two parsers are a parameter of the model; membership is the library's masked
-- comparison: an address lies in a network of its own version if the leading `prefixlen` bits
-- agree.
use tacacs_web.Prelude.{ℕ, ◌-◌, ◌/◌, ◌^◌, Bool, true, false, ◌&&◌, Option, Str, ◌==◌}

pub data Version : Type 0 where
  v4 v6 : Version

pub record Addr : Type 0 where
  pub version : Version
  pub value : ℕ

pub record Network : Type 0 where
  pub version : Version
  pub network_address : ℕ
  pub prefixlen : ℕ

-- `none` is a `ValueError`. `ip_network` is called with `strict=False`.
pub record Ipaddress : Type 0 where
  pub ip_address : Str → Option Addr
  pub ip_network : Str → Option Network

abbrev pub max_prefixlen : Version → ℕ
max_prefixlen Version.v4 = 32
max_prefixlen Version.v6 = 128

abbrev pub version_eq : Version → Version → Bool
version_eq Version.v4 Version.v4 = true
version_eq Version.v6 Version.v6 = true
version_eq _ _ = false

-- `addr in net`
unfoldable pub contains : Network → Addr → Bool
contains net addr =
    version_eq addr.version net.version
    && (addr.value / 2 ^ (max_prefixlen net.version - net.prefixlen)
        == net.network_address / 2 ^ (max_prefixlen net.version - net.prefixlen))
