-- ===== src/Authz/Resolution.antt =====
-- backend/app/authz/device_resolution.py
pub mod Longest
use tacacs_web.Prelude.{
  ℕ, Bool, true, false, Option, none, some, List, [], ◌∷◌, Str, ltb, if◌then◌else◌,
}
use tacacs_web.Models.{Device}
use tacacs_web.Ipaddress.{Addr, Network, Ipaddress, version_eq, contains}

-- The variable `best` of the loop.
abbrev pub Best : Type 0
Best = Option (ℕ × Device)

-- `best is None or prefix_len > best[0]`
abbrev is_better : ℕ → Best → Bool
is_better prefix_len none = true
is_better prefix_len (some (best_len, _)) = ltb best_len prefix_len

abbrev pub best_device : Best → Option Device
best_device none = none
best_device (some (_, device)) = some device

module _ (lib : Ipaddress) where
  -- One round of the loop, from the parse of the device's network on.
  consider : Addr → Device → Option Network → Best → Best
  consider addr device none best = best
  consider addr device (some net) best =
      if version_eq addr.version net.version
      then (if contains net addr
          then (if is_better net.prefixlen best then some (net.prefixlen, device) else best)
          else best)
      else best

  scan : Addr → List Device → Best → Best
  unfolding consider
  scan addr [] best = best
  scan addr (device ∷ devices) best =
      scan addr devices (consider addr device (lib.ip_network device.ip_or_cidr) best)

  from_addr : Option Addr → List Device → Option Device
  unfolding scan
  from_addr none devices = none
  from_addr (some addr) devices = best_device (scan addr devices none)

  unfoldable pub resolve_device_for_ip : Str → List Device → Option Device
  unfolding from_addr
  resolve_device_for_ip nas_ip devices = from_addr (lib.ip_address nas_ip) devices
