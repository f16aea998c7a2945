-- ===== src/Mavis/Rpc/Grants.antt =====
-- What an acknowledged profile request rests on.
use tacacs_web.Prelude.{
  ℕ, ◌≡◌, refl, sym, ap, ◌∙◌, inl, inr, true, Option, none, some, Bool-cases, Str, str,
}
use tacacs_web.Models.{User, Device, Authorization}
use tacacs_web.Result.{ok}
use tacacs_web.Db.{Db, scalar_one_or_none}
use tacacs_web.Ipaddress.{Addr, Ipaddress}
use tacacs_web.Audit.Logger.Laws.{appended}
use tacacs_web.Auth.MavisAuthn.{AuthResult, ack, nak, nfd}
use tacacs_web.Authz.Resolution.{resolve_device_for_ip}
use tacacs_web.Authz.Resolution.Longest.{Chosen, resolve-Chosen}
use tacacs_web.Authz.Policy.{EffectiveAuthorization, evaluate_for_user, profile}
use tacacs_web.Authz.Policy.Winner.{IsWinner, evaluate-IsWinner}
use tacacs_web.Mavis.Rpc.Laws.{mavis_info_lem}
use tacacs_web.Mavis.Rpc.{
  Casing, InfoRequest, InfoResponse, Resolved, matching_users, groups_of, authorizations_on,
  granted, denied, resolve_profile, resolve_on_device, resolve_info, authz_entry, mavis_info,
}

module _ (lib : Ipaddress) (db : Db) (req : InfoRequest) where
  -- The user is enabled, the device is the longest-prefix match of the source address, and the profile
  -- is that of the user's winning authorization on the device's group.
  pub record Grant (user : Option User) (r : Resolved) : Type 0 where
    pub who : User
    pub known : user ≡ some who
    pub enabled : who.enabled ≡ true
    pub addr : Addr
    pub parsed : lib.ip_address req.nas_ip ≡ some addr
    pub device : Device
    pub prefix : ℕ
    pub chosen : Chosen lib addr db.devices prefix device
    pub winner : Authorization
    pub wins :
        IsWinner who
          (groups_of db who)
          device.device_group_id
          (authorizations_on db device.device_group_id)
          winner
    pub resolved : r ≡ granted device winner.privilege_profile

  -- The same, before the user is looked at.
  record DeviceGrant (who : User) (device : Device) (r : Resolved) : Type 0 where
    winner : Authorization
    wins :
        IsWinner who
          (groups_of db who)
          device.device_group_id
          (authorizations_on db device.device_group_id)
          winner
    resolved : r ≡ granted device winner.privilege_profile

  denied-ne-ack :
      (a : AuthResult) (s : Str) (t : Option ℕ) → (denied a s t).response.result ≡ ack → a ≡ ack
  unfolding denied
  denied-ne-ack a s t h = h

  resolve_profile-ack :
      (who : User) (device : Device) (e : EffectiveAuthorization)
      → ((w : Authorization)
          → e.winning ≡ some w
          → IsWinner who
              (groups_of db who)
              device.device_group_id
              (authorizations_on db device.device_group_id)
              w)
      → (resolve_profile device (profile e)).response.result ≡ ack
      → DeviceGrant who device (resolve_profile device (profile e))
  unfolding resolve_profile
  resolve_profile-ack who device e sound h = go e.winning refl
    where
      go :
          (o : Option Authorization)
          → e.winning ≡ o
          → DeviceGrant who device (resolve_profile device (profile e))
      go none k =
          absurd (cc (denied-ne-ack nak (str "no_authorization") (some device.id) (rw k at h)))
      go (some w) k = record { winner = w; wins = sound w k; resolved = rw k }

  resolve_on_device-ack :
      (who : User) (o : Option Device)
      → (resolve_on_device db who o).response.result ≡ ack
      → (device : Device) × (o ≡ some device) × DeviceGrant who device (resolve_on_device db who o)
  unfolding resolve_on_device
  resolve_on_device-ack who none h = absurd (cc (denied-ne-ack nak (str "unknown_nas") none h))
  resolve_on_device-ack who (some device) h = (
    device,
    refl,
    resolve_profile-ack who device
        (evaluate_for_user who (groups_of db who) device.device_group_id
          (authorizations_on db device.device_group_id))
        (evaluate-IsWinner who (groups_of db who) device.device_group_id
          (authorizations_on db device.device_group_id))
        h,
  )

  enabled-ack :
      (who : User)
      → who.enabled ≡ true
      → (resolve_on_device db who (resolve_device_for_ip lib req.nas_ip db.devices)).response.result
        ≡ ack
      → Grant
          (some who)
          (resolve_on_device db who (resolve_device_for_ip lib req.nas_ip db.devices))
  enabled-ack who on h =
      let (device, e, g) =
        resolve_on_device-ack who (resolve_device_for_ip lib req.nas_ip db.devices) h in
      let (addr, parsed, p, c) = resolve-Chosen lib req.nas_ip db.devices device e in
      record {
        who = who;
        known = refl;
        enabled = on;
        addr = addr;
        parsed = parsed;
        device = device;
        prefix = p;
        chosen = c;
        winner = g.winner;
        wins = g.wins;
        resolved = g.resolved;
      }

  resolve_info-Grant :
      (user : Option User)
      → (resolve_info lib db req user).response.result ≡ ack
      → Grant user (resolve_info lib db req user)
  unfolding resolve_info
  resolve_info-Grant none h = absurd (cc (denied-ne-ack nfd (str "unknown_user") none h))
  resolve_info-Grant (some who) h = elim (Bool-cases who.enabled) [
    | inl e ↦ simp e (enabled-ack who e (simp e at h))
    | inr e ↦ absurd (cc (denied-ne-ack nak (str "user_disabled") none (simp e at h)))
  ]

-- Whenever the route acknowledges a profile request of a name that at most one user has, that user is
-- enabled, the device is the longest-prefix match of the source address, the rendered profile is
-- that of the user's winning authorization on the device's group, and one audit row is written.
pub mavis_info-Grant :
    (lib : Ipaddress) (now : ℕ) (casing : Casing) (req : InfoRequest) (db db' : Db)
    (user : Option User) (response : InfoResponse)
    → scalar_one_or_none (matching_users casing req.username db) ≡ ok user
    → mavis_info lib now casing req db ≡ (ok response, db')
    → response.result ≡ ack
    → (r : Resolved) × Grant lib db req user r
      × (response ≡ r.response)
      × (db' ≡ appended now (authz_entry lib req user r) db)
mavis_info-Grant lib now casing req db db' user response found e h =
    let r = resolve_info lib db req user in
    let same = sym (mavis_info_lem lib now casing req db user found) ∙ e in
    let answer : r.response ≡ response = cc (ap (λ p. p.0) same) in
    (
      r,
      resolve_info-Grant lib db req user (ap (λ x. x.result) answer ∙ h),
      sym answer,
      sym (ap (λ p. p.1) same),
    )

-- An enabled user whose source address resolves to a device, with a winning authorization on the
-- device's group, is granted that authorization's profile.
pub resolve_info-granted :
    (lib : Ipaddress) (db : Db) (req : InfoRequest) (who : User) (device : Device)
    (winner : Authorization)
    → who.enabled ≡ true
    → resolve_device_for_ip lib req.nas_ip db.devices ≡ some device
    → (evaluate_for_user who
        (groups_of db who)
        device.device_group_id
        (authorizations_on db device.device_group_id)).winning
      ≡ some winner
    → resolve_info lib db req (some who) ≡ granted device winner.privilege_profile
unfolding resolve_info resolve_on_device resolve_profile
resolve_info-granted lib db req who device winner on found won =
    simp on (rw (found, resolve_on_device) (rw won))
