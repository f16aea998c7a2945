-- ===== src/Auth/Local/Cidr.antt =====
-- When `_cidr_allows` of backend/app/api/auth_local.py lets a client in.
use tacacs_web.Prelude.{
  ◌≡◌, refl, ap, ◌∙◌, true, false, Option, none, some, [], ◌∷◌, Str, is_empty, if◌then◌else◌,
}
use tacacs_web.Ipaddress.{Addr, Network, Ipaddress, contains}
use tacacs_web.Auth.Local.{address_in, allows_from, cidr_allows}

module _ (lib : Ipaddress) where
  -- A configured network holds the client's address; an empty setting is none.
  abbrev pub Allowed : Option Str → Option Str → Type 0
  Allowed none client_ip = Unit
  Allowed (some []) client_ip = Unit
  Allowed (some (c ∷ cidr)) none = ⊥
  Allowed (some (c ∷ cidr)) (some ip) =
      (addr : Addr) × (net : Network) × (is_empty ip ≡ false)
      × (lib.ip_address ip ≡ some addr)
      × (lib.ip_network (c ∷ cidr) ≡ some net)
      × (contains net addr ≡ true)

  address_in-eq-true :
      (a : Option Addr) (n : Option Network)
      → address_in a n ≡ true
      → (addr : Addr) × (net : Network) × (a ≡ some addr)
        × (n ≡ some net)
        × (contains net addr ≡ true)
  unfolding address_in
  address_in-eq-true none n h = absurd (cc h)
  address_in-eq-true (some a) none h = absurd (cc h)
  address_in-eq-true (some a) (some n) h = (a, n, refl, refl, h)

  pub cidr_allows_sound :
      (cidr client_ip : Option Str) → cidr_allows lib cidr client_ip ≡ true → Allowed cidr client_ip
  unfolding cidr_allows allows_from
  cidr_allows_sound none client_ip h = tt
  cidr_allows_sound (some []) client_ip h = tt
  cidr_allows_sound (some (c ∷ cidr)) none h = absurd (cc h)
  cidr_allows_sound (some (c ∷ cidr)) (some []) h = absurd (cc h)
  cidr_allows_sound (some (c ∷ cidr)) (some (i ∷ ip)) h =
      let (addr, net, p, q, r) =
        address_in-eq-true (lib.ip_address (i ∷ ip)) (lib.ip_network (c ∷ cidr)) h in
      (addr, net, refl, p, q, r)

  pub cidr_allows_complete :
      (cidr client_ip : Option Str) → Allowed cidr client_ip → cidr_allows lib cidr client_ip ≡ true
  unfolding cidr_allows allows_from address_in
  cidr_allows_complete none client_ip h = refl
  cidr_allows_complete (some []) client_ip h = refl
  cidr_allows_complete (some (c ∷ cidr)) none h = absurd h
  cidr_allows_complete (some (c ∷ cidr)) (some ip) (addr, net, e, p, q, r) =
      ap (λ b. if b then false else address_in (lib.ip_address ip) (lib.ip_network (c ∷ cidr))) e
      ∙ ap (λ a. address_in a (lib.ip_network (c ∷ cidr))) p
      ∙ ap (address_in (some addr)) q
      ∙ r
