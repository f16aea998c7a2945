-- ===== src/Authz/Resolution/Longest.antt =====
-- Longest-prefix match: the loop against a description of the best device.
use mathlib.Core.List.Memᴰ
use tacacs_web.Prelude.{
  ℕ, ◌≤◌, ◌<◌, ◌≡◌, refl, sym, ap, subst, append-nil, ◌∙◌, ◌↔◌, ◌⊎◌, inl, inr, true, false, none,
  some, List, [], ◌∷◌, ◌++◌, append_assoc, Memᴰ, arith, Str, Option-cases, Bool-cases,
}
use tacacs_web.Models.{Device}
use tacacs_web.Ipaddress.{Addr, Network, Ipaddress, version_eq, contains}
use tacacs_web.Authz.Resolution.{
  Best, is_better, best_device, consider, scan, from_addr, resolve_device_for_ip,
}

module _ (lib : Ipaddress) where
  -- The device registers a network that contains the address, with this prefix length.
  pub record Covers (addr : Addr) (prefix_len : ℕ) (device : Device) : Type 0 where
    pub net : Network
    pub parsed : lib.ip_network device.ip_or_cidr ≡ some net
    pub same_version : version_eq addr.version net.version ≡ true
    pub inside : contains net addr ≡ true
    pub length : net.prefixlen ≡ prefix_len

  module _ (addr : Addr) where
    Covers-unique : (p q : ℕ) (d : Device) → Covers addr p d → Covers addr q d → p ≡ q
    Covers-unique p q d c e =
        let same : some c.net ≡ some e.net = sym c.parsed ∙ e.parsed in
        ground (arith, c.length, e.length)

    Covers-cast : (p : ℕ) (a b : Device) → a ≡ b → Covers addr p a → Covers addr p b
    Covers-cast p a b e c = subst (Covers addr p) e c

    -- The device at one place of the list is the first of those with the longest prefix.
    pub record Chosen (devices : List Device) (p : ℕ) (d : Device) : Type 0 where
      pub earlier : List Device
      pub later : List Device
      pub place : devices ≡ earlier ++ d ∷ later
      pub covers : Covers addr p d
      pub beats_earlier : (q : ℕ) (e : Device) → Memᴰ e earlier → Covers addr q e → q < p
      pub beats_later : (q : ℕ) (e : Device) → Memᴰ e later → Covers addr q e → q ≤ p

    abbrev pub NoneCovers : List Device → Type 0
    NoneCovers devices = (q : ℕ) (e : Device) → Memᴰ e devices → Covers addr q e → ⊥

    -- The loop's invariant over the devices seen so far.
    abbrev Inv : List Device → Best → Type 0
    Inv seen none = NoneCovers seen
    Inv seen (some (p, d)) = Chosen seen p d

    Chosen-le :
        (seen : List Device) (p : ℕ) (d : Device) (c : Chosen seen p d) (q : ℕ) (e : Device)
        → Memᴰ e seen
        → Covers addr q e
        → q ≤ p
    Chosen-le seen p d c q e m k =
        go (Memᴰ.append_cases c.earlier (subst (λ l. Memᴰ e l) c.place m))
      where
        tail :
            (l : List Device)
            → ((q' : ℕ) (e' : Device) → Memᴰ e' l → Covers addr q' e' → q' ≤ p)
            → Memᴰ e (d ∷ l)
            → q ≤ p
        tail l f (Memᴰ.head h) =
            let w = Covers-unique q p d (Covers-cast q e d h k) c.covers in omega arith
        tail l f (Memᴰ.tail t) = f q e t k

        go : (Memᴰ e c.earlier) ⊎ (Memᴰ e (d ∷ c.later)) → q ≤ p
        go (inl t) = let w = c.beats_earlier q e t k in omega arith
        go (inr t) = tail c.later c.beats_later t

    -- One more device that does not win.
    Inv-skip :
        (seen : List Device) (x : Device) (best : Best)
        → Inv seen best
        → ((q : ℕ) → Covers addr q x → is_better q best ≡ false)
        → Inv (seen ++ x ∷ []) best
    Inv-skip seen x none inv lose = λ q e m k. go q e k (Memᴰ.append_cases seen m)
      where
        go : (q : ℕ) (e : Device) → Covers addr q e → Memᴰ e seen ⊎ Memᴰ e (x ∷ []) → ⊥
        go q e k (inl m) = inv q e m k
        go q e k (inr m) = let w = lose q (Covers-cast q e x (Memᴰ.eq_of_singleton m) k) in cc w
    Inv-skip seen x (some (p, d)) inv lose = record {
      earlier = inv.earlier;
      later = inv.later ++ x ∷ [];
      place = ap (λ l. l ++ x ∷ []) inv.place ∙ append_assoc inv.earlier (d ∷ inv.later) (x ∷ []);
      covers = inv.covers;
      beats_earlier = inv.beats_earlier;
      beats_later = λ q e m k. go q e k (Memᴰ.append_cases inv.later m);
    }
      where
        go : (q : ℕ) (e : Device) → Covers addr q e → Memᴰ e inv.later ⊎ Memᴰ e (x ∷ []) → q ≤ p
        go q e k (inl m) = inv.beats_later q e m k
        go q e k (inr m) =
            let w = lose q (Covers-cast q e x (Memᴰ.eq_of_singleton m) k) in ground arith

    -- One more device that wins.
    Inv-take :
        (seen : List Device) (x : Device) (best : Best) (p : ℕ)
        → Inv seen best
        → Covers addr p x
        → is_better p best ≡ true
        → Inv (seen ++ x ∷ []) (some (p, x))
    Inv-take seen x best p inv k win = record {
      earlier = seen;
      later = [];
      place = refl;
      covers = k;
      beats_earlier = go best inv win;
      beats_later = λ q e m h. absurd (Memᴰ.not-nil m);
    }
      where
        go :
            (b : Best)
            → Inv seen b
            → is_better p b ≡ true
            → (q : ℕ) (e : Device) → Memᴰ e seen
            → Covers addr q e
            → q < p
        go none i w q e m h = absurd (i q e m h)
        go (some (p', d)) i w q e m h = let u = Chosen-le seen p' d i q e m h in ground arith

    net_of :
        (q : ℕ) (x : Device) (net : Network)
        → lib.ip_network x.ip_or_cidr ≡ some net
        → Covers addr q x
        → (version_eq addr.version net.version ≡ true)
          × (contains net addr ≡ true)
          × (net.prefixlen ≡ q)
    net_of q x net h c =
        let same : c.net ≡ net = cc (c.parsed, h) in
        (
          subst (λ n. version_eq addr.version n.version ≡ true) same c.same_version,
          subst (λ n. contains n addr ≡ true) same c.inside,
          subst (λ n. n.prefixlen ≡ q) same c.length,
        )

    consider-Inv :
        (seen : List Device) (x : Device) (best : Best)
        → Inv seen best
        → Inv (seen ++ x ∷ []) (consider lib addr x (lib.ip_network x.ip_or_cidr) best)
    unfolding consider
    consider-Inv seen x best inv = elim (Option-cases (lib.ip_network x.ip_or_cidr)) [
      | inl h ↦ rw h (Inv-skip seen x best inv (λ q c. cc (h, c.parsed)))
      | inr (net, h) ↦ rw h (elim (Bool-cases (version_eq addr.version net.version)) [
        | inr v ↦ rw v (Inv-skip seen x best inv (λ q c. cc (v, (net_of q x net h c).0)))
        | inl v ↦ rw v (elim (Bool-cases (contains net addr)) [
          | inr i ↦ rw i (Inv-skip seen x best inv (λ q c. cc (i, (net_of q x net h c).1)))
          | inl i ↦ rw i (elim (Bool-cases (is_better net.prefixlen best)) [
            | inl w ↦ rw w (
                Inv-take seen x best net.prefixlen inv
                  (record { net = net; parsed = h; same_version = v; inside = i; length = refl }) w)
            | inr w ↦ rw w (
                Inv-skip seen x best inv
                  (λ q c. ap (λ n. is_better n best) (sym (net_of q x net h c).2) ∙ w))
          ])
        ])
      ])
    ]

    scan-Inv :
        (seen devices : List Device) (best : Best)
        → Inv seen best
        → Inv (seen ++ devices) (scan lib addr devices best)
    unfolding scan
    scan-Inv seen [] best inv = rw (append-nil seen) inv
    scan-Inv seen (x ∷ xs) best inv = rw (← append_assoc seen (x ∷ []) xs) (
        scan-Inv (seen ++ x ∷ []) xs (consider lib addr x (lib.ip_network x.ip_or_cidr) best)
          (consider-Inv seen x best inv))

  -- What `best` says of the devices that were looked at.
  Inv-best_device :
      (addr : Addr) (devices : List Device) (best : Best)
      → Inv addr devices best
      → ((d : Device) → best_device best ≡ some d → (p : ℕ) × Chosen addr devices p d)
        × (best_device best ≡ none → NoneCovers addr devices)
  Inv-best_device addr devices none inv = ((λ d h. cc h), λ h. inv)
  Inv-best_device addr devices (some (p, e)) inv =
      ((λ d h. (p, let same : e ≡ d = cc h in subst (Chosen addr devices p) same inv)), λ h. cc h)

  -- When a device is returned, the source address parses and the device is the one that is chosen:
  -- its network contains the address, no earlier device of the list with as long a prefix and no
  -- later one with a longer prefix does.
  pub resolve-Chosen :
      (nas_ip : Str) (devices : List Device) (d : Device)
      → resolve_device_for_ip lib nas_ip devices ≡ some d
      → (addr : Addr) × (lib.ip_address nas_ip ≡ some addr) × (p : ℕ) × Chosen addr devices p d
  unfolding resolve_device_for_ip
  resolve-Chosen nas_ip devices d h = elim (Option-cases (lib.ip_address nas_ip)) [
    | inl e ↦ absurd (cc (rw (e, from_addr) at h))
    | inr (addr, e) ↦
        let h' : best_device (scan lib addr devices none) ≡ some d = rw (e, from_addr) at h in
        let inv = scan-Inv addr [] devices none (λ q x m k. Memᴰ.not-nil m) in
        let (p, c) = (Inv-best_device addr devices (scan lib addr devices none) inv).0 d h' in
        (addr, e, p, c)
  ]

  -- Nothing is returned exactly when the source address does not parse or no device's network
  -- contains it.
  pub resolve-eq-none_iff :
      (nas_ip : Str) (devices : List Device)
      → (resolve_device_for_ip lib nas_ip devices ≡ none)
        ↔ ((addr : Addr) → lib.ip_address nas_ip ≡ some addr → NoneCovers addr devices)
  unfolding resolve_device_for_ip
  resolve-eq-none_iff nas_ip devices = elim (Option-cases (lib.ip_address nas_ip)) [
    | inl e ↦ ((λ h addr k. cc (e, k)), λ f. rw e)
    | inr (addr, e) ↦
        let inv = scan-Inv addr [] devices none (λ q x m k. Memᴰ.not-nil m) in
        let both = Inv-best_device addr devices (scan lib addr devices none) inv in
        (
          (λ h a k.
              let same : addr ≡ a = cc (e, k) in
              subst (λ x. NoneCovers x devices) same (both.1 (rw (e, from_addr) at h))),
          λ f. rw e (none_of (scan lib addr devices none) both (f addr e)),
        )
  ]
    where
      none_of :
          {addr : Addr} (best : Best)
          → ((d : Device) → best_device best ≡ some d → (p : ℕ) × Chosen addr devices p d)
            × (best_device best ≡ none → NoneCovers addr devices)
          → NoneCovers addr devices
          → best_device best ≡ none
      none_of none both f = refl
      none_of (some (p, d)) both f =
          let (q, c) = both.0 d refl in
          absurd (
            f q d
              (subst (λ l. Memᴰ d l) (sym c.place) (Memᴰ.append_right c.earlier (Memᴰ.head refl)))
              c.covers)
