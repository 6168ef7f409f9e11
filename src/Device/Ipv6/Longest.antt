-- ===== src/Device/Ipv6/Longest.antt =====
-- The IPv6 route that a look-up takes is the longest one of the table.
use netforge.Device.{Ipv6RouteEntry}
use netforge.Device.Ipv6.{
  BestIpv6, covers, ones_of, prefix_ones, consider_ipv6, consider_routes, match_ipv6_route,
}
use netforge.Net.{Net, IpNet}
use netforge.Prelude.{
  ℕ, ◌≤◌, ◌≡◌, ◌⊎◌, refl, String, true, false, Option, none, some, List, [], ◌∷◌, arith, All, In,
  here, there, All-map, Bool-cases, Option-cases, inl, inr,
}
use netforge.Prelude.Int64.{rank, minus_one}

module _ (net : Net) (target : List ℕ) where
  -- What the scan holds is nothing yet, or a route that covers the address, with its length.
  abbrev Holds : BestIpv6 → Type 0
  Holds b = elim b.best [
    | none ↦ b.best_len ≡ minus_one
    | some e ↦ (covers net target e ≡ true) × (prefix_ones net e ≡ b.best_len)
  ]

  -- A route that covers the address is no longer than what the scan holds.
  abbrev IsSeen : BestIpv6 → Ipv6RouteEntry → Type 0
  IsSeen b e = covers net target e ≡ true → rank (prefix_ones net e) ≤ rank b.best_len

  consider_ipv6-Holds :
      (b : BestIpv6) (entry : Ipv6RouteEntry) → Holds b → Holds (consider_ipv6 net target b entry)
  unfolding consider_ipv6
  consider_ipv6-Holds b entry h = ground arith

  consider_ipv6-IsSeen :
      (b : BestIpv6) (entry : Ipv6RouteEntry) → IsSeen (consider_ipv6 net target b entry) entry
  unfolding consider_ipv6
  consider_ipv6-IsSeen b entry c = ground arith

  consider_ipv6-grows :
      (b : BestIpv6) (entry seen : Ipv6RouteEntry)
      → IsSeen b seen
      → IsSeen (consider_ipv6 net target b entry) seen
  unfolding consider_ipv6
  consider_ipv6-grows b entry seen h c = ground (arith, h c)

  consider_routes_lem :
      (b : BestIpv6) (routes seen : List Ipv6RouteEntry)
      → Holds b
      → All (IsSeen b) seen
      → let after = consider_routes net target b routes in
        Holds after × All (IsSeen after) seen × All (IsSeen after) routes
  unfolding consider_routes
  consider_routes_lem b [] seen a h = (a, h, tt)
  consider_routes_lem b (entry ∷ routes) seen a h =
      let next = consider_ipv6 net target b entry in
      let rest =
        consider_routes_lem next routes (entry ∷ seen) (consider_ipv6-Holds b entry a)
          (consider_ipv6-IsSeen b entry, All-map (λ s. consider_ipv6-grows b entry s) seen h) in
      (rest.0, rest.1.1, (rest.1.0, rest.2))

  consider_ipv6-In :
      (b : BestIpv6) (entry e : Ipv6RouteEntry)
      → (consider_ipv6 net target b entry).best ≡ some e
      → (b.best ≡ some e) ⊎ (entry ≡ e)
  unfolding consider_ipv6
  consider_ipv6-In b entry e h = ground arith

  consider_routes-In :
      (b : BestIpv6) (routes : List Ipv6RouteEntry) (e : Ipv6RouteEntry)
      → (consider_routes net target b routes).best ≡ some e
      → (b.best ≡ some e) ⊎ In e routes
  unfolding consider_routes
  consider_routes-In b [] e h = inl h
  consider_routes-In b (entry ∷ routes) e h =
      elim (consider_routes-In (consider_ipv6 net target b entry) routes e h) [
        | inl first ↦ elim (consider_ipv6-In b entry e first) [
          | inl old ↦ inl old
          | inr new ↦ inr (here new)
        ]
        | inr later ↦ inr (there later)
      ]

ones_of-short :
    (net : Net) (network : Option IpNet)
    → ((mask : List ℕ) → net.mask_ones mask ≤ 128)
    → ones_of net network ≤ 128
ones_of-short net none short = omega arith
ones_of-short net (some network) short = short network.mask

abbrev pub IsLongestOf : Net → List Ipv6RouteEntry → List ℕ → Option Ipv6RouteEntry → Type 0
IsLongestOf net routes target none = All (λ x. covers net target x ≡ false) routes
IsLongestOf net routes target (some e) =
    In e routes
    × (covers net target e ≡ true)
    × All (λ x. covers net target x ≡ true → prefix_ones net x ≤ prefix_ones net e) routes

-- An IPv6 look-up that finds a route finds one of the table's that covers the address, and no route
-- of the table that covers it has a longer prefix; a look-up that finds none has no route of the
-- table that covers the address. Masks have at most 128 bits.
pub match_ipv6_route-IsLongestOf :
    (net : Net) (routes : List Ipv6RouteEntry) (dest : String)
    → ((mask : List ℕ) → net.mask_ones mask ≤ 128)
    → IsLongestOf net routes (net.parse_ip dest) (match_ipv6_route net routes dest)
unfolding match_ipv6_route
match_ipv6_route-IsLongestOf net routes dest short =
    let start : BestIpv6 = record { best = none; best_len = minus_one } in
    let target = net.parse_ip dest in
    let after = consider_routes net target start routes in
    let (holds, _, seen) = consider_routes_lem net target start routes [] refl tt in
    elim (Option-cases after.best) [
      | inl e ↦
          let len : after.best_len ≡ minus_one = rw (e, Holds) at holds in
          rw e (
            All-map
              (λ x s. elim (Bool-cases (covers net target x)) [
                | inl c ↦ ground (arith, s c, len, ones_of-short net x.network short)
                | inr c ↦ c
              ])
              routes seen)
      | inr (r, e) ↦
          let q : (covers net target r ≡ true) × (prefix_ones net r ≡ after.best_len) =
            rw (e, Holds) at holds in
          rw e (
            elim (consider_routes-In net target start routes r e) [
              | inl never ↦ ground (arith, never)
              | inr m ↦ m
            ],
            q.0,
            All-map
                (λ x s c. omega (
                  arith,
                  s c,
                  q.1,
                  ones_of-short net x.network short,
                  ones_of-short net r.network short,
                ))
                routes seen,
          )
    ]
