-- ===== src/Router/Lookup.antt =====
-- The route that a look-up takes is the best one of the table.
use netforge.Net.{Net}
use netforge.Prelude.{
  ℕ, String, ◌≡◌, ◌<◌, ◌≤◌, ◌^◌, ◌⊎◌, refl, true, false, Option, none, some, List, [], ◌∷◌, arith,
  All, In, here, there, Bool-cases, Option-cases, All-map, inl, inr,
}
use netforge.Prelude.Int64.{Int64, rank, minus_one}
use netforge.Router.{RouteEntry, Best, consider, consider_all, match_route}

-- A route covers no more of the address than the one that the scan holds, and where it covers as
-- much its administrative distance is no lower.
abbrev pub IsBelow : Int64 → Int64 → Int64 → Int64 → Type 0
IsBelow ones dist mask_len admin_dist =
    (rank ones < rank mask_len) ⊎ ((ones ≡ mask_len) × (rank admin_dist ≤ rank dist))

-- The length of a mask is at most 128.
abbrev pub HasShortMasks : Net → Type 0
HasShortMasks net = (mask : List ℕ) → net.mask_ones mask ≤ 128

module _ (net : Net) (short : HasShortMasks net) (target_ip : List ℕ) where
  abbrev IsSeen : Best → RouteEntry → Type 0
  IsSeen best entry =
      net.contains entry.network target_ip ≡ true
      → IsBelow (net.mask_ones entry.network.mask) entry.admin_dist best.best_mask_len
          best.best_admin_dist

  -- The variables agree: the two numbers are those of the match.
  abbrev Agrees : Best → Type 0
  Agrees best = elim best.best_match [
    | none ↦ best.best_mask_len ≡ minus_one
    | some e ↦
        (net.mask_ones e.network.mask ≡ best.best_mask_len)
        × (e.admin_dist ≡ best.best_admin_dist)
        × (net.contains e.network target_ip ≡ true)
  ]

  consider-Agrees :
      (best : Best) (entry : RouteEntry) → Agrees best → Agrees (consider net target_ip best entry)
  unfolding consider
  consider-Agrees best entry h = ground arith

  consider-IsSeen :
      (best : Best) (entry : RouteEntry)
      → best.best_mask_len < 2 ^ 64
      → IsSeen (consider net target_ip best entry) entry
  unfolding consider
  consider-IsSeen best entry h c = ground (arith, short entry.network.mask)

  consider-grows :
      (best : Best) (entry seen : RouteEntry)
      → IsSeen best seen
      → IsSeen (consider net target_ip best entry) seen
  unfolding consider
  consider-grows best entry seen h c = ground (arith, h c)

  len-IsSmall : (best : Best) → Agrees best → best.best_mask_len < 2 ^ 64
  len-IsSmall best h = elim (Option-cases best.best_match) [
    | inl e ↦ let q : best.best_mask_len ≡ minus_one = rw e at h in omega arith
    | inr (e, p) ↦
        let q : (net.mask_ones e.network.mask ≡ best.best_mask_len)
            × (e.admin_dist ≡ best.best_admin_dist)
            × (net.contains e.network target_ip ≡ true) =
          rw p at h in
        omega (arith, q.0, short e.network.mask)
  ]

  consider_all-lem :
      (best : Best) (table seen : List RouteEntry)
      → Agrees best
      → All (IsSeen best) seen
      → let after = consider_all net target_ip best table in
        Agrees after × All (IsSeen after) seen × All (IsSeen after) table
  unfolding consider_all
  consider_all-lem best [] seen a h = (a, h, tt)
  consider_all-lem best (entry ∷ table) seen a h =
      let next = consider net target_ip best entry in
      let now : IsSeen next entry = consider-IsSeen best entry (len-IsSmall best a) in
      let rest =
        consider_all-lem next table (entry ∷ seen) (consider-Agrees best entry a)
          (now, All-map (λ s. consider-grows best entry s) seen h) in
      (rest.0, rest.1.1, (rest.1.0, rest.2))

  consider-In :
      (best : Best) (entry e : RouteEntry)
      → (consider net target_ip best entry).best_match ≡ some e
      → (best.best_match ≡ some e) ⊎ (entry ≡ e)
  unfolding consider
  consider-In best entry e h = ground arith

  consider_all-In :
      (best : Best) (table : List RouteEntry) (e : RouteEntry)
      → (consider_all net target_ip best table).best_match ≡ some e
      → (best.best_match ≡ some e) ⊎ In e table
  unfolding consider_all consider
  consider_all-In best [] e h = inl h
  consider_all-In best (entry ∷ table) e h =
      elim (consider_all-In (consider net target_ip best entry) table e h) [
        | inl first ↦ elim (consider-In best entry e first) [
          | inl old ↦ inl old
          | inr new ↦ inr (here new)
        ]
        | inr later ↦ inr (there later)
      ]

abbrev pub IsBestOf : Net → List RouteEntry → List ℕ → Option RouteEntry → Type 0
IsBestOf net table ip none = All (λ x. net.contains x.network ip ≡ false) table
IsBestOf net table ip (some e) =
    In e table
    × (net.contains e.network ip ≡ true)
    × All
        (λ x.
          net.contains x.network ip ≡ true
          → IsBelow (net.mask_ones x.network.mask) x.admin_dist (net.mask_ones e.network.mask)
              e.admin_dist)
        table

-- A look-up that finds a route finds one of the table's that covers the address, and no route of
-- the table that covers it has a longer mask, or the same mask and a lower administrative distance;
-- a look-up that finds none has no route of the table that covers the address. Masks have at most
-- 128 bits.
pub match_route-IsBestOf :
    (net : Net) (table : List RouteEntry) (dest_ip : String)
    → HasShortMasks net
    → IsBestOf net table (net.parse_ip dest_ip) (match_route net table dest_ip)
unfolding match_route
match_route-IsBestOf net table dest_ip short =
    let start : Best = record {
      best_match = none;
      best_mask_len = minus_one;
      best_admin_dist = 999999;
    } in
    let ip = net.parse_ip dest_ip in
    let after = consider_all net ip start table in
    let (agree, _, seen) = consider_all-lem net short ip start table [] refl tt in
    elim (Option-cases after.best_match) [
      | inl e ↦
          let len : after.best_mask_len ≡ minus_one = rw (e, Agrees) at agree in
          rw e (
            All-map
              (λ x s. elim (Bool-cases (net.contains x.network ip)) [
                | inl c ↦ ground (arith, s c, short x.network.mask)
                | inr c ↦ c
              ])
              table seen)
      | inr (r, e) ↦
          let q : (net.mask_ones r.network.mask ≡ after.best_mask_len)
              × (r.admin_dist ≡ after.best_admin_dist)
              × (net.contains r.network ip ≡ true) =
            rw (e, Agrees) at agree in
          rw e (
            elim (consider_all-In net short ip start table r e) [
              | inl never ↦ ground (arith, never)
              | inr m ↦ m
            ],
            q.2,
            All-map (λ x s c. rw (q.0, q.1) (s c)) table seen,
          )
    ]
