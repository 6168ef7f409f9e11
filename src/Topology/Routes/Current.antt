-- ===== src/Topology/Routes/Current.antt =====
-- What RunOspfSPF leaves in the routing table.
use netforge.Device.{Router}
use netforge.Device.Processes.{resolve_subnet_next_hop}
use netforge.Net.{Net}
use netforge.Ospf.{OspfDaemon}
use netforge.Ospf.Spf.{SpfResult, compute_spf}
use netforge.Router.{RouteEntry, add_route, put_route, same_route, remove_routes_by_protocol}
use netforge.Router.Table.{find_route, find_route-put_route, find_route-remove}
use netforge.Prelude.{
  ◌≡◌, refl, ap, ◌∙◌, String, true, false, not, some, List, [], ◌∷◌, arith, ◌==◌, string_eq,
  if◌then◌else◌, Bool-cases, Option-cases, inl, inr, ◌⊎◌, sym, beq_refl, beq-eq_true, keep, All,
  All-map, All-keep, In, here, there,
}
use netforge.Prelude.GoMap.{GoMap}
use netforge.Topology.Routes.{
  route_ospf, dist_ospf, install, install_all, with_ospf_routes, routes_with, run_ospf_spf,
}

ospf_apart : (proto : String) → (proto == route_ospf) ≡ false → (route_ospf == proto) ≡ false
ospf_apart proto other = elim (Bool-cases (route_ospf == proto)) [
  | inl hit ↦
      let same : (proto == route_ospf) ≡ true =
        ap (λ p. p == route_ospf) (sym (beq-eq_true route_ospf proto hit)) ∙ beq_refl route_ospf in
      cc
  | inr miss ↦ miss
]

All-put_route :
    (C : RouteEntry → Type 0) (net : Net) (table : List RouteEntry) (route : RouteEntry)
    → All C table
    → C route
    → All C (put_route net table route)
unfolding put_route
All-put_route C net [] route all new = (new, tt)
All-put_route C net (entry ∷ table) route all new = elim (Bool-cases (same_route net entry route)) [
  | inl same ↦ rw same (new, all.1)
  | inr other ↦ rw other (all.0, All-put_route C net table route all.1 new)
]

module _ {P Q : Type 0} where
  find_route-install :
      (net : Net) (r : Router P Q) (table : List RouteEntry) (dest network proto : String)
      (spf : SpfResult)
      → (route_ospf == proto) ≡ false
      → find_route net (install net r table dest spf) network proto
        ≡ find_route net table network proto
  unfolding install
  find_route-install net r table dest network proto spf other =
      let hop = resolve_subnet_next_hop r spf.next_hop in
      elim (Bool-cases (hop.1 == "")) [
        | inl empty ↦ rw (empty, install) refl
        | inr named ↦ elim (Option-cases (net.parse_cidr dest)) [
          | inl e ↦ rw (named, e, install, add_route) refl
          | inr (ip_net, e) ↦
              let route : RouteEntry = record {
                network = ip_net;
                next_hop = hop.0;
                interface = hop.1;
                metric = spf.metric;
                protocol = route_ospf;
                admin_dist = dist_ospf;
              } in
              rw (named, e, install, add_route)
                (find_route-put_route net table route network proto ∙ rw other ground arith)
        ]
      ]

  find_route-install_all :
      (net : Net) (r : Router P Q) (table : List RouteEntry) (results : GoMap String SpfResult)
      (network proto : String)
      → (route_ospf == proto) ≡ false
      → find_route net (install_all net r table results) network proto
        ≡ find_route net table network proto
  unfolding install_all
  find_route-install_all net r table [] network proto other = refl
  find_route-install_all net r table ((dest, spf) ∷ rest) network proto other =
      find_route-install_all net r (install net r table dest spf) rest network proto other
      ∙ find_route-install net r table dest network proto spf other

  -- The entry comes from a result of the search.
  abbrev pub IsInstalled : Net → Router P Q → GoMap String SpfResult → RouteEntry → Type 0
  IsInstalled net r results entry =
      (dest : String) × (spf : SpfResult) × In (dest, spf) results
      × (net.parse_cidr dest ≡ some entry.network)
      × (resolve_subnet_next_hop r spf.next_hop ≡ (entry.next_hop, entry.interface))
      × ((entry.interface == "") ≡ false)
      × (entry.metric ≡ spf.metric)

  -- It does, or it is of another protocol.
  abbrev pub IsCurrent : Net → Router P Q → GoMap String SpfResult → RouteEntry → Type 0
  IsCurrent net r results entry =
      ((entry.protocol == route_ospf) ≡ false) ⊎ IsInstalled net r results entry

  install-IsCurrent :
      (net : Net) (r : Router P Q) (results : GoMap String SpfResult) (table : List RouteEntry)
      (dest : String) (spf : SpfResult)
      → In (dest, spf) results
      → All (IsCurrent net r results) table
      → All (IsCurrent net r results) (install net r table dest spf)
  unfolding install
  install-IsCurrent net r results table dest spf found all =
      let hop = resolve_subnet_next_hop r spf.next_hop in
      elim (Bool-cases (hop.1 == "")) [
        | inl empty ↦ rw (empty, install) all
        | inr named ↦ elim (Option-cases (net.parse_cidr dest)) [
          | inl e ↦ rw (named, e, install, add_route) all
          | inr (ip_net, e) ↦
              let route : RouteEntry = record {
                network = ip_net;
                next_hop = hop.0;
                interface = hop.1;
                metric = spf.metric;
                protocol = route_ospf;
                admin_dist = dist_ospf;
              } in
              rw (named, e, install, add_route)
                (All-put_route (IsCurrent net r results) net table route all
                  (inr (dest, spf, found, e, refl, named, refl)))
        ]
      ]

  remove-IsCurrent :
      (net : Net) (r : Router P Q) (results : GoMap String SpfResult) (table : List RouteEntry)
      → All (IsCurrent net r results) (remove_routes_by_protocol table route_ospf)
  unfolding remove_routes_by_protocol
  remove-IsCurrent net r results table =
      All-map (λ entry h. inl (ground (arith, h)))
        (keep (λ entry. not (entry.protocol == route_ospf)) table)
        (All-keep (λ entry. not (entry.protocol == route_ospf)) table)

  install_all-IsCurrent :
      (net : Net) (r : Router P Q) (all_results : GoMap String SpfResult) (table : List RouteEntry)
      (results : GoMap String SpfResult)
      → ((x : String × SpfResult) → In x results → In x all_results)
      → All (IsCurrent net r all_results) table
      → All (IsCurrent net r all_results) (install_all net r table results)
  unfolding install_all
  install_all-IsCurrent net r all_results table [] sub all = all
  install_all-IsCurrent net r all_results table ((dest, spf) ∷ rest) sub all =
      install_all-IsCurrent net r all_results (install net r table dest spf) rest
        (λ x m. sub x (there m))
        (install-IsCurrent net r all_results table dest spf (sub (dest, spf) (here refl)) all)

  run_ospf_spf-enabled :
      (net : Net) (r : Router P Q) (o : OspfDaemon)
      → r.ospf ≡ some o
      → o.enabled ≡ true
      → run_ospf_spf net r ≡ with_ospf_routes net r o
  unfolding run_ospf_spf
  run_ospf_spf-enabled net r o runs on =
      ap (routes_with net r) runs ∙ ap (λ b. if b then with_ospf_routes net r o else r) on

-- A run of RunOspfSPF on a router that runs OSPF leaves the routes of the other protocols as they
-- were, and of the OSPF routes it leaves only those that come from a result of ComputeSPF on the
-- router's database: with the network and the metric of the result, and with the next hop and the
-- port, which is not empty, that the router resolves for it.
pub find_route-run_ospf_spf :
    {P Q : Type 0} (net : Net) (r : Router P Q) (o : OspfDaemon) (network proto : String)
    → r.ospf ≡ some o
    → o.enabled ≡ true
    → (proto == route_ospf) ≡ false
    → let after = (run_ospf_spf net r).routing_table in
      (find_route net after network proto ≡ find_route net r.routing_table network proto)
      × All (IsCurrent net r (compute_spf o.lsdb o.router_id)) after
find_route-run_ospf_spf net r o network proto runs on other =
    let kept = remove_routes_by_protocol r.routing_table route_ospf in
    let results = compute_spf o.lsdb o.router_id in
    rw (run_ospf_spf-enabled net r o runs on) (
      find_route-install_all net r kept results network proto (ospf_apart proto other)
          ∙ find_route-remove net r.routing_table route_ospf network proto
          ∙ rw other refl,
      install_all-IsCurrent net r results kept results (λ x m. m)
          (remove-IsCurrent net r results r.routing_table),
    )
