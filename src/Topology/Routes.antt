-- ===== src/Topology/Routes.antt =====
-- The OSPF routes of a router (src-tauri/engine/network/manager.go): RunOspfSPF and FloodOspfLSAs.
-- AddRoute writes the routing table only, so the next hops are read from the router as it was.
pub mod Current
use netforge.Device.{Router, table_or}
use netforge.Device.Processes.{get_connected_subnets, resolve_subnet_next_hop}
use netforge.Net.{Net}
use netforge.Ospf.{OspfDaemon, RouterLsa, generate_router_lsa, update_lsdb}
use netforge.Ospf.Spf.{SpfResult, compute_spf}
use netforge.Router.{RouteEntry, add_route, put_route, same_route, remove_routes_by_protocol}
use netforge.Router.Table.{find_route, find_route-put_route, find_route-remove}
use netforge.Prelude.{
  ◌≡◌, refl, ap, ◌∙◌, String, Bool, true, false, not, ◌&&◌, Option, none, some, List, [], ◌∷◌, map,
  arith, ◌==◌, string_eq, if◌then◌else◌, Bool-cases, Option-cases, inl, inr, ◌⊎◌, sym, beq_refl,
  beq-eq_true, keep, All, All-map, All-keep, In, here, there,
}
use netforge.Prelude.Int64.{Int64}
use netforge.Prelude.GoMap.{GoMap, get, put}

abbrev pub route_ospf : String
route_ospf = "O"

abbrev pub dist_ospf : Int64
dist_ospf = 110

module _ {P Q : Type 0} where
  -- The body of the loop over the results; `isSubnetCIDR` fails as ParseCIDR does.
  unfoldable pub install : Net → Router P Q → List RouteEntry → String → SpfResult → List RouteEntry
  unfolding add_route
  install net r table dest spf =
      let hop = resolve_subnet_next_hop r spf.next_hop in
      if hop.1 == ""
      then table
      else table_or table (add_route net table dest hop.0 hop.1 spf.metric route_ospf dist_ospf)

  unfoldable pub install_all :
      Net → Router P Q → List RouteEntry → GoMap String SpfResult → List RouteEntry
  install_all net r table [] = table
  install_all net r table ((dest, spf) ∷ rest) =
      install_all net r (install net r table dest spf) rest

  abbrev pub with_ospf_routes : Net → Router P Q → OspfDaemon → Router P Q
  with_ospf_routes net r o = record r {
    routing_table =
        install_all net r (remove_routes_by_protocol r.routing_table route_ospf)
          (compute_spf o.lsdb o.router_id);
  }

  abbrev pub routes_with : Net → Router P Q → Option OspfDaemon → Router P Q
  routes_with net r none = r
  routes_with net r (some o) = if o.enabled then with_ospf_routes net r o else r

  unfoldable pub run_ospf_spf : Net → Router P Q → Router P Q
  unfolding install_all
  run_ospf_spf net r = routes_with net r r.ospf

  -- What the loop over the routers does to one of them.
  abbrev pub flood_to : RouterLsa → String → Router P Q → Router P Q
  flood_to lsa sender_id peer = elim peer.ospf [
    | none ↦ peer
    | some o ↦
        if o.enabled && not (peer.id == sender_id)
        then record peer { ospf = some (update_lsdb o lsa).0 }
        else peer
  ]

  -- The router with the name `id`, and then every other one.
  unfoldable pub flood_ospf_lsas :
      Net → GoMap String (Router P Q) → String → GoMap String (Router P Q)
  flood_ospf_lsas net routers id = elim (get routers id) [
    | none ↦ routers
    | some r ↦ elim r.ospf [
      | none ↦ routers
      | some o ↦
          let lsa = generate_router_lsa o (get_connected_subnets net r) in
          let own = put routers id (record r { ospf = some (update_lsdb o lsa).0 }) in
          if o.enabled then map (λ entry. (entry.0, flood_to lsa r.id entry.1)) own else routers
    ]
  ]
