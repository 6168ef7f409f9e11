-- ===== src/Device/Snapshots/Reloaded.antt =====
-- A router that is made again of its snapshot has its ports and its static routes.
use netforge.Device.{
  Router, new_router, add_interface, ip_to_cidr, table_or, text_of, route_connected, route_static,
  dist_static,
}
use netforge.Device.Processes.{
  enable_ospf, configure_ospf_networks, enable_rip, configure_rip_networks, enable_eigrp,
  configure_eigrp_networks, enable_bgp,
}
use netforge.Device.Snapshots.{
  RouterSnapshot, IfaceSnapshot, StaticRouteSnap, iface_snaps, static_snaps, snapshot,
  add_interfaces, add_static_routes, restore_daemons, restore_router,
}
use netforge.Net.{Net}
use netforge.Ospf.{OspfNetwork}
use netforge.Router.{RouteEntry, add_route, put_route}
use netforge.Router.Table.{find_route, is_route, find_route-put_route}
use netforge.Prelude.{
  String, ◌≡◌, refl, ap, ◌∙◌, Bool, true, false, Option, none, some, List, [], ◌∷◌, arith, ◌==◌,
  string_eq, if◌then◌else◌, Bool-cases, Option-cases, inl, inr, All,
}
use netforge.Prelude.Int64.{Int64}
use netforge.Prelude.GoMap.{GoMap, get, get-put, IsUnique}
use text.Mathlib.TextEquality.{eq_iff}

abbrev pub or_else {ℓ} : {A : Type ℓ} → Option A → Option A → Option A
or_else none b = b
or_else (some a) _ = some a

or_else-none {ℓ} : {A : Type ℓ} (o : Option A) → or_else o none ≡ o
or_else-none none = refl
or_else-none (some a) = refl

-- The text of a port's mask or hardware address, where the port exists.
abbrev pub text_at : Option String → Option String → Option String
text_at none text = none
text_at (some port) text = some (text_of text)

-- A static route as it is added.
abbrev pub as_static : RouteEntry → RouteEntry
as_static e = record e { protocol = route_static; admin_dist = dist_static }

abbrev pub map_static : Option RouteEntry → Option RouteEntry
map_static none = none
map_static (some e) = some (as_static e)

-- No two static routes have the same network.
abbrev pub IsUniqueStatic : Net → List RouteEntry → Type 0
IsUniqueStatic net [] = Unit
IsUniqueStatic net (e ∷ table) =
    ((e.protocol == route_static) ≡ true
      → find_route net table (net.net_string e.network) route_static ≡ none)
    × IsUniqueStatic net table

-- ParseCIDR reads what String writes of the networks of the table.
abbrev pub IsParsed : Net → List RouteEntry → Type 0
IsParsed net table = All (λ e. net.parse_cidr (net.net_string e.network) ≡ some e.network) table

-- The connected route of a new port hides no static route.
find_route-table_or :
    (net : Net) (table : List RouteEntry) (cidr port_id network : String)
    → find_route net
        (table_or table (add_route net table cidr "" port_id 0 route_connected 0))
        network
        route_static
      ≡ find_route net table network route_static
unfolding add_route
find_route-table_or net table cidr port_id network = elim (Option-cases (net.parse_cidr cidr)) [
  | inl e ↦ rw (e, add_route) refl
  | inr (ip_net, e) ↦
      let route : RouteEntry = record {
        network = ip_net;
        next_hop = "";
        interface = port_id;
        metric = 0;
        protocol = route_connected;
        admin_dist = 0;
      } in
      rw (e, add_route) (find_route-put_route net table route network route_static ∙ ground arith)
]

table_or-static :
    (net : Net) (table : List RouteEntry) (e : RouteEntry)
    → net.parse_cidr (net.net_string e.network) ≡ some e.network
    → table_or table (
        add_route net table
          (net.net_string e.network)
          e.next_hop
          e.interface
          e.metric
          route_static
          dist_static)
      ≡ put_route net table (as_static e)
unfolding add_route
table_or-static net table e law = rw (law, add_route) refl

module _ {P Q : Type 0} (net : Net) where
  abbrev SamePorts : Router P Q → Router P Q → Type 0
  SamePorts r s =
      (r.interfaces ≡ s.interfaces)
      × (r.interface_mask ≡ s.interface_mask)
      × (r.interface_mac ≡ s.interface_mac)
      × (r.routing_table ≡ s.routing_table)

  SamePorts-trans : (r s t : Router P Q) → SamePorts r s → SamePorts s t → SamePorts r t
  SamePorts-trans r s t h k = (h.0 ∙ k.0, h.1 ∙ k.1, h.2 ∙ k.2, h.3 ∙ k.3)

  ospf-SamePorts :
      (r : Router P Q) (n : Int64) (networks : List OspfNetwork)
      → SamePorts (configure_ospf_networks net (enable_ospf r n) networks) r
  unfolding configure_ospf_networks enable_ospf
  ospf-SamePorts r n networks = ground arith

  rip-SamePorts :
      (r : Router P Q) (networks : List String)
      → SamePorts (configure_rip_networks (enable_rip r) networks) r
  unfolding configure_rip_networks enable_rip
  rip-SamePorts r networks = ground arith

  eigrp-SamePorts :
      (r : Router P Q) (n : Int64) (networks : List String)
      → SamePorts (configure_eigrp_networks (enable_eigrp r n) networks) r
  unfolding configure_eigrp_networks enable_eigrp
  eigrp-SamePorts r n networks = ground arith

  bgp-SamePorts : (r : Router P Q) (n : Int64) → SamePorts (enable_bgp r n) r
  unfolding enable_bgp
  bgp-SamePorts r n = ground arith

  SamePorts-if : (b : Bool) (r s : Router P Q) → SamePorts s r → SamePorts (if b then s else r) r
  SamePorts-if true r s h = h
  SamePorts-if false r s h = (refl, refl, refl, refl)

  restore_daemons-SamePorts :
      (r : Router P Q) (snap : RouterSnapshot) → SamePorts (restore_daemons net r snap) r
  unfolding restore_daemons
  restore_daemons-SamePorts r snap =
      let ospf =
        configure_ospf_networks net (enable_ospf r snap.ospf_process_id) snap.ospf_networks in
      let r1 = if snap.ospf_enabled then ospf else r in
      let rip = configure_rip_networks (enable_rip r1) snap.rip_networks in
      let r2 = if snap.rip_enabled then rip else r1 in
      let eigrp = configure_eigrp_networks (enable_eigrp r2 snap.eigrp_as) snap.eigrp_networks in
      let r3 = if snap.eigrp_enabled then eigrp else r2 in
      let bgp = enable_bgp r3 snap.bgp_local_as in
      let h1 =
        SamePorts-if snap.ospf_enabled r ospf
          (ospf-SamePorts r snap.ospf_process_id snap.ospf_networks) in
      let h2 = SamePorts-if snap.rip_enabled r1 rip (rip-SamePorts r1 snap.rip_networks) in
      let h3 =
        SamePorts-if snap.eigrp_enabled r2 eigrp
          (eigrp-SamePorts r2 snap.eigrp_as snap.eigrp_networks) in
      let h4 = SamePorts-if snap.bgp_enabled r3 bgp (bgp-SamePorts r3 snap.bgp_local_as) in
      let all = if snap.bgp_enabled then bgp else r3 in
      SamePorts-trans all r3 r h4 (SamePorts-trans r3 r2 r h3 (SamePorts-trans r2 r1 r h2 h1))

  add_interfaces_lem :
      (r own : Router P Q) (ports : GoMap String String) (port network : String)
      → IsUnique ports
      → let after = add_interfaces net r (iface_snaps own ports) in
        (get after.interfaces port ≡ or_else (get ports port) (get r.interfaces port))
        × (get after.interface_mask port
            ≡ or_else
                (text_at (get ports port) (get own.interface_mask port))
                (get r.interface_mask port))
        × (get after.interface_mac port
            ≡ or_else
                (text_at (get ports port) (get own.interface_mac port))
                (get r.interface_mac port))
        × (find_route net after.routing_table network route_static
            ≡ find_route net r.routing_table network route_static)
  unfolding add_interfaces iface_snaps get add_interface
  add_interfaces_lem r own [] port network u = (refl, refl, refl, refl)
  add_interfaces_lem r own ((i, ip) ∷ ports) port network u =
      let mask = text_of (get own.interface_mask i) in
      let mac = text_of (get own.interface_mac i) in
      let next = add_interface net r i ip mask mac in
      let rest = add_interfaces_lem next own ports port network u.1 in
      let same = find_route-table_or net r.routing_table (ip_to_cidr net ip mask) i network in
      (
        rest.0 ∙ ground (arith, get-put r.interfaces i port ip, u.0, eq_iff i port),
        rest.1 ∙ ground (arith, get-put r.interface_mask i port mask, u.0, eq_iff i port),
        rest.2 ∙ ground (arith, get-put r.interface_mac i port mac, u.0, eq_iff i port),
        rest.3 ∙ same,
      )

  add_static_routes_lem :
      (r : Router P Q) (table : List RouteEntry) (network : String)
      → IsParsed net table
      → IsUniqueStatic net table
      → find_route net
          (add_static_routes net r (static_snaps net table)).routing_table
          network
          route_static
        ≡ or_else
            (map_static (find_route net table network route_static))
            (find_route net r.routing_table network route_static)
  unfolding add_static_routes static_snaps find_route
  add_static_routes_lem r [] network law u = refl
  add_static_routes_lem r (e ∷ table) network law u =
      elim (Bool-cases (e.protocol == route_static)) [
        | inl static ↦
            let next = record r { routing_table = put_route net r.routing_table (as_static e) } in
            let rest = add_static_routes_lem next table network law.1 u.1 in
            let put = find_route-put_route net r.routing_table (as_static e) network route_static in
            rw (static, table_or-static net r.routing_table e law.0, add_static_routes)
              (rest ∙ ground (arith, put, u.0 static, eq_iff (net.net_string e.network) network))
        | inr other ↦
            let skip : (if is_route net e network route_static
                  then some e
                  else find_route net table network route_static)
                ≡ find_route net table network route_static =
              ground arith in
            rw (skip, other) (add_static_routes_lem r table network law.1 u.1)
      ]

  add_static_routes-ports :
      (r : Router P Q) (routes : List StaticRouteSnap)
      → let after = add_static_routes net r routes in
        (after.interfaces ≡ r.interfaces)
        × (after.interface_mask ≡ r.interface_mask)
        × (after.interface_mac ≡ r.interface_mac)
  unfolding add_static_routes
  add_static_routes-ports r [] = (refl, refl, refl)
  add_static_routes-ports r (sr ∷ routes) =
      add_static_routes-ports
        (record r {
          routing_table = table_or r.routing_table (
              add_route net r.routing_table sr.cidr sr.next_hop sr.interface sr.metric route_static
                dist_static);
        })
        routes

  snapshot-fields :
      (r : Router P Q)
      → ((snapshot net r).interfaces ≡ iface_snaps r r.interfaces)
        × ((snapshot net r).static_routes ≡ static_snaps net r.routing_table)
  unfolding snapshot
  snapshot-fields r = ground arith

-- A router that is made again of its snapshot has the same ports, with the same addresses, and the
-- mask and hardware address of each port, and it finds the same static routes, at the
-- administrative distance of static routes. In the router no port stands twice and no two static
-- routes have the same network; ParseCIDR reads what String writes of the networks of its table.
pub restore_router-snapshot :
    {P Q : Type 0} (net : Net) (r : Router P Q) (port network : String)
    → IsParsed net r.routing_table
    → IsUnique r.interfaces
    → IsUniqueStatic net r.routing_table
    → let after : Router P Q = restore_router net (snapshot net r) in
      (get after.interfaces port ≡ get r.interfaces port)
      × (get after.interface_mask port
          ≡ text_at (get r.interfaces port) (get r.interface_mask port))
      × (get after.interface_mac port ≡ text_at (get r.interfaces port) (get r.interface_mac port))
      × (find_route net after.routing_table network route_static
          ≡ map_static (find_route net r.routing_table network route_static))
unfolding restore_router new_router find_route get
restore_router-snapshot {P} {Q} net r port network law u v =
    let snap = snapshot net r in
    let made : List IfaceSnapshot → Router P Q = λ l. add_interfaces net (new_router snap.id) l in
    let ports = made snap.interfaces in
    let routes = add_static_routes net ports snap.static_routes in
    let same = restore_daemons-SamePorts net routes snap in
    let (ifaces, statics) = snapshot-fields net r in
    let kept = add_static_routes-ports net ports snap.static_routes in
    let has = add_interfaces_lem net (new_router snap.id) r r.interfaces port network u in
    (
      ap (λ m. get m port) (same.0 ∙ kept.0)
          ∙ ap (λ l. get (made l).interfaces port) ifaces
          ∙ has.0
          ∙ or_else-none (get r.interfaces port),
      ap (λ m. get m port) (same.1 ∙ kept.1)
          ∙ ap (λ l. get (made l).interface_mask port) ifaces
          ∙ has.1
          ∙ or_else-none (text_at (get r.interfaces port) (get r.interface_mask port)),
      ap (λ m. get m port) (same.2 ∙ kept.2)
          ∙ ap (λ l. get (made l).interface_mac port) ifaces
          ∙ has.2
          ∙ or_else-none (text_at (get r.interfaces port) (get r.interface_mac port)),
      ap (λ t. find_route net t network route_static) same.3
          ∙ ap
              (λ l.
                find_route net (add_static_routes net ports l).routing_table network route_static)
              statics
          ∙ add_static_routes_lem net ports r.routing_table network law v
          ∙ ap (λ o. or_else (map_static (find_route net r.routing_table network route_static)) o)
              (ap (λ l. find_route net (made l).routing_table network route_static) ifaces ∙ has.3)
          ∙ or_else-none (map_static (find_route net r.routing_table network route_static)),
    )
