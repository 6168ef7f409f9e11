-- ===== src/Device/Processes.antt =====
-- The routing processes of a router (src-tauri/engine/network/router.go): how they start, what they
-- advertise, and how a route of one finds its port.
use netforge.Bgp.{BgpDaemon, BgpRoute}
use netforge.Bgp as bgp
use netforge.Device.{Router, PortNeighbor, ip_to_cidr, text_of}
use netforge.Eigrp.{EigrpDaemon, EigrpRoute}
use netforge.Eigrp as eigrp
use netforge.Net.{Net}
use netforge.Ospf.{OspfDaemon, OspfNetwork}
use netforge.Ospf as ospf
use netforge.Rip.{RipDaemon, RipRoute}
use netforge.Rip as rip
use netforge.Prelude.{
  text_lt, String, Bool, false, ◌||◌, Option, none, some, List, [], ◌∷◌, ◌++◌, map, ◌==◌, string_eq,
  if◌then◌else◌,
}
use netforge.Prelude.Int64.{Int64}
use netforge.Prelude.GoMap.{GoMap, get, put}

abbrev pub mask_or_default : String → String
mask_or_default mask = if mask == "" then "255.255.255.0" else mask

-- The loop of pickRouterID, from the address that it holds.
unfoldable pub least_ip : String → GoMap String String → String
least_ip best [] = best
least_ip best ((port_id, ip) ∷ rest) =
    least_ip (if best == "" || text_lt ip best then ip else best) rest

-- The two loops that look for the port of a router: the first entry that passes the test.
unfoldable pub port_with : String → String → GoMap String String → Option (String × String)
port_with id neighbor_ip [] = none
port_with id neighbor_ip ((port_id, ip) ∷ rest) =
    if ip == id || ip == neighbor_ip then some (port_id, ip) else port_with id neighbor_ip rest

unfoldable pub neighbor_with :
    (PortNeighbor → Bool) → GoMap String PortNeighbor → Option (String × PortNeighbor)
neighbor_with test [] = none
neighbor_with test ((port_id, neighbor) ∷ rest) =
    if test neighbor then some (port_id, neighbor) else neighbor_with test rest

unfoldable pub add_ospf_networks : OspfDaemon → List OspfNetwork → OspfDaemon
add_ospf_networks o [] = o
add_ospf_networks o (stmt ∷ rest) = add_ospf_networks (ospf.add_network o stmt.cidr stmt.area) rest

unfoldable pub enable_interfaces :
    Net → GoMap String String → OspfDaemon → GoMap String String → OspfDaemon
enable_interfaces net masks o [] = o
enable_interfaces net masks o ((port_id, ip) ∷ rest) =
    let mask = text_of (get masks port_id) in
    enable_interfaces net masks
      (elim (ospf.match_interface net o ip mask) [
        | none ↦ o
        | some stmt ↦ ospf.enable_interface o port_id ip mask stmt.area
      ])
      rest

unfoldable pub add_rip_networks : RipDaemon → List String → RipDaemon
add_rip_networks d [] = d
add_rip_networks d (cidr ∷ rest) = add_rip_networks (rip.add_network d cidr) rest

unfoldable pub add_eigrp_networks : EigrpDaemon → List String → EigrpDaemon
add_eigrp_networks d [] = d
add_eigrp_networks d (cidr ∷ rest) = add_eigrp_networks (eigrp.add_network d cidr) rest

abbrev pub learned_rip : Option RipDaemon → List RipRoute
learned_rip none = []
learned_rip (some daemon) = rip.get_routes daemon

module _ {P Q : Type 0} where
  unfoldable pub pick_router_id : Router P Q → String
  unfolding least_ip
  pick_router_id r = let best = least_ip "" r.interfaces in if best == "" then "1.1.1.1" else best

  -- The network of a port, by its address and mask.
  unfoldable pub port_cidr : Net → Router P Q → String → String → String
  unfolding ip_to_cidr
  port_cidr net r port_id ip =
      ip_to_cidr net ip (mask_or_default (text_of (get r.interface_mask port_id)))

  abbrev pub subnets_of :
      Net → Router P Q → GoMap String Int64 → GoMap String String → GoMap String Int64
  subnets_of net r subnets [] = subnets
  subnets_of net r subnets ((port_id, ip) ∷ rest) =
      subnets_of net r (put subnets (port_cidr net r port_id ip) 0) rest

  unfoldable pub get_connected_subnets : Net → Router P Q → GoMap String Int64
  unfolding port_cidr
  get_connected_subnets net r = subnets_of net r [] r.interfaces

  unfoldable pub resolve_ospf_next_hop : Router P Q → String → String → String × String
  unfolding port_with neighbor_with
  resolve_ospf_next_hop r neighbor_router_ip next_hop_router_id =
      elim (port_with next_hop_router_id neighbor_router_ip r.interfaces) [
        | some found ↦ found
        | none ↦
            elim (neighbor_with (λ neighbor. neighbor.router_id == next_hop_router_id)
              r.port_neighbors) [
                | some (port_id, neighbor) ↦ (port_id, text_of (get r.interfaces port_id))
                | none ↦ ("", "")
              ]
      ]

  -- The address and the port.
  unfoldable pub resolve_subnet_next_hop : Router P Q → String → String × String
  unfolding port_with neighbor_with
  resolve_subnet_next_hop r next_hop_router_id =
      elim (port_with next_hop_router_id next_hop_router_id r.interfaces) [
        | some (port_id, ip) ↦ (ip, port_id)
        | none ↦
            elim (neighbor_with
              (λ neighbor.
                neighbor.remote_ip == next_hop_router_id
                || neighbor.router_id == next_hop_router_id)
              r.port_neighbors) [
                | some (port_id, neighbor) ↦ (neighbor.remote_ip, port_id)
                | none ↦ ("", "")
              ]
      ]

  unfoldable pub enable_ospf : Router P Q → Int64 → Router P Q
  unfolding pick_router_id
  enable_ospf r process_id = elim r.ospf [
    | none ↦ record r {
      ospf = some (ospf.enable (ospf.new_ospf_daemon (pick_router_id r) process_id));
    }
    | some daemon ↦ record r { ospf = some (ospf.enable daemon) }
  ]

  unfoldable pub configure_ospf_networks : Net → Router P Q → List OspfNetwork → Router P Q
  unfolding add_ospf_networks enable_interfaces
  configure_ospf_networks net r networks = elim r.ospf [
    | none ↦ r
    | some daemon ↦ record r {
      ospf =
          some (
            enable_interfaces net r.interface_mask (add_ospf_networks daemon networks)
              r.interfaces);
    }
  ]

  unfoldable pub enable_rip : Router P Q → Router P Q
  unfolding pick_router_id
  enable_rip r = elim r.rip [
    | none ↦ record r { rip = some (rip.enable (rip.new_rip_daemon (pick_router_id r))) }
    | some daemon ↦ record r { rip = some (rip.enable daemon) }
  ]

  unfoldable pub configure_rip_networks : Router P Q → List String → Router P Q
  unfolding add_rip_networks
  configure_rip_networks r networks = elim r.rip [
    | none ↦ r
    | some daemon ↦ record r { rip = some (add_rip_networks daemon networks) }
  ]

  -- The connected networks, and what the daemon has learned.
  unfoldable pub build_rip_advertisement : Net → Router P Q → List RipRoute
  unfolding port_cidr
  build_rip_advertisement net r =
      map
        (λ entry. record {
          network = port_cidr net r entry.0 entry.1;
          next_hop = "0.0.0.0";
          interface = entry.0;
          metric = 1;
          learned = 0;
        })
        r.interfaces
      ++ learned_rip r.rip

  unfoldable pub enable_eigrp : Router P Q → Int64 → Router P Q
  unfolding pick_router_id
  enable_eigrp r as_number = elim r.eigrp [
    | none ↦ record r {
      eigrp = some (eigrp.enable (eigrp.new_eigrp_daemon (pick_router_id r) as_number));
    }
    | some daemon ↦ record r { eigrp = some (eigrp.enable daemon) }
  ]

  unfoldable pub configure_eigrp_networks : Router P Q → List String → Router P Q
  unfolding add_eigrp_networks
  configure_eigrp_networks r networks = elim r.eigrp [
    | none ↦ r
    | some daemon ↦ record r { eigrp = some (add_eigrp_networks daemon networks) }
  ]

  unfoldable pub build_eigrp_advertisement : Net → Router P Q → List EigrpRoute
  unfolding port_cidr
  build_eigrp_advertisement net r =
      map
        (λ entry. record {
          network = port_cidr net r entry.0 entry.1;
          next_hop = "";
          interface = entry.0;
          metric = 100;
          feasible = false;
          learned = 0;
        })
        r.interfaces

  unfoldable pub enable_bgp : Router P Q → Int64 → Router P Q
  unfolding pick_router_id
  enable_bgp r local_as = elim r.bgp [
    | none ↦ record r { bgp = some (bgp.enable (bgp.new_bgp_daemon (pick_router_id r) local_as)) }
    | some daemon ↦ record r { bgp = some (bgp.enable daemon) }
  ]

  unfoldable pub add_bgp_peer : Router P Q → String → Int64 → Router P Q
  add_bgp_peer r peer_ip remote_as = elim r.bgp [
    | none ↦ r
    | some daemon ↦ record r { bgp = some (bgp.add_peer daemon peer_ip remote_as) }
  ]

  unfoldable pub build_bgp_advertisement : Net → Router P Q → List BgpRoute
  unfolding port_cidr
  build_bgp_advertisement net r = elim r.bgp [
    | none ↦ []
    | some daemon ↦
        map
          (λ entry. record {
            prefix = port_cidr net r entry.0 entry.1;
            next_hop = entry.1;
            as_path = daemon.local_as ∷ [];
            origin = "IGP";
          })
          r.interfaces
  ]
