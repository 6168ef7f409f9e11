-- ===== src/Topology/Addresses.antt =====
-- The addresses of a device, and those that collectDeviceIPsLocked collects.
use netforge.Device.{Router}
use netforge.Host.{Host}
use netforge.Mobile.{CellularGateway, MobileUe}
use netforge.Topology.{Manager}
use netforge.Topology.Removal.{
  in_set, if_set, router_ips, host_ips, gateway_ips, ue_ips, collect_device_ips,
}
use netforge.Prelude.{
  ◌≡◌, refl, ◌||◌, ◌++◌, String, true, false, some, List, [], ◌∷◌, In, here, there, arith, ◌==◌,
  string_eq, beq_refl,
}
use netforge.Prelude.GoMap.{get, values}

module _ {P Q : Type 0} where
  -- The address is one of a router's ports, a host, a gateway or a handset of the name.
  pub data IsOwn (m : Manager P Q) (node_id ip : String) : Type 0 where
    of_router :
        (r : Router P Q)
        → get m.routers node_id ≡ some r
        → In ip (values r.interfaces)
        → IsOwn m node_id ip
    of_host : (h : Host P Q) → get m.hosts node_id ≡ some h → h.ip ≡ ip → IsOwn m node_id ip
    of_gateway :
        (gw : CellularGateway)
        → get m.cellular_gateways node_id ≡ some gw
        → In ip (values gw.interfaces)
        → IsOwn m node_id ip
    of_gateway_public :
        (gw : CellularGateway)
        → get m.cellular_gateways node_id ≡ some gw
        → gw.public_ip ≡ ip
        → (ip == "") ≡ false
        → IsOwn m node_id ip
    of_ue :
        (ue : MobileUe)
        → get m.mobile_ues node_id ≡ some ue
        → ue.ip ≡ ip
        → (ip == "") ≡ false
        → IsOwn m node_id ip

-- The addresses that are collected are those of the device.
in_set-of_In : (ips : List String) (ip : String) → In ip ips → in_set ips ip ≡ true
in_set-of_In [] ip m = elim m [ ]
in_set-of_In (x ∷ ips) ip (here same) = rw (same, beq_refl ip) refl
in_set-of_In (x ∷ ips) ip (there m) = ground (arith, in_set-of_In ips ip m)

in_set-append :
    (xs ys : List String) (ip : String) → in_set (xs ++ ys) ip ≡ (in_set xs ip || in_set ys ip)
in_set-append [] ys ip = refl
in_set-append (x ∷ xs) ys ip = ground (arith, in_set-append xs ys ip)

module _ {P Q : Type 0} where
  in_set-parts :
      (m : Manager P Q) (node_id ip : String)
      → IsOwn m node_id ip
      → (in_set (router_ips (get m.routers node_id)) ip
          || (in_set (host_ips (get m.hosts node_id)) ip
              || (in_set (gateway_ips (get m.cellular_gateways node_id)) ip
                  || in_set (ue_ips (get m.mobile_ues node_id)) ip)))
        ≡ true
  in_set-parts m node_id ip (of_router r found own) =
      rw (found, in_set-of_In (values r.interfaces) ip own) refl
  in_set-parts m node_id ip (of_host h found same) = rw (found, same, beq_refl ip) ground arith
  in_set-parts m node_id ip (of_gateway gw found own) =
      let hit = in_set-of_In (values gw.interfaces) ip own in
      rw (found, in_set-append (values gw.interfaces) (if_set gw.public_ip) ip, hit) ground arith
  in_set-parts m node_id ip (of_gateway_public gw found same set) =
      rw
        (
          found,
          in_set-append (values gw.interfaces) (if_set gw.public_ip) ip,
          same,
          set,
          beq_refl ip,
        )
        ground arith
  in_set-parts m node_id ip (of_ue ue found same set) =
      rw (found, same, set, beq_refl ip) ground arith

  pub in_set-collect :
      (m : Manager P Q) (node_id ip : String)
      → IsOwn m node_id ip
      → in_set (collect_device_ips m node_id) ip ≡ true
  unfolding collect_device_ips
  in_set-collect m node_id ip own =
      let router = router_ips (get m.routers node_id) in
      let host = host_ips (get m.hosts node_id) in
      let gateway = gateway_ips (get m.cellular_gateways node_id) in
      let ue = ue_ips (get m.mobile_ues node_id) in
      let parts = in_set-parts m node_id ip own in
      ground (
        arith,
        in_set-append (router ++ host ++ gateway) ue ip,
        in_set-append (router ++ host) gateway ip,
        in_set-append router host ip,
      )
