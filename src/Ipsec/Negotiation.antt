-- ===== src/Ipsec/Negotiation.antt =====
-- The exchange of keys between two routers of a network (src-tauri/engine/network/ipsec.go). The
-- routers of the manager are a map by their names; a router that is reached by two names of one
-- entry is one object, so each write goes to the map. Each call of publicIP has its own `Visits`.
use netforge.Device.{Router, owns_ip, table_or, route_static, dist_static}
use netforge.Ipsec.{Visits, public_ip, get_psk, activate_peer, is_active}
use netforge.Net.{Net}
use netforge.Prelude.{
  ℕ, suc, String, Bool, ◌&&◌, ◌||◌, not, Option, none, some, List, [], ◌∷◌, ◌++◌, ◌==◌, string_eq,
  if◌then◌else◌, Result, ok, err,
}
use netforge.Prelude.Int64.{Int64}
use netforge.Prelude.GoMap.{GoMap, get, put, values}
use netforge.Router.{RouteEntry, add_route}
use netforge.VpnConfig.{CryptoMapEntry, IkePeerState}

pub data IkeError : Type 0 where
  device_not_found : String → IkeError
  peer_not_found : String → IkeError
  psk_mismatch : String → String → IkeError

-- strings.HasPrefix
abbrev pub HasPrefix : Type 0
HasPrefix = String → String → Bool

-- `local == "" || remote == "" || local != remote`
abbrev pub keys_differ : String → String → Bool
keys_differ local remote = local == "" || remote == "" || not (local == remote)

-- The addresses that TryAutoNegotiateIKE collects.
unfoldable pub entry_peers : List CryptoMapEntry → List String
entry_peers [] = []
entry_peers (e ∷ rest) =
    if not (e.peer_ip == "") then e.peer_ip ∷ entry_peers rest else entry_peers rest

unfoldable pub declared_peers : GoMap String (List CryptoMapEntry) → List String
unfolding entry_peers
declared_peers [] = []
declared_peers ((name, entries) ∷ rest) = entry_peers entries ++ declared_peers rest

-- The routes of AddStaticRoute, whose errors are dropped.
unfoldable pub add_vpn_routes : Net → List RouteEntry → List IkePeerState → List RouteEntry
add_vpn_routes net table [] = table
add_vpn_routes net table (peer ∷ rest) =
    add_vpn_routes net
      (if is_active peer.state && not (peer.remote_subnet == "")
        then table_or table
            (add_route net table peer.remote_subnet peer.peer_ip "" 1 route_static dist_static)
        else table)
      rest

module _ {P Q : Type 0} where
  -- The name and the router that findRouterByPeerIP returns.
  unfoldable pub find_router_by_peer_ip :
      GoMap String (Router P Q) → String → Option (String × Router P Q)
  unfolding owns_ip
  find_router_by_peer_ip [] ip = none
  find_router_by_peer_ip ((id, r) ∷ rest) ip =
      if owns_ip r ip then some (id, r) else find_router_by_peer_ip rest ip

  -- A call of activatePeer through the pointer that the map holds.
  unfoldable pub activate_at :
      GoMap String (Router P Q) → String → String → Int64 → GoMap String (Router P Q)
  unfolding activate_peer
  activate_at routers id peer_ip sim_time = elim (get routers id) [
    | none ↦ routers
    | some r ↦ put routers id (activate_peer r peer_ip sim_time)
  ]

  unfoldable pub local_key : Router P Q → String → String → String
  unfolding get_psk
  local_key local peer_ip psk = if not (psk == "") then psk else get_psk local peer_ip

  unfoldable pub remote_key :
      HasPrefix → Visits → Router P Q → Router P Q → String → String → String
  unfolding get_psk public_ip
  remote_key has_prefix keyed local remote peer_ip psk =
      if not (psk == "")
      then if get_psk remote peer_ip == "" then psk else get_psk remote peer_ip
      else get_psk remote (public_ip has_prefix keyed local)

  -- publicIP is called for the key and again for the activation, each time with orders of its own.
  unfoldable pub negotiate_ike :
      HasPrefix
      → Visits
      → Visits
      → GoMap String (Router P Q)
      → String
      → String
      → String
      → Int64
      → Result IkeError (GoMap String (Router P Q))
  unfolding find_router_by_peer_ip local_key remote_key activate_at
  negotiate_ike has_prefix keyed told routers local_id peer_ip psk sim_time =
      elim (get routers local_id) [
        | none ↦ err (device_not_found local_id)
        | some local ↦ elim (find_router_by_peer_ip routers peer_ip) [
          | none ↦ err (peer_not_found peer_ip)
          | some (remote_id, remote) ↦
              let own = local_key local peer_ip psk in
              let other = remote_key has_prefix keyed local remote peer_ip psk in
              if keys_differ own other
              then err (psk_mismatch own other)
              else ok (
                  activate_at (activate_at routers local_id peer_ip sim_time) remote_id
                    (public_ip has_prefix told local) sim_time)
        ]
      ]

  unfoldable pub install_vpn_routes :
      Net → GoMap String (Router P Q) → String → GoMap String (Router P Q)
  unfolding add_vpn_routes
  install_vpn_routes net routers router_id = elim (get routers router_id) [
    | none ↦ routers
    | some r ↦
        put routers router_id
          (record r { routing_table = add_vpn_routes net r.routing_table (values r.ike_peers) })
  ]

  -- One address of the loop, with the address of the second router; the keys and the addresses are
  -- those of the two routers, which activatePeer and InstallVPNRoutes do not write.
  unfoldable pub try_peer :
      Net
      → HasPrefix
      → Visits
      → Visits
      → Router P Q
      → Router P Q
      → String
      → String
      → String
      → Int64
      → GoMap String (Router P Q)
      → String
      → GoMap String (Router P Q)
  unfolding get_psk public_ip activate_at install_vpn_routes
  try_peer net has_prefix keyed told src dst dst_ip src_id dst_id sim_time routers peer_ip =
      if not (peer_ip == dst_ip)
        || keys_differ (get_psk src peer_ip) (get_psk dst (public_ip has_prefix keyed src))
      then routers
      else install_vpn_routes net
          (install_vpn_routes net
            (activate_at (activate_at routers src_id peer_ip sim_time) dst_id
              (public_ip has_prefix told src) sim_time)
            src_id)
          dst_id

  -- The n-th turn of the loop calls publicIP with the n-th of the two kinds of orders.
  unfoldable pub try_peers :
      Net
      → HasPrefix
      → (ℕ → Visits)
      → (ℕ → Visits)
      → ℕ
      → Router P Q
      → Router P Q
      → String
      → String
      → String
      → Int64
      → GoMap String (Router P Q)
      → List String
      → GoMap String (Router P Q)
  unfolding try_peer
  try_peers net has_prefix keyed told n src dst dst_ip src_id dst_id sim_time routers [] = routers
  try_peers net has_prefix keyed told n src dst dst_ip src_id dst_id sim_time routers
        (peer_ip ∷ rest) =
      try_peers net has_prefix keyed told (suc n) src dst dst_ip src_id dst_id sim_time
        (try_peer net has_prefix (keyed n) (told n) src dst dst_ip src_id dst_id sim_time routers
          peer_ip)
        rest

  -- publicIP of the second router is called once, before the loop.
  unfoldable pub try_auto_negotiate_ike :
      Net
      → HasPrefix
      → Visits
      → (ℕ → Visits)
      → (ℕ → Visits)
      → GoMap String (Router P Q)
      → String
      → String
      → Int64
      → GoMap String (Router P Q)
  unfolding declared_peers try_peers public_ip
  try_auto_negotiate_ike net has_prefix asked keyed told routers src_id dst_id sim_time =
      elim (get routers src_id) [
        | none ↦ routers
        | some src ↦ elim (get routers dst_id) [
          | none ↦ routers
          | some dst ↦
              try_peers net has_prefix keyed told 0 src dst (public_ip has_prefix asked dst) src_id
                dst_id sim_time routers (declared_peers src.crypto_maps)
        ]
      ]
