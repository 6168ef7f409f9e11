-- ===== src/Ipsec.antt =====
-- Virtual private networks (src-tauri/engine/network/ipsec.go): the configuration of a router, the
-- tunnels of its ports and the exchange of keys between two routers. strings.HasPrefix is a
-- parameter, errors are values, and the event log is left out. A nil map is empty.
pub mod Negotiation
pub mod Tunnels
use netforge.Device.{Router, owns_ip, text_of}
use netforge.Net.{Net}
use netforge.Pdu.{Ipv4Packet, proto_icmp, proto_tcp, proto_udp}
use netforge.Router.{add_route}
use netforge.Router.Acl.{AclRule, Acls, rules_of, match_acl_net}
use netforge.VpnConfig.{
  IkePhase1State, ike_active, IsakmpPolicy, IpSecTransformSet, CryptoMapEntry, IkePeerState,
  EspPacket,
}
use netforge.Device.{table_or, route_static, dist_static}
use netforge.Neighbors.{slice_of}
use netforge.Prelude.{
  ℕ, String, Bool, true, false, ◌&&◌, ◌||◌, not, Option, none, some, List, [], ◌∷◌, ◌++◌, any, ◌==◌,
  nat_eq, string_eq, if◌then◌else◌, Result, ok, err,
}
use netforge.Prelude.Int64.{Int64}
use netforge.Prelude.GoMap.{GoMap, get, put, values}

abbrev pub proto_esp : ℕ
proto_esp = 50

abbrev pub is_active : IkePhase1State → Bool
is_active ike_active = true
is_active _ = false

abbrev pub active_peer : Option IkePeerState → Option IkePeerState
active_peer none = none
active_peer (some peer) = if is_active peer.state then some peer else none

module _ {B : Type 0} where
  abbrev pub ip_protocol : Ipv4Packet B → String
  ip_protocol ip =
      if ip.protocol == proto_icmp
      then "icmp"
      else if ip.protocol == proto_udp
      then "udp"
      else if ip.protocol == proto_tcp
      then "tcp"
      else "ip"

  unfoldable pub crypto_rule : Net → Ipv4Packet B → AclRule → Bool
  crypto_rule net ip rule =
      (rule.protocol == "ip" || rule.protocol == ip_protocol ip)
      && match_acl_net net rule.src_net ip.source_ip
      && match_acl_net net rule.dst_net ip.destination_ip

  unfoldable pub first_rule : Net → Ipv4Packet B → List AclRule → Bool
  unfolding crypto_rule
  first_rule net ip [] = false
  first_rule net ip (rule ∷ rules) =
      if crypto_rule net ip rule then rule.action == "permit" else first_rule net ip rules

  -- evaluateACLLocked: a list that is missing or has no rule permits.
  unfoldable pub evaluate_acl_locked : Net → Acls → String → Ipv4Packet B → Bool
  unfolding first_rule
  evaluate_acl_locked net acls acl_name ip = elim (rules_of (get acls acl_name)) [
    | [] ↦ true
    | rule ∷ rules ↦ first_rule net ip (rule ∷ rules)
  ]

  abbrev pub selects : Net → Acls → Ipv4Packet B → CryptoMapEntry → Bool
  selects net acls ip e = e.acl_name == "" || evaluate_acl_locked net acls e.acl_name ip

  -- The loop of MatchCryptoTunnel.
  unfoldable pub first_tunnel :
      Net
      → Acls
      → GoMap String IkePeerState
      → Ipv4Packet B
      → List CryptoMapEntry
      → Option IkePeerState
  unfolding evaluate_acl_locked
  first_tunnel net acls peers ip [] = none
  first_tunnel net acls peers ip (e ∷ rest) =
      if selects net acls ip e
      then (elim (active_peer (get peers e.peer_ip)) [
        | some peer ↦ some peer
        | none ↦ first_tunnel net acls peers ip rest
      ])
      else first_tunnel net acls peers ip rest

  abbrev pub inner_of : Option (EspPacket B) → Option (Ipv4Packet B)
  inner_of none = none
  inner_of (some esp) = esp.inner

  module _ {P Q : Type 0} where
    unfoldable pub match_crypto_tunnel :
        Net → Router P Q → String → Ipv4Packet B → Option IkePeerState
    unfolding first_tunnel
    match_crypto_tunnel net r port_id ip =
        let map_name = text_of (get r.iface_crypto_map port_id) in
        if map_name == ""
        then none
        else first_tunnel net r.acls r.ike_peers ip (slice_of (get r.crypto_maps map_name))

    -- The pointers behind the header of the outer packet are nil but the one to the ESP packet.
    unfoldable pub encapsulate_esp :
        Router P Q → Ipv4Packet B → IkePeerState → String → Ipv4Packet (Option (EspPacket B))
    encapsulate_esp r inner peer out_port = record {
      version = 4;
      ttl = 64;
      protocol = proto_esp;
      dscp = 0;
      source_ip = text_of (get r.interfaces out_port);
      destination_ip = peer.peer_ip;
      src_port = 0;
      dst_port = 0;
      body = some (record {
        spi = peer.spi_out;
        seq_num = 1;
        peer_ip = peer.peer_ip;
        transform = peer.transform_set;
        inner = some inner;
      });
    }

    unfoldable pub decapsulate_esp :
        Router P Q → Ipv4Packet (Option (EspPacket B)) → Option (Ipv4Packet B)
    decapsulate_esp r outer = elim (active_peer (get r.ike_peers outer.source_ip)) [
      | none ↦ none
      | some peer ↦ inner_of outer.body
    ]

-- The order in which a range visits the ports of a router, which differs from range to range: what it
-- makes of the list of them.
abbrev pub Order : Type 0
Order = GoMap String String → GoMap String String

-- The orders of the three loops in one call of publicIPLocked.
pub record Visits : Type 0 where
  pub mapped : Order
  pub public : Order
  pub all : Order

-- isPrivateIP
abbrev pub is_private_ip : (String → String → Bool) → String → Bool
is_private_ip has_prefix s = has_prefix s "10." || has_prefix s "192.168." || has_prefix s "172."

-- The three loops of publicIPLocked.
unfoldable pub crypto_port_ip : GoMap String String → GoMap String String → Option String
crypto_port_ip maps [] = none
crypto_port_ip maps ((port, ip) ∷ rest) =
    if not (text_of (get maps port) == "") then some ip else crypto_port_ip maps rest

unfoldable pub public_of : (String → String → Bool) → GoMap String String → Option String
public_of has_prefix [] = none
public_of has_prefix ((port, ip) ∷ rest) =
    if not (is_private_ip has_prefix ip) then some ip else public_of has_prefix rest

abbrev pub any_ip : GoMap String String → String
any_ip [] = ""
any_ip ((port, ip) ∷ rest) = ip

-- The transform set and the two subnets that the loops of activatePeer end with.
pub record PeerConfig : Type 0 where
  pub ts : String
  pub local_sub : String
  pub remote_sub : String

unfoldable pub read_entries : String → PeerConfig → List CryptoMapEntry → PeerConfig
read_entries peer_ip c [] = c
read_entries peer_ip c (e ∷ rest) =
    read_entries peer_ip
      (if e.peer_ip == peer_ip
        then record {
          ts = if not (e.transform_set == "") then e.transform_set else c.ts;
          local_sub = e.local_subnet;
          remote_sub = e.remote_subnet;
        }
        else c)
      rest

unfoldable pub read_maps : String → PeerConfig → GoMap String (List CryptoMapEntry) → PeerConfig
unfolding read_entries
read_maps peer_ip c [] = c
read_maps peer_ip c ((name, entries) ∷ rest) =
    read_maps peer_ip (read_entries peer_ip c entries) rest

-- `for name := range r.TransformSets { ts = name; break }`
abbrev pub first_set : GoMap String IpSecTransformSet → String
first_set [] = "TS"
first_set ((name, ts) ∷ rest) = name

module _ {P Q : Type 0} where
  unfoldable pub add_isakmp_policy : Router P Q → IsakmpPolicy → Router P Q
  add_isakmp_policy r p = record r { isakmp_policies = put r.isakmp_policies p.priority p }

  unfoldable pub set_isakmp_key : Router P Q → String → String → Router P Q
  set_isakmp_key r peer key = record r { pre_shared_keys = put r.pre_shared_keys peer key }

  unfoldable pub add_transform_set : Router P Q → IpSecTransformSet → Router P Q
  add_transform_set r ts = record r { transform_sets = put r.transform_sets ts.name ts }

  unfoldable pub add_crypto_map_entry : Router P Q → CryptoMapEntry → Router P Q
  add_crypto_map_entry r e = record r {
    crypto_maps = put r.crypto_maps e.map_name (slice_of (get r.crypto_maps e.map_name) ++ e ∷ []);
  }

  unfoldable pub apply_crypto_map : Router P Q → String → String → Router P Q
  apply_crypto_map r port_id map_name = record r {
    iface_crypto_map = put r.iface_crypto_map port_id map_name;
  }

  unfoldable pub public_ip : (String → String → Bool) → Visits → Router P Q → String
  unfolding crypto_port_ip public_of
  public_ip has_prefix v r = elim (crypto_port_ip r.iface_crypto_map (v.mapped r.interfaces)) [
    | some ip ↦ ip
    | none ↦ elim (public_of has_prefix (v.public r.interfaces)) [
      | some ip ↦ ip
      | none ↦ any_ip (v.all r.interfaces)
    ]
  ]

  unfoldable pub get_psk : Router P Q → String → String
  get_psk r peer = text_of (get r.pre_shared_keys peer)

  -- The state that activatePeer writes.
  unfoldable pub new_peer : Router P Q → String → Int64 → IkePeerState
  unfolding read_maps
  new_peer r peer_ip sim_time =
      let start : PeerConfig = record {
        ts = first_set r.transform_sets;
        local_sub = "";
        remote_sub = "";
      } in
      let c = read_maps peer_ip start r.crypto_maps in
      record {
        peer_ip = peer_ip;
        state = ike_active;
        transform_set = c.ts;
        local_subnet = c.local_sub;
        remote_subnet = c.remote_sub;
        spi_in = 4097;
        spi_out = 8193;
        established = sim_time;
      }

  unfoldable pub activate_peer : Router P Q → String → Int64 → Router P Q
  unfolding new_peer
  activate_peer r peer_ip sim_time = record r {
    ike_peers = put r.ike_peers peer_ip (new_peer r peer_ip sim_time);
  }

  unfoldable pub has_active_vpn : Router P Q → Bool
  has_active_vpn r = any (λ p. is_active p.state) (values r.ike_peers)
