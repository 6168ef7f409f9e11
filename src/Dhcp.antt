-- ===== src/Dhcp.antt =====
-- The DHCP pools and the DNS records of a router (src-tauri/engine/network/router_services.go). A
-- range over the pools visits them in the order of the list. net.IPv4 and strings.Fields are the
-- parameter `Bytes`. A network that has no four bytes, on which the source panics, gives none.
pub mod Leases
use netforge.Device.{text_of}
use netforge.Net.{Net, IpNet, is_nil}
use netforge.Prelude.{
  ℕ, zero, suc, ◌+◌, ◌*◌, ◌^◌, String, Bool, true, false, ◌&&◌, ◌||◌, not, Option, none, some, List,
  [], ◌∷◌, ◌++◌, any, length, leb, ◌==◌, nat_eq, string_eq, if◌then◌else◌,
}
use netforge.Prelude.Int64.{Int64}
use netforge.Prelude.GoMap.{GoMap, get, put, values}

pub record Bytes : Type 0 where
  -- net.IPv4
  pub ipv4 : ℕ → ℕ → ℕ → ℕ → List ℕ
  -- strings.Fields
  pub fields : String → List String

pub record DhcpPool : Type 0 where
  pub name : String
  pub network : String
  pub default_router : String
  pub dns_server : String
  pub voip_option150 : String
  pub voice_vlan : ℕ
  pub lease_time : Int64
  pub assigned : GoMap String String
  pub excluded : List String

-- pdu/dhcp.go
pub record DhcpPacket : Type 0 where
  pub op : ℕ
  pub message_type : ℕ
  pub xid : ℕ
  pub client_mac : String
  pub client_ip : String
  pub your_ip : String
  pub server_ip : String
  pub gateway_ip : String
  pub dns_server : String
  pub subnet_mask : String

abbrev pub dhcp_offer : ℕ
dhcp_offer = 2

abbrev pub dhcp_ack : ℕ
dhcp_ack = 5

-- The fields of a router that the code below reads and writes.
pub record DhcpServer : Type 0 where
  pub interfaces : GoMap String String
  pub dhcp_pools : GoMap String DhcpPool
  pub dhcp_excluded : List String
  pub dns_records : GoMap String String

abbrev pub new_pool : String → DhcpPool
new_pool name = record {
  name = name;
  network = "";
  default_router = "";
  dns_server = "";
  voip_option150 = "";
  voice_vlan = 0;
  lease_time = 0;
  assigned = [];
  excluded = [];
}

abbrev pub pool_or_new : String → Option DhcpPool → DhcpPool
pool_or_new name none = new_pool name
pool_or_new name (some pool) = pool

unfoldable pub set_dhcp_pool_default_router : DhcpServer → String → String → DhcpServer
set_dhcp_pool_default_router r pool_name gw = record r {
  dhcp_pools =
      put r.dhcp_pools pool_name
        (record (pool_or_new pool_name (get r.dhcp_pools pool_name)) { default_router = gw });
}

unfoldable pub set_dhcp_pool_network : DhcpServer → String → String → DhcpServer
set_dhcp_pool_network r pool_name cidr = record r {
  dhcp_pools =
      put r.dhcp_pools pool_name
        (record (pool_or_new pool_name (get r.dhcp_pools pool_name)) { network = cidr });
}

unfoldable pub add_dhcp_pool : DhcpServer → DhcpPool → DhcpServer
add_dhcp_pool r pool = record r { dhcp_pools = put r.dhcp_pools pool.name pool }

-- A record of a missing name is none.
unfoldable pub lookup_dns : DhcpServer → String → Option String
lookup_dns r name = get r.dns_records name

unfoldable pub add_dns_record : DhcpServer → String → String → DhcpServer
add_dns_record r name ip = record r { dns_records = put r.dns_records name ip }

-- The shifts of ipToUint32, whose bytes do not overlap.
unfoldable pub ip_to_uint32 : Net → List ℕ → ℕ
ip_to_uint32 net ip = elim (net.to4 ip) [
  | a ∷ b ∷ c ∷ d ∷ rest ↦ a * 2 ^ 24 + b * 2 ^ 16 + c * 2 ^ 8 + d
  | _ ↦ 0
]

unfoldable pub ip_in_range : Net → String → String → String → Bool
unfolding ip_to_uint32
ip_in_range net ip start end_ip =
    let a = net.parse_ip ip in
    let s = net.parse_ip start in
    let e = net.parse_ip end_ip in
    if is_nil a || is_nil s || is_nil e
    then false
    else leb (ip_to_uint32 net s) (ip_to_uint32 net a)
      && leb (ip_to_uint32 net a) (ip_to_uint32 net e)

-- One entry of the exclusions, by its fields: an address, or the two ends of a range.
abbrev pub is_excluded_by : Net → String → List String → Bool
is_excluded_by net ip [] = false
is_excluded_by net ip (one ∷ []) = one == ip
is_excluded_by net ip (start ∷ end_ip ∷ rest) = ip_in_range net ip start end_ip

unfoldable pub is_ip_excluded : Net → Bytes → DhcpServer → String → DhcpPool → Bool
unfolding ip_in_range
is_ip_excluded net lib r ip pool =
    any (λ excl. is_excluded_by net ip (lib.fields excl)) (pool.excluded ++ r.dhcp_excluded)

-- The address that a host of the pool would have is taken.
unfoldable pub is_in_use : Net → Bytes → DhcpServer → DhcpPool → String → Bool
unfolding is_ip_excluded
is_in_use net lib r pool ip =
    any (λ assigned. assigned == ip) (values pool.assigned)
    || any (λ iface_ip. iface_ip == ip) (values r.interfaces)
    || is_ip_excluded net lib r ip pool

-- The first four bytes with the host in the last place.
abbrev pub candidate : Bytes → List ℕ → ℕ → Option (List ℕ)
candidate lib (a ∷ b ∷ c ∷ d ∷ _) host = some (lib.ipv4 a b c host)
candidate lib _ host = none

abbrev pub is_free : Net → Bytes → DhcpServer → DhcpPool → IpNet → List ℕ → Bool
is_free net lib r pool ip_net ip =
    net.contains ip_net ip && not (is_in_use net lib r pool (net.ip_string ip))

-- The loop, from a host and for so many hosts; the outer none is the panic.
unfoldable pub first_free :
    Net → Bytes → DhcpServer → DhcpPool → IpNet → ℕ → ℕ → Option (Option String)
unfolding is_in_use
first_free net lib r pool ip_net zero host = some none
first_free net lib r pool ip_net (suc n) host =
    let rest = first_free net lib r pool ip_net n (suc host) in
    elim (candidate lib (net.to4 ip_net.ip) host) [
      | none ↦ none
      | some ip ↦ if is_free net lib r pool ip_net ip then some (some (net.ip_string ip)) else rest
    ]

-- From host 2 to host 253; the address of the network itself where none is free.
unfoldable pub next_pool_ip : Net → Bytes → DhcpServer → DhcpPool → IpNet → Option String
unfolding first_free
next_pool_ip net lib r pool ip_net = elim (first_free net lib r pool ip_net 252 2) [
  | none ↦ none
  | some none ↦ some (net.ip_string (net.to4 ip_net.ip))
  | some (some ip) ↦ some ip
]

-- The pool and the address of a client, which is new where the client has none.
unfoldable pub lease :
    Net → Bytes → DhcpServer → DhcpPool → IpNet → String → Option (DhcpPool × String)
unfolding next_pool_ip
lease net lib r pool ip_net client_mac =
    let known = text_of (get pool.assigned client_mac) in
    if known == ""
    then (elim (next_pool_ip net lib r pool ip_net) [
      | none ↦ none
      | some ip ↦ some (record pool { assigned = put pool.assigned client_mac ip }, ip)
    ])
    else some (pool, known)

-- The network of a pool that serves the port.
abbrev pub served : Net → Option String → Option IpNet → Option (String × IpNet)
served net none parsed = none
served net (some iface_ip) none = none
served net (some iface_ip) (some ip_net) =
    if net.contains ip_net (net.parse_ip iface_ip) then some (iface_ip, ip_net) else none

-- maskToDotted
unfoldable pub mask_to_dotted : Net → List ℕ → String
mask_to_dotted net mask = if length mask == 4 then net.ip_string mask else "255.255.255.0"

abbrev pub offer_of : Net → DhcpPool → DhcpPacket → String → IpNet → String → DhcpPacket
offer_of net pool dhcp iface_ip ip_net ip = record {
  op = 2;
  message_type = dhcp_offer;
  xid = dhcp.xid;
  client_mac = "";
  client_ip = "";
  your_ip = ip;
  server_ip = iface_ip;
  gateway_ip = pool.default_router;
  dns_server = pool.dns_server;
  subnet_mask = mask_to_dotted net ip_net.mask;
}

-- The range over the pools: the pools after it, and the offer where a pool serves the port.
abbrev pub Offered : Type 0
Offered = GoMap String DhcpPool × Option DhcpPacket

abbrev pub behind : String → DhcpPool → Option Offered → Option Offered
behind name pool none = none
behind name pool (some (pools, offer)) = some ((name, pool) ∷ pools, offer)

unfoldable pub offer_from :
    Net → Bytes → DhcpServer → DhcpPacket → String → GoMap String DhcpPool → Option Offered
unfolding lease mask_to_dotted
offer_from net lib r dhcp in_port [] = some ([], none)
offer_from net lib r dhcp in_port ((name, pool) ∷ rest) =
    let later = offer_from net lib r dhcp in_port rest in
    elim (served net (get r.interfaces in_port) (net.parse_cidr pool.network)) [
      | none ↦ behind name pool later
      | some (iface_ip, ip_net) ↦ elim (lease net lib r pool ip_net dhcp.client_mac) [
        | none ↦ none
        | some (after, ip) ↦
            some ((name, after) ∷ rest, some (offer_of net pool dhcp iface_ip ip_net ip))
      ]
    ]

unfoldable pub handle_dhcp_discover :
    Net → Bytes → DhcpServer → DhcpPacket → String → Option (DhcpServer × Option DhcpPacket)
unfolding offer_from
handle_dhcp_discover net lib r dhcp in_port =
    elim (offer_from net lib r dhcp in_port r.dhcp_pools) [
      | none ↦ none
      | some (pools, offer) ↦ some (record r { dhcp_pools = pools }, offer)
    ]

abbrev pub ack_of : Option DhcpPacket → Option DhcpPacket
ack_of none = none
ack_of (some offer) = some (record offer { message_type = dhcp_ack })

unfoldable pub handle_dhcp_request :
    Net → Bytes → DhcpServer → DhcpPacket → String → Option (DhcpServer × Option DhcpPacket)
unfolding handle_dhcp_discover
handle_dhcp_request net lib r dhcp in_port = elim (handle_dhcp_discover net lib r dhcp in_port) [
  | none ↦ none
  | some (after, offer) ↦ some (after, ack_of offer)
]
