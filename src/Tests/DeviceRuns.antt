-- ===== src/Tests/DeviceRuns.antt =====
-- A host, an access point, a handset, a call, and two routers that find each other.
use netforge.Device.{Router, Ipv6RouteEntry, new_router, lookup_arp as router_lookup_arp, text_of}
use netforge.Device.Arp.{reply_to}
use netforge.Device.Arp.Replies.{Exchange, exchange, exchange-resolves, request_of}
use netforge.Device.Ipv6.{match_ipv6_route}
use netforge.Device.Ipv6.Longest.{IsLongestOf, match_ipv6_route-IsLongestOf}
use netforge.Device.Snapshots.{snapshot, restore_router}
use netforge.Device.Snapshots.Reloaded.{restore_router-snapshot}
use netforge.Dhcp.{Bytes, DhcpPool, DhcpServer, new_pool}
use netforge.Host.{Host, new_host, lookup_arp, learn_arp}
use netforge.Host.Delivery.{
  put_in, take_out, run_queue, waiting_at, run_queue_fifo, lookup_arp-learn_arp,
}
use netforge.Mobile.{CellularGateway, MobileUe, new_cellular_gateway, new_mobile_ue}
use netforge.Mobile.Uplink.{
  Cellular, attach_mobile_ue, attach_5g_nr_ue, send_ip_from_ue, not_attached,
  send_ip_from_ue-attach,
}
use netforge.Neighbors.{waiting_for}
use netforge.Net.{Net, IpNet}
use netforge.Pdu.{ArpPacket, Codec}
use netforge.Prelude.{
  ℕ, ◌≡◌, refl, String, true, false, Option, none, some, List, [], ◌∷◌, ◌++◌, arith, ◌==◌, nat_eq,
  string_eq, if◌then◌else◌, ok, err,
}
use netforge.Prelude.GoMap.{get}
use netforge.Router.{RouteEntry}
use netforge.Router.Table.{find_route}
use netforge.Voip.{Calls, CallState, sip_answer}
use netforge.Voip.Calls.{sip_signal, state_in, deliver_all, deliver_all-states_all}
use netforge.Wireless.{AccessPoint, new_access_point, forward_wireless}
use netforge.Wireless.Association.{associate_all, forward_wireless-associate_all}

abbrev pc : Host ℕ ℕ
pc = new_host "PC"

run_queue_fifo_example :
    let (after, out) =
      run_queue "g" pc (put_in "g" 1 ∷ put_in "x" 7 ∷ take_out "g" ∷ put_in "g" 2 ∷ []) in
    out ++ waiting_at after "g" ≡ 1 ∷ 2 ∷ []
unfolding new_host get
run_queue_fifo_example =
    run_queue_fifo "g" pc (put_in "g" 1 ∷ put_in "x" 7 ∷ take_out "g" ∷ put_in "g" 2 ∷ [])

lookup_arp-learn_arp_example :
    lookup_arp (learn_arp pc "10.0.0.2" "m2" 5) "10.0.0.2" 100 ≡ some "m2"
lookup_arp-learn_arp_example =
    lookup_arp-learn_arp pc "10.0.0.2" "10.0.0.2" "m2" 5 100 (omega arith) (omega arith)

abbrev r1 : Router ℕ ℕ
r1 = record (new_router "R1") {
  interfaces = ("g0", "10.0.0.1") ∷ [];
  interface_mac = ("g0", "m1") ∷ [];
  packet_queue = ("10.0.0.2", 7 ∷ []) ∷ [];
}

abbrev r2 : Router ℕ ℕ
r2 = record (new_router "R2") {
  interfaces = ("g1", "10.0.0.2") ∷ [];
  interface_mac = ("g1", "m2") ∷ [];
}

abbrev asked : ArpPacket
asked = request_of r1 "g0" "10.0.0.1" "10.0.0.2"

-- The first byte tells the request from the reply.
abbrev codec : Codec
codec = record { marshal_arp = λ arp. some (arp.operation ∷ []); marshal_ndp = λ ndp. none }

abbrev unmarshal : List ℕ → Option ArpPacket
unmarshal [] = none
unmarshal (b ∷ _) = some (if b == 1 then asked else reply_to r2 "g1" asked)

exchange-resolves_example :
    (after : Exchange ℕ ℕ) × (exchange codec unmarshal r1 "g0" r2 "g1" "10.0.0.2" 5 6 ≡ some after)
    × (after.2 ≡ 7 ∷ [])
    × (waiting_for after.0.packet_queue "10.0.0.2" ≡ [])
    × (router_lookup_arp after.0 "10.0.0.2" 100 ≡ some "m2")
    × (router_lookup_arp after.1 "10.0.0.1" 100 ≡ some "m1")
unfolding get
exchange-resolves_example =
    exchange-resolves codec unmarshal r1 r2 "g0" "g1" "10.0.0.1" "10.0.0.2" 5 6 100
      (1 ∷ [], refl, refl) (2 ∷ [], refl, refl) refl refl (omega arith) (omega arith) (omega arith)

abbrev net_a : IpNet
net_a = record { ip = 1 ∷ []; mask = 64 ∷ [] }

abbrev net_b : IpNet
net_b = record { ip = 2 ∷ []; mask = 48 ∷ [] }

abbrev first_of : List ℕ → ℕ
first_of [] = 0
first_of (x ∷ _) = x

abbrev small : Net
small = record {
  parse_ip = λ s. if s == "" then [] else 1 ∷ [];
  parse_cidr = λ s. if s == "a" then some net_a else some net_b;
  contains = λ n ip. true;
  to4 = λ ip. ip;
  mask_ip = λ ip mask. ip;
  equal = λ a b. first_of a == first_of b;
  ip_string = λ ip. "one";
  net_string = λ n. if first_of n.ip == 1 then "a" else "b";
  mask_ones = λ mask. if first_of mask == 64 then 64 else 48;
}

abbrev route6 : IpNet → String → Ipv6RouteEntry
route6 network interface = record {
  network = some network;
  next_hop = "";
  interface = interface;
  metric = 0;
  protocol = "C";
}

match_ipv6_route-IsLongestOf_example :
    IsLongestOf small
      (route6 net_b "g0" ∷ route6 net_a "g1" ∷ [])
      (1 ∷ [])
      (match_ipv6_route small (route6 net_b "g0" ∷ route6 net_a "g1" ∷ []) "2001:db8::1")
match_ipv6_route-IsLongestOf_example =
    match_ipv6_route-IsLongestOf small (route6 net_b "g0" ∷ route6 net_a "g1" ∷ []) "2001:db8::1"
      (λ mask. ground arith)

abbrev static_b : RouteEntry
static_b = record {
  network = net_b;
  next_hop = "10.0.0.2";
  interface = "";
  metric = 1;
  protocol = "S";
  admin_dist = 1;
}

abbrev saved : Router ℕ ℕ
saved = record r1 { routing_table = static_b ∷ [] }

restore_router-snapshot_example :
    let after : Router ℕ ℕ = restore_router small (snapshot small saved) in
    (get after.interfaces "g0" ≡ some "10.0.0.1")
    × (get after.interface_mask "g0" ≡ some (text_of (get saved.interface_mask "g0")))
    × (get after.interface_mac "g0" ≡ some "m1")
    × (find_route small after.routing_table "b" "S" ≡ some static_b)
unfolding get find_route
restore_router-snapshot_example =
    restore_router-snapshot small saved "g0" "b" (refl, tt) (refl, tt) (λ s. refl, tt)

abbrev ap : AccessPoint
ap = record (new_access_point "AP") { security = "wpa2"; password = "p"; clients = [] }

-- The first station gives a wrong password.
forward_wireless-associate_all_example :
    forward_wireless {W = ℕ} (associate_all ap (("m1", "q") ∷ ("m2", "p") ∷ [])) "m1" 5 ≡ none
unfolding get
forward_wireless-associate_all_example =
    forward_wireless-associate_all ap "m1" (("m1", "q") ∷ ("m2", "p") ∷ []) 5

abbrev phone : MobileUe
phone = record (new_mobile_ue "UE") { registered = false }

abbrev gateway : CellularGateway
gateway = record (new_cellular_gateway "GW") {
  interface_mac = ("Cellular0/0/0", "mc") ∷ ("g0", "mg") ∷ [];
}

abbrev gateway_2 : CellularGateway
gateway_2 = record (new_cellular_gateway "GW2") {
  interface_mac = ("Cellular0/0/0", "mc") ∷ ("g7", "m7") ∷ [];
}

abbrev cellular : Cellular
cellular = record {
  mobile_ues = ("UE", phone) ∷ [];
  cellular_gateways = ("GW", gateway) ∷ ("GW2", gateway_2) ∷ [];
}

send_ip_from_ue-attach_example :
    (lte : Cellular) × (nr : Cellular) × (attach_mobile_ue cellular "UE" "GW" "10.64.0.2" ≡ ok lte)
    × (send_ip_from_ue lte "UE" "8.8.8.8" ≡ err (not_attached "UE"))
    × (attach_5g_nr_ue lte "UE" "GW2" "10.65.0.9" "n78" 620000 ≡ ok nr)
    × (send_ip_from_ue nr "UE" "8.8.8.8"
        ≡ ok (
            some (record {
              gateway_id = "GW2";
              port = "g7";
              source_mac = "m7";
              source_ip = "10.65.0.9";
              destination_ip = "8.8.8.8";
            })))
unfolding get new_cellular_gateway
send_ip_from_ue-attach_example =
    send_ip_from_ue-attach cellular "UE" "GW" "GW2" "10.64.0.2" "10.65.0.9" "8.8.8.8" "n78" 620000
      phone gateway gateway_2 refl refl refl refl refl

abbrev call_name : String → ℕ → String
call_name from sim_time = from

abbrev no_calls : Calls
no_calls = []

-- A call that has ended is connected again by a late ACK.
deliver_all-states_all_example :
    state_in
      (deliver_all call_name no_calls (
        (sip_signal (sip_answer "INVITE" 0 "1001" "1002" "c"), 1)
        ∷ (sip_signal (sip_answer "BYE" 0 "" "" "c"), 2)
        ∷ (sip_signal (sip_answer "ACK" 0 "" "" "c"), 3)
        ∷ []))
      "c"
    ≡ some CallState.call_connected
unfolding get
deliver_all-states_all_example =
    deliver_all-states_all call_name no_calls
      ((sip_signal (sip_answer "INVITE" 0 "1001" "1002" "c"), 1)
        ∷ (sip_signal (sip_answer "BYE" 0 "" "" "c"), 2)
        ∷ (sip_signal (sip_answer "ACK" 0 "" "" "c"), 3)
        ∷ [])
      "c"

abbrev bytes : Bytes
bytes = record { ipv4 = λ a b c d. a ∷ b ∷ c ∷ d ∷ []; fields = λ s. s ∷ [] }

abbrev last_of : List ℕ → ℕ
last_of [] = 0
last_of (x ∷ []) = x
last_of (_ ∷ y ∷ rest) = last_of (y ∷ rest)

abbrev lan_net : IpNet
lan_net = record { ip = 10 ∷ 0 ∷ 0 ∷ 0 ∷ []; mask = 24 ∷ [] }

abbrev lan : Net
lan = record small { ip_string = λ ip. if last_of ip == 2 then "10.0.0.2" else "10.0.0.3" }

abbrev dhcp_server : DhcpServer
dhcp_server = record {
  interfaces = ("g0", "10.0.0.1") ∷ [];
  dhcp_pools = [];
  dhcp_excluded = [];
  dns_records = [];
}

abbrev lan_pool : DhcpPool
lan_pool = record (new_pool "LAN") { assigned = ("m1", "10.0.0.2") ∷ [] }
