-- ===== src/Pdu.antt =====
-- The protocol data units that the network code handles
-- (src-tauri/engine/pdu/frame.go, vlan.go, packet.go). Addresses are texts, as in the source. What
-- stands behind the header of an IP packet and is only passed on (the pointers to ICMP, SIP,
-- SCCP, RTP, ESP and the generic payload) is the parameter `B`. A float64 that is only passed on is
-- its 64-bit pattern.
use netforge.Prelude.{ℕ, String, Option, none, some, List, []}
use netforge.Prelude.Int64.{Int64}

pub record VlanTag : Type 0 where
  pub vid : ℕ
  pub priority : ℕ

pub record EthernetFrame : Type 0 where
  pub destination_mac : String
  pub source_mac : String
  pub ether_type : ℕ
  pub vlan : Option VlanTag
  pub payload : List ℕ
  pub fcs : ℕ

pub record L1Metadata : Type 0 where
  pub source_node_id : String
  pub source_port_id : String
  pub dest_node_id : String
  pub dest_port_id : String
  pub cable_length : ℕ
  pub bandwidth : Int64
  pub delay_multiplier : ℕ

pub record WireFrame : Type 0 where
  pub id : String
  pub frame : EthernetFrame
  pub physical : Option L1Metadata
  pub qos_priority : Int64

abbrev pub mac_broadcast : String
mac_broadcast = "FF:FF:FF:FF:FF:FF"

abbrev pub vlan_default : ℕ
vlan_default = 1

pub record ArpPacket : Type 0 where
  pub hardware_type : ℕ
  pub protocol_type : ℕ
  pub operation : ℕ
  pub sender_mac : String
  pub sender_ip : String
  pub target_mac : String
  pub target_ip : String

abbrev pub arp_request : ℕ
arp_request = 1

abbrev pub arp_reply : ℕ
arp_reply = 2

abbrev pub proto_icmp : ℕ
proto_icmp = 1

abbrev pub proto_tcp : ℕ
proto_tcp = 6

abbrev pub proto_udp : ℕ
proto_udp = 17

pub record Ipv4Packet (B : Type 0) : Type 0 where
  pub version : ℕ
  pub ttl : ℕ
  pub protocol : ℕ
  pub dscp : Int64
  pub source_ip : String
  pub destination_ip : String
  pub src_port : Int64
  pub dst_port : Int64
  pub body : B

-- IPv6 neighbour discovery, pdu/protocol_wire.go.
pub record NdpPacket : Type 0 where
  pub type : ℕ
  pub target_ip : String
  pub sender_ip : String
  pub sender_mac : String
  pub target_mac : String

abbrev pub ndp_neighbor_solicit : ℕ
ndp_neighbor_solicit = 135

abbrev pub ndp_neighbor_advert : ℕ
ndp_neighbor_advert = 136

abbrev pub type_arp : ℕ
type_arp = 2054

abbrev pub type_ipv6 : ℕ
type_ipv6 = 34525

abbrev pub mac_ipv6_multicast : String
mac_ipv6_multicast = "33:33:00:00:00:01"

-- json.Marshal on the payload of one packet, none for an error.
pub record Codec : Type 0 where
  pub marshal_arp : ArpPacket → Option (List ℕ)
  pub marshal_ndp : NdpPacket → Option (List ℕ)

abbrev pub new_frame : String → String → ℕ → List ℕ → EthernetFrame
new_frame dst_mac src_mac ether_type payload = record {
  destination_mac = dst_mac;
  source_mac = src_mac;
  ether_type = ether_type;
  vlan = none;
  payload = payload;
  fcs = 0;
}

-- Both callers drop the frame where there is an error.
unfoldable pub new_arp_frame : Codec → String → String → ArpPacket → Option EthernetFrame
new_arp_frame codec dst_mac src_mac arp = elim (codec.marshal_arp arp) [
  | none ↦ none
  | some payload ↦ some (new_frame dst_mac src_mac type_arp payload)
]

abbrev pub bytes_or_nil : Option (List ℕ) → List ℕ
bytes_or_nil none = []
bytes_or_nil (some payload) = payload

-- The callers ignore the error and send the frame, without a payload then.
unfoldable pub new_ndp_frame : Codec → String → String → NdpPacket → EthernetFrame
new_ndp_frame codec dst_mac src_mac ndp =
    new_frame dst_mac src_mac type_ipv6 (bytes_or_nil (codec.marshal_ndp ndp))

-- A WireFrame that a device sends from one of its ports, all else left at zero.
abbrev pub wire_from : String → String → String → EthernetFrame → WireFrame
wire_from id node_id port_id frame = record {
  id = id;
  frame = frame;
  physical = some (record {
    source_node_id = node_id;
    source_port_id = port_id;
    dest_node_id = "";
    dest_port_id = "";
    cable_length = 0;
    bandwidth = 0;
    delay_multiplier = 0;
  });
  qos_priority = 0;
}
