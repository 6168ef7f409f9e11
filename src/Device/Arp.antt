-- ===== src/Device/Arp.antt =====
-- Address resolution on a router (src-tauri/engine/network/router_forward.go): BuildARPRequest and
-- HandleIncomingArp.
pub mod Replies
use Prim.Native.String.{◌++◌ as append}
use netforge.Device.{Router, text_of}
use netforge.Neighbors.{learn_mac, dequeue}
use netforge.Pdu.{
  ArpPacket, Codec, WireFrame, mac_broadcast, arp_request, arp_reply, new_arp_frame, wire_from,
}
use netforge.Prelude.{
  String, Bool, ◌&&◌, Option, none, some, List, [], any, ◌==◌, nat_eq, string_eq, if◌then◌else◌,
}
use netforge.Prelude.Int64.{Int64}
use netforge.Prelude.GoMap.{get, values}

module _ {P Q : Type 0} where
  unfoldable pub build_arp_request : Codec → Router P Q → String → String → Option WireFrame
  unfolding new_arp_frame
  build_arp_request codec r port_id target_ip = elim (get r.interfaces port_id) [
    | none ↦ none
    | some sender_ip ↦
        let sender_mac = text_of (get r.interface_mac port_id) in
        let arp : ArpPacket = record {
          hardware_type = 1;
          protocol_type = 2048;
          operation = arp_request;
          sender_mac = sender_mac;
          sender_ip = sender_ip;
          target_mac = mac_broadcast;
          target_ip = target_ip;
        } in
        elim (new_arp_frame codec mac_broadcast sender_mac arp) [
          | none ↦ none
          | some frame ↦ some (wire_from "" r.id port_id frame)
        ]
  ]

  -- The reply for an address of the port.
  abbrev pub reply_to : Router P Q → String → ArpPacket → ArpPacket
  reply_to r incoming_port arp = record {
    hardware_type = 1;
    protocol_type = 2048;
    operation = arp_reply;
    sender_mac = text_of (get r.interface_mac incoming_port);
    sender_ip = arp.target_ip;
    target_mac = arp.sender_mac;
    target_ip = arp.sender_ip;
  }

  -- The port exists and the request is for its address.
  abbrev pub asks_port : Router P Q → String → ArpPacket → Bool
  asks_port r incoming_port arp = elim (get r.interfaces incoming_port) [
    | none ↦ Bool.false
    | some iface_ip ↦ iface_ip == arp.target_ip
  ]

  unfoldable pub build_arp_reply : Codec → Router P Q → String → ArpPacket → Option WireFrame
  unfolding new_arp_frame
  build_arp_reply codec r incoming_port arp =
      elim (new_arp_frame codec arp.sender_mac (text_of (get r.interface_mac incoming_port))
        (reply_to r incoming_port arp)) [
          | none ↦ none
          | some frame ↦
              some (wire_from (append "arp_reply_" arp.sender_ip) r.id incoming_port frame)
        ]

  -- The router, the frame to send, and the packets that have waited.
  unfoldable pub handle_incoming_arp :
      Codec → Router P Q → String → ArpPacket → Int64 → Router P Q × Option WireFrame × List P
  unfolding learn_mac build_arp_reply dequeue
  handle_incoming_arp codec r incoming_port arp sim_time =
      let learned = record r {
        arp_cache = learn_mac r.arp_cache arp.sender_ip arp.sender_mac sim_time;
      } in
      if arp.operation == arp_request && asks_port r incoming_port arp
      then (learned, build_arp_reply codec r incoming_port arp, [])
      else if arp.operation == arp_reply
          && any (λ iface_ip. iface_ip == arp.target_ip) (values r.interfaces)
      then (let (queue, pkts) = dequeue r.packet_queue arp.sender_ip in
          (record learned { packet_queue = queue }, none, pkts))
      else (learned, none, [])
