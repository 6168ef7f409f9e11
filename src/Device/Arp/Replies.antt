-- ===== src/Device/Arp/Replies.antt =====
-- Address resolution between two routers of a link, from the request to the packets that leave.
use Prim.Native.String.{◌++◌ as append}
use netforge.Device.{Router, lookup_arp, text_of}
use netforge.Device.Arp.{
  build_arp_request, asks_port, handle_incoming_arp, reply_to, build_arp_reply,
}
use netforge.Neighbors.{arp_lifetime, waiting_for, learn_mac, dequeue}
use netforge.Neighbors.Fifo.{mac_until, lookup_mac-learn_mac, waiting_for-dequeue}
use netforge.Pdu.{
  ArpPacket, Codec, new_arp_frame, mac_broadcast, arp_request, arp_reply, wire_from, new_frame,
  type_arp,
}
use netforge.Prelude.{
  ℕ, ◌+◌, ◌<◌, ◌^◌, ◌≡◌, ◌∙◌, refl, nat_eq, String, true, Option, none, some, List, [], ◌∷◌, any,
  ◌>>=◌, ◌==◌, string_eq, beq_refl, arith,
}
use netforge.Prelude.Int64.{Int64, IsNonneg}
use netforge.Prelude.GoMap.{GoMap, get, values}

-- json.Marshal takes the packet, and json.Unmarshal gives it back.
abbrev pub IsLossless : Codec → (List ℕ → Option ArpPacket) → ArpPacket → Type 0
IsLossless codec unmarshal arp =
    (bytes : List ℕ) × (codec.marshal_arp arp ≡ some bytes) × (unmarshal bytes ≡ some arp)

any-values :
    (m : GoMap String String) (k v : String)
    → get m k ≡ some v
    → any (λ w. w == v) (values m) ≡ true
unfolding get
any-values [] k v h = cc
any-values ((i, w) ∷ m) k v h = ground (arith, any-values m k v, string_eq.beq_iff w v)

-- The state of two routers, and the packets that the first one sends on.
abbrev pub Exchange : Type 0 → Type 0 → Type 0
Exchange P Q = Router P Q × Router P Q × List P

module _ {P Q : Type 0} where
  -- The request that a port asks with.
  abbrev pub request_of : Router P Q → String → String → String → ArpPacket
  request_of a port_a ip_a ip_b = record {
    hardware_type = 1;
    protocol_type = 2048;
    operation = arp_request;
    sender_mac = text_of (get a.interface_mac port_a);
    sender_ip = ip_a;
    target_mac = mac_broadcast;
    target_ip = ip_b;
  }

module _ {P Q : Type 0} (codec : Codec) (unmarshal : List ℕ → Option ArpPacket) where
  build_arp_request-own :
      (a : Router P Q) (port_a ip_a ip_b : String) (bytes : List ℕ)
      → get a.interfaces port_a ≡ some ip_a
      → codec.marshal_arp (request_of a port_a ip_a ip_b) ≡ some bytes
      → build_arp_request codec a port_a ip_b
        ≡ some (
            wire_from "" a.id port_a
              (new_frame mac_broadcast (text_of (get a.interface_mac port_a)) type_arp bytes))
  unfolding build_arp_request new_arp_frame
  build_arp_request-own a port_a ip_a ip_b bytes own sent = rw (own, build_arp_request, sent) refl

  handle-request :
      (b : Router P Q) (port_b : String) (arp : ArpPacket) (heard : Int64) (bytes : List ℕ)
      → get b.interfaces port_b ≡ some arp.target_ip
      → (arp.operation == arp_request) ≡ true
      → codec.marshal_arp (reply_to b port_b arp) ≡ some bytes
      → handle_incoming_arp codec b port_b arp heard ≡ (
        record b { arp_cache = learn_mac b.arp_cache arp.sender_ip arp.sender_mac heard },
        some (
            wire_from
              (append "arp_reply_" arp.sender_ip)
              b.id
              port_b
              (new_frame arp.sender_mac (text_of (get b.interface_mac port_b)) type_arp bytes)),
        [],
      )
  unfolding handle_incoming_arp build_arp_reply new_arp_frame
  handle-request b port_b arp heard bytes own asks sent =
      let asked : asks_port b port_b arp ≡ true = rw (own, asks_port) (beq_refl arp.target_ip) in
      rw (asks, asked, sent, handle_incoming_arp, build_arp_reply) refl

  handle-reply :
      (a : Router P Q) (port_a ip_b mac_a mac_b ip_a : String) (back : Int64)
      → get a.interfaces port_a ≡ some ip_a
      → let arp : ArpPacket = record {
        hardware_type = 1;
        protocol_type = 2048;
        operation = arp_reply;
        sender_mac = mac_b;
        sender_ip = ip_b;
        target_mac = mac_a;
        target_ip = ip_a;
      } in
        handle_incoming_arp codec a port_a arp back ≡ (
          record a {
            arp_cache = learn_mac a.arp_cache ip_b mac_b back;
            packet_queue = (dequeue a.packet_queue ip_b).0;
          },
          none,
          waiting_for a.packet_queue ip_b,
        )
  unfolding handle_incoming_arp
  handle-reply a port_a ip_b mac_a mac_b ip_a back own =
      rw (any-values a.interfaces port_a ip_a own, handle_incoming_arp) refl

  -- A router asks on a port, the router at the other end hears the request at one time, and its
  -- reply, where there is one, comes back to the port at another.
  abbrev pub exchange :
      Router P Q → String → Router P Q → String → String → Int64 → Int64 → Option (Exchange P Q)
  exchange a port_a b port_b target_ip heard back = do
    request ← build_arp_request codec a port_a target_ip
    asked ← unmarshal request.frame.payload
    let (b_after, sent, _) = handle_incoming_arp codec b port_b asked heard
    reply ← sent
    answer ← unmarshal reply.frame.payload
    let (a_after, _, pkts) = handle_incoming_arp codec a port_a answer back
    some (a_after, b_after, pkts)

  -- Where a router asks on a port of its own for the address of the port at the other end of the
  -- link, the exchange ends, the one that asked sends on all the packets that waited for the address
  -- and keeps none of them, and up to twenty minutes after it heard the other, each of the two
  -- answers with the hardware address of the other's port. The codec loses nothing of the
  -- request and the reply, and the times
  -- are not negative and do not overflow.
  pub exchange-resolves :
      (a b : Router P Q) (port_a port_b ip_a ip_b : String) (heard back sim_time : Int64)
      → IsLossless codec unmarshal (request_of a port_a ip_a ip_b)
      → IsLossless codec unmarshal (reply_to b port_b (request_of a port_a ip_a ip_b))
      → get a.interfaces port_a ≡ some ip_a
      → get b.interfaces port_b ≡ some ip_b
      → heard + arp_lifetime < 2 ^ 63
      → back + arp_lifetime < 2 ^ 63
      → IsNonneg sim_time
      → (after : Exchange P Q) × (exchange a port_a b port_b ip_b heard back ≡ some after)
        × (after.2 ≡ waiting_for a.packet_queue ip_b)
        × (waiting_for after.0.packet_queue ip_b ≡ [])
        × (lookup_arp after.0 ip_b sim_time
            ≡ mac_until (text_of (get b.interface_mac port_b)) back sim_time)
        × (lookup_arp after.1 ip_a sim_time
            ≡ mac_until (text_of (get a.interface_mac port_a)) heard sim_time)
  unfolding lookup_arp
  exchange-resolves a b port_a port_b ip_a ip_b heard back sim_time ask answer own_a own_b h1 h2
        h3 =
      let mac_a = text_of (get a.interface_mac port_a) in
      let mac_b = text_of (get b.interface_mac port_b) in
      let asked = request_of a port_a ip_a ip_b in
      let (bytes_a, sent, read) = ask in
      let (bytes_b, replied, answered) = answer in
      (
        (
          record a {
            arp_cache = learn_mac a.arp_cache ip_b mac_b back;
            packet_queue = (dequeue a.packet_queue ip_b).0;
          },
          record b { arp_cache = learn_mac b.arp_cache ip_a mac_a heard },
          waiting_for a.packet_queue ip_b,
        ),
        rw
            (
              build_arp_request-own a port_a ip_a ip_b bytes_a own_a sent,
              read,
              handle-request b port_b asked heard bytes_b own_b refl replied,
              answered,
              handle-reply a port_a ip_b mac_a mac_b ip_a back own_a,
              exchange,
            )
            refl,
        refl,
        waiting_for-dequeue a.packet_queue ip_b ip_b ∙ rw (beq_refl ip_b) refl,
        lookup_mac-learn_mac a.arp_cache ip_b ip_b mac_b back sim_time h2 h3
            ∙ rw (beq_refl ip_b) refl,
        lookup_mac-learn_mac b.arp_cache ip_a ip_a mac_a heard sim_time h1 h3
            ∙ rw (beq_refl ip_a) refl,
      )
