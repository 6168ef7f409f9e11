-- ===== src/Switch/Forward/Learning.antt =====
-- Source learning, and what a learned address means for later frames.
use text.Mathlib.TextEquality.{eq_iff}
use netforge.Prelude.{
  ℕ, ◌≡◌, ◌≢◌, String, true, false, refl, ◌∙◌, beq_refl, Option, none, some, arith, [], ◌==◌,
  string_eq, if◌then◌else◌,
}
use netforge.Prelude.Int64.{Int64}
use netforge.Prelude.GoMap.{GoMap, get, put, get-put}
use netforge.Pdu.{WireFrame, mac_broadcast}
use netforge.Switch.{MacTableEntry, MacTableKey, mac_table_key_eq, Switch}
use netforge.Switch.Forward.{
  ingress_vlan, egress_frame, is_open, put_some, learn, deliver, forward, handle_incoming_frame,
}

abbrev pub key_of : ℕ → String → MacTableKey
key_of vlan mac = record { vlan = vlan; mac = mac }

-- Another source does not touch the entry of an address.
get-learn :
    (sw : Switch) (vlan : ℕ) (mac port_id : String) (sim_time : Int64) (v : ℕ) (dst : String)
    → mac ≢ dst
    → get (learn sw vlan mac port_id sim_time).mac_table (key_of v dst)
      ≡ get sw.mac_table (key_of v dst)
get-learn sw vlan mac port_id sim_time v dst ne = ground (
  arith,
  get-put sw.mac_table (key_of vlan mac) (key_of v dst)
      (record { port_id = port_id; last_seen = sim_time }),
  eq_iff mac dst,
)

get-put_one :
    (p port_id : String) (wire : Option WireFrame)
    → get (put_some [] p wire) port_id ≡ (if p == port_id then wire else none)
unfolding get put
get-put_one p port_id none = ground arith
get-put_one p port_id (some wire) = ground arith

-- What the branch of a known address sends.
unicast :
    (sw : Switch) (p : String) (wire : WireFrame) (sim_time : Int64) (entry : MacTableEntry)
    → is_open sw p (get sw.ports p) ≡ true
    → wire.frame.destination_mac ≢ mac_broadcast
    → wire.frame.source_mac ≢ wire.frame.destination_mac
    → get sw.mac_table
        (key_of (ingress_vlan (get sw.ports p) wire.frame) wire.frame.destination_mac)
      ≡ some entry
    → entry.port_id ≢ p
    → (handle_incoming_frame sw p wire sim_time).1
      ≡ some (
          put_some [] entry.port_id (
            egress_frame
              (get sw.ports entry.port_id)
              (ingress_vlan (get sw.ports p) wire.frame)
              wire))
unfolding handle_incoming_frame forward deliver
unicast sw p wire sim_time entry open_ nb ns known away =
    let vlan = ingress_vlan (get sw.ports p) wire.frame in
    let src = wire.frame.source_mac in
    let dst = wire.frame.destination_mac in
    let found = get-learn sw vlan src p sim_time vlan dst ns in
    let one : (dst == mac_broadcast) ≡ false = ground (arith, eq_iff dst mac_broadcast) in
    let other : (entry.port_id == p) ≡ false = ground (arith, eq_iff entry.port_id p) in
    rw (open_, one, found, known, other)

-- After a frame from an open port the table has the frame's source, in the frame's VLAN, on that
-- port, at that time, and every other entry as before.
pub get-handle_incoming_frame :
    (sw : Switch) (p : String) (wire : WireFrame) (sim_time : Int64) (key : MacTableKey)
    → is_open sw p (get sw.ports p) ≡ true
    → get (handle_incoming_frame sw p wire sim_time).0.mac_table key ≡ (
        if key_of (ingress_vlan (get sw.ports p) wire.frame) wire.frame.source_mac == key
        then some (record { port_id = p; last_seen = sim_time })
        else get sw.mac_table key)
unfolding handle_incoming_frame
get-handle_incoming_frame sw p wire sim_time key open_ = rw open_ (
    get-put sw.mac_table (key_of (ingress_vlan (get sw.ports p) wire.frame) wire.frame.source_mac)
      key (record { port_id = p; last_seen = sim_time }))

-- A frame to an address whose sender has been learned goes to no port but the one where the frame of
-- the sender came in, and what that port is sent is the frame as egressFrame writes it for the port's
-- configuration, or nothing where that is none. Between the two frames the ports may have been
-- configured anew and the port of the sender may be down or blocked: the table is as the first frame has left it. The first frame
-- came in from an open port of its VLAN, the second comes in from another open port in the same VLAN, and
-- it is not sent to the broadcast address or by the address that it is sent to.
pub reply-learned :
    (sw later : Switch) (p q port_id : String) (first reply : WireFrame) (then_at now : Int64)
    → is_open sw p (get sw.ports p) ≡ true
    → later.mac_table ≡ (handle_incoming_frame sw p first then_at).0.mac_table
    → is_open later q (get later.ports q) ≡ true
    → ingress_vlan (get later.ports q) reply.frame ≡ ingress_vlan (get sw.ports p) first.frame
    → reply.frame.destination_mac ≡ first.frame.source_mac
    → reply.frame.destination_mac ≢ mac_broadcast
    → reply.frame.source_mac ≢ reply.frame.destination_mac
    → p ≢ q
    → (out : GoMap String WireFrame) × ((handle_incoming_frame later q reply now).1 ≡ some out)
      × (get out port_id ≡ (
          if p == port_id
          then egress_frame (get later.ports p) (ingress_vlan (get sw.ports p) first.frame) reply
          else none))
reply-learned sw later p q port_id first reply then_at now opened table open_ same_vlan same_mac nb
      ns apart =
    let vlan = ingress_vlan (get sw.ports p) first.frame in
    let entry : MacTableEntry = record { port_id = p; last_seen = then_at } in
    let key = key_of vlan first.frame.source_mac in
    let found : get later.mac_table
          (key_of (ingress_vlan (get later.ports q) reply.frame) reply.frame.destination_mac)
        ≡ some entry =
      rw (table, same_vlan, same_mac)
        (get-handle_incoming_frame sw p first then_at key opened ∙ rw (beq_refl key) refl) in
    let sent = unicast later q reply now entry open_ nb ns found apart in
    (
      put_some [] p
          (egress_frame (get later.ports p) (ingress_vlan (get later.ports q) reply.frame) reply),
      sent,
      rw same_vlan (get-put_one p port_id (egress_frame (get later.ports p) vlan reply)),
    )
