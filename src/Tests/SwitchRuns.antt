-- ===== src/Tests/SwitchRuns.antt =====
-- A switch with three ports: two in VLAN 1 and a trunk.
use netforge.Prelude.{
  String, true, false, ◌&&◌, not, In, ◌⊎◌, ltb, length, text_lt, if◌then◌else◌, ◌≡◌, ◌≢◌, refl,
  none, some, [], ◌∷◌, arith, ◌==◌, nat_eq, string_eq,
}
use netforge.Prelude.GoMap.{GoMap, get, put, keys}
use netforge.Pdu.{WireFrame, mac_broadcast}
use text.Mathlib.TextEquality.{eq_iff}
use netforge.Switch.{
  Switch, SwitchPortConfig, mac_table_key_eq, default_port, has_vlan, trunk, VtpMode,
}
use netforge.Switch.{new_switch}
use netforge.Switch.Stp.{run_stp}
use netforge.Switch.Stp.Extremes.{IsLeast, IsGreatest}
use netforge.Switch.Stp.Blocked.{get-run_stp, blocked_cfg}
use netforge.Switch.Forward.{
  ingress_vlan, egress_frame, flood_vlan, flood_port, forward, handle_incoming_frame, tagged,
  untagged,
}
use netforge.Switch.Forward.Flood.{get-flood_vlan}
use netforge.Switch.Forward.Learning.{key_of, reply-learned, get-handle_incoming_frame}
use netforge.Switch.Forward.Isolation.{
  IsMember, IsWellFormed, ingress_vlan-egress_frame, handle_incoming_frame-IsMember,
}
use netforge.Vtp.{sync_vtp_from_server}
use netforge.Vtp.Sync.{sync_vtp_from_server_lem}

abbrev uplink : SwitchPortConfig
uplink = record default_port { mode = trunk; native_vlan = 99 }

abbrev port_a : String
port_a = "A"

abbrev port_t : String
port_t = "T"

abbrev lab : Switch
lab = record {
  id = "S1";
  ports = ("A", default_port) ∷ ("B", default_port) ∷ ("T", uplink) ∷ [];
  mac_table = (record { vlan = 1; mac = "m2" }, record { port_id = "B"; last_seen = 5 }) ∷ [];
  vlans = (1, true) ∷ [];
  vlan_names = (1, "default") ∷ [];
  vtp = record { domain = "lab"; mode = VtpMode.server; revision = 3; password = "" };
  bridge_id = "S1";
  root_bridge = "S1";
  blocked_ports = [];
  port_qos = [];
  aging_time = 300;
}

abbrev hello : WireFrame
hello = record {
  id = "f1";
  frame = record {
    destination_mac = "m2";
    source_mac = "m1";
    ether_type = 2048;
    vlan = none;
    payload = [];
    fcs = 0;
  };
  physical = none;
  qos_priority = 0;
}

abbrev stranger : WireFrame
stranger = record hello { frame = record hello.frame { destination_mac = "m9" } }

apart : (a b : String) → (a == b) ≡ false → a ≢ b
apart a b h = ground (arith, eq_iff a b)

lab-IsWellFormed : IsWellFormed lab
unfolding get
lab-IsWellFormed = record { unique = (refl, (refl, (refl, tt))); known = (ground arith, tt) }

handle_incoming_frame-IsMember_example :
    (port_t ≢ port_a)
    × ((cfg : SwitchPortConfig) × (get lab.ports "T" ≡ some cfg)
        × IsMember cfg 1
        × (ingress_vlan (some cfg) (tagged stranger 1).frame ≡ 1))
unfolding get put handle_incoming_frame flood_vlan flood_port egress_frame ingress_vlan forward
handle_incoming_frame-IsMember_example =
    handle_incoming_frame-IsMember lab "A" "T" stranger (tagged stranger 1) 7
      (("B", untagged stranger) ∷ ("T", tagged stranger 1) ∷ []) lab-IsWellFormed refl refl
      (ground arith)

get-flood_vlan_example : get (flood_vlan lab "A" 1 stranger) "B" ≡ some (untagged stranger)
unfolding get egress_frame
get-flood_vlan_example = get-flood_vlan lab "A" 1 stranger "B" (refl, (refl, (refl, tt)))

-- The answer of m2 to m1 goes to the port where m1 was heard, which is down by then.
abbrev answer : WireFrame
answer = record hello { frame = record hello.frame { destination_mac = "m1"; source_mac = "m2" } }

abbrev lab_later : Switch
lab_later = record (handle_incoming_frame lab "A" hello 7).0 {
  ports = ("A", record default_port { up = false }) ∷ ("B", default_port) ∷ [];
}

reply-learned_example :
    (out : GoMap String WireFrame) × ((handle_incoming_frame lab_later "B" answer 9).1 ≡ some out)
    × (get out "A" ≡ some (untagged answer))
unfolding get egress_frame ingress_vlan handle_incoming_frame
reply-learned_example =
    reply-learned lab lab_later "A" "B" "A" hello answer 7 9 refl refl refl refl refl
      (apart "m1" mac_broadcast refl) (apart "m2" "m1" refl) (apart "A" "B" refl)

get-handle_incoming_frame_example :
    get (handle_incoming_frame lab "A" hello 7).0.mac_table (key_of 1 "m1")
    ≡ some (record { port_id = "A"; last_seen = 7 })
unfolding get ingress_vlan
get-handle_incoming_frame_example = get-handle_incoming_frame lab "A" hello 7 (key_of 1 "m1") refl

ingress_vlan-egress_frame_example : ingress_vlan (some uplink) (tagged hello 20).frame ≡ 20
unfolding egress_frame
ingress_vlan-egress_frame_example =
    ingress_vlan-egress_frame uplink 20 hello (tagged hello 20) refl (ground arith)

-- A client of the same domain, one revision behind.
abbrev follower : Switch
follower = record lab {
  id = "S2";
  vlans = (1, true) ∷ [];
  vlan_names = [];
  vtp = record { domain = "lab"; mode = VtpMode.client; revision = 2; password = "" };
}

abbrev leader : Switch
leader = record lab {
  vlans = (1, true) ∷ (20, true) ∷ [];
  vlan_names = (1, "default") ∷ (20, "sales") ∷ [];
}

sync_vtp_from_server_lem_example :
    let after = (sync_vtp_from_server leader follower).0 in
    (after ≡ record follower {
      vlans = after.vlans;
      vlan_names = after.vlan_names;
      vtp = record follower.vtp { revision = 3 };
    })
    × (has_vlan after 20 ≡ true)
    × (get after.vlan_names 20 ≡ some "sales")
unfolding get has_vlan
sync_vtp_from_server_lem_example = sync_vtp_from_server_lem leader follower 20 (refl, (refl, tt))

abbrev ring : Switch
ring = record (new_switch "S9") {
  ports = ("a", default_port) ∷ ("c", default_port) ∷ ("b", default_port) ∷ [];
  blocked_ports = [];
}

abbrev ring_after : Switch
ring_after = run_stp ring (record ring { bridge_id = "S1" } ∷ ring ∷ [])

get-run_stp_example :
    (last : String) × (let root = ring_after.root_bridge in
      let redundant = ltb 2 (length (keys ring.ports)) && text_lt root ring.id in
      let is_last = not (last == "") && last == "c" in
      ((root ≡ ring.bridge_id)
        ⊎ ((other : Switch) × In other (record ring { bridge_id = "S1" } ∷ ring ∷ [])
            × (other.bridge_id ≡ root)))
      × (text_lt ring.bridge_id root ≡ false)
      × IsLeast root (record ring { bridge_id = "S1" } ∷ ring ∷ [])
      × ((last ≡ "") ⊎ In last (keys ring.ports))
      × IsGreatest last (keys ring.ports)
      × (get ring_after.blocked_ports "c"
          ≡ (if redundant then some is_last else get ring.blocked_ports "c"))
      × (get ring_after.ports "c" ≡ (
          if redundant && is_last then blocked_cfg (get ring.ports "c") else get ring.ports "c")))
get-run_stp_example = get-run_stp ring (record ring { bridge_id = "S1" } ∷ ring ∷ []) "c" refl
