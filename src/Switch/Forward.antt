-- ===== src/Switch/Forward.antt =====
-- How a switch forwards frames: ingressVLAN, egressFrame, HandleIncomingFrame and floodVLAN of
-- src-tauri/engine/network/switch.go. A result of Go's nil is `none`.
pub mod Flood
pub mod Isolation
pub mod Learning
use netforge.Prelude.{
  ℕ, String, Bool, true, false, not, ◌&&◌, ◌||◌, Option, none, some, List, [], ◌∷◌, any, ◌==◌,
  nat_eq, string_eq, if◌then◌else◌,
}
use netforge.Prelude.Int64.{Int64}
use netforge.Prelude.GoMap.{GoMap, get, put}
use netforge.Pdu.{VlanTag, EthernetFrame, WireFrame, mac_broadcast, vlan_default}
use netforge.Switch.{
  MacTableEntry, MacTableKey, mac_table_key_eq, PortMode, access, trunk, SwitchPortConfig, Switch,
  is_set,
}

-- The VLAN of a port for an untagged frame.
abbrev pub port_vlan : PortMode → SwitchPortConfig → ℕ
port_vlan trunk cfg = cfg.native_vlan
port_vlan access cfg = cfg.access_vlan

-- The tag of a frame, unless it is missing or 0.
abbrev pub tag_or : Option VlanTag → ℕ → ℕ
tag_or none vlan = vlan
tag_or (some tag) vlan = if tag.vid == 0 then vlan else tag.vid

unfoldable pub ingress_vlan : Option SwitchPortConfig → EthernetFrame → ℕ
ingress_vlan none frame = vlan_default
ingress_vlan (some cfg) frame = tag_or frame.vlan (port_vlan cfg.mode cfg)

abbrev pub is_allowed : SwitchPortConfig → ℕ → Bool
is_allowed cfg vlan = elim cfg.allowed_vlans [
  | [] ↦ true
  | _ ↦ any (λ v. v == vlan) cfg.allowed_vlans
]

abbrev pub tagged : WireFrame → ℕ → WireFrame
tagged wire vlan = record wire {
  frame = record wire.frame { vlan = some (record { vid = vlan; priority = 0 }) };
}

abbrev pub untagged : WireFrame → WireFrame
untagged wire = record wire { frame = record wire.frame { vlan = none } }

abbrev pub egress_by_mode : PortMode → SwitchPortConfig → ℕ → WireFrame → Option WireFrame
egress_by_mode trunk cfg vlan wire =
    if is_allowed cfg vlan
    then some (if vlan == cfg.native_vlan then untagged wire else tagged wire vlan)
    else none
egress_by_mode access cfg vlan wire = if vlan == cfg.access_vlan then some (untagged wire) else none

-- The caller hands in the configuration of the port, none for a nil one.
unfoldable pub egress_frame : Option SwitchPortConfig → ℕ → WireFrame → Option WireFrame
egress_frame none vlan wire = some wire
egress_frame (some cfg) vlan wire = egress_by_mode cfg.mode cfg vlan wire

abbrev pub is_blocked : Switch → String → Bool
is_blocked sw port_id = is_set (get sw.blocked_ports port_id)

abbrev pub put_some : GoMap String WireFrame → String → Option WireFrame → GoMap String WireFrame
put_some out port_id none = out
put_some out port_id (some wire) = put out port_id wire

-- What a port of the switch is sent when a frame is flooded.
unfoldable pub flood_port :
    Switch → String → ℕ → WireFrame → String → SwitchPortConfig → Option WireFrame
flood_port sw ingress_port vlan wire port_id cfg =
    if port_id == ingress_port || not cfg.up || is_blocked sw port_id
    then none
    else egress_frame (some cfg) vlan wire

unfoldable pub flood_ports :
    Switch
    → String
    → ℕ
    → WireFrame
    → GoMap String SwitchPortConfig
    → GoMap String WireFrame
    → GoMap String WireFrame
flood_ports sw ingress_port vlan wire [] flooded = flooded
flood_ports sw ingress_port vlan wire ((port_id, cfg) ∷ rest) flooded =
    flood_ports sw ingress_port vlan wire rest
      (put_some flooded port_id (flood_port sw ingress_port vlan wire port_id cfg))

unfoldable pub flood_vlan : Switch → String → ℕ → WireFrame → GoMap String WireFrame
unfolding flood_ports
flood_vlan sw ingress_port vlan wire = flood_ports sw ingress_port vlan wire sw.ports []

-- Source learning.
abbrev pub learn : Switch → ℕ → String → String → Int64 → Switch
learn sw vlan mac port_id sim_time = record sw {
  mac_table =
      put sw.mac_table (record { vlan = vlan; mac = mac })
        (record { port_id = port_id; last_seen = sim_time });
}

abbrev pub is_open : Switch → String → Option SwitchPortConfig → Bool
is_open sw port_id none = false
is_open sw port_id (some cfg) = cfg.up && not (is_blocked sw port_id)

-- The choice after learning, by the table's entry for the destination.
unfoldable pub deliver :
    Switch → String → ℕ → WireFrame → Option MacTableEntry → GoMap String WireFrame
deliver sw incoming_port vlan wire none = flood_vlan sw incoming_port vlan wire
deliver sw incoming_port vlan wire (some entry) =
    if entry.port_id == incoming_port
    then []
    else put_some [] entry.port_id (egress_frame (get sw.ports entry.port_id) vlan wire)

unfoldable pub forward : Switch → String → ℕ → WireFrame → GoMap String WireFrame
unfolding deliver
forward sw incoming_port vlan wire =
    if wire.frame.destination_mac == mac_broadcast
    then flood_vlan sw incoming_port vlan wire
    else deliver sw incoming_port vlan wire
        (get sw.mac_table (record { vlan = vlan; mac = wire.frame.destination_mac }))

unfoldable pub handle_incoming_frame :
    Switch → String → WireFrame → Int64 → Switch × Option (GoMap String WireFrame)
handle_incoming_frame sw incoming_port wire sim_time =
    let cfg = get sw.ports incoming_port in
    let vlan = ingress_vlan cfg wire.frame in
    let sw' = learn sw vlan wire.frame.source_mac incoming_port sim_time in
    if is_open sw incoming_port cfg
    then (sw', some (forward sw' incoming_port vlan wire))
    else (sw, none)
