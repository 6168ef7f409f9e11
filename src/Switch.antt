-- ===== src/Switch.antt =====
-- The Layer 2 switch (src-tauri/engine/network/switch.go): its state and its configuration. How
-- frames are forwarded is in Switch/Forward.antt.
pub mod Forward
pub mod Stp
use netforge.Prelude.{
  ℕ, ◌*◌, String, Bool, true, false, ◌&&◌, ◌↔◌, ◌≡◌, Option, none, some, List, [], ◌∷◌, Eq, ◌==◌,
  nat_eq, string_eq, arith, map, if◌then◌else◌,
}
use text.Mathlib.TextEquality.{eq_iff}
use netforge.Prelude.Int64.{Int64}
use netforge.Prelude.GoMap.{GoMap, get, put, keys}
use netforge.Pdu.{vlan_default}

pub record MacTableEntry : Type 0 where
  pub port_id : String
  pub last_seen : Int64

pub data PortMode : Type 0 where
  access trunk : PortMode

-- The zero value "" is unset_state.
pub data StpPortState : Type 0 where
  unset_state forwarding blocking : StpPortState

pub record SwitchPortConfig : Type 0 where
  pub mode : PortMode
  pub access_vlan : ℕ
  pub native_vlan : ℕ
  pub allowed_vlans : List ℕ
  pub voice_vlan : ℕ
  pub voice_enabled : Bool
  pub qos_priority : Int64
  pub stp_state : StpPortState
  pub up : Bool

pub record MacTableKey : Type 0 where
  pub vlan : ℕ
  pub mac : String

pub mac_table_key_beq_iff :
    (a b : MacTableKey) → ((a.vlan == b.vlan && a.mac == b.mac) ≡ true) ↔ (a ≡ b)
mac_table_key_beq_iff a b = ground (arith, eq_iff a.mac b.mac)

instance abbrev pub mac_table_key_eq : Eq MacTableKey
mac_table_key_eq = record {
  beq = λ a b. a.vlan == b.vlan && a.mac == b.mac;
  beq_iff = mac_table_key_beq_iff;
}

-- VTPMode of vtp.go; "off" is VTPNone. A new switch has the mode "", which is none of the four.
pub data VtpMode : Type 0 where
  unset off server client transparent : VtpMode

pub record VtpConfig : Type 0 where
  pub domain : String
  pub mode : VtpMode
  pub revision : Int64
  pub password : String

-- SwitchQoSPolicy of qos.go.
pub record SwitchQosPolicy : Type 0 where
  pub trust_dscp : Bool
  pub trust_cos : Bool
  pub queue_policy : String

pub record Switch : Type 0 where
  pub id : String
  pub ports : GoMap String SwitchPortConfig
  pub mac_table : GoMap MacTableKey MacTableEntry
  pub vlans : GoMap ℕ Bool
  pub vlan_names : GoMap ℕ String
  pub vtp : VtpConfig
  pub bridge_id : String
  pub root_bridge : String
  pub blocked_ports : GoMap String Bool
  pub port_qos : GoMap String SwitchQosPolicy
  pub aging_time : Int64

unfoldable pub new_switch : String → Switch
new_switch id = record {
  id = id;
  ports = [];
  mac_table = [];
  vlans = (vlan_default, true) ∷ [];
  vlan_names = [];
  vtp = record { domain = ""; mode = unset; revision = 0; password = "" };
  bridge_id = id;
  root_bridge = id;
  blocked_ports = [];
  port_qos = [];
  aging_time = 300 * 1_000_000_000;
}

-- The configuration of a port that RegisterPort and ensurePort make.
abbrev pub default_port : SwitchPortConfig
default_port = record {
  mode = access;
  access_vlan = vlan_default;
  native_vlan = vlan_default;
  allowed_vlans = [];
  voice_vlan = 0;
  voice_enabled = false;
  qos_priority = 0;
  stp_state = forwarding;
  up = true;
}

abbrev pub or_default : Option SwitchPortConfig → SwitchPortConfig
or_default none = default_port
or_default (some cfg) = cfg

-- Both functions do this.
unfoldable pub register_port : Switch → String → Switch
register_port sw port_id = elim (get sw.ports port_id) [
  | none ↦ record sw { ports = put sw.ports port_id default_port }
  | some _ ↦ sw
]

unfoldable pub ensure_port : Switch → String → Switch
unfolding register_port
ensure_port = register_port

-- ensurePort, then a write to the port's configuration.
unfoldable pub change_port : Switch → String → (SwitchPortConfig → SwitchPortConfig) → Switch
change_port sw port_id change = record sw {
  ports = put sw.ports port_id (change (or_default (get sw.ports port_id)));
}

abbrev pub with_vlan : Switch → ℕ → Switch
with_vlan sw vlan = record sw { vlans = put sw.vlans vlan true }

unfoldable pub with_vlans : Switch → List ℕ → Switch
with_vlans sw [] = sw
with_vlans sw (v ∷ rest) = with_vlans (with_vlan sw v) rest

unfoldable pub set_port_access_vlan : Switch → String → ℕ → Switch
unfolding change_port
set_port_access_vlan sw port_id vlan =
    with_vlan (change_port sw port_id (λ cfg. record cfg { mode = access; access_vlan = vlan }))
      vlan

-- The zero values where the port is unknown, but for three fields.
unfoldable pub get_port_config : Switch → String → SwitchPortConfig
get_port_config sw port_id = elim (get sw.ports port_id) [
  | some cfg ↦ cfg
  | none ↦ record default_port { native_vlan = 0; stp_state = unset_state }
]

unfoldable pub set_port_trunk : Switch → String → ℕ → List ℕ → Switch
unfolding change_port with_vlans
set_port_trunk sw port_id native allowed =
    with_vlans
      (with_vlan
        (change_port sw port_id
          (λ cfg. record cfg { mode = trunk; native_vlan = native; allowed_vlans = allowed }))
        native)
      allowed

abbrev pub is_set : Option Bool → Bool
is_set none = false
is_set (some b) = b

unfoldable pub has_vlan : Switch → ℕ → Bool
has_vlan sw vlan = is_set (get sw.vlans vlan)

unfoldable pub create_vlan : Switch → ℕ → Switch
create_vlan sw vlan = with_vlan sw vlan

unfoldable pub set_port_up : Switch → String → Bool → Switch
unfolding change_port
set_port_up sw port_id up = change_port sw port_id (λ cfg. record cfg { up = up })

-- SwitchSnapshot of persistence.go, and the two functions over it.
pub record SwitchSnapshot : Type 0 where
  pub id : String
  pub ports : List String
  pub vlans : List ℕ

unfoldable pub snapshot : Switch → SwitchSnapshot
snapshot sw = record { id = sw.id; ports = keys sw.ports; vlans = keys sw.vlans }

unfoldable pub register_ports : Switch → List String → Switch
unfolding register_port
register_ports sw [] = sw
register_ports sw (p ∷ rest) = register_ports (register_port sw p) rest

-- The conversion int → VLANID is the identity on what Snapshot exports.
unfoldable pub restore_switch : SwitchSnapshot → Switch
unfolding register_ports with_vlans new_switch
restore_switch snap = with_vlans (register_ports (new_switch snap.id) snap.ports) snap.vlans
