-- ===== src/Wan.antt =====
-- Serial ports and Frame Relay circuits (src-tauri/engine/network/wan.go). The two texts that
-- fmt.Sprintf makes, the keys of a circuit and of a port, are the parameter `Keys`.
pub mod Circuits
use netforge.Prelude.{
  ℕ, ◌+◌, ◌%◌, ◌^◌, String, Bool, true, false, ◌&&◌, Option, none, some, List, [], ◌∷◌, ◌++◌, ◌==◌,
  string_eq, nat_eq, if◌then◌else◌,
}
use netforge.Prelude.Int64.{Int64}
use netforge.Prelude.GoMap.{GoMap, get, put}

pub data PppState : Type 0 where
  dead lcp ncp up : PppState

pub record SerialInterface : Type 0 where
  pub port_id : String
  pub encap : String
  pub bandwidth : Int64
  pub ppp_state : PppState

pub record WanLink : Type 0 where
  pub id : String
  pub source_node_id : String
  pub source_port_id : String
  pub source_dlci : ℕ
  pub target_node_id : String
  pub target_port_id : String
  pub target_dlci : ℕ
  pub encap : String

pub data LmiStatus : Type 0 where
  active inactive deleted : LmiStatus

-- PPPFrame of pdu/protocol_wire.go.
pub record PppFrame : Type 0 where
  pub protocol : ℕ
  pub stage : String
  pub payload : List ℕ
  pub auth_ok : Bool

pub record WanManager : Type 0 where
  pub serial_ports : GoMap String (GoMap String SerialInterface)
  pub fr_links : List WanLink
  pub lmi_seq : GoMap String ℕ
  pub pvc_status : GoMap String LmiStatus

-- frLMIKey and frPortKey.
pub record Keys : Type 0 where
  pub lmi_key : String → String → ℕ → String
  pub port_key : String → String → String

unfoldable pub new_wan_manager : WanManager
new_wan_manager = record { serial_ports = []; fr_links = []; lmi_seq = []; pvc_status = [] }

abbrev pub or_0 : Option ℕ → ℕ
or_0 none = 0
or_0 (some n) = n

-- A uint8 counter.
abbrev pub count_up : GoMap String ℕ → String → GoMap String ℕ
count_up seq key = put seq key ((or_0 (get seq key) + 1) % 2 ^ 8)

unfoldable pub send_lmi_enquiry : Keys → WanManager → String → String → WanManager × ℕ
send_lmi_enquiry keys w node_id port_id =
    let seq = count_up w.lmi_seq (keys.port_key node_id port_id) in
    (record w { lmi_seq = seq }, or_0 (get seq (keys.port_key node_id port_id)))

unfoldable pub process_lmi_status : Keys → WanManager → String → String → List ℕ → WanManager
process_lmi_status keys w node_id port_id [] = w
process_lmi_status keys w node_id port_id (dlci ∷ dlcis) =
    process_lmi_status keys
      (record w { pvc_status = put w.pvc_status (keys.lmi_key node_id port_id dlci) active })
      node_id port_id dlcis

abbrev pub status_or_inactive : Option LmiStatus → LmiStatus
status_or_inactive none = inactive
status_or_inactive (some status) = status

unfoldable pub pvc_status_of : Keys → WanManager → String → String → ℕ → LmiStatus
pvc_status_of keys w node_id port_id dlci =
    status_or_inactive (get w.pvc_status (keys.lmi_key node_id port_id dlci))

-- Both ends of a link become active, and both ports count an exchange.
unfoldable pub activate : Keys → WanManager → WanLink → WanManager
activate keys w link = record w {
  pvc_status =
      put
        (put w.pvc_status (keys.lmi_key link.source_node_id link.source_port_id link.source_dlci)
          active)
        (keys.lmi_key link.target_node_id link.target_port_id link.target_dlci) active;
  lmi_seq =
      count_up (count_up w.lmi_seq (keys.port_key link.source_node_id link.source_port_id))
        (keys.port_key link.target_node_id link.target_port_id);
}

unfoldable pub activate_all : Keys → WanManager → List WanLink → WanManager
activate_all keys w [] = w
activate_all keys w (link ∷ links) = activate_all keys (activate keys w link) links

unfoldable pub activate_fr_pvcs : Keys → WanManager → WanManager
unfolding activate_all
activate_fr_pvcs keys w = activate_all keys w w.fr_links

unfoldable pub add_fr_link : Keys → WanManager → WanLink → WanManager
unfolding activate
add_fr_link keys w link = activate keys (record w { fr_links = w.fr_links ++ link ∷ [] }) link

abbrev pub ports_of : Option (GoMap String SerialInterface) → GoMap String SerialInterface
ports_of none = []
ports_of (some ports) = ports

unfoldable pub configure_serial : WanManager → String → String → String → Int64 → WanManager
configure_serial w router_id port_id encap bandwidth =
    let serial : SerialInterface = record {
      port_id = port_id;
      encap = encap;
      bandwidth = bandwidth;
      ppp_state = dead;
    } in
    record w {
      serial_ports =
          put w.serial_ports router_id
            (put (ports_of (get w.serial_ports router_id)) port_id serial);
    }

unfoldable pub get_serial : WanManager → String → String → Option SerialInterface
get_serial w router_id port_id = get (ports_of (get w.serial_ports router_id)) port_id

abbrev pub with_state : WanManager → String → String → SerialInterface → PppState → WanManager
with_state w router_id port_id serial state = record w {
  serial_ports =
      put w.serial_ports router_id (
        put (ports_of (get w.serial_ports router_id)) port_id
          (record serial { ppp_state = state }));
}

unfoldable pub ppp_stage :
    WanManager → String → String → SerialInterface → String → WanManager × Option PppFrame
ppp_stage w router_id port_id serial stage =
    if stage == "LCP"
    then (
      with_state w router_id port_id serial lcp,
      some (record { protocol = 0; stage = "LCP"; payload = []; auth_ok = true }),
    )
    else if stage == "NCP"
    then (
      with_state w router_id port_id serial ncp,
      some (record { protocol = 0x8021; stage = "NCP"; payload = []; auth_ok = false }),
    )
    else if stage == "DATA"
    then (with_state w router_id port_id serial up, none)
    else (w, none)

unfoldable pub process_ppp_frame :
    WanManager → String → String → PppFrame → WanManager × Option PppFrame
unfolding get_serial ppp_stage
process_ppp_frame w router_id port_id ppp = elim (get_serial w router_id port_id) [
  | none ↦ (w, none)
  | some serial ↦
      if serial.encap == "ppp" then ppp_stage w router_id port_id serial ppp.stage else (w, none)
]

unfoldable pub resolve_fr_dlci : List WanLink → String → String → ℕ → Option (String × String)
resolve_fr_dlci [] node_id port_id dlci = none
resolve_fr_dlci (link ∷ links) node_id port_id dlci =
    if link.source_node_id == node_id && link.source_port_id == port_id && link.source_dlci == dlci
    then some (link.target_node_id, link.target_port_id)
    else if link.target_node_id == node_id
        && link.target_port_id == port_id
        && link.target_dlci == dlci
    then some (link.source_node_id, link.source_port_id)
    else resolve_fr_dlci links node_id port_id dlci
