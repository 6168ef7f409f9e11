-- ===== src/Voip.antt =====
-- Telephones and the signaling of calls (src-tauri/engine/network/voip.go, voip_signaling.go and
-- src-tauri/engine/pdu/voip_signaling.go). The calls are a map by their names. The name that
-- fmt.Sprintf gives a call without one is a parameter, and the event log is left out. A phone that
-- the source reaches through a pointer is handed in and out.
pub mod Calls
use netforge.Prelude.{
  ℕ, String, Bool, true, false, Option, none, some, List, [], ◌∷◌, ◌==◌, string_eq, if◌then◌else◌,
}
use netforge.Prelude.Int64.{Int64}
use netforge.Prelude.GoMap.{GoMap, get, put}

pub record VoipPhone : Type 0 where
  pub id : String
  pub mac : String
  pub extension : String
  pub voice_vlan : ℕ
  pub data_ip : String
  pub voice_ip : String
  pub call_manager_ip : String
  pub port_id : String
  pub uplink_node : String
  pub registered : Bool

unfoldable pub new_voip_phone : String → VoipPhone
new_voip_phone id = record {
  id = id;
  mac = "";
  extension = "1001";
  voice_vlan = 150;
  data_ip = "";
  voice_ip = "";
  call_manager_ip = "";
  port_id = "Fa0";
  uplink_node = "";
  registered = false;
}

unfoldable pub configure : VoipPhone → String → String → String → String → ℕ → VoipPhone
configure p ext voice_ip data_ip cm vlan = record p {
  extension = ext;
  voice_ip = voice_ip;
  data_ip = data_ip;
  call_manager_ip = cm;
  voice_vlan = vlan;
  registered = true;
}

unfoldable pub set_uplink : VoipPhone → String → VoipPhone
set_uplink p node_id = record p { uplink_node = node_id }

-- The phones of a call manager, by the names under which it holds them.
pub record CallManager : Type 0 where
  pub id : String
  pub ip : String
  pub phones : GoMap String VoipPhone
  pub dhcp_pool : String

unfoldable pub new_call_manager : String → CallManager
new_call_manager id = record { id = id; ip = ""; phones = []; dhcp_pool = "" }

-- The call manager and the phone.
unfoldable pub register_phone : CallManager → VoipPhone → CallManager × VoipPhone
register_phone cm phone =
    let registered = record phone { registered = true } in
    (record cm { phones = put cm.phones phone.id registered }, registered)

pub data CallState : Type 0 where
  call_ringing call_connected call_ended : CallState

pub record VoipCall : Type 0 where
  pub id : String
  pub caller : String
  pub callee : String
  pub protocol : String
  pub state : CallState
  pub started_at : Int64
  pub ended_at : Int64

abbrev pub Calls : Type 0
Calls = GoMap String VoipCall

pub record SipPacket : Type 0 where
  pub method : String
  pub from : String
  pub to : String
  pub call_id : String
  pub cseq : Int64
  pub status : Int64
  pub contact : String
  pub body : String
  pub source_ip : String
  pub dest_ip : String

pub record SccpPacket : Type 0 where
  pub type : String
  pub device_name : String
  pub extension : String
  pub call_id : String
  pub source_ip : String
  pub dest_ip : String

abbrev pub end_time : CallState → Int64 → Int64 → Int64
end_time call_ended sim_time old = sim_time
end_time _ sim_time old = old

unfoldable pub update_call_state : Calls → String → CallState → Int64 → Calls
update_call_state calls call_id state sim_time = elim (get calls call_id) [
  | none ↦ calls
  | some c ↦
      put calls call_id (record c { state = state; ended_at = end_time state sim_time c.ended_at })
]

abbrev pub new_call : String → String → String → String → Int64 → VoipCall
new_call id caller callee protocol sim_time = record {
  id = id;
  caller = caller;
  callee = callee;
  protocol = protocol;
  state = call_ringing;
  started_at = sim_time;
  ended_at = 0;
}

-- A SIP answer, all else left at zero.
abbrev pub sip_answer : String → Int64 → String → String → String → SipPacket
sip_answer method status from to call_id = record {
  method = method;
  from = from;
  to = to;
  call_id = call_id;
  cseq = 0;
  status = status;
  contact = "";
  body = "";
  source_ip = "";
  dest_ip = "";
}

-- The name of the call of an INVITE.
abbrev pub invite_id : (String → Int64 → String) → SipPacket → Int64 → String
invite_id call_name pkt sim_time =
    if pkt.call_id == "" then call_name pkt.from sim_time else pkt.call_id

-- `has_manager` tells whether the call manager exists.
unfoldable pub handle_sip :
    (String → Int64 → String) → Bool → Calls → SipPacket → Int64 → Calls × Option SipPacket
unfolding update_call_state
handle_sip call_name has_manager calls pkt sim_time =
    let call_id = invite_id call_name pkt sim_time in
    if has_manager
    then (if pkt.method == "REGISTER"
        then (calls, some (sip_answer "200" 200 pkt.from pkt.to pkt.call_id))
        else if pkt.method == "INVITE"
        then (
          put calls call_id (new_call call_id pkt.from pkt.to "sip" sim_time),
          some (sip_answer "180" 180 pkt.from pkt.to call_id),
        )
        else if pkt.method == "ACK"
        then (update_call_state calls pkt.call_id call_connected sim_time, none)
        else if pkt.method == "BYE"
        then (
          update_call_state calls pkt.call_id call_ended sim_time,
          some (sip_answer "200" 200 "" "" pkt.call_id),
        )
        else (calls, none))
    else (calls, none)

abbrev pub sccp_answer : String → String → String → String → String → SccpPacket
sccp_answer type device_name extension call_id dest_ip = record {
  type = type;
  device_name = device_name;
  extension = extension;
  call_id = call_id;
  source_ip = "";
  dest_ip = dest_ip;
}

-- The call manager where it exists, the phone, the calls and the answer.
pub record SccpResult : Type 0 where
  pub manager : Option CallManager
  pub phone : VoipPhone
  pub calls : Calls
  pub answer : Option SccpPacket

abbrev pub register_with : Option CallManager → VoipPhone → Option CallManager × VoipPhone
register_with none phone = (none, phone)
register_with (some cm) phone = let (after, p) = register_phone cm phone in (some after, p)

unfoldable pub handle_sccp :
    Option CallManager → Calls → SccpPacket → VoipPhone → Int64 → SccpResult
unfolding configure register_phone update_call_state
handle_sccp manager calls pkt phone sim_time =
    let configured =
      configure phone pkt.extension phone.voice_ip phone.data_ip pkt.dest_ip phone.voice_vlan in
    let (after, registered) = register_with manager configured in
    if pkt.type == "Register"
    then record {
      manager = after;
      phone = registered;
      calls = calls;
      answer = some (sccp_answer "RegisterAck" pkt.device_name pkt.extension "" pkt.source_ip);
    }
    else if pkt.type == "CallProceed"
    then record {
      manager = manager;
      phone = phone;
      calls =
          put calls pkt.call_id
            (new_call pkt.call_id pkt.extension pkt.device_name "sccp" sim_time);
      answer = some (sccp_answer "CallProceed" "" "" pkt.call_id "");
    }
    else if pkt.type == "Disconnect"
    then record {
      manager = manager;
      phone = phone;
      calls = update_call_state calls pkt.call_id call_ended sim_time;
      answer = some (sccp_answer "Disconnect" "" "" pkt.call_id "");
    }
    else record { manager = manager; phone = phone; calls = calls; answer = none }
