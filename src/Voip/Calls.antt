-- ===== src/Voip/Calls.antt =====
-- The state of each call under the signals of all of them.
use netforge.Prelude.{
  ◌≡◌, refl, ◌∙◌, ap, String, true, Option, none, some, List, [], ◌∷◌, arith, ◌==◌, string_eq,
  if◌then◌else◌, Option-cases, inl, inr,
}
use netforge.Prelude.Int64.{Int64}
use netforge.Prelude.GoMap.{get, put, get-put}
use netforge.Voip.{
  Calls, CallState, CallManager, VoipCall, VoipPhone, SipPacket, SccpPacket, update_call_state,
  new_call, end_time, invite_id, handle_sip, handle_sccp,
}

-- A packet that reaches the signaling.
pub data Signal : Type 0 where
  sip_signal : SipPacket → Signal
  sccp_signal : Option CallManager → VoipPhone → SccpPacket → Signal

-- What the calls are after a signal.
abbrev pub deliver : (String → Int64 → String) → Calls → Signal → Int64 → Calls
deliver call_name calls (sip_signal pkt) sim_time = (handle_sip call_name true calls pkt sim_time).0
deliver call_name calls (sccp_signal manager phone pkt) sim_time =
    (handle_sccp manager calls pkt phone sim_time).calls

abbrev pub state_of : Option VoipCall → Option CallState
state_of none = none
state_of (some c) = some c.state

abbrev pub state_in : Calls → String → Option CallState
state_in calls id = state_of (get calls id)

-- One call, by itself: a call that does not exist takes no state but the first.
abbrev pub move_to : CallState → Option CallState → Option CallState
move_to next none = none
move_to next (some old) = some next

abbrev pub sip_state :
    (String → Int64 → String) → String → SipPacket → Int64 → Option CallState → Option CallState
sip_state call_name id pkt sim_time s =
    if pkt.method == "REGISTER"
    then s
    else if pkt.method == "INVITE"
    then (if invite_id call_name pkt sim_time == id then some CallState.call_ringing else s)
    else if pkt.method == "ACK"
    then (if pkt.call_id == id then move_to CallState.call_connected s else s)
    else if pkt.method == "BYE"
    then (if pkt.call_id == id then move_to CallState.call_ended s else s)
    else s

abbrev pub sccp_state : String → SccpPacket → Option CallState → Option CallState
sccp_state id pkt s =
    if pkt.type == "Register"
    then s
    else if pkt.type == "CallProceed"
    then (if pkt.call_id == id then some CallState.call_ringing else s)
    else if pkt.type == "Disconnect"
    then (if pkt.call_id == id then move_to CallState.call_ended s else s)
    else s

abbrev pub next_state :
    (String → Int64 → String) → String → Signal → Int64 → Option CallState → Option CallState
next_state call_name id (sip_signal pkt) sim_time s = sip_state call_name id pkt sim_time s
next_state call_name id (sccp_signal manager phone pkt) sim_time s = sccp_state id pkt s

-- Signals, each with the time at which it comes.
abbrev pub deliver_all : (String → Int64 → String) → Calls → List (Signal × Int64) → Calls
deliver_all call_name calls [] = calls
deliver_all call_name calls ((signal, sim_time) ∷ rest) =
    deliver_all call_name (deliver call_name calls signal sim_time) rest

abbrev pub states_all :
    (String → Int64 → String) → String → Option CallState → List (Signal × Int64) → Option CallState
states_all call_name id s [] = s
states_all call_name id s ((signal, sim_time) ∷ rest) =
    states_all call_name id (next_state call_name id signal sim_time s) rest

state_in-update_call_state :
    (calls : Calls) (call_id id : String) (state : CallState) (sim_time : Int64)
    → state_in (update_call_state calls call_id state sim_time) id
      ≡ (if call_id == id then move_to state (state_in calls id) else state_in calls id)
unfolding update_call_state
state_in-update_call_state calls call_id id state sim_time =
    elim (Option-cases (get calls call_id)) [
      | inl e ↦ rw (e, update_call_state) ground (arith, string_eq.beq_iff call_id id)
      | inr (c, e) ↦
          let new = record c { state = state; ended_at = end_time state sim_time c.ended_at } in
          rw (e, update_call_state, get-put calls call_id id new) ground
            (arith, string_eq.beq_iff call_id id)
    ]

state_in-put :
    (calls : Calls) (call_id id caller callee protocol : String) (sim_time : Int64)
    → state_in (put calls call_id (new_call call_id caller callee protocol sim_time)) id
      ≡ (if call_id == id then some CallState.call_ringing else state_in calls id)
state_in-put calls call_id id caller callee protocol sim_time =
    rw (get-put calls call_id id (new_call call_id caller callee protocol sim_time)) ground arith

state_in-handle_sip :
    (call_name : String → Int64 → String) (calls : Calls) (pkt : SipPacket) (sim_time : Int64)
    (id : String)
    → state_in (handle_sip call_name true calls pkt sim_time).0 id
      ≡ sip_state call_name id pkt sim_time (state_in calls id)
unfolding handle_sip
state_in-handle_sip call_name calls pkt sim_time id = ground (
  arith,
  state_in-put calls (invite_id call_name pkt sim_time) id pkt.from pkt.to "sip" sim_time,
  state_in-update_call_state calls pkt.call_id id CallState.call_connected sim_time,
  state_in-update_call_state calls pkt.call_id id CallState.call_ended sim_time,
)

state_in-handle_sccp :
    (manager : Option CallManager) (calls : Calls) (phone : VoipPhone) (pkt : SccpPacket)
    (sim_time : Int64) (id : String)
    → state_in (handle_sccp manager calls pkt phone sim_time).calls id
      ≡ sccp_state id pkt (state_in calls id)
unfolding handle_sccp
state_in-handle_sccp manager calls phone pkt sim_time id = ground (
  arith,
  state_in-put calls pkt.call_id id pkt.extension pkt.device_name "sccp" sim_time,
  state_in-update_call_state calls pkt.call_id id CallState.call_ended sim_time,
)

state_in-deliver :
    (call_name : String → Int64 → String) (calls : Calls) (signal : Signal) (sim_time : Int64)
    (id : String)
    → state_in (deliver call_name calls signal sim_time) id
      ≡ next_state call_name id signal sim_time (state_in calls id)
state_in-deliver call_name calls (sip_signal pkt) sim_time id =
    state_in-handle_sip call_name calls pkt sim_time id
state_in-deliver call_name calls (sccp_signal manager phone pkt) sim_time id =
    state_in-handle_sccp manager calls phone pkt sim_time id

-- Whatever signals come, SIP or SCCP, the store of the calls does what a machine for each call alone
-- does: the signals of the other calls leave its state as it is, an INVITE or a CallProceed makes it
-- ring, and an ACK connects it and a BYE or a Disconnect ends it where it exists, whatever its
-- state. SIP is handled at a call manager that exists.
pub deliver_all-states_all :
    (call_name : String → Int64 → String) (calls : Calls) (signals : List (Signal × Int64))
    (id : String)
    → state_in (deliver_all call_name calls signals) id
      ≡ states_all call_name id (state_in calls id) signals
deliver_all-states_all call_name calls [] id = refl
deliver_all-states_all call_name calls ((signal, sim_time) ∷ rest) id =
    deliver_all-states_all call_name (deliver call_name calls signal sim_time) rest id
    ∙ ap (λ s. states_all call_name id s rest) (state_in-deliver call_name calls signal sim_time id)
