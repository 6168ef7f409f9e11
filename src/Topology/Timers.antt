-- ===== src/Topology/Timers.antt =====
-- The timers of the protocols and the loop of the simulation
-- (src-tauri/engine/network/manager.go, manager_services.go and src-tauri/main.go). What the cycle of
-- a timer, or the delivery of a frame, plans in its turn is a parameter, a list of further calls of
-- Schedule; the devices that it reads and writes are left out.
use netforge.Prelude.{◌*◌, Bool, true, false, Option, none, some, List, [], ◌∷◌, if◌then◌else◌}
use netforge.Prelude.Int64.{Int64}
use netforge.Scheduler.{
  Event, EventType, packet_rx, timer_icmp, timer_ospf, timer_rip, timer_eigrp, timer_bgp, timer_cdp,
  timer_stp, timer_hsrp, timer_vtp, HeapLib, Scheduler, schedule, step,
}

abbrev pub second : Int64
second = 1_000_000_000

abbrev pub ospf_hello_interval : Int64
ospf_hello_interval = 10 * second

abbrev pub rip_update_interval : Int64
rip_update_interval = 30 * second

abbrev pub eigrp_update_interval : Int64
eigrp_update_interval = 30 * second

abbrev pub bgp_update_interval : Int64
bgp_update_interval = 60 * second

abbrev pub cdp_interval : Int64
cdp_interval = 60 * second

abbrev pub stp_interval : Int64
stp_interval = 30 * second

abbrev pub hsrp_hello_interval : Int64
hsrp_hello_interval = 3 * second

abbrev pub vtp_advert_interval : Int64
vtp_advert_interval = 30 * second

-- The cases of runSimulationLoop.
abbrev pub is_protocol_timer : EventType → Bool
is_protocol_timer timer_ospf = true
is_protocol_timer timer_rip = true
is_protocol_timer timer_eigrp = true
is_protocol_timer timer_bgp = true
is_protocol_timer timer_cdp = true
is_protocol_timer timer_stp = true
is_protocol_timer timer_hsrp = true
is_protocol_timer timer_vtp = true
is_protocol_timer _ = false

abbrev pub is_simulated : EventType → Bool
is_simulated packet_rx = true
is_simulated timer_icmp = true
is_simulated _ = false

-- A call of Schedule.
abbrev pub Send : Type 0 → Type 0
Send D = EventType × Int64 × D

module _ {D : Type 0} (lib : HeapLib D) (nil : D) where
  unfoldable pub schedule_extended_timers : Scheduler D → Scheduler D
  unfolding schedule
  schedule_extended_timers s =
      let s1 = schedule lib s timer_eigrp eigrp_update_interval nil in
      let s2 = schedule lib s1 timer_bgp bgp_update_interval nil in
      let s3 = schedule lib s2 timer_cdp cdp_interval nil in
      let s4 = schedule lib s3 timer_stp stp_interval nil in
      let s5 = schedule lib s4 timer_hsrp hsrp_hello_interval nil in
      schedule lib s5 timer_vtp vtp_advert_interval nil

  unfoldable pub schedule_protocol_timers : Scheduler D → Scheduler D
  unfolding schedule_extended_timers
  schedule_protocol_timers s =
      let s1 = schedule lib s timer_ospf ospf_hello_interval nil in
      schedule_extended_timers (schedule lib s1 timer_rip rip_update_interval nil)

  -- What a cycle plans.
  unfoldable pub schedule_all : Scheduler D → List (Send D) → Scheduler D
  unfolding schedule
  schedule_all s [] = s
  schedule_all s ((event_type, offset, payload) ∷ rest) =
      schedule_all (schedule lib s event_type offset payload) rest

  unfoldable pub handle_extended_timer : Scheduler D → EventType → List (Send D) → Scheduler D
  unfolding schedule_all
  handle_extended_timer s timer_eigrp sends =
      schedule lib (schedule_all s sends) timer_eigrp eigrp_update_interval nil
  handle_extended_timer s timer_bgp sends =
      schedule lib (schedule_all s sends) timer_bgp bgp_update_interval nil
  handle_extended_timer s timer_cdp sends =
      schedule lib (schedule_all s sends) timer_cdp cdp_interval nil
  handle_extended_timer s timer_stp sends =
      schedule lib (schedule_all s sends) timer_stp stp_interval nil
  handle_extended_timer s timer_hsrp sends =
      schedule lib (schedule_all s sends) timer_hsrp hsrp_hello_interval nil
  handle_extended_timer s timer_vtp sends =
      schedule lib (schedule_all s sends) timer_vtp vtp_advert_interval nil
  handle_extended_timer s _ sends = s

  unfoldable pub handle_timer_event : Scheduler D → EventType → List (Send D) → Scheduler D
  unfolding handle_extended_timer
  handle_timer_event s timer_ospf sends =
      schedule lib (schedule_all s sends) timer_ospf ospf_hello_interval nil
  handle_timer_event s timer_rip sends =
      schedule lib (schedule_all s sends) timer_rip rip_update_interval nil
  handle_timer_event s other sends = handle_extended_timer s other sends

  -- One turn of runSimulationLoop.
  abbrev pub handle_event : Option (Event D) → Scheduler D → List (Send D) → Scheduler D
  handle_event none s sends = s
  handle_event (some event) s sends =
      if is_protocol_timer event.type_of
      then handle_timer_event s event.type_of sends
      else if is_simulated event.type_of
      then schedule_all s sends
      else s

  unfoldable pub simulate : Scheduler D → List (Send D) → Scheduler D
  unfolding step handle_timer_event schedule_all
  simulate s sends = let (event, after) = step lib s in handle_event event after sends

  unfoldable pub simulate_all : Scheduler D → List (List (Send D)) → Scheduler D
  unfolding simulate
  simulate_all s [] = s
  simulate_all s (sends ∷ turns) = simulate_all (simulate s sends) turns
