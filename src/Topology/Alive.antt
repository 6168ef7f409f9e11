-- ===== src/Topology/Alive.antt =====
-- The timers of the protocols never stop.
use netforge.Prelude.{
  ◌≡◌, refl, sym, ◌∙◌, true, ◌||◌, some, List, [], ◌∷◌, map, any, arith, ◌==◌, nat_eq, Bool-cases,
  inl, inr,
}
use netforge.Scheduler.{
  Event, EventType, HeapLib, HeapLaws, Scheduler, new_scheduler, schedule, take_event, step,
}
use netforge.Topology.Timers.{
  Send, is_protocol_timer, is_simulated, schedule_extended_timers, schedule_protocol_timers,
  schedule_all, handle_event, simulate, simulate_all,
}
use netforge.Topology.Pending.{
  code, interval, any-Permᴰ, code-injective, is_kind, is_pending, any-bare, IsAlive,
  is_pending-schedule, schedule-IsAlive, schedule-IsAlive_new, schedule_all-IsHeap,
  schedule_all-IsAlive, handle_timer_event_lem,
}

module _ {D : Type 0} (lib : HeapLib D) (laws : HeapLaws lib) (nil : D) where
  handle_event-IsAlive :
      (event : Event D) (s : Scheduler D) (kind : EventType) (sends : List (Send D))
      → is_protocol_timer kind ≡ true
      → laws.IsHeap s.pq
      → (is_kind kind event || is_pending kind s.pq) ≡ true
      → IsAlive lib laws nil kind (handle_event lib nil (some event) s sends)
  handle_event-IsAlive event s kind sends timer heap alive =
      let all = schedule_all lib nil s sends in
      let all_heap = schedule_all-IsHeap lib laws nil s sends heap in
      elim (Bool-cases (is_kind kind event)) [
        | inl hit ↦
            let same = code-injective event.type_of kind hit in
            let again = schedule-IsAlive_new lib laws nil all kind (interval kind) nil all_heap in
            rw (same, timer, handle_timer_event_lem lib laws nil s kind sends timer) again
        | inr miss ↦
            let kept : is_pending kind s.pq ≡ true = rw miss at alive in
            let all_kept = schedule_all-IsAlive lib laws nil s kind sends (heap, kept) in
            elim (Bool-cases (is_protocol_timer event.type_of)) [
              | inl other ↦
                  rw (other, handle_timer_event_lem lib laws nil s event.type_of sends other)
                    (schedule-IsAlive lib laws nil all event.type_of kind (interval event.type_of)
                      nil all_kept)
              | inr no_timer ↦ elim (Bool-cases (is_simulated event.type_of)) [
                | inl frame ↦ rw (no_timer, frame) all_kept
                | inr no_frame ↦ rw (no_timer, no_frame) (heap, kept)
              ]
            ]
      ]

  is_pending-pop :
      (kind : EventType) (e : Event D) (h : List (Event D))
      → laws.IsHeap (e ∷ h)
      → (is_kind kind (lib.pop e h).0 || is_pending kind (lib.pop e h).1) ≡ is_pending kind (e ∷ h)
  is_pending-pop kind e h heap =
      sym (any-bare kind ((lib.pop e h).0 ∷ (lib.pop e h).1))
      ∙ any-Permᴰ (is_kind kind) (laws.perm-pop e h heap)
      ∙ any-bare kind (e ∷ h)

  take_event-IsAlive :
      (s : Scheduler D) (pq : List (Event D)) (kind : EventType) (sends : List (Send D))
      → is_protocol_timer kind ≡ true
      → laws.IsHeap pq
      → is_pending kind pq ≡ true
      → (event : Event D) × (after : Scheduler D) × (take_event lib s pq ≡ (some event, after))
        × IsAlive lib laws nil kind (handle_event lib nil (some event) after sends)
  take_event-IsAlive s [] kind sends timer heap alive = ground (arith, alive)
  take_event-IsAlive s (e ∷ h) kind sends timer heap alive =
      let (event, pq) = lib.pop e h in
      let after = record s { pq = pq; sim_clock = event.timestamp } in
      (
        event,
        after,
        refl,
        handle_event-IsAlive event after kind sends timer (laws.heap-pop e h heap)
            (is_pending-pop kind e h heap ∙ alive),
      )

  simulate-IsAlive :
      (s : Scheduler D) (kind : EventType) (sends : List (Send D))
      → is_protocol_timer kind ≡ true
      → IsAlive lib laws nil kind s
      → IsAlive lib laws nil kind (simulate lib nil s sends)
  unfolding simulate step
  simulate-IsAlive s kind sends timer alive =
      let (event, after, taken, next) =
        take_event-IsAlive s s.pq kind sends timer alive.0 alive.1 in
      rw taken next

  simulate_all-IsAlive :
      (s : Scheduler D) (kind : EventType) (turns : List (List (Send D)))
      → is_protocol_timer kind ≡ true
      → IsAlive lib laws nil kind s
      → IsAlive lib laws nil kind (simulate_all lib nil s turns)
  unfolding simulate_all
  simulate_all-IsAlive s kind [] timer alive = alive
  simulate_all-IsAlive s kind (sends ∷ turns) timer alive =
      simulate_all-IsAlive (simulate lib nil s sends) kind turns timer
        (simulate-IsAlive s kind sends timer alive)

  schedule_all-planned :
      (s : Scheduler D) (kind : EventType) (sends : List (Send D))
      → laws.IsHeap s.pq
      → any (λ send. code send.0 == code kind) sends ≡ true
      → IsAlive lib laws nil kind (schedule_all lib nil s sends)
  unfolding schedule_all
  schedule_all-planned s kind [] heap h = cc
  schedule_all-planned s kind ((event_type, offset, payload) ∷ rest) heap h =
      let next = schedule lib s event_type offset payload in
      elim (Bool-cases (code event_type == code kind)) [
        | inl hit ↦
            let same = code-injective event_type kind hit in
            schedule_all-IsAlive lib laws nil next kind rest
              (rw same (schedule-IsAlive_new lib laws nil s kind offset payload heap))
        | inr miss ↦
            let later : any (λ send. code send.0 == code kind) rest ≡ true = rw miss at h in
            schedule_all-planned next kind rest
              (is_pending-schedule lib laws nil s event_type kind offset payload heap).0 later
      ]

  -- The calls of ScheduleProtocolTimers.
  abbrev timer_sends : List (Send D)
  timer_sends =
      map (λ kind. (kind, interval kind, nil))
        (EventType.timer_ospf ∷ EventType.timer_rip ∷ EventType.timer_eigrp ∷ EventType.timer_bgp
          ∷ EventType.timer_cdp ∷ EventType.timer_stp ∷ EventType.timer_hsrp ∷ EventType.timer_vtp
          ∷ [])

  any-timer_sends :
      (kind : EventType)
      → is_protocol_timer kind ≡ true
      → any (λ send. code send.0 == code kind) timer_sends ≡ true
  any-timer_sends EventType.packet_tx h = cc
  any-timer_sends EventType.packet_rx h = cc
  any-timer_sends EventType.timer_ospf h = refl
  any-timer_sends EventType.timer_rip h = refl
  any-timer_sends EventType.timer_icmp h = cc
  any-timer_sends EventType.timer_eigrp h = refl
  any-timer_sends EventType.timer_bgp h = refl
  any-timer_sends EventType.timer_cdp h = refl
  any-timer_sends EventType.timer_stp h = refl
  any-timer_sends EventType.timer_hsrp h = refl
  any-timer_sends EventType.timer_vtp h = refl
  any-timer_sends EventType.timer_voip h = cc
  any-timer_sends EventType.link_toggle h = cc

  schedule_protocol_timers-IsAlive :
      (kind : EventType)
      → is_protocol_timer kind ≡ true
      → IsAlive lib laws nil kind (schedule_protocol_timers lib nil new_scheduler)
  unfolding schedule_protocol_timers schedule_extended_timers schedule_all new_scheduler
  schedule_protocol_timers-IsAlive kind timer =
      schedule_all-planned new_scheduler kind timer_sends laws.heap-nil (any-timer_sends kind timer)

  -- From the start of the program, after any turns of the simulation loop, whatever the cycles and
  -- the deliveries plan in them, each of the eight protocol timers is in the queue, and the next turn
  -- has an event to handle: no timer stops, and the simulation never runs dry.
  pub simulate_all-pending :
      (kind : EventType) (turns : List (List (Send D)))
      → is_protocol_timer kind ≡ true
      → let s = simulate_all lib nil (schedule_protocol_timers lib nil new_scheduler) turns in
        (is_pending kind s.pq ≡ true)
        × ((event : Event D) × (after : Scheduler D) × (step lib s ≡ (some event, after)))
  unfolding step
  simulate_all-pending kind turns timer =
      let start = schedule_protocol_timers lib nil new_scheduler in
      let s = simulate_all lib nil start turns in
      let alive =
        simulate_all-IsAlive start kind turns timer (schedule_protocol_timers-IsAlive kind timer) in
      let (event, after, taken, _) = take_event-IsAlive s s.pq kind [] timer alive.0 alive.1 in
      (alive.1, (event, after, taken))
