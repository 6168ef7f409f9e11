-- ===== src/Topology/Pending.antt =====
-- Which kinds of events are in the queue of the scheduler, and what keeps them there.
use mathlib.Core.List.{Permᴰ}
use netforge.Prelude.{
  ℕ, ◌≡◌, refl, sym, ap, ◌∙◌, Bool, true, ◌||◌, if◌then◌else◌, List, [], ◌∷◌, map, any, arith, ◌==◌,
  nat_eq, beq-eq_true,
}
use netforge.Prelude.Int64.{Int64}
use netforge.Scheduler.{Event, EventType, HeapLib, HeapLaws, Scheduler, bare, new_event, schedule}
use netforge.Topology.Timers.{
  Send, is_protocol_timer, is_simulated, schedule_extended_timers, schedule_protocol_timers,
  schedule_all, handle_extended_timer, handle_timer_event, handle_event, simulate, simulate_all,
}
use netforge.Topology.Timers as timers

-- The kinds of events, numbered.
abbrev pub code : EventType → ℕ
code EventType.packet_tx = 0
code EventType.packet_rx = 1
code EventType.timer_ospf = 2
code EventType.timer_rip = 3
code EventType.timer_icmp = 4
code EventType.timer_eigrp = 5
code EventType.timer_bgp = 6
code EventType.timer_cdp = 7
code EventType.timer_stp = 8
code EventType.timer_hsrp = 9
code EventType.timer_vtp = 10
code EventType.timer_voip = 11
code EventType.link_toggle = 12

abbrev decode : ℕ → EventType
decode n =
    if n == 0
    then EventType.packet_tx
    else if n == 1
    then EventType.packet_rx
    else if n == 2
    then EventType.timer_ospf
    else if n == 3
    then EventType.timer_rip
    else if n == 4
    then EventType.timer_icmp
    else if n == 5
    then EventType.timer_eigrp
    else if n == 6
    then EventType.timer_bgp
    else if n == 7
    then EventType.timer_cdp
    else if n == 8
    then EventType.timer_stp
    else if n == 9
    then EventType.timer_hsrp
    else if n == 10
    then EventType.timer_vtp
    else if n == 11
    then EventType.timer_voip
    else EventType.link_toggle

decode-code : (kind : EventType) → decode (code kind) ≡ kind
decode-code EventType.packet_tx = refl
decode-code EventType.packet_rx = refl
decode-code EventType.timer_ospf = refl
decode-code EventType.timer_rip = refl
decode-code EventType.timer_icmp = refl
decode-code EventType.timer_eigrp = refl
decode-code EventType.timer_bgp = refl
decode-code EventType.timer_cdp = refl
decode-code EventType.timer_stp = refl
decode-code EventType.timer_hsrp = refl
decode-code EventType.timer_vtp = refl
decode-code EventType.timer_voip = refl
decode-code EventType.link_toggle = refl

pub code-injective : (a b : EventType) → (code a == code b) ≡ true → a ≡ b
code-injective a b h =
    sym (decode-code a) ∙ ap decode (beq-eq_true (code a) (code b) h) ∙ decode-code b

abbrev pub interval : EventType → Int64
interval EventType.timer_ospf = timers.ospf_hello_interval
interval EventType.timer_rip = timers.rip_update_interval
interval EventType.timer_eigrp = timers.eigrp_update_interval
interval EventType.timer_bgp = timers.bgp_update_interval
interval EventType.timer_cdp = timers.cdp_interval
interval EventType.timer_stp = timers.stp_interval
interval EventType.timer_hsrp = timers.hsrp_hello_interval
interval EventType.timer_vtp = timers.vtp_advert_interval
interval _ = 0

pub any-Permᴰ : {A : Type 0} (p : A → Bool) {xs ys : List A} → Permᴰ xs ys → any p xs ≡ any p ys
any-Permᴰ p Permᴰ.nil = refl
any-Permᴰ p (Permᴰ.cons q r) = rw (q, any-Permᴰ p r) refl
any-Permᴰ p (Permᴰ.swap q r) = rw (q, r) ground arith
any-Permᴰ p (Permᴰ.trans r s) = any-Permᴰ p r ∙ any-Permᴰ p s

module _ {D : Type 0} where
  abbrev pub is_kind : EventType → Event D → Bool
  is_kind kind e = code e.type_of == code kind

  -- An event of the kind is in the queue.
  abbrev pub is_pending : EventType → List (Event D) → Bool
  is_pending kind pq = any (is_kind kind) pq

  pub any-bare :
      (kind : EventType) (pq : List (Event D)) → is_pending kind (map bare pq) ≡ is_pending kind pq
  any-bare kind [] = refl
  any-bare kind (e ∷ rest) = rw (any-bare kind rest) refl

module _ {D : Type 0} (lib : HeapLib D) (laws : HeapLaws lib) (nil : D) where
  pub is_pending-schedule :
      (s : Scheduler D) (event_type kind : EventType) (offset : Int64) (payload : D)
      → laws.IsHeap s.pq
      → laws.IsHeap (schedule lib s event_type offset payload).pq
        × (is_pending kind (schedule lib s event_type offset payload).pq
            ≡ ((code event_type == code kind) || is_pending kind s.pq))
  unfolding schedule
  is_pending-schedule s event_type kind offset payload heap =
      let e = new_event s event_type offset payload in
      (
        laws.heap-push s.pq e heap,
        sym (any-bare kind (lib.push s.pq e))
            ∙ any-Permᴰ (is_kind kind) (laws.perm-push s.pq e heap)
            ∙ ap (λ b. (code event_type == code kind) || b) (any-bare kind s.pq),
      )

  -- A scheduler with an event of the kind in its queue, which is a heap.
  abbrev pub IsAlive : EventType → Scheduler D → Type 0
  IsAlive kind s = laws.IsHeap s.pq × (is_pending kind s.pq ≡ true)

  pub schedule-IsAlive :
      (s : Scheduler D) (event_type kind : EventType) (offset : Int64) (payload : D)
      → IsAlive kind s
      → IsAlive kind (schedule lib s event_type offset payload)
  schedule-IsAlive s event_type kind offset payload h =
      let r = is_pending-schedule s event_type kind offset payload h.0 in
      (r.0, r.1 ∙ rw h.1 ground arith)

  -- What is scheduled is pending.
  pub schedule-IsAlive_new :
      (s : Scheduler D) (event_type : EventType) (offset : Int64) (payload : D)
      → laws.IsHeap s.pq
      → IsAlive event_type (schedule lib s event_type offset payload)
  schedule-IsAlive_new s event_type offset payload h =
      let r = is_pending-schedule s event_type event_type offset payload h in
      (r.0, r.1 ∙ ground arith)

  pub schedule_all-IsHeap :
      (s : Scheduler D) (sends : List (Send D))
      → laws.IsHeap s.pq
      → laws.IsHeap (schedule_all lib nil s sends).pq
  unfolding schedule_all
  schedule_all-IsHeap s [] h = h
  schedule_all-IsHeap s ((event_type, offset, payload) ∷ rest) h =
      schedule_all-IsHeap (schedule lib s event_type offset payload) rest
        (is_pending-schedule s event_type event_type offset payload h).0

  pub schedule_all-IsAlive :
      (s : Scheduler D) (kind : EventType) (sends : List (Send D))
      → IsAlive kind s
      → IsAlive kind (schedule_all lib nil s sends)
  unfolding schedule_all
  schedule_all-IsAlive s kind [] h = h
  schedule_all-IsAlive s kind ((event_type, offset, payload) ∷ rest) h =
      schedule_all-IsAlive (schedule lib s event_type offset payload) kind rest
        (schedule-IsAlive s event_type kind offset payload h)

  -- The eight timers are planned again by the same call.
  pub handle_timer_event_lem :
      (s : Scheduler D) (kind : EventType) (sends : List (Send D))
      → is_protocol_timer kind ≡ true
      → handle_timer_event lib nil s kind sends
        ≡ schedule lib (schedule_all lib nil s sends) kind (interval kind) nil
  unfolding handle_timer_event handle_extended_timer
  handle_timer_event_lem s EventType.timer_ospf sends h = refl
  handle_timer_event_lem s EventType.timer_rip sends h = refl
  handle_timer_event_lem s EventType.timer_eigrp sends h = refl
  handle_timer_event_lem s EventType.timer_bgp sends h = refl
  handle_timer_event_lem s EventType.timer_cdp sends h = refl
  handle_timer_event_lem s EventType.timer_stp sends h = refl
  handle_timer_event_lem s EventType.timer_hsrp sends h = refl
  handle_timer_event_lem s EventType.timer_vtp sends h = refl
  handle_timer_event_lem s EventType.packet_tx sends h = cc
  handle_timer_event_lem s EventType.packet_rx sends h = cc
  handle_timer_event_lem s EventType.timer_icmp sends h = cc
  handle_timer_event_lem s EventType.timer_voip sends h = cc
  handle_timer_event_lem s EventType.link_toggle sends h = cc
