-- ===== src/Scheduler.antt =====
-- The discrete-event scheduler (src-tauri/engine/scheduler.go): the queue's methods and the
-- operations of the scheduler. Go's container/heap, which calls the queue's methods, is the
-- parameter `HeapLib`; what an event carries is the parameter `D`. The lock has no counterpart: an
-- operation is one step.
pub mod Order
pub mod History
use mathlib.Core.List.{Permᴰ}
use netforge.Prelude.{
  get_elem?, set, ℕ, ◌+◌, ◌%◌, ◌^◌, Bool, true, false, ◌≡◌, Option, none, some, List, [], ◌∷◌, ◌++◌,
  map, All, length, arith, if◌then◌else◌,
}
use netforge.Prelude.Int64.{Int64, add64, lt64, minus_one}

pub data EventType : Type 0 where
  packet_tx packet_rx timer_ospf timer_rip timer_icmp timer_eigrp timer_bgp timer_cdp timer_stp :
      EventType
  timer_hsrp timer_vtp timer_voip link_toggle : EventType

pub record Event (D : Type 0) : Type 0 where
  pub id : ℕ
  pub timestamp : Int64
  pub type_of : EventType
  pub payload : D
  pub index : Int64

module _ {D : Type 0} where
  abbrev pub swapped :
      List (Event D) → ℕ → ℕ → Option (Event D) → Option (Event D) → Option (List (Event D))
  swapped pq i j (some a) (some b) =
      some (set (set pq i (record b { index = i })) j (record a { index = j }))
  swapped pq i j _ _ = none

  -- The methods that container/heap calls.
  unfoldable pub less : Event D → Event D → Bool
  less a b = lt64 a.timestamp b.timestamp

  -- Swap: the two events trade places and note their new ones; an index out of range panics.
  unfoldable pub swap : List (Event D) → ℕ → ℕ → Option (List (Event D))
  swap pq i j = swapped pq i j (get_elem? pq i) (get_elem? pq j)

  -- Push of the queue appends, and notes the place.
  unfoldable pub push_back : List (Event D) → Event D → List (Event D)
  push_back pq item = pq ++ record item { index = length pq } ∷ []

  -- Pop of the queue takes the last event off, and marks it as out.
  unfoldable pub pop_back : List (Event D) → Option (Event D × List (Event D))
  pop_back [] = none
  pop_back (e ∷ []) = some (record e { index = minus_one }, [])
  pop_back (e ∷ f ∷ rest) = elim (pop_back (f ∷ rest)) [
    | none ↦ none
    | some (last, front) ↦ some (last, e ∷ front)
  ]

  -- An event without its place in the queue.
  abbrev pub bare : Event D → Event D
  bare e = record e { index = 0 }

-- heap.Push and heap.Pop over the queue's methods. Pop is called on a queue that is not empty.
pub record HeapLib (D : Type 0) : Type 0 where
  pub push : List (Event D) → Event D → List (Event D)
  -- the queue given as its first event and the others
  pub pop : Event D → List (Event D) → Event D × List (Event D)

-- What the documentation of container/heap says of them: on a queue that is a heap, which the
-- empty queue is, Push adds the event and Pop removes a least one by Less, and both leave a heap.
pub record HeapLaws {D : Type 0} (lib : HeapLib D) : Type 1 where
  pub IsHeap : List (Event D) → Type 0
  pub heap-nil : IsHeap []
  pub heap-push : (h : List (Event D)) (e : Event D) → IsHeap h → IsHeap (lib.push h e)
  pub perm-push :
      (h : List (Event D)) (e : Event D)
      → IsHeap h
      → Permᴰ (map bare (lib.push h e)) (bare e ∷ map bare h)
  pub heap-pop : (e : Event D) (h : List (Event D)) → IsHeap (e ∷ h) → IsHeap (lib.pop e h).1
  pub perm-pop :
      (e : Event D) (h : List (Event D))
      → IsHeap (e ∷ h)
      → Permᴰ (bare (lib.pop e h).0 ∷ map bare (lib.pop e h).1) (map bare (e ∷ h))
  pub least-pop :
      (e : Event D) (h : List (Event D))
      → IsHeap (e ∷ h)
      → All (λ f. less f (lib.pop e h).0 ≡ false) (lib.pop e h).1

pub record Scheduler (D : Type 0) : Type 0 where
  pub pq : List (Event D)
  pub sim_clock : Int64
  pub event_count : ℕ
  pub is_running : Bool

abbrev pub u64 : ℕ → ℕ
u64 n = n % 2 ^ 64

module _ {D : Type 0} where
  unfoldable pub new_scheduler : Scheduler D
  new_scheduler = record { pq = []; sim_clock = 0; event_count = 0; is_running = false }

  abbrev pub new_event : Scheduler D → EventType → Int64 → D → Event D
  new_event s event_type offset payload = record {
    id = u64 (s.event_count + 1);
    timestamp = add64 s.sim_clock offset;
    type_of = event_type;
    payload = payload;
    index = 0;
  }

  module _ (lib : HeapLib D) where
    unfoldable pub schedule : Scheduler D → EventType → Int64 → D → Scheduler D
    schedule s event_type offset payload = record s {
      event_count = u64 (s.event_count + 1);
      pq = lib.push s.pq (new_event s event_type offset payload);
    }

    -- The clock goes straight to the time of the event.
    abbrev pub take_event : Scheduler D → List (Event D) → Option (Event D) × Scheduler D
    take_event s [] = (none, s)
    take_event s (e ∷ h) =
        let (event, pq) = lib.pop e h in
        (some event, record s { pq = pq; sim_clock = event.timestamp })

    unfoldable pub step : Scheduler D → Option (Event D) × Scheduler D
    step s = take_event s s.pq
